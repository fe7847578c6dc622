-- ===== src/Endpoint.antt =====
-- Endpoints of IPv4 as the public address client and the NAT check keep them, with the parser that
-- both have (udt/udp_pub_addr.cpp), and the list of the local endpoints (udt/utils.h). What asio makes
-- of the text of an address is the argument `from_string`.
use udt_boost.Base.{
  ℕ, ◌≡◌, Bool, true, false, not, ◌&&◌, if◌then◌else◌, ◌==◌, List, [], ◌∷◌, ◌++◌, Option, none,
  some, u16, arith,
}
use udt_boost.Text.{strchr, skip_spaces, rfind, atoi}

-- `udp_endpoint_t`, and its default.
pub record Endpoint : Type 0 where
  pub address : ℕ
  pub port : ℕ

abbrev pub no_endpoint : Endpoint
no_endpoint = record { address = 0; port = 0 }

abbrev pub same : Endpoint → Endpoint → Bool
same a b = a.address == b.address && a.port == b.port

pub same_iff : (a b : Endpoint) → same a b ≡ true → a ≡ b
same_iff a b h = ground (arith, h)

pub same_refl : (a : Endpoint) → same a a ≡ true
same_refl a = ground arith

-- An address that is no address is the default one.
abbrev pub or_any : Option ℕ → ℕ
or_any none = 0
or_any (some a) = a

-- The text between the first colon and the last; with one colon, all behind it.
abbrev pub up_to_last : List ℕ → List ℕ
up_to_last s = elim (rfind b':' s) [ none ↦ s | some (before, after) ↦ before ]

-- `parse_endpoint`: `none` stands for `false`.
unfoldable pub parse_endpoint : (List ℕ → Option ℕ) → List ℕ → Option Endpoint
parse_endpoint from_string str = elim (strchr b':' str) [
  | none ↦ none
  | some rest ↦ elim (rfind b':' str) [
    | none ↦ none
    | some (before, after) ↦ some (record {
      address = or_any (from_string (up_to_last (skip_spaces rest)));
      port = u16 (atoi after);
    })
  ]
]

abbrev pub is_local : Endpoint → List Endpoint → Bool
is_local ep [] = false
is_local ep (e ∷ eps) = if same ep e then true else is_local ep eps

-- `get_local_endpoints_v4`: the endpoints of the host, each with whether it is of IPv4, without
-- doubles, in their order.
unfoldable pub local_loop : List (Endpoint × Bool) → List Endpoint → List Endpoint
local_loop [] eps = eps
local_loop ((ep, v4) ∷ found) eps =
    local_loop found (if v4 && not (is_local ep eps) then eps ++ ep ∷ [] else eps)

unfoldable pub get_local_endpoints_v4 : List (Endpoint × Bool) → List Endpoint
unfolding local_loop
get_local_endpoints_v4 found = local_loop found []
