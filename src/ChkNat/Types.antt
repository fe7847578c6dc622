-- ===== src/ChkNat/Types.antt =====
-- What the types of NAT that `analyze` of udt/udp_chknat.cpp tells apart mean.
use udt_boost.Base.{
  ℕ, ◌≡◌, ◌≢◌, ◌↔◌, inl, inr, refl, sym, ◌∙◌, ap, subst, last?, Option, some, Bool, true, false,
  not, ◌&&◌, ◌||◌, ◌==◌, List, [], ◌∷◌, ◌++◌, arith, get_or, Bool-cases,
}
use udt_boost.Endpoint.{
  Endpoint, no_endpoint, same, same_iff, is_local, local_loop, get_local_endpoints_v4,
}
use udt_boost.ChkNat.{
  NatT, nt_none, nt_fw_block, nt_wan, nt_symmetric, nt_full_cone, nt_port_restrict_cone,
  nt_restrict_cone, ChkNat, Effect, post, nat_type_of, notify, cancel, analyze,
}

-- The endpoint is one of the host's endpoints of IPv4.
unfoldable pub host_has : Endpoint → List (Endpoint × Bool) → Bool
host_has ep [] = false
host_has ep ((e, v4) ∷ found) = v4 && same ep e || host_has ep found

is_local-append :
    (ep e : Endpoint) (eps : List Endpoint)
    → is_local ep (eps ++ e ∷ []) ≡ (is_local ep eps || same ep e)
is_local-append ep e [] = ground arith
is_local-append ep e (x ∷ eps) = ground (arith, is_local-append ep e eps)

is_local-same :
    (ep e : Endpoint) (eps : List Endpoint)
    → is_local e eps ≡ true
    → same ep e ≡ true
    → is_local ep eps ≡ true
is_local-same ep e eps h s = rw (same_iff ep e s) h

-- Leaving out doubles loses no endpoint.
is_local-local_loop :
    (ep : Endpoint) (found : List (Endpoint × Bool)) (eps : List Endpoint)
    → is_local ep (local_loop found eps) ≡ (is_local ep eps || host_has ep found)
unfolding local_loop host_has
is_local-local_loop ep [] eps = ground arith
is_local-local_loop ep ((e, v4) ∷ found) eps = elim (Bool-cases (v4 && not (is_local e eps))) [
  | inl t ↦
      rw t
        (is_local-local_loop ep found (eps ++ e ∷ []) ∙ ground (arith, t, is_local-append ep e eps))
  | inr t ↦ rw t (is_local-local_loop ep found eps ∙ ground (arith, t, is_local-same ep e eps))
]

-- What each type means, by the endpoints in the answers to the four questions (the default endpoint
-- where there is no answer), and the endpoints of the host.
module _ (found : List (Endpoint × Bool)) (eps : List Endpoint) where
  abbrev ep : ℕ → Endpoint
  ep i = get_or eps i no_endpoint

  -- The first question was answered, from outside: the host does not have the endpoint itself.
  abbrev Outside : Type 0
  Outside = (ep 0 ≢ no_endpoint) × (host_has (ep 0) found ≡ false)

  -- Both servers see the same port.
  abbrev SamePort : Type 0
  SamePort = (ep 0).port ≡ (ep 1).port

  abbrev pub Means : NatT → Type 0
  Means nt_none = ⊥
  Means nt_fw_block = ep 0 ≡ no_endpoint
  Means nt_wan = (ep 0 ≢ no_endpoint) × (host_has (ep 0) found ≡ true)
  Means nt_symmetric = Outside × ((ep 0).port ≢ (ep 1).port)
  Means nt_full_cone = Outside × SamePort × (ep 2 ≢ no_endpoint) × (ep 3 ≢ no_endpoint)
  Means nt_port_restrict_cone = Outside × SamePort × (ep 2 ≡ no_endpoint) × (ep 3 ≡ no_endpoint)
  Means nt_restrict_cone = Outside × SamePort × ((ep 2 ≡ no_endpoint) ↔ (ep 3 ≢ no_endpoint))

analyze_type :
    (found : List (Endpoint × Bool)) (c : ChkNat)
    → (analyze found c).nat_info.nat_type
      ≡ nat_type_of (get_local_endpoints_v4 found) c.nat_info.eps
unfolding analyze notify cancel
analyze_type found c = ground arith

same_no : (a : Endpoint) → same a no_endpoint ≡ false → a ≢ no_endpoint
same_no a h e = absurd (ground (arith, h, e))

no_same : (a : Endpoint) → a ≢ no_endpoint → same a no_endpoint ≡ false
no_same a h = elim (Bool-cases (same a no_endpoint)) [
  | inl e ↦ absurd (h (same_iff a no_endpoint e))
  | inr e ↦ e
]

same_port : (a b : ℕ) → a ≡ b → (a == b) ≡ true
same_port a b e = ground (arith, e)

not_same_port : (a b : ℕ) → a ≢ b → (a == b) ≡ false
not_same_port a b h = elim (Bool-cases (a == b)) [
  | inl e ↦ absurd (h (ground (arith, e)))
  | inr e ↦ e
]

module _ (found : List (Endpoint × Bool)) (eps : List Endpoint) where
  locals : List Endpoint
  locals = get_local_endpoints_v4 found

  local_is : is_local (get_or eps 0 no_endpoint) locals ≡ host_has (get_or eps 0 no_endpoint) found
  unfolding locals get_local_endpoints_v4
  local_is = is_local-local_loop (get_or eps 0 no_endpoint) found []

  type_Means : Means found eps (nat_type_of locals eps)
  unfolding nat_type_of
  type_Means =
      let ep0 = get_or eps 0 no_endpoint in
      let ep1 = get_or eps 1 no_endpoint in
      let ep2 = get_or eps 2 no_endpoint in
      let ep3 = get_or eps 3 no_endpoint in
      elim (Bool-cases (same ep0 no_endpoint)) [
        | inl a ↦ rw a (same_iff ep0 no_endpoint a)
        | inr a ↦ elim (Bool-cases (is_local ep0 locals)) [
          | inl b ↦ rw (a, b) (same_no ep0 a, sym local_is ∙ b)
          | inr b ↦
              let outside : Outside found eps = (same_no ep0 a, sym local_is ∙ b) in
              elim (Bool-cases (ep0.port == ep1.port)) [
                | inr p ↦ rw (a, b, p) (outside, λ e. absurd (ground (arith, p, e)))
                | inl p ↦
                    let port : ep0.port ≡ ep1.port = ground (arith, p) in
                    elim (Bool-cases (same ep2 no_endpoint)) [
                      | inl x ↦ elim (Bool-cases (same ep3 no_endpoint)) [
                        | inl y ↦
                            rw (a, b, p, x, y)
                              (
                                outside,
                                port,
                                same_iff ep2 no_endpoint x,
                                same_iff ep3 no_endpoint y,
                              )
                        | inr y ↦
                            rw (a, b, p, x, y)
                              (outside, port, (λ _. same_no ep3 y, λ _. same_iff ep2 no_endpoint x))
                      ]
                      | inr x ↦ elim (Bool-cases (same ep3 no_endpoint)) [
                        | inl y ↦
                            rw (a, b, p, x, y)
                              (
                                outside,
                                port,
                                (
                                  λ e. absurd (same_no ep2 x e),
                                  λ h. absurd (h (same_iff ep3 no_endpoint y)),
                                ),
                              )
                        | inr y ↦ rw (a, b, p, x, y) (outside, port, same_no ep2 x, same_no ep3 y)
                      ]
                    ]
              ]
        ]
      ]

  yes_same : (a : Endpoint) → a ≡ no_endpoint → same a no_endpoint ≡ true
  yes_same a e = rw e refl

  outside_tests :
      Outside found eps
      → (same (get_or eps 0 no_endpoint) no_endpoint ≡ false)
        × (is_local (get_or eps 0 no_endpoint) locals ≡ false)
  outside_tests (a, b) = (no_same (get_or eps 0 no_endpoint) a, local_is ∙ b)

  Means-type : (t : NatT) → Means found eps t → nat_type_of locals eps ≡ t
  unfolding nat_type_of
  Means-type nt_none h = absurd h
  Means-type nt_fw_block h = rw (yes_same (get_or eps 0 no_endpoint) h) refl
  Means-type nt_wan (a, b) = rw (no_same (get_or eps 0 no_endpoint) a, local_is ∙ b) refl
  Means-type nt_symmetric (o, p) =
      let (a, b) = outside_tests o in
      let ports = not_same_port (get_or eps 0 no_endpoint).port (get_or eps 1 no_endpoint).port p in
      rw (a, b, ports) refl
  Means-type nt_full_cone (o, p, x, y) =
      let (a, b) = outside_tests o in
      let ports = same_port (get_or eps 0 no_endpoint).port (get_or eps 1 no_endpoint).port p in
      rw (a, b, ports, no_same (get_or eps 2 no_endpoint) x, no_same (get_or eps 3 no_endpoint) y)
        refl
  Means-type nt_port_restrict_cone (o, p, x, y) =
      let (a, b) = outside_tests o in
      let ports = same_port (get_or eps 0 no_endpoint).port (get_or eps 1 no_endpoint).port p in
      rw (a, b, ports, yes_same (get_or eps 2 no_endpoint) x, yes_same (get_or eps 3 no_endpoint) y)
        refl
  Means-type nt_restrict_cone (o, p, either) =
      let (a, b) = outside_tests o in
      let ports = same_port (get_or eps 0 no_endpoint).port (get_or eps 1 no_endpoint).port p in
      let ep2 = get_or eps 2 no_endpoint in
      let ep3 = get_or eps 3 no_endpoint in
      elim (Bool-cases (same ep2 no_endpoint)) [
        | inl x ↦
            let y = no_same ep3 (either.0 (same_iff ep2 no_endpoint x)) in
            rw (a, b, ports, x, y) refl
        | inr x ↦ elim (Bool-cases (same ep3 no_endpoint)) [
          | inl y ↦ rw (a, b, ports, x, y) refl
          | inr y ↦ absurd (same_no ep2 x (either.1 (same_no ep3 y)))
        ]
      ]

-- What `analyze` posts last, to the client's handler: the type, with the error and the endpoints that
-- the client has.
abbrev pub Reports : ChkNat → NatT → List Effect → Type 0
Reports c t es = last? es ≡ some (post c.handler c.last_error (record c.nat_info { nat_type = t }))

last-snoc : (es : List Effect) (e : Effect) → last? (es ++ e ∷ []) ≡ some e
last-snoc [] e = refl
last-snoc (x ∷ []) e = refl
last-snoc (x ∷ (y ∷ es)) e = last-snoc (y ∷ es) e

reported : Option Effect → NatT
reported (some (post h e info)) = info.nat_type
reported _ = nt_none

cancel_keeps :
    (c : ChkNat)
    → ((cancel c).handler ≡ c.handler)
      × ((cancel c).last_error ≡ c.last_error)
      × ((cancel c).nat_info ≡ c.nat_info)
unfolding cancel
cancel_keeps c = (ground arith, ground arith, ground arith)

notify-posts :
    (c : ChkNat) → last? (notify c).effects ≡ some (post c.handler c.last_error c.nat_info)
unfolding notify
notify-posts c =
    let c1 = cancel c in
    let (h, e, n) = cancel_keeps c in
    last-snoc c1.effects (post c1.handler c1.last_error c1.nat_info)
    ∙ (λ i. some (post (h i) (e i) (n i)))

analyze-Reports :
    (found : List (Endpoint × Bool)) (c : ChkNat)
    → Reports c
        (nat_type_of (get_local_endpoints_v4 found) c.nat_info.eps)
        (analyze found c).effects
unfolding analyze
analyze-Reports found c = notify-posts _

-- The check reports each type of NAT exactly by what the code takes it to mean: whatever was answered,
-- `analyze` notes a type, and posts it to the handler with the endpoints and the error, if and only if
-- the following holds. No answer to the first question means a firewall; an endpoint that the host has
-- itself, no NAT; different ports at the two servers, whatever the addresses, a symmetric NAT; else
-- the NAT is a full cone if both of the other questions were answered, restricted by ports if neither
-- was, and restricted if one was. The host's own endpoints are those of IPv4 to which its name
-- resolves.
pub analyze-Means :
    (found : List (Endpoint × Bool)) (c : ChkNat) (t : NatT)
    → (Means found c.nat_info.eps t ↔ ((analyze found c).nat_info.nat_type ≡ t))
      × (Means found c.nat_info.eps t ↔ Reports c t (analyze found c).effects)
unfolding locals get_local_endpoints_v4 reported
analyze-Means found c t =
    let told = analyze-Reports found c in
    (
      (
        λ m. analyze_type found c ∙ Means-type found c.nat_info.eps t m,
        λ e.
            subst (Means found c.nat_info.eps) (sym (analyze_type found c) ∙ e)
              (type_Means found c.nat_info.eps),
      ),
      (
        λ m.
            subst (λ x. Reports c x (analyze found c).effects) (Means-type found c.nat_info.eps t m)
              told,
        λ e.
            subst (Means found c.nat_info.eps) (ap reported (sym told ∙ e))
              (type_Means found c.nat_info.eps),
      ),
    )
