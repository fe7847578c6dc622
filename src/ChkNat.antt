-- ===== src/ChkNat.antt =====
-- The NAT check, udt/udp_chknat.h and udt/udp_chknat.cpp: four questions to two servers, and what the
-- answers say of the NAT in between. What asio is asked to do is an effect, the latest last. What the
-- host's name resolves to is the argument `found`; what asio makes of the text of an address,
-- `from_string`.
pub mod Types
pub mod Bounds
use udt_boost.Base.{
  ℕ, zero, suc, ◌+◌, ◌-◌, Bool, true, false, not, ◌&&◌, ◌||◌, if◌then◌else◌, ◌==◌, ltb, leb, List,
  [], ◌∷◌, ◌++◌, Option, none, some, length, is_empty, get_or, set,
}
use udt_boost.Asio.{ErrorCode, is_aborted, is_error}
use udt_boost.Tracker
use udt_boost.Tracker.{Tracker, WeakRefer}
use udt_boost.Text.{c_str, strchr, atoi}
use udt_boost.Endpoint.{
  Endpoint, no_endpoint, same, is_local, parse_endpoint, get_local_endpoints_v4,
}

-- `nat_t`.
pub data NatT : Type 0 where
  nt_none nt_fw_block nt_wan nt_symmetric nt_full_cone nt_port_restrict_cone nt_restrict_cone : NatT

abbrev pub dft_send_count : ℕ
dft_send_count = 5

abbrev pub dft_rcv_buf_size : ℕ
dft_rcv_buf_size = 2048

-- `nat_info`: the type, and the endpoints in the answers to the four questions.
pub record NatInfo : Type 0 where
  pub nat_type : NatT
  pub eps : List Endpoint

pub data Effect : Type 0 where
  send_to : Endpoint → List ℕ → Effect
  receive_from : WeakRefer → Effect
  wait : WeakRefer → Effect
  resolve : ℕ → WeakRefer → Effect
  cancel_timer cancel_socket cancel_resolver : Effect
  post : ℕ → Option ErrorCode → NatInfo → Effect

-- `udp_chknat`. The two servers are shared by all checks. `fault` is set where the code writes outside
-- an array.
pub record ChkNat : Type 0 where
  pub tracker : Tracker
  pub handler : ℕ
  pub socket : Bool
  pub server_0 : Endpoint
  pub server_1 : Endpoint
  pub nat_info : NatInfo
  pub resp_bitmap : List Bool
  pub last_error : Option ErrorCode
  pub fault : Bool
  pub effects : List Effect

abbrev pub emit : Effect → ChkNat → ChkNat
emit e c = record c { effects = c.effects ++ e ∷ [] }

abbrev pub no_answers : List Bool
no_answers = false ∷ false ∷ false ∷ false ∷ []

unfoldable pub create : Bool → ChkNat → ChkNat
unfolding Tracker.is_null Tracker.set
create sk c = record c {
  socket = sk;
  tracker = if Tracker.is_null c.tracker then Tracker.set c.tracker else c.tracker;
  resp_bitmap = no_answers;
}

unfoldable pub cancel : ChkNat → ChkNat
unfolding Tracker.reset
cancel c =
    let c1 =
      emit cancel_resolver (emit cancel_timer (record c { tracker = Tracker.reset c.tracker })) in
    if c1.socket then emit cancel_socket c1 else c1

unfoldable pub close : ChkNat → ChkNat
close c = cancel c

unfoldable pub notify : ChkNat → ChkNat
notify c = let c1 = cancel c in emit (post c1.handler c1.last_error c1.nat_info) c1

unfoldable pub async_receive : ChkNat → ChkNat
unfolding Tracker.get
async_receive c =
    emit (receive_from (Tracker.get c.tracker)) (emit (wait (Tracker.get c.tracker)) c)

-- The inner loop of `send_request`.
unfoldable pub send_packets : ℕ → Endpoint → List ℕ → ChkNat → ChkNat
send_packets zero ep buf c = c
send_packets (suc n) ep buf c = send_packets n ep buf (emit (send_to ep buf) c)

unfoldable pub send_request : ChkNat → ChkNat
unfolding async_receive send_packets
send_request c =
    let c0 = send_packets dft_send_count c.server_0 (b'A' ∷ b'=' ∷ b'0' ∷ []) (async_receive c) in
    let c1 = send_packets dft_send_count c.server_1 (b'A' ∷ b'=' ∷ b'1' ∷ []) c0 in
    let c2 = send_packets dft_send_count c.server_1 (b'B' ∷ b'=' ∷ b'2' ∷ []) c1 in
    send_packets dft_send_count c.server_1 (b'C' ∷ b'=' ∷ b'3' ∷ []) c2

-- The names of the servers are the code's: `resolve` has the number of the server.
unfoldable pub async_resolve_server : ℕ → ChkNat → ChkNat
unfolding Tracker.get
async_resolve_server server_idx c = emit (resolve server_idx (Tracker.get c.tracker)) c

unfoldable pub async_chknat : ℕ → ChkNat → ChkNat
async_chknat handler c =
    let c0 = record c { handler = handler } in
    let known_0 = not (same c.server_0 no_endpoint) in
    let known_1 = not (same c.server_1 no_endpoint) in
    let c1 = if known_0 then c0 else async_resolve_server 0 c0 in
    let c2 = if known_1 then c1 else async_resolve_server 1 c1 in
    if known_0 && known_1 then send_request c2 else c2

-- `server_eps_[server_idx] = *i`.
unfoldable pub set_server : ℕ → Endpoint → ChkNat → ChkNat
set_server server_idx ep c =
    if server_idx == 0 then record c { server_0 = ep } else record c { server_1 = ep }

unfoldable pub handle_async_resolve_server :
    Option ErrorCode → Option Endpoint → ℕ → WeakRefer → ChkNat → ChkNat
handle_async_resolve_server e found server_idx wref c =
    let failed = notify (record c { last_error = e }) in
    if Tracker.expired wref c.tracker then c else if is_error e then failed else elim found [
      | none ↦ failed
      | some ep ↦
          let c1 = set_server server_idx ep c in
          if not (same c1.server_0 no_endpoint) && not (same c1.server_1 no_endpoint)
          then send_request c1
          else c1
    ]

-- The tests of `analyze`, in their order, with the local endpoints.
unfoldable pub nat_type_of : List Endpoint → List Endpoint → NatT
nat_type_of local_eps eps =
    let ep0 = get_or eps 0 no_endpoint in
    let ep1 = get_or eps 1 no_endpoint in
    let no_2 = same (get_or eps 2 no_endpoint) no_endpoint in
    let no_3 = same (get_or eps 3 no_endpoint) no_endpoint in
    if same ep0 no_endpoint
    then nt_fw_block
    else if is_local ep0 local_eps
    then nt_wan
    else if not (ep0.port == ep1.port)
    then nt_symmetric
    else if not no_2 && not no_3
    then nt_full_cone
    else if no_2 && no_3
    then nt_port_restrict_cone
    else nt_restrict_cone

unfoldable pub analyze : List (Endpoint × Bool) → ChkNat → ChkNat
unfolding get_local_endpoints_v4
analyze found c = notify (record c {
  nat_info = record c.nat_info {
    nat_type = nat_type_of (get_local_endpoints_v4 found) c.nat_info.eps;
  };
})

unfoldable pub finish : ChkNat → Bool
finish c =
    get_or c.resp_bitmap 0 false
    && get_or c.resp_bitmap 1 false
    && get_or c.resp_bitmap 2 false
    && get_or c.resp_bitmap 3 false

-- The answer "A=1 | 127.0.0.1: 80": the number, and the endpoint, if both are there.
unfoldable pub read_answer : (List ℕ → Option ℕ) → List ℕ → Option (ℕ × Endpoint)
read_answer from_string text = elim (strchr b'=' text) [
  | none ↦ none
  | some number ↦ elim (strchr b'|' text) [
    | none ↦ none
    | some rest ↦ elim (parse_endpoint from_string rest) [
      | none ↦ none
      | some ep ↦ some (atoi number, ep)
    ]
  ]
]

-- The test of the number is `idx >=0 || idx < 4`, which every number passes: with one that is not
-- below 4 (or is negative, as a bit pattern) the writes go outside `eps` and `resp_bitmap_`.
unfoldable pub take_answer : ℕ → Endpoint → ChkNat → ChkNat
take_answer idx ep c = record c {
  nat_info = record c.nat_info { eps = set c.nat_info.eps idx ep };
  resp_bitmap = set c.resp_bitmap idx true;
  fault = c.fault || leb 4 idx;
}

unfoldable pub handle_datagram :
    (List ℕ → Option ℕ) → List (Endpoint × Bool) → List ℕ → Endpoint → ChkNat → ChkNat
handle_datagram from_string found bytes remote_ep c =
    if same remote_ep c.server_0 || same remote_ep c.server_1
    then (let c1 = record c { fault = c.fault || leb dft_rcv_buf_size (length bytes) } in
        elim (read_answer from_string (c_str bytes)) [
          | none ↦ async_receive c1
          | some (idx, ep) ↦
              let c2 = take_answer idx ep c1 in
              if finish c2 then analyze found c2 else async_receive c2
        ])
    else async_receive c

unfoldable pub handle_async_receive :
    (List ℕ → Option ℕ)
    → List (Endpoint × Bool)
    → Option ErrorCode
    → List ℕ
    → Endpoint
    → WeakRefer
    → ChkNat
    → ChkNat
handle_async_receive from_string found e bytes remote_ep wref c =
    let c1 = emit cancel_timer c in
    if Tracker.expired wref c.tracker || is_aborted e
    then c
    else if not (is_error e) && not (is_empty bytes)
    then handle_datagram from_string found bytes remote_ep c1
    else notify (record c1 { last_error = e })

unfoldable pub handle_async_wait :
    List (Endpoint × Bool) → Option ErrorCode → WeakRefer → ChkNat → ChkNat
handle_async_wait found e wref c =
    if Tracker.expired wref c.tracker || is_aborted e then c else analyze found c
