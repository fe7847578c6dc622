-- ===== src/PubAddr.antt =====
-- The public address client, udt/udp_pub_addr.h and udt/udp_pub_addr.cpp: it asks a server from which
-- endpoint its datagrams come. What asio is asked to do is an effect, the latest last. What the socket
-- says to the sends is the argument `net`; what asio makes of the text of an address, `from_string`.
pub mod Answers
pub mod Retry
use udt_boost.Base.{
  ℕ, zero, suc, ◌+◌, ◌-◌, Bool, true, false, not, ◌&&◌, ◌||◌, if◌then◌else◌, ◌==◌, ltb, leb, List,
  [], ◌∷◌, ◌++◌, Option, none, some, length, is_empty, u32_mod, add32,
}
use udt_boost.Asio.{ErrorCode, timed_out, is_aborted, is_error}
use udt_boost.Tracker
use udt_boost.Tracker.{Tracker, WeakRefer}
use udt_boost.Text.{c_str, strchr, atoi, digits}
use udt_boost.Endpoint.{Endpoint, no_endpoint, same, or_any, parse_endpoint}

abbrev pub dft_send_count : ℕ
dft_send_count = 5

abbrev pub dft_rcv_buf_size : ℕ
dft_rcv_buf_size = 2048

pub data Effect : Type 0 where
  send_to : Endpoint → List ℕ → Effect
  receive_from : WeakRefer → Effect
  wait : WeakRefer → Effect
  resolve : List ℕ → ℕ → WeakRefer → Effect
  cancel_timer cancel_socket cancel_resolver : Effect
  post : ℕ → Option ErrorCode → Endpoint → Effect

-- `udp_pub_addr`. `s_trid` is shared by all clients. `fault` is set where the code writes behind
-- `rcv_buf_`.
pub record PubAddr : Type 0 where
  pub server_ep : Endpoint
  pub socket : Bool
  pub handler : ℕ
  pub pub_addr_ep : Endpoint
  pub resolver : Bool
  pub tracker : Tracker
  pub s_trid : ℕ
  pub trid : ℕ
  pub server_hostname : List ℕ
  pub server_port : ℕ
  pub last_error : Option ErrorCode
  pub fault : Bool
  pub effects : List Effect

abbrev pub emit : Effect → PubAddr → PubAddr
emit e c = record c { effects = c.effects ++ e ∷ [] }

abbrev pub ensure_tracker : Tracker → Tracker
unfolding Tracker.is_null Tracker.set
ensure_tracker t = if Tracker.is_null t then Tracker.set t else t

unfoldable pub create : Bool → List ℕ → ℕ → PubAddr → PubAddr
unfolding ensure_tracker
create sk server_hostname server_port c = record c {
  socket = sk;
  server_hostname = server_hostname;
  server_port = server_port;
  tracker = ensure_tracker c.tracker;
}

unfoldable pub cancel : PubAddr → PubAddr
unfolding Tracker.reset
cancel c =
    let c1 = emit cancel_timer (record c { tracker = Tracker.reset c.tracker }) in
    let c2 = if c1.socket then emit cancel_socket c1 else c1 in
    if c2.resolver then record (emit cancel_resolver c2) { resolver = false } else c2

unfoldable pub notify : PubAddr → PubAddr
notify c = emit (post c.handler c.last_error c.pub_addr_ep) c

unfoldable pub async_receive : PubAddr → PubAddr
unfolding Tracker.get
async_receive c =
    emit (receive_from (Tracker.get c.tracker)) (emit (wait (Tracker.get c.tracker)) c)

-- The text of a request: "A=" and the number of the transaction.
abbrev pub request : ℕ → List ℕ
request trid = b'A' ∷ b'=' ∷ digits trid

-- The loop of `send_request`, from send `i` on.
unfoldable pub send_loop : ℕ → ℕ → (ℕ → Option ErrorCode) → List ℕ → PubAddr → PubAddr
send_loop zero i net buf c = c
send_loop (suc n) i net buf c =
    let c1 = emit (send_to c.server_ep buf) c in
    let rest = send_loop n (i + 1) net buf c1 in
    elim (net i) [ none ↦ rest | some e ↦ notify (record c1 { last_error = some e }) ]

unfoldable pub send_request : (ℕ → Option ErrorCode) → PubAddr → PubAddr
unfolding async_receive
send_request net c =
    let trid = add32 c.s_trid 1 in
    send_loop dft_send_count 0 net (request trid)
      (async_receive (record c { s_trid = trid; trid = trid }))

unfoldable pub async_resolve : (List ℕ → Option ℕ) → (ℕ → Option ErrorCode) → PubAddr → PubAddr
unfolding Tracker.get
async_resolve from_string net c =
    let found = from_string c.server_hostname in
    let c1 = record c { server_ep = record { address = or_any found; port = c.server_port } } in
    elim found [
      | some a ↦ send_request net c1
      | none ↦
          emit (resolve c.server_hostname c.server_port (Tracker.get c.tracker))
            (record c1 { resolver = true })
    ]

unfoldable pub async_pub_addr : (List ℕ → Option ℕ) → (ℕ → Option ErrorCode) → ℕ → PubAddr → PubAddr
unfolding ensure_tracker
async_pub_addr from_string net handler c =
    let c1 = record c {
      handler = handler;
      tracker = ensure_tracker c.tracker;
      pub_addr_ep = no_endpoint;
    } in
    if same c1.server_ep no_endpoint then async_resolve from_string net c1 else send_request net c1

-- `handle_async_resolve`: the endpoint that was found first, if there is one.
unfoldable pub handle_async_resolve :
    (ℕ → Option ErrorCode) → Option ErrorCode → Option Endpoint → WeakRefer → PubAddr → PubAddr
handle_async_resolve net e found wref c =
    let failed = notify (record c { last_error = e }) in
    if Tracker.expired wref c.tracker || is_aborted e
    then c
    else if is_error e
    then failed
    else elim found [ none ↦ failed | some ep ↦ send_request net (record c { server_ep = ep }) ]

-- The endpoint that a datagram tells, if it answers the request `trid`: "A=1|RA: 1.2.3.4:5".
unfoldable pub read_answer : (List ℕ → Option ℕ) → ℕ → List ℕ → Option Endpoint
read_answer from_string trid text = elim (strchr b'=' text) [
  | none ↦ none
  | some number ↦
      if atoi number == trid
      then elim (strchr b'|' text) [ none ↦ none | some rest ↦ parse_endpoint from_string rest ]
      else none
]

unfoldable pub handle_datagram : (List ℕ → Option ℕ) → List ℕ → Endpoint → PubAddr → PubAddr
handle_datagram from_string bytes remote_ep c =
    if same remote_ep c.server_ep
    then (let c1 = record c { fault = c.fault || leb dft_rcv_buf_size (length bytes) } in
        elim (read_answer from_string c.trid (c_str bytes)) [
          | none ↦ async_receive c1
          | some ep ↦ notify (record c1 { pub_addr_ep = ep })
        ])
    else async_receive c

unfoldable pub handle_async_receive :
    (List ℕ → Option ℕ) → Option ErrorCode → List ℕ → Endpoint → WeakRefer → PubAddr → PubAddr
handle_async_receive from_string e bytes remote_ep wref c =
    if Tracker.expired wref c.tracker || is_aborted e
    then c
    else if not (is_error e) && not (is_empty bytes)
    then handle_datagram from_string bytes remote_ep c
    else notify (record c { last_error = e })

unfoldable pub handle_async_wait : Option ErrorCode → WeakRefer → PubAddr → PubAddr
handle_async_wait e wref c =
    if Tracker.expired wref c.tracker || is_aborted e
    then c
    else notify (record c { last_error = some timed_out })
