-- ===== src/HolePunch.antt =====
-- The hole punching client, udt/udp_hp_clt.h and udt/udp_hp_clt.cpp: before a connection, each of two
-- peers sends to the endpoints at which the other may be, until one has answered. What asio is asked
-- to do is an effect, the latest last. The buffer that is received into is the handler's argument.
pub mod Table
pub mod Meeting
pub mod Replies
pub mod Waiting
pub mod Knows
pub mod Heard
pub mod Sending
use udt_boost.Base.{
  ℕ, zero, suc, ◌+◌, ◌-◌, Bool, true, false, not, ◌&&◌, ◌||◌, if◌then◌else◌, ◌==◌, ltb, leb, List,
  [], ◌∷◌, ◌++◌, Option, none, some, length, is_empty, get_or,
}
use udt_boost.Packet.{Flags, Hdr, no_flags, hdr_bytes, hdr_size}
use udt_boost.Packet.Wire.{hton, byte_flags}
use udt_boost.Asio.{ErrorCode, timed_out, is_aborted, is_error}
use udt_boost.Tracker
use udt_boost.Tracker.{Tracker, WeakRefer}

abbrev pub dft_send_packets : ℕ
dft_send_packets = 3

abbrev pub dft_timeout_count : ℕ
dft_timeout_count = 20

-- `endpoint_info_t::state_t`.
pub data EndpointState : Type 0 where
  closed listen syn_sent syn_received established : EndpointState

-- `endpoint_info_t`.
pub record EndpointInfo : Type 0 where
  pub state : EndpointState
  pub snd_buf : List ℕ

-- `endpoints_info_t`: a map, in the order of the endpoints.
abbrev pub EndpointsInfo : Type 0
EndpointsInfo = List (ℕ × EndpointInfo)

pub data Effect : Type 0 where
  send_to : ℕ → List ℕ → Effect
  receive_from : WeakRefer → Effect
  wait : ℕ → WeakRefer → Effect
  post : ℕ → Option ErrorCode → List ℕ → Effect
  cancel_socket cancel_timer : Effect

-- `udp_hp_clt`: is there a socket, the handler, if one is set, and the rest.
pub record HpClt : Type 0 where
  pub socket : Bool
  pub handler : Option ℕ
  pub peer_eps : EndpointsInfo
  pub last_error : Option ErrorCode
  pub tracker : Tracker
  pub effects : List Effect

abbrev pub emit : Effect → HpClt → HpClt
emit e c = record c { effects = c.effects ++ e ∷ [] }

-- `create`: the socket must be open and bound. `false` stands for -1.
unfoldable pub create : Bool → Bool → HpClt → HpClt × Bool
unfolding Tracker.is_null Tracker.set
create is_open is_bound c =
    if is_open && is_bound
    then (
      record c {
        socket = true;
        tracker = if Tracker.is_null c.tracker then Tracker.set c.tracker else c.tracker;
      },
      true,
    )
    else (c, false)

unfoldable pub cancel : HpClt → HpClt
unfolding Tracker.reset
cancel c =
    let c1 = record c { tracker = Tracker.reset c.tracker } in
    emit cancel_timer (if c.socket then emit cancel_socket c1 else c1)

unfoldable pub close : HpClt → HpClt
unfolding cancel
close c =
    if c.socket then record (cancel c) { socket = false; handler = none; last_error = none } else c

unfoldable pub prepare_send_peer_data : Flags → List ℕ
prepare_send_peer_data flags = hdr_bytes (
    hton (record {
      ver = 0;
      flags = record flags { hp = true };
      win = 0;
      len = 0;
      off = hdr_size;
      seq = 0;
      ack = 0;
      pseq = 0;
    }))

-- The flags that an endpoint is sent in its state; in the other states the buffer stays.
abbrev pub syn_flags : Flags
syn_flags = record no_flags { syn = true }

abbrev pub syn_ack_flags : Flags
syn_ack_flags = record no_flags { syn = true; ack = true }

abbrev pub ack_flags : Flags
ack_flags = record no_flags { ack = true }

unfoldable pub refresh : EndpointState → List ℕ → List ℕ
unfolding prepare_send_peer_data
refresh syn_sent buf = prepare_send_peer_data syn_flags
refresh syn_received buf = prepare_send_peer_data syn_ack_flags
refresh established buf = prepare_send_peer_data ack_flags
refresh closed buf = buf
refresh listen buf = buf

-- The inner loop of `output`.
unfoldable pub send_packets : ℕ → ℕ → List ℕ → HpClt → HpClt
send_packets zero ep buf c = c
send_packets (suc n) ep buf c = send_packets n ep buf (emit (send_to ep buf) c)

-- The outer loop of `output`: the endpoints with their buffers, and what is sent.
unfoldable pub output_loop : EndpointsInfo → HpClt → EndpointsInfo × HpClt
unfolding refresh
output_loop [] c = ([], c)
output_loop ((ep, info) ∷ eps) c =
    let buf = refresh info.state info.snd_buf in
    let (rest, c') =
      output_loop eps (if is_empty buf then c else send_packets dft_send_packets ep buf c) in
    ((ep, record info { snd_buf = buf }) ∷ rest, c')

unfoldable pub output : HpClt → HpClt
output c = let (eps, c') = output_loop c.peer_eps c in record c' { peer_eps = eps }

unfoldable pub async_receive : HpClt → HpClt
unfolding Tracker.get
async_receive c = emit (receive_from (Tracker.get c.tracker)) c

-- The endpoints that `notify` reports.
unfoldable pub established_eps : EndpointsInfo → List ℕ
established_eps [] = []
established_eps ((ep, info) ∷ eps) =
    let rest = established_eps eps in elim info.state [ established ↦ ep ∷ rest | _ ↦ rest ]

-- `notify`: a handler that is cleared is no one's.
unfoldable pub notify : HpClt → HpClt
notify c = elim c.handler [
  | none ↦ c
  | some h ↦ emit (post h c.last_error (established_eps c.peer_eps)) c
]

unfoldable pub async_wait : ℕ → HpClt → HpClt
unfolding Tracker.get
async_wait remain_count c =
    if remain_count == 0
    then notify (record c { last_error = some timed_out })
    else emit (wait remain_count (Tracker.get c.tracker)) c

unfoldable pub handle_async_timeout : Option ErrorCode → ℕ → WeakRefer → HpClt → HpClt
unfolding Tracker.expired
handle_async_timeout e remain_count wref c =
    if is_aborted e || Tracker.expired wref c.tracker
    then c
    else async_wait (remain_count - 1) (output c)

-- An endpoint that is new goes to its place; one that is there keeps its buffer.
unfoldable pub insert_sent : ℕ → EndpointsInfo → EndpointsInfo
insert_sent ep [] = (ep, record { state = syn_sent; snd_buf = [] }) ∷ []
insert_sent ep ((k, info) ∷ eps) =
    if ep == k
    then (k, record info { state = syn_sent }) ∷ eps
    else if ltb ep k
    then (ep, record { state = syn_sent; snd_buf = [] }) ∷ (k, info) ∷ eps
    else (k, info) ∷ insert_sent ep eps

unfoldable pub insert_all : List ℕ → EndpointsInfo → EndpointsInfo
insert_all [] eps = eps
insert_all (ep ∷ more) eps = insert_all more (insert_sent ep eps)

unfoldable pub async_hole_punch : ℕ → List ℕ → HpClt → HpClt
async_hole_punch handler eps c = async_wait dft_timeout_count (
    async_receive
      (output (record c { handler = some handler; peer_eps = insert_all eps c.peer_eps })))

-- `peer_eps_.find`.
unfoldable pub find : ℕ → EndpointsInfo → Option EndpointInfo
find ep [] = none
find ep ((k, info) ∷ eps) = if ep == k then some info else find ep eps

unfoldable pub set_state : ℕ → EndpointState → EndpointsInfo → EndpointsInfo
set_state ep state [] = []
set_state ep state ((k, info) ∷ eps) =
    if ep == k then (k, record info { state = state }) ∷ eps else (k, info) ∷ set_state ep state eps

unfoldable pub erase : ℕ → EndpointsInfo → EndpointsInfo
erase ep [] = []
erase ep ((k, info) ∷ eps) = if ep == k then eps else (k, info) ∷ erase ep eps

-- The two switches of `handle_peer_resp`.
unfoldable pub on_syn : EndpointState → EndpointState
on_syn closed = syn_received
on_syn syn_sent = syn_received
on_syn syn_received = syn_received
on_syn listen = listen
on_syn established = established

unfoldable pub on_ack : EndpointState → EndpointState
on_ack syn_received = established
on_ack closed = closed
on_ack listen = listen
on_ack syn_sent = syn_sent
on_ack established = established

-- `need_output` of the first switch.
unfoldable pub answers_syn : EndpointState → Bool
answers_syn closed = true
answers_syn syn_sent = true
answers_syn syn_received = false
answers_syn listen = false
answers_syn established = false

abbrev pub is_established : EndpointState → Bool
is_established established = true
is_established closed = false
is_established listen = false
is_established syn_sent = false
is_established syn_received = false

-- `uh_flags` of the bytes that were received.
unfoldable pub flags_of : List ℕ → Flags
flags_of bytes = byte_flags (get_or bytes 1 0)

unfoldable pub handle_peer_resp : List ℕ → ℕ → EndpointState → HpClt → HpClt
unfolding flags_of on_syn on_ack answers_syn set_state
handle_peer_resp bytes ep state c =
    let flags = flags_of bytes in
    let after_syn = if flags.syn then on_syn state else state in
    let after_ack = if flags.ack then on_ack after_syn else after_syn in
    let c1 = record c { peer_eps = set_state ep after_ack c.peer_eps } in
    if not (length bytes == hdr_size) || not flags.hp || is_established state
    then c
    else if flags.syn && answers_syn state
    then output c1
    else c1

-- `handle_async_receive`, with the endpoint that asio wrote to `remote_ep_`.
unfoldable pub peer_is_established : ℕ → HpClt → Bool
peer_is_established ep c = elim (find ep c.peer_eps) [
  | none ↦ false
  | some info ↦ is_established info.state
]

unfoldable pub handle_datagram : List ℕ → ℕ → HpClt → HpClt
handle_datagram bytes ep c = elim (find ep c.peer_eps) [
  | none ↦ async_receive c
  | some info ↦
      let c' = handle_peer_resp bytes ep info.state c in
      if peer_is_established ep c' then notify c' else async_receive c'
]

unfoldable pub handle_failure : ErrorCode → ℕ → HpClt → HpClt
handle_failure e ep c = elim (find ep c.peer_eps) [
  | none ↦ async_receive c
  | some info ↦
      let rest = erase ep c.peer_eps in
      if is_empty rest
      then notify (record c { peer_eps = rest; last_error = some e })
      else async_receive (record c { peer_eps = rest })
]

unfoldable pub handle_async_receive : Option ErrorCode → List ℕ → ℕ → WeakRefer → HpClt → HpClt
unfolding Tracker.expired
handle_async_receive e bytes ep wref c =
    if is_aborted e || Tracker.expired wref c.tracker
    then c
    else elim e [ none ↦ handle_datagram bytes ep c | some code ↦ handle_failure code ep c ]
