-- ===== src/Mtu.antt =====
-- The mtu prober, udt/udt_mtu.h and udt/udt_mtu.cpp: ICMP echoes of falling sizes, not to be
-- fragmented, until one is answered. What the raw socket answers to a send is the argument `net`; what
-- asio is asked to do is an effect, the latest last. `size_t` and `u_long` have 32 bits.
pub mod Ends
pub mod Told
pub mod Echo
pub mod Once
use udt_boost.Base.{
  ℕ, zero, suc, ◌+◌, ◌-◌, ◌*◌, Bool, true, false, not, ◌&&◌, ◌||◌, if◌then◌else◌, ◌==◌, ltb, leb,
  List, [], ◌∷◌, ◌++◌, Option, none, some, length, is_empty, get_or, drop,
}
use udt_boost.Asio.{
  ErrorCode, timed_out, operation_aborted, network_unreachable, host_unreachable, not_found,
  no_buffer_space, is_aborted, is_error,
}
use udt_boost.Tracker
use udt_boost.Tracker.{Tracker, WeakRefer}

-- PACKET_MAXIMUMS, IPHDR_SIZE_BYTE, DEFAULT_SEND_COUNT, and `sizeof(icmp)`.
abbrev pub packet_maximums : List ℕ
packet_maximums = 1500 ∷ 1492 ∷ 1006 ∷ 576 ∷ 544 ∷ 512 ∷ 508 ∷ 296 ∷ 68 ∷ 0 ∷ []

abbrev pub iphdr_size_byte : ℕ
iphdr_size_byte = 20

abbrev pub default_send_count : ℕ
default_send_count = 3

abbrev pub icmp_size : ℕ
icmp_size = 8

-- What `send_to` says: ERROR_INVALID_USER_BUFFER is `too_big`.
pub data Sent : Type 0 where
  done too_big : Sent
  refused : ErrorCode → Sent

pub data Effect : Type 0 where
  open_socket : Effect
  send_to : ℕ → List ℕ → Effect
  receive_from : WeakRefer → Effect
  wait : WeakRefer → Effect
  cancel_timer cancel_socket : Effect
  post : ℕ → Option ErrorCode → ℕ → Effect

-- `udt_mtu`. `fault` is set where the code writes outside `snd_buffer_`, or asks for a buffer of a
-- negative size, for which `resize` throws.
pub record Prober : Type 0 where
  pub handler : ℕ
  pub remote_endpoint : ℕ
  pub snd_buffer : List ℕ
  pub current_mtu_idx : ℕ
  pub mtu : ℕ
  pub mtu_hint : ℕ
  pub tracker : Tracker
  pub last_error : Option ErrorCode
  pub is_open : Bool
  pub fault : Bool
  pub effects : List Effect

abbrev pub emit : Effect → Prober → Prober
emit e p = record p { effects = p.effects ++ e ∷ [] }

unfoldable pub init : Prober → Prober
unfolding Tracker.is_null Tracker.set
init p = record p {
  mtu_hint = 0;
  mtu = 0;
  current_mtu_idx = 0;
  last_error = none;
  tracker = if Tracker.is_null p.tracker then Tracker.set p.tracker else p.tracker;
}

unfoldable pub create : Prober → Prober
unfolding init
create p =
    let p1 = init p in if p1.is_open then p1 else emit open_socket (record p1 { is_open = true })

unfoldable pub cancel : Prober → Prober
unfolding Tracker.reset
cancel p =
    record (emit cancel_socket
      (emit cancel_timer (record p { tracker = Tracker.reset p.tracker }))) {
        last_error = some operation_aborted;
      }

unfoldable pub close : Prober → Prober
unfolding cancel
close p = record (cancel p) { snd_buffer = [] }

unfoldable pub notify : Prober → Prober
notify p = let c = cancel p in emit (post c.handler c.last_error c.mtu) c

-- The first entry that is not above the hint: the list's end, 0, never is.
unfoldable pub first_le : ℕ → List ℕ → ℕ → ℕ → ℕ
first_le hint [] i idx = idx
first_le hint (m ∷ ms) i idx =
    let rest = first_le hint ms (i + 1) idx in if leb m hint then i else rest

-- `std::string::resize`: cut, or filled up with zeros.
unfoldable pub resize : ℕ → List ℕ → List ℕ
resize zero buf = []
resize (suc n) [] = 0 ∷ resize n []
resize (suc n) (b ∷ buf) = b ∷ resize n buf

-- The bytes of an echo: type 8, code 0, the checksum as it was, 1234 twice in network order.
unfoldable pub put_echo : List ℕ → List ℕ
put_echo buf = 8 ∷ 0 ∷ get_or buf 2 0 ∷ get_or buf 3 0 ∷ 4 ∷ 210 ∷ 4 ∷ 210 ∷ drop icmp_size buf

-- `prepare_data`. `false` says that the list is at its end.
abbrev pub chosen : Prober → ℕ × ℕ
chosen p =
    if p.mtu_hint == 0
    then (get_or packet_maximums p.current_mtu_idx 0, p.current_mtu_idx)
    else (p.mtu_hint, first_le p.mtu_hint packet_maximums 0 p.current_mtu_idx)

unfoldable pub prepare_data : Prober → Prober × Bool
unfolding put_echo resize first_le
prepare_data p =
    let (mtu, idx) = chosen p in
    let buf = resize (mtu - iphdr_size_byte) p.snd_buffer in
    let next = record p {
      mtu = mtu;
      current_mtu_idx = idx + 1;
      snd_buffer = if ltb mtu (iphdr_size_byte + icmp_size) then buf else put_echo buf;
      fault = p.fault || ltb mtu (iphdr_size_byte + icmp_size);
    } in
    if p.mtu_hint == 0 && leb (length packet_maximums) p.current_mtu_idx
    then (p, false)
    else (next, true)

-- The loop over DEFAULT_SEND_COUNT.
unfoldable pub send_packets : ℕ → Prober → Prober
send_packets zero p = p
send_packets (suc n) p = send_packets n (emit (send_to p.remote_endpoint p.snd_buffer) p)

unfoldable pub async_recv_reply : Prober → Prober
unfolding Tracker.get
async_recv_reply p =
    emit (receive_from (Tracker.get p.tracker)) (emit (wait (Tracker.get p.tracker)) p)

-- The tests after the sends of a round: `again` are the rounds that follow.
unfoldable pub after_send : Sent → Prober → Option Prober → Option Prober
after_send done p again = some (async_recv_reply p)
after_send too_big p again = again
after_send (refused e) p again = some (notify (record p { last_error = some e }))

-- The loop of `send_echo`. `net n buf` is what the last send of round `n` says of the packet `buf`.
-- A fault ends the loop; `none` says that the fuel ran out.
unfoldable pub send_loop : ℕ → ℕ → (ℕ → List ℕ → Sent) → Prober → Option Prober
send_loop zero n net p = none
send_loop (suc fuel) n net p =
    let (p1, ready) = prepare_data p in
    let p2 = send_packets default_send_count p1 in
    let again = send_loop fuel (n + 1) net p2 in
    if not ready
    then some (notify p)
    else if p1.fault
    then some p1
    else after_send (net n p1.snd_buffer) p2 again

-- `async_probe_mtu`.
unfoldable pub async_probe_mtu : ℕ → (ℕ → List ℕ → Sent) → ℕ → ℕ → Prober → Option Prober
async_probe_mtu fuel net rep handler p =
    send_loop fuel 0 net (record p { remote_endpoint = rep; handler = handler })

unfoldable pub handle_timeout : Option ErrorCode → WeakRefer → Prober → Prober
handle_timeout e wref p =
    if Tracker.expired wref p.tracker || is_aborted e
    then p
    else notify (record p { last_error = some timed_out })

-- The answers to an ICMP_UNREACH that is not ICMP_UNREACH_NEEDFRAG, by its code.
unfoldable pub unreachable : ℕ → Option ErrorCode → Option ErrorCode
unreachable code old =
    if code == 0
    then some network_unreachable
    else if code == 1
    then some host_unreachable
    else if code == 2
    then some not_found
    else if code == 3
    then some host_unreachable
    else if code == 7
    then old
    else some timed_out

-- What a datagram says: the ICMP message behind the IP header, read by its type and code.
abbrev pub icmp_type : List ℕ → ℕ
icmp_type bytes = get_or bytes 20 0

abbrev pub icmp_code : List ℕ → ℕ
icmp_code bytes = get_or bytes 21 0

abbrev pub icmp_nextmtu : List ℕ → ℕ
icmp_nextmtu bytes = get_or bytes 26 0 * 256 + get_or bytes 27 0

unfoldable pub handle_icmp : ℕ → (ℕ → List ℕ → Sent) → List ℕ → Prober → Option Prober
handle_icmp fuel net bytes p =
    if icmp_type bytes == 0 && icmp_code bytes == 0
    then some (notify p)
    else if icmp_type bytes == 3
    then (if icmp_code bytes == 4
        then send_loop fuel 0 net (record p { mtu_hint = icmp_nextmtu bytes })
        else some (notify (record p { last_error = unreachable (icmp_code bytes) p.last_error })))
    else some (notify p)

unfoldable pub handle_recv :
    ℕ → (ℕ → List ℕ → Sent) → Option ErrorCode → List ℕ → WeakRefer → Prober → Option Prober
handle_recv fuel net e bytes wref p =
    let p1 = emit cancel_timer p in
    if Tracker.expired wref p.tracker
    then some p
    else if is_aborted e
    then some p1
    else if not (is_error e) && leb (icmp_size + iphdr_size_byte) (length bytes)
    then handle_icmp fuel net bytes p1
    else if not (is_error e) && ltb (length bytes) icmp_size
    then some (notify (record p1 { last_error = some no_buffer_space }))
    else some (notify p1)
