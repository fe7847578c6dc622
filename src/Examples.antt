-- ===== src/Examples.antt =====
-- Concrete packets, buffers and connections, and the theorems of the development at them.
mod Sending
mod Connection
mod Clients
mod Probing
mod Services
mod Running
use udt_boost.Base.{
  add32, ℕ, Bool, ◌≤◌, true, false, ap, ◌⊎◌, ◌↔◌, not, reverse, sub32, ◌+◌, ◌-◌, ◌≡◌, refl, ◌<◌,
  true, [], ◌∷◌, arith, length, ltb, leb, ◌&&◌, if◌then◌else◌, ◌++◌, min,
}
use mathlib.Core.Bool.{true≢false}
use udt_boost.Seq.{seq_lt, seq_le, seq_gt, seq_ge}
use udt_boost.Seq.Order.{seq_cmp-offset, offset}
use udt_boost.Packet.{data_ptr, Hdr, Packet, no_flags, flags_byte}
use udt_boost.Packet.Wire.{ntoh, hton, byte_flags, wire_roundtrip}
use udt_boost.Buf
use udt_boost.Buf.{Buf, copy, append, append_pkt}
use udt_boost.Buf.Accounting.{IsWhole, IsValid, append_pkt-IsValid}
use udt_boost.Buf.Queue.{IsQueue, Takes, contents, copy-Takes, append-Puts}
use udt_boost.Cb
use udt_boost.Cb.{Cb, State, established, closed, fin_wait_1, fin_wait_2, last_ack}
use udt_boost.Cb.Rtt.{xmit_timer, xmit_timer_bounds, InRange}
use udt_boost.Cb.Congestion.{
  IsOpen, handle_packet_lost, incr_snd_cwnd, slow_start, window-IsOpen, can_send_bytes,
  bytes_inflight, can_send_bytes_fits,
}
use udt_boost.Sock.{Sock, consume_pending_data}
use udt_boost.Sock.Sending.{Sends, consume_pending_data-Sends}
use udt_boost.Sock.Counted.{IsCounted}
use udt_boost.Options.Handle.{
  drop_acked_data, handle_option_sack, handle_options, handle_option_cwnd,
}
use udt_boost.Options.Dropping.{
  Drops, IsAcked, starts_at, IsSacked, drop_acked_data-Drops, handle_option_sack-Drops,
}
use udt_boost.Options.{compose_options, blocks}
use udt_boost.Options.RoundTrip.{handle_options-compose_options}
use udt_boost.Notify.{recv_data, handle_delay_recv_operation}
use udt_boost.Notify.Delivery.{Conserves, recv_data-Conserves, handle_delay-Conserves}
use udt_boost.Timo.{handle_slow_timo, handle_fast_timo, rexmt_expired}
use udt_boost.Machine.Timers.{timo_outcome, rexmt_expired-closes}
use udt_boost.Output.Retrans.{output-IsCounted}
use udt_boost.Reass.{Rcv, insert_pkt, tcp_reass_or_append}
use udt_boost.Reass.Stream.{InOrder, tcp_reass_or_append-InOrder}
use udt_boost.Reass.Order.{Ascends, has_seq}
use udt_boost.Socket.{create}
use udt_boost.Input.Segment.{input}
use udt_boost.Input.Segment.{process}
use udt_boost.Input.{handle_ack}
use udt_boost.Input.Fin.{nxt_after, nxt_after_two}
use udt_boost.Input.Growth.{Grows}
use udt_boost.Input.Retrans.{handle_ack-IsCounted}
use udt_boost.Input.Quiet.{view}
use udt_boost.Input.Reliable.{process-Grows}
use udt_boost.Machine.{◌⟶*◌}
use udt_boost.Machine.Keep.{state}
use udt_boost.Machine.Moves.{input-moves}

-- Two packets of three bytes and of two, from the number 10.
abbrev data_hdr : ℕ → ℕ → Hdr
data_hdr seq len = record {
  ver = 0;
  flags = no_flags;
  win = 0;
  len = len;
  off = 20;
  seq = seq;
  ack = 0;
  pseq = 0;
}

abbrev first_packet : Packet
first_packet = record { hdr = data_hdr 10 3; body = 1 ∷ 2 ∷ 3 ∷ [] }

abbrev second_packet : Packet
second_packet = record { hdr = data_hdr 13 2; body = 4 ∷ 5 ∷ [] }

abbrev third_packet : Packet
third_packet = record { hdr = data_hdr 15 1; body = 6 ∷ [] }

abbrev two_packets : Buf
two_packets = record (Buf.init 0) { cc = 5; pkts = first_packet ∷ second_packet ∷ []; seq = 15 }

first-IsWhole : IsWhole first_packet
unfolding data_ptr
first-IsWhole = record {
  off_min = omega arith;
  off16 = omega arith;
  has_data = refl;
  seq32 = omega arith;
}

second-IsWhole : IsWhole second_packet
unfolding data_ptr
second-IsWhole = record {
  off_min = omega arith;
  off16 = omega arith;
  has_data = refl;
  seq32 = omega arith;
}

third-IsWhole : IsWhole third_packet
unfolding data_ptr
third-IsWhole = record {
  off_min = omega arith;
  off16 = omega arith;
  has_data = refl;
  seq32 = omega arith;
}

two_packets-IsValid : IsValid two_packets
two_packets-IsValid = record {
  counted = refl;
  within = omega arith;
  hiwat32 = omega arith;
  seq32 = omega arith;
  whole = (first-IsWhole, (second-IsWhole, tt));
}

two_packets-IsQueue : IsQueue 10 15 two_packets
two_packets-IsQueue = record {
  valid = two_packets-IsValid;
  start32 = omega arith;
  chain = (refl, (refl, refl));
}

-- A connection with 10 bytes unacknowledged.
abbrev in_flight : Cb
in_flight = record (Cb.init 0) { state = established; snd_max = 10; snd_nxt = 10 }

in_flight-IsOpen : IsOpen in_flight
unfolding Cb.init
in_flight-IsOpen = record {
  maxseg_pos = omega arith;
  maxseg16 = omega arith;
  segment = omega arith;
  bounded = omega arith;
}

abbrev connection : Sock
connection = record (create 0 0) { cb = in_flight }

seq_cmp-offset_example :
    (seq_lt 4294967290 5 ≡ ltb (offset 4294967290 4294967290) (offset 4294967290 5))
    × (seq_le 4294967290 5 ≡ leb (offset 4294967290 4294967290) (offset 4294967290 5))
    × (seq_gt 4294967290 5 ≡ ltb (offset 4294967290 5) (offset 4294967290 4294967290))
    × (seq_ge 4294967290 5 ≡ leb (offset 4294967290 5) (offset 4294967290 4294967290))
seq_cmp-offset_example =
    seq_cmp-offset 4294967290 4294967290 5 (omega arith) (omega arith) (omega arith) (omega arith)
      (omega arith)

wire_roundtrip_example :
    (ntoh (hton (data_hdr 70000 3)) ≡ data_hdr 70000 3)
    × (byte_flags (flags_byte (data_hdr 70000 3).flags) ≡ (data_hdr 70000 3).flags)
wire_roundtrip_example = wire_roundtrip (data_hdr 70000 3) (record {
  win16 = omega arith;
  len16 = omega arith;
  off16 = omega arith;
  seq32 = omega arith;
  ack32 = omega arith;
  pseq32 = omega arith;
})

copy-Takes_example : Takes 10 15 4 two_packets (copy true 4 true two_packets)
copy-Takes_example = copy-Takes 10 15 4 two_packets two_packets-IsQueue

append-Puts_example :
    let (b', taken) = append (6 ∷ 7 ∷ []) 100 two_packets in
    (taken ≡ (ltb 0 2 && leb (2 + length (contents two_packets)) 32768 && ltb 0 100))
    × (contents b' ≡ (if taken then contents two_packets ++ 6 ∷ 7 ∷ [] else contents two_packets))
    × IsQueue 10 b'.seq b'
append-Puts_example = append-Puts 10 (6 ∷ 7 ∷ []) 100 two_packets (omega arith) two_packets-IsQueue

xmit_timer_bounds_example :
    let d = xmit_timer 4 in_flight in
    (0 < d.srtt)
    × (d.srtt < 32768)
    × (0 < d.rttvar)
    × (d.rttvar < 32768)
    × (d.rtt ≡ 0)
    × (d.rxtshift ≡ 0)
    × InRange d.rxtcur
unfolding Cb.init
xmit_timer_bounds_example = xmit_timer_bounds 4 in_flight (omega arith) (omega arith) refl

window-IsOpen_example :
    IsOpen (handle_packet_lost 77 in_flight)
    × IsOpen (incr_snd_cwnd in_flight)
    × IsOpen (slow_start in_flight)
window-IsOpen_example = window-IsOpen 77 in_flight in_flight-IsOpen

can_send_bytes_fits_example :
    can_send_bytes in_flight ≡ min (7344 - bytes_inflight in_flight) (7344 - 10)
unfolding Cb.init
can_send_bytes_fits_example =
    can_send_bytes_fits in_flight (omega arith) (omega arith) (omega arith)

input-moves_example : established ⟶* state (input third_packet 21 connection).0
input-moves_example = input-moves third_packet 21 connection
