-- ===== src/Examples/Connection.antt =====
-- Whole segments, timers and deliveries, and the theorems of the development at them.
use udt_boost.Base.{
  ℕ, take, u16_mod, ◌+◌, ◌<◌, Bool, ◌≤◌, true, false, ap, reverse, ◌≡◌, refl, true, [], ◌∷◌, arith,
  length, ◌++◌,
}
use mathlib.Core.Bool.{true≢false}
use udt_boost.Cb
use udt_boost.Cb.{Cb, State, established, closed}
use udt_boost.Sock.{Sock}
use udt_boost.Sock.Counted.{IsCounted}
use udt_boost.Options.Handle.{handle_option_sack, handle_options, handle_option_cwnd}
use udt_boost.Options.{compose_options}
use udt_boost.Options.Fuel.{Ends, handle_options-Ends}
use udt_boost.Options.RoundTrip.{runs, handle_options-compose_options}
use udt_boost.Notify.{recv_data}
use udt_boost.Notify.Delivery.{Conserves, recv_data-Conserves}
use udt_boost.Machine.Retries.{time_outs, retries-close}
use udt_boost.Buf.{append, append_pkt}
use udt_boost.Socket.{setsockopt, udt_snd_buf, udt_rcv_buf}
use udt_boost.Socket.Limits.{setsockopt-append}
use udt_boost.Input.Segment.{process, input}
use udt_boost.Packet.{Packet, hdr_size}
use udt_boost.Input.Growth.{Grows}
use udt_boost.Input.Counted.{input-IsCounted}
use udt_boost.Packet.Wire.{hton}
use udt_boost.Input.Quiet.{view}
use udt_boost.Input.Reliable.{process-Grows}
use udt_boost.Machine.Keep.{state}
use udt_boost.Examples.{
  third_packet, two_packets, third-IsWhole, two_packets-IsQueue, in_flight, connection,
}
use udt_boost.Examples.Sending.{sender, sender-IsCounted}

handle_options-compose_options_example :
    let bytes = compose_options 7344 (third_packet ∷ []) 40 in
    (length bytes ≤ 40)
    × (handle_options (length bytes) (bytes ++ 9 ∷ []) (length bytes) sender
        ≡ handle_option_sack
            (take 3 (runs (reverse (third_packet ∷ []))))
            (handle_option_cwnd 7344 sender))
handle_options-compose_options_example =
    handle_options-compose_options 7344 (third_packet ∷ []) (9 ∷ []) sender (omega arith)
      (third-IsWhole, tt)

-- A receiver whose user asks for four of the five bytes that are there.
abbrev receiver : Sock
receiver = record connection {
  rcv_buf = record { buf = two_packets; reasm_pkts = [] };
  recv_ops = record { buf_len = 4; handler = 2 } ∷ [];
}

-- The same, with the number of the next byte.
abbrev in_order : Sock
in_order = record receiver { cb = record in_flight { rcv_nxt = 15 } }

recv_data-Conserves_example : Conserves 15 receiver (recv_data receiver)
recv_data-Conserves_example = recv_data-Conserves 10 15 receiver two_packets-IsQueue

-- The same, with two packets to send, too.
abbrev both_ways : Sock
both_ways = record receiver { snd_buf = two_packets }

setsockopt-append_example :
    ((append (7 ∷ 8 ∷ []) 100 (setsockopt (udt_snd_buf 1) both_ways).snd_buf).1 ≡ true)
    × ((append_pkt third_packet (setsockopt (udt_rcv_buf 1) both_ways).rcv_buf.buf).1 ≡ true)
setsockopt-append_example =
    setsockopt-append 1 100 (7 ∷ 8 ∷ []) third_packet both_ways (omega arith) (omega arith)
      (omega arith) (omega arith) (omega arith) (omega arith) (omega arith) (omega arith)

-- A sender whose peer has room, and does not answer.
abbrev unheard : Sock
unheard = record sender { cb = record sender.cb { snd_wnd = 30000 } }

abbrev open_state : State → Bool
open_state established = true
open_state _ = false

retries-close_example :
    ((n : ℕ)
      → n ≤ 12
      → (state (time_outs n unheard) ≡ established) × ((time_outs n unheard).cb.rxtshift ≡ n))
    × (state (time_outs 13 unheard) ≡ closed)
unfolding Cb.init
retries-close_example =
    retries-close unheard (λ e. true≢false (ap open_state e)) refl refl refl refl

process-Grows_example : Grows (view in_order) (view (process third_packet in_order))
process-Grows_example =
    process-Grows 10 third_packet in_order refl third-IsWhole tt two_packets-IsQueue

-- The third packet as it is on the wire.
abbrev on_wire : Packet
on_wire = record third_packet { hdr = hton third_packet.hdr }

input-IsCounted_example :
    let s' = (input on_wire 21 sender).0 in IsCounted s' × (s'.cb.maxseg + hdr_size < u16_mod)
unfolding Cb.init
input-IsCounted_example =
    input-IsCounted on_wire 21 sender (omega arith) (omega arith) sender-IsCounted

handle_options-Ends_example :
    Ends
      (6 ∷ 6 ∷ 0 ∷ 0 ∷ 28 ∷ 176 ∷ [])
      6
      sender
      (handle_options 6 (6 ∷ 6 ∷ 0 ∷ 0 ∷ 28 ∷ 176 ∷ []) 6 sender)
handle_options-Ends_example =
    handle_options-Ends 6 (6 ∷ 6 ∷ 0 ∷ 0 ∷ 28 ∷ 176 ∷ []) 6 sender (omega arith)
