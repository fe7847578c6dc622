-- ===== src/Examples/Sending.antt =====
-- A sender and the queue of a receiver, and the theorems of the development at them.
use udt_boost.Base.{◌++◌, true, reverse, sub32, ◌≡◌, refl, true, [], ◌∷◌, arith}
use udt_boost.Packet.{data_ptr, Packet, no_flags}
use udt_boost.Buf
use udt_boost.Buf.{Buf, copy, append, append_pkt}
use udt_boost.Buf.Accounting.{IsWhole}
use udt_boost.Buf.Queue.{IsQueue}
use udt_boost.Cb
use udt_boost.Cb.{Cb, State, established, closed, fin_wait_1, fin_wait_2, last_ack}
use udt_boost.Sock.{Sock, consume_pending_data}
use udt_boost.Sock.Sending.{Sends, consume_pending_data-Sends}
use udt_boost.Sock.Counted.{IsCounted}
use udt_boost.Options.Handle.{drop_acked_data, handle_option_sack}
use udt_boost.Options.Dropping.{
  Drops, IsAcked, starts_at, IsSacked, drop_acked_data-Drops, handle_option_sack-Drops,
}
use udt_boost.Output.Retrans.{output-IsCounted}
use udt_boost.Reass.{Rcv, tcp_reass_or_append}
use udt_boost.Reass.Stream.{InOrder, tcp_reass_or_append-InOrder}
use udt_boost.Output.Round.{output}
use udt_boost.Examples.{
  first_packet, second_packet, third_packet, two_packets, first-IsWhole, second-IsWhole,
  third-IsWhole, in_flight, connection,
}

-- The third packet waits; then the second arrives.
abbrev waiting : Rcv
waiting = record {
  cb = record in_flight { rcv_nxt = 13 };
  rcv_buf = record {
    buf = record (Buf.init 0) { cc = 3; pkts = first_packet ∷ []; seq = 13 };
    reasm_pkts = third_packet ∷ [];
  };
}

waiting-IsQueue : IsQueue 10 13 waiting.rcv_buf.buf
waiting-IsQueue = record {
  valid = record {
    counted = refl;
    within = omega arith;
    hiwat32 = omega arith;
    seq32 = omega arith;
    whole = (first-IsWhole, tt);
  };
  start32 = omega arith;
  chain = (refl, refl);
}

tcp_reass_or_append-InOrder_example :
    InOrder 10 second_packet waiting (tcp_reass_or_append second_packet waiting)
tcp_reass_or_append-InOrder_example =
    tcp_reass_or_append-InOrder 10 second_packet waiting second-IsWhole (third-IsWhole, tt)
      waiting-IsQueue

-- A sender with two packets, the first of them retransmitted.
abbrev resent : Packet
resent = record first_packet {
  hdr = record first_packet.hdr { flags = record no_flags { retrans = true } };
}

resent-IsWhole : IsWhole resent
unfolding data_ptr
resent-IsWhole = record {
  off_min = omega arith;
  off16 = omega arith;
  has_data = refl;
  seq32 = omega arith;
}

abbrev pub sender : Sock
sender = record connection {
  cb = record in_flight { snd_una = 10; snd_nxt = 15; snd_max = 15; retrans_data = 3 };
  snd_buf = record two_packets { pkts = resent ∷ second_packet ∷ [] };
  send_ops = record { buf = 6 ∷ 7 ∷ []; handler = 1 } ∷ [];
  pending_data = 2;
}

pub sender-IsCounted : IsCounted sender
sender-IsCounted = record {
  retrans = refl;
  valid = record {
    counted = refl;
    within = omega arith;
    hiwat32 = omega arith;
    seq32 = omega arith;
    whole = (resent-IsWhole, (second-IsWhole, tt));
  };
}

output-IsCounted_example : IsCounted (output sender).0
unfolding Cb.init
output-IsCounted_example = output-IsCounted sender (omega arith) sender-IsCounted

drop_acked_data-Drops_example :
    (d : Drops (IsAcked 13) sender (drop_acked_data 13 sender)) × (sender.snd_buf.pkts
      ≡ d.gone ++ (drop_acked_data 13 sender).snd_buf.pkts)
    × (starts_at 13 (drop_acked_data 13 sender).snd_buf.pkts ≡ true)
    × ((drop_acked_data 13 sender).cb.snd_una ≡ 13)
drop_acked_data-Drops_example = drop_acked_data-Drops 13 sender sender-IsCounted

handle_option_sack-Drops_example :
    Drops (IsSacked (reverse ((13, 15) ∷ []))) sender (handle_option_sack ((13, 15) ∷ []) sender)
handle_option_sack-Drops_example = handle_option_sack-Drops ((13, 15) ∷ []) sender sender-IsCounted

consume_pending_data-Sends_example :
    Sends sender.send_ops sender (consume_pending_data sender).0 (consume_pending_data sender).1
    × ((consume_pending_data sender).0.pending_data ≡ sub32 2 (consume_pending_data sender).1)
unfolding Cb.init
consume_pending_data-Sends_example =
    consume_pending_data-Sends sender (omega arith) (omega arith) sender-IsCounted.valid
