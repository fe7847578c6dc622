-- ===== src/Output.antt =====
-- Sending, udt/udt_cb_output.cpp.
pub mod Round
pub mod Frame
pub mod Marks
pub mod Retrans
use udt_boost.Base.{
  ℕ, zero, suc, ◌+◌, ◌-◌, ◌*◌, ◌/◌, ◌≤◌, Bool, true, false, not, ◌&&◌, ◌||◌, if◌then◌else◌, ◌==◌,
  ltb, leb, List, [], ◌∷◌, ◌++◌, Option, none, some, length, take, min, add32, sub32, u16, u32,
  u32_half, is_neg32, lt32s, lt16s,
}
use udt_boost.Seq.{seq_lt, seq_le, seq_gt, seq_ge}
use udt_boost.Packet.{Flags, Hdr, Packet, no_flags, hdr_size, max_header_size, data_ptr}
use udt_boost.Packet.Wire.{hton}
use udt_boost.Buf.{Buf, acc, above_lowat}
use udt_boost.Cb.{
  Cb, State, closed, listen, syn_sent, syn_received, established, close_wait, fin_wait_1, closing,
  last_ack, fin_wait_2, time_wait, have_snd_fin, tcp_maxwin,
}
use udt_boost.Cb.Rtt.{can_persist, enter_persist}
use udt_boost.Cb.Congestion.{slow_start, can_send_bytes}
use udt_boost.Cb.Window.{leave_persist}
use udt_boost.Sock.{Sock, send_to, emit, on_cb, total_buffer_size, consume_pending_data}
use udt_boost.Options.{compose_options}

-- `s_tcp_outflags`.
abbrev pub s_tcp_outflags : State → Flags
s_tcp_outflags closed = record no_flags { rst = true; ack = true }
s_tcp_outflags listen = no_flags
s_tcp_outflags syn_sent = record no_flags { syn = true }
s_tcp_outflags syn_received = record no_flags { syn = true; ack = true }
s_tcp_outflags established = record no_flags { ack = true }
s_tcp_outflags close_wait = record no_flags { ack = true }
s_tcp_outflags fin_wait_1 = record no_flags { fin = true; ack = true }
s_tcp_outflags closing = record no_flags { fin = true; ack = true }
s_tcp_outflags last_ack = record no_flags { fin = true; ack = true }
s_tcp_outflags fin_wait_2 = record no_flags { ack = true }
s_tcp_outflags time_wait = record no_flags { ack = true }

-- What `get_snd_pkt` does: the control block, the send buffer's packets, and the packet found.
pub record Picked : Type 0 where
  pub cb : Cb
  pub pkts : List Packet
  pub pkt : Option Packet

abbrev mark_retrans : Packet → Packet
mark_retrans p = record p { hdr = record p.hdr { flags = record p.hdr.flags { retrans = true } } }

-- The first packet at or after `m_snd_nxt` that is not being retransmitted, if `len` bytes are
-- enough for it. Below `m_snd_max` it is marked, and counted, as retransmitted.
unfoldable pub get_snd_pkt : ℕ → Cb → List Packet → Picked
get_snd_pkt len c [] = record { cb = c; pkts = []; pkt = none }
get_snd_pkt len c (p ∷ ps) =
    let later = get_snd_pkt len c ps in
    let again : Packet = mark_retrans p in
    let counted = record c { retrans_data = add32 c.retrans_data p.hdr.len; snd_nxt = p.hdr.seq } in
    let found : Picked =
      if seq_lt p.hdr.seq c.snd_max
      then record { cb = counted; pkts = again ∷ ps; pkt = some again }
      else record { cb = record c { snd_nxt = p.hdr.seq }; pkts = p ∷ ps; pkt = some p } in
    let refused : Picked = record { cb = c; pkts = p ∷ ps; pkt = none } in
    if seq_ge p.hdr.seq c.snd_nxt && not p.hdr.flags.retrans
    then (if leb p.hdr.len len then found else refused)
    else record later { pkts = p ∷ later.pkts }

-- `validate_first_pkt`: the first packet counts as not retransmitted.
unfoldable pub validate_pkts : List Packet → Cb → List Packet × Cb
validate_pkts [] c = ([], c)
validate_pkts (p ∷ ps) c =
    let c' = record c { retrans_data = sub32 c.retrans_data p.hdr.len } in
    (
      record p { hdr = record p.hdr { flags = no_flags } } ∷ ps,
      if p.hdr.flags.retrans then c' else c,
    )

unfoldable pub validate_first_pkt : Sock → Sock
validate_first_pkt s =
    let (pkts, c) = validate_pkts s.snd_buf.pkts s.cb in
    record s { cb = c; snd_buf = record s.snd_buf { pkts = pkts } }
