-- ===== src/Output/Round.antt =====
-- `udt_cb::output` of udt/udt_cb_output.cpp: one round from the label `again`, and the rounds.
use udt_boost.Base.{
  ℕ, zero, suc, ◌+◌, ◌-◌, ◌*◌, ◌/◌, Bool, false, not, ◌&&◌, ◌||◌, if◌then◌else◌, ◌==◌, ltb, leb,
  List, [], Option, none, some, length, take, min, add32, sub32, u16, u32, is_neg32, lt32s, lt16s,
}
use udt_boost.Seq.{seq_lt, seq_gt}
use udt_boost.Packet.{Flags, Hdr, Packet, hdr_size, max_header_size, data_ptr}
use udt_boost.Packet.Wire.{hton}
use udt_boost.Buf.{acc, above_lowat}
use udt_boost.Cb.{Cb, State, closed, have_snd_fin, tcp_maxwin}
use udt_boost.Cb.Rtt.{can_persist, enter_persist}
use udt_boost.Cb.Congestion.{slow_start, can_send_bytes}
use udt_boost.Cb.Window.{leave_persist}
use udt_boost.Sock.{Sock, send_to, emit, on_cb, total_buffer_size, consume_pending_data}
use udt_boost.Options.{compose_options}
use udt_boost.Output.{s_tcp_outflags, Picked, get_snd_pkt}

-- How much may be sent in this round; pending data is moved to the send buffer first, if what is
-- buffered does not fill it. The comparison with `m_snd_nxt` is of unsigned numbers.
unfoldable pub refill : Sock → Sock
refill s =
    let can_send = can_send_bytes s.cb in
    if not (s.pending_data == 0)
      && (ltb s.snd_buf.seq (add32 can_send s.cb.snd_nxt) || not (above_lowat s.snd_buf))
    then (consume_pending_data s).0
    else s

-- In the persist state at least one packet is forced out.
unfoldable pub allowance : Cb → ℕ
allowance c =
    let can_send = can_send_bytes c in
    if c.force && ltb can_send c.maxseg then c.maxseg else can_send

-- The packet to send, if the allowance is a segment; else a closed peer window takes `m_snd_nxt`
-- back and stops the retransmit timer.
unfoldable pub pick : ℕ → Cb → List Packet → Picked
pick can_send c pkts =
    let back = record c { snd_nxt = c.snd_una; timers = record c.timers { rexmt = 0 } } in
    let kept : Picked = record { cb = c; pkts = pkts; pkt = none } in
    let closed_window : Picked = record { cb = back; pkts = pkts; pkt = none } in
    if leb c.maxseg can_send
    then get_snd_pkt can_send c pkts
    else if lt32s c.snd_wnd c.maxseg
    then closed_window
    else kept

-- `pkt->hdr.uh_len`, or 0 if there is no packet.
abbrev pub pkt_len : Option Packet → ℕ
pkt_len none = 0
pkt_len (some p) = p.hdr.len

-- A packet found outside the persist state ends it.
unfoldable pub unpersist : Option Packet → Cb → Cb
unpersist none c = c
unpersist (some p) c = if c.force then c else leave_persist c

-- More is to be sent after this packet.
unfoldable pub sendalot : Option Packet → ℕ → Cb → Bool
sendalot none can_send c = false
sendalot (some p) can_send c = not c.force && ltb p.hdr.len can_send

-- The flags of the state; a FIN is held back while data before it is unsent.
unfoldable pub out_flags : ℕ → Sock → Flags
out_flags len s =
    let flags = s_tcp_outflags s.cb.state in
    if seq_lt (add32 s.cb.snd_nxt len) (add32 s.snd_buf.seq s.pending_data)
    then record flags { fin = false }
    else flags

-- The window that may be advertised is larger than the advertised one by two segments, or by half of
-- the buffer: `adv >= 2 * maxseg || 2 * adv >= hiwat`, of `long`s.
unfoldable pub window_update : Sock → Bool
window_update s =
    let rcv_win = acc s.rcv_buf.buf in
    let adv = sub32 (min rcv_win tcp_maxwin) (sub32 s.cb.rcv_adv s.cb.rcv_nxt) in
    not (is_neg32 rcv_win)
    && not (rcv_win == 0)
    && (not (lt32s adv (2 * s.cb.maxseg)) || not (lt32s (u32 (2 * adv)) s.rcv_buf.hiwat))

-- There is a reason to send a segment.
unfoldable pub must_send : ℕ → Flags → Sock → Bool
must_send len flags s =
    not (len == 0)
    || window_update s
    || s.cb.flags.acknow
    || (flags.syn || flags.rst)
    || (flags.fin && (not s.cb.flags.sentfin || s.cb.snd_nxt == s.cb.snd_una))

-- A SYN goes out at `m_iss`, and a FIN that was sent before at its old number.
unfoldable pub rewind : Flags → Cb → Cb
rewind flags c =
    let d = if flags.syn then record c { snd_nxt = c.iss } else c in
    if flags.fin && have_snd_fin d && d.snd_nxt == d.snd_max
    then record d { snd_nxt = sub32 d.snd_nxt 1 }
    else d

-- The window to advertise. `rcv_win` is a `long`.
unfoldable pub advertise : ℕ → Sock → ℕ
advertise rcv_win s =
    let silly = lt32s rcv_win (s.rcv_buf.hiwat / 4) && lt32s rcv_win s.cb.maxseg in
    let w = if silly then 0 else rcv_win in
    let v = if lt32s tcp_maxwin w then tcp_maxwin else w in
    let promised = sub32 s.cb.rcv_adv s.cb.rcv_nxt in if lt32s v promised then promised else v

-- The options go with an ACK, in the 40 bytes that `buffer_` has behind the header.
unfoldable pub out_options : Flags → Sock → List ℕ
out_options flags s =
    if flags.ack
    then compose_options s.cb.snd_cwnd s.rcv_buf.reasm_pkts (max_header_size - hdr_size)
    else []

unfoldable pub out_hdr : ℕ → Flags → ℕ → List ℕ → Sock → Hdr
out_hdr len flags rcv_win opts s = record {
  ver = 0;
  flags = flags;
  win = u16 rcv_win;
  len = u16 len;
  off = hdr_size + length opts;
  seq =
      if not (len == 0) || (flags.syn || flags.fin) || not (s.cb.timers.persist == 0)
      then s.cb.snd_nxt
      else s.cb.snd_max;
  ack = s.cb.rcv_nxt;
  pseq = s.cb.pseq;
}

abbrev count_flag : Bool → ℕ
count_flag b = if b then 1 else 0

-- `m_snd_nxt` past the segment; a segment that goes past all others is timed, if none is.
unfoldable pub advance_nxt : ℕ → Flags → Cb → Cb
advance_nxt len flags c =
    let nxt = add32 (add32 (add32 c.snd_nxt (count_flag flags.syn)) (count_flag flags.fin)) len in
    let d = record c {
      snd_nxt = nxt;
      flags = record c.flags { sentfin = flags.fin || c.flags.sentfin };
    } in
    let first = record d { snd_max = nxt } in
    if seq_gt nxt c.snd_max
    then (if c.rtt == 0 then record first { rtt = 1; rtseq = c.snd_nxt } else first)
    else d

-- The retransmit timer runs while anything is unacknowledged.
unfoldable pub start_rexmt : Cb → Cb
start_rexmt c =
    if c.timers.rexmt == 0 && not (c.snd_nxt == c.snd_una)
    then leave_persist (record c { timers = record c.timers { rexmt = c.rxtcur } })
    else c

unfoldable pub account : ℕ → Flags → Cb → Cb
account len flags c =
    if not c.force || c.timers.persist == 0
    then start_rexmt (advance_nxt len flags c)
    else if seq_gt (add32 c.snd_nxt len) c.snd_max
    then record c { snd_max = add32 c.snd_nxt len }
    else c

-- The furthest edge advertised is remembered, and what was owed to the peer has been sent.
unfoldable pub settle : ℕ → Cb → Cb
settle rcv_win c =
    let edge = add32 c.rcv_nxt rcv_win in
    let d = record c {
      flags = record c.flags { acknow = false; delack = false; need_output = false };
    } in
    if not (is_neg32 rcv_win) && not (rcv_win == 0) && seq_gt edge c.rcv_adv
    then record d { rcv_adv = edge }
    else d

abbrev pub out_data : Option Packet → List ℕ
out_data none = []
out_data (some p) = take p.hdr.len (data_ptr p)

-- From the label `send`. A segment with data jumps over the initialisation of `rcv_win`, which then
-- is what its memory holds.
unfoldable pub send_segment : Option Packet → Flags → Sock → Sock
send_segment pkt flags s =
    let len = pkt_len pkt in
    let s1 = on_cb (rewind flags) s in
    let rcv_win = advertise (if len == 0 then acc s.rcv_buf.buf else s.junk) s1 in
    let opts = out_options flags s1 in
    let hdr = out_hdr len flags rcv_win opts s1 in
    let s2 = on_cb (account len flags) (record s1 { junk = rcv_win }) in
    on_cb (settle rcv_win) (emit (send_to (hton hdr) opts (out_data pkt)) s2)

-- The state after the choice of the packet.
abbrev pub take_picked : Picked → Sock → Sock
take_picked picked s = record s {
  cb = unpersist picked.pkt picked.cb;
  snd_buf = record s.snd_buf { pkts = picked.pkts };
}

-- Nothing is to be sent: with data waiting and no timer running, the persist state is entered.
unfoldable pub send_nothing : Sock → Sock
send_nothing s =
    if can_persist (total_buffer_size s) s.cb
    then on_cb (λ c. enter_persist (record c { rxtshift = 0 })) s
    else s

-- The second half of a round, with `can_send` bytes allowed and `pkt` chosen.
unfoldable pub send_or_not : ℕ → Option Packet → Sock → Sock × ℕ × Bool
send_or_not can_send pkt s =
    let flags = out_flags (pkt_len pkt) s in
    if must_send (pkt_len pkt) flags s
    then (send_segment pkt flags s, pkt_len pkt, sendalot pkt can_send s.cb)
    else (send_nothing s, 0, false)

-- One round: the state, the bytes sent, and whether to go on.
unfoldable pub output_round : Sock → Sock × ℕ × Bool
output_round s =
    let s1 = refill s in
    let can_send = allowance s1.cb in
    let picked = pick can_send s1.cb s1.snd_buf.pkts in
    send_or_not can_send picked.pkt (take_picked picked s1)

-- `send_packets_clamp` rounds at most.
unfoldable pub output_loop : ℕ → Sock → Sock × ℕ
output_loop zero s = (s, 0)
output_loop (suc clamp) s =
    let (s', len, more) = output_round s in
    let (rest, sent) = output_loop clamp s' in if more then (rest, len + sent) else (s', len)

abbrev pub send_packets_clamp : ℕ
send_packets_clamp = 10

-- `output`: nothing is sent in the state CLOSED; an idle connection starts slowly again.
unfoldable pub restart : Sock → Sock
restart s =
    if s.cb.snd_max == s.cb.snd_una && not (lt16s s.cb.idle s.cb.rxtcur)
    then on_cb slow_start s
    else s

unfoldable pub output_in : State → Sock → Sock × ℕ
output_in closed s = (s, 0)
output_in _ s = output_loop send_packets_clamp (restart s)

unfoldable pub output : Sock → Sock × ℕ
output s = output_in s.cb.state s
