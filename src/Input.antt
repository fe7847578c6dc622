-- ===== src/Input.antt =====
-- Receiving a segment: the handlers of udt/udt_cb_input.cpp that move the connection's state.
pub mod Segment
pub mod Quiet
pub mod Growth
pub mod Reliable
pub mod Acks
pub mod Retrans
pub mod Counted
pub mod Fin
use udt_boost.Base.{
  ℕ, ◌+◌, ◌-◌, ◌*◌, ◌<◌, Bool, true, false, not, ◌&&◌, ◌||◌, if◌then◌else◌, ◌==◌, ltb, leb, List,
  [], ◌∷◌, is_empty, Option, none, some, length, add32, sub32, u16, lt16s, is_neg32, max32s,
}
use udt_boost.Seq.{seq_gt, seq_le}
use udt_boost.Packet.{Flags, Hdr, Packet, hdr_size}
use udt_boost.Buf.{Buf, acc, append_pkt}
use udt_boost.Cb.{
  Cb, State, Error, closed, listen, syn_sent, syn_received, established, close_wait, fin_wait_1,
  closing, last_ack, fin_wait_2, time_wait, eof, malformed_packet, have_rcvd_fin, canceltimers,
  tcp_sendseqinit, tcp_rcvseqinit, s_iss, s_tcprexmtthresh, tcptv_keep_init, tcptv_msl,
}
use udt_boost.Cb.Rtt.{xmit_timer}
use udt_boost.Cb.Congestion.{handle_packet_lost, incr_snd_cwnd, bytes_inflight, is_cwnd_full_open}
use udt_boost.Cb.Window.{is_old_ack, is_max_ack, can_fast_rexmt, update_snd_wnd, reset_rexmt_timer}
use udt_boost.Sock.{Sock, on_cb}
use udt_boost.Options.Handle.{handle_options, drop_acked_data}
use udt_boost.Output.{validate_first_pkt}
use udt_boost.Output.Round.{output}
use udt_boost.Notify.{on_connected}

-- `2 * TCPTV_MSL`.
abbrev pub two_msl : ℕ
two_msl = 2 * tcptv_msl

-- `drop_out_of_rcv_wnd_packet`: a packet that begins before `m_rcv_nxt`, or ends past the receive
-- window, is not taken. `true` says so, and an ack is owed.
unfoldable pub set_rcv_wnd : Sock → Cb
set_rcv_wnd s =
    let win = acc s.rcv_buf.buf in
    let promised = sub32 s.cb.rcv_adv s.cb.rcv_nxt in
    record s.cb { rcv_wnd = max32s (if is_neg32 win then 0 else win) promised }

-- `todrop > 0`, of an `int`.
abbrev pub pos32 : ℕ → Bool
pos32 w = not (is_neg32 w) && not (w == 0)

unfoldable pub drop_out_of_rcv_wnd_packet : Packet → Sock → Sock × Bool
drop_out_of_rcv_wnd_packet p s =
    let c = set_rcv_wnd s in
    let before = sub32 c.rcv_nxt p.hdr.seq in
    let todrop = if p.hdr.flags.syn then sub32 before 1 else before in
    let past = sub32 (add32 p.hdr.seq p.hdr.len) (add32 c.rcv_nxt c.rcv_wnd) in
    let dropped = record s { cb = record c { flags = record c.flags { acknow = true } } } in
    if pos32 todrop || pos32 past then (dropped, true) else (record s { cb = c }, false)

-- `handle_syn`: the packet, past the number that the SYN takes, and the control block. `true` says
-- that the segment is not to be processed further.
unfoldable pub syn_passive : Packet → Cb → Cb
syn_passive p c = record (tcp_rcvseqinit (record c { irs = p.hdr.seq })) {
  state = syn_received;
  timers = record c.timers { keep = tcptv_keep_init };
}

unfoldable pub syn_state : State → Packet → Cb → Cb × Bool
syn_state listen p c = (syn_passive p (tcp_sendseqinit (record c { iss = s_iss })), false)
syn_state syn_sent p c = (syn_passive p c, false)
syn_state syn_received p c = (syn_passive p c, false)
syn_state established p c =
    (record c { timers = record c.timers { keep = tcptv_keep_init } }, false)
syn_state _ p c = (c, true)

unfoldable pub handle_syn : Packet → Cb → Packet × Cb × Bool
handle_syn p c =
    let p' : Packet = record p { hdr = record p.hdr { seq = add32 p.hdr.seq 1 } } in
    let d = record c {
      flags = record c.flags { acknow = true };
      snd_wnd = p'.hdr.win;
      snd_wl1 = sub32 p'.hdr.seq 1;
      snd_wl2 = sub32 p'.hdr.ack 1;
    } in
    let (e, stop) = syn_state c.state p' d in (p', e, stop)

-- The first `switch` of `update_ack_state`: everything that was sent is acknowledged.
unfoldable pub ack_of_syn : State → Sock → Sock
ack_of_syn syn_sent s =
    on_cb (λ c. record c { state = syn_received; flags = record c.flags { acknow = true } }) s
ack_of_syn syn_received s = on_connected (
    on_cb (λ c. if c.rtt == 0 then c else xmit_timer c.rtt c)
      (on_cb (λ c. record c { state = established }) s))
ack_of_syn _ s = s

-- The second, if a FIN was sent.
unfoldable pub ack_of_fin : State → Cb → Cb
ack_of_fin fin_wait_1 c = record c { state = fin_wait_2 }
ack_of_fin closing c =
    let d = canceltimers c in
    record d {
      state = time_wait;
      timers = record d.timers { msl2 = two_msl };
      flags = record c.flags { notify_drop = true };
    }
ack_of_fin last_ack c = record c { state = closed; flags = record c.flags { notify_drop = true } }
ack_of_fin _ c = c

unfoldable pub update_ack_state : Sock → Sock
update_ack_state s =
    let s1 = ack_of_syn s.cb.state s in
    if s1.cb.flags.sentfin then on_cb (ack_of_fin s1.cb.state) s1 else s1

-- `do_fast_rexmt`: the first packet is sent again within a window of one more segment than is in
-- flight; then the window and `m_snd_nxt` are as before.
unfoldable pub do_fast_rexmt : ℕ → Sock → Sock
do_fast_rexmt ack s =
    let old_nxt = s.cb.snd_nxt in
    let lost = handle_packet_lost s.clock s.cb in
    let c = record lost { timers = record lost.timers { rexmt = 0 }; snd_nxt = ack } in
    let d = record c { snd_cwnd = add32 (bytes_inflight c) c.maxseg } in
    let (s', _) = output (validate_first_pkt (record s { cb = d })) in
    on_cb (λ c. record c { snd_cwnd = lost.snd_cwnd; snd_nxt = old_nxt }) s'

-- The two branches of `handle_ack` on an acceptable ack. A duplicate one: the third sends again.
unfoldable pub dup_ack : ℕ → Sock → Sock × Bool
dup_ack ack s =
    let counted = on_cb (λ c. record c { dupacks = u16 (c.dupacks + 1) }) s in
    if s.cb.timers.rexmt == 0
    then (on_cb (λ c. record c { dupacks = 0 }) s, false)
    else if can_fast_rexmt counted.cb
    then (do_fast_rexmt ack (on_cb (λ c. record c { rtt = 0 }) counted), true)
    else if lt16s s_tcprexmtthresh counted.cb.dupacks
    then (on_cb (λ c. record c { flags = record c.flags { need_output = true } }) counted, true)
    else (counted, false)

unfoldable pub new_ack : ℕ → ℕ → Sock → Sock
new_ack ack win s =
    let s1 =
      on_cb
        (λ c. record (incr_snd_cwnd c) {
          flags = record c.flags { notify_write = true };
          dupacks = 0;
        })
        s in
    on_cb (λ c. record (update_snd_wnd win c) { flags = record c.flags { need_output = true } })
      (drop_acked_data ack s1)

abbrev pub same_ack : ℕ → ℕ → Sock → Sock × Bool
same_ack ack win s =
    let moved =
      on_cb (λ c. record (update_snd_wnd win c) { flags = record c.flags { need_output = true } })
        s in
    if win == s.cb.snd_wnd then dup_ack ack s else (moved, false)

-- What precedes them: an ack of all that was sent moves the state, and the options are read.
unfoldable pub before_ack : Packet → Sock → Sock
before_ack p s =
    let s1 = if is_max_ack p.hdr.ack s.cb then update_ack_state s else s in
    if ltb hdr_size p.hdr.off
    then handle_options (p.hdr.off - hdr_size) p.body (p.hdr.off - hdr_size) s1
    else s1

-- `handle_ack`: `true` says that the segment is not to be processed further.
unfoldable pub handle_ack : Packet → Sock → Sock × Bool
handle_ack p s =
    let malformed =
      on_cb
        (λ c. record c {
          last_error = some malformed_packet;
          flags = record c.flags { notify_drop = true; need_reset = true };
        })
        s in
    let s1 = before_ack p s in
    let (s2, stop) = same_ack p.hdr.ack p.hdr.win s1 in
    let fresh = new_ack p.hdr.ack p.hdr.win s1 in
    if is_old_ack p.hdr.ack s.cb
    then (s, true)
    else if seq_gt p.hdr.ack s.cb.snd_max
    then (malformed, true)
    else if p.hdr.ack == s1.cb.snd_una
    then (if stop then (s2, true) else (on_cb reset_rexmt_timer s2, false))
    else (on_cb reset_rexmt_timer fresh, false)

-- `handle_fin`: the first FIN takes a number; the state moves towards the close.
unfoldable pub fin_state : State → Cb → Cb
fin_state established c = record c { state = close_wait }
fin_state close_wait c = record c { state = close_wait }
fin_state fin_wait_1 c = record c { state = closing }
fin_state closing c = record c { state = closing }
fin_state fin_wait_2 c = record c {
  state = time_wait;
  timers = record c.timers { msl2 = two_msl };
  flags = record c.flags { notify_drop = true };
}
fin_state time_wait c = record c {
  state = time_wait;
  timers = record c.timers { msl2 = two_msl };
  flags = record c.flags { notify_drop = true };
}
fin_state _ c = c

unfoldable pub handle_fin : Cb → Cb
handle_fin c =
    let first = record c {
      rcv_nxt = add32 c.rcv_nxt 1;
      flags = record c.flags { acknow = true; notify_read = true };
      last_error = some eof;
    } in
    fin_state c.state (if have_rcvd_fin c.state then c else first)
