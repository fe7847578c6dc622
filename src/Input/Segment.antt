-- ===== src/Input/Segment.antt =====
-- `do_header_prediction` and `input` of udt/udt_cb_input.cpp: one datagram, from the check of its
-- size to the notifications.
use udt_boost.Base.{
  ℕ, ◌+◌, Bool, true, false, not, ◌&&◌, ◌||◌, if◌then◌else◌, ◌==◌, ltb, leb, is_empty, some, add32,
}
use udt_boost.Seq.{seq_gt, seq_le}
use udt_boost.Packet.{Packet, hdr_size}
use udt_boost.Packet.Wire.{ntoh}
use udt_boost.Buf.{acc, append_pkt, fin}
use udt_boost.Cb.{
  Cb, State, closed, listen, syn_sent, syn_received, established, close_wait, fin_wait_1, closing,
  last_ack, fin_wait_2, time_wait, connection_reset, s_keepidle,
}
use udt_boost.Cb.Congestion.{is_cwnd_full_open}
use udt_boost.Cb.Window.{update_rtt, reset_rexmt_timer}
use udt_boost.Sock.{Sock, on_cb}
use udt_boost.Options.Handle.{drop_acked_data}
use udt_boost.Output.Round.{output}
use udt_boost.Notify.{commit_notifies}
use udt_boost.Reass.{tcp_reass_or_append}
use udt_boost.Input.{drop_out_of_rcv_wnd_packet, handle_syn, handle_ack, handle_fin}

abbrev pub is_state : State → State → Bool
is_state closed closed = true
is_state listen listen = true
is_state syn_sent syn_sent = true
is_state syn_received syn_received = true
is_state established established = true
is_state close_wait close_wait = true
is_state fin_wait_1 fin_wait_1 = true
is_state closing closing = true
is_state last_ack last_ack = true
is_state fin_wait_2 fin_wait_2 = true
is_state time_wait time_wait = true
is_state _ _ = false

-- A plain ACK in sequence, with the window as it was, and nothing being retransmitted.
abbrev pub predicted : Packet → Cb → Bool
predicted p c =
    let f = p.hdr.flags in
    is_state c.state established
    && f.ack
    && not f.syn
    && not f.fin
    && not f.rst
    && p.hdr.seq == c.rcv_nxt
    && not (p.hdr.win == 0)
    && p.hdr.win == c.snd_wnd
    && c.snd_nxt == c.snd_max

-- `do_header_prediction`: a pure ack of new data, or pure data in sequence. `true` says that the
-- segment has been dealt with.
unfoldable pub do_header_prediction : Packet → Sock → Sock × Bool
do_header_prediction p s =
    let acked =
      on_cb (λ c. record c { flags = record c.flags { notify_write = true } })
        (on_cb reset_rexmt_timer (drop_acked_data p.hdr.ack s)) in
    let sent : Sock = if acked.snd_buf.cc == 0 then acked else (output acked).0 in
    let (b, taken) = append_pkt p s.rcv_buf.buf in
    let received = record s {
      rcv_buf = record s.rcv_buf { buf = b };
      cb = record s.cb {
        rcv_nxt = add32 s.cb.rcv_nxt p.hdr.len;
        flags = record s.cb.flags { delack = true; notify_read = true; packet_consumed = true };
      };
    } in
    let refused =
      on_cb (λ c. record c { flags = record c.flags { acknow = true; notify_read = true } }) s in
    if not (predicted p s.cb)
    then (s, false)
    else if p.hdr.len == 0
    then (if seq_gt p.hdr.ack s.cb.snd_una
          && seq_le p.hdr.ack s.cb.snd_max
          && is_cwnd_full_open s.cb
        then (sent, true)
        else (s, false))
    else if p.hdr.ack == s.cb.snd_una
        && is_empty s.rcv_buf.reasm_pkts
        && leb p.hdr.len (acc s.rcv_buf.buf)
    then (if taken then (received, true) else (refused, false))
    else (s, false)

-- The end of `input`'s body: the ack, and the FIN if it is the last thing in the receive buffer.
unfoldable pub ack_and_fin : Packet → Sock → Sock
ack_and_fin p s =
    let (s1, stop) = handle_ack p s in
    let s2 : Sock = if p.hdr.flags.ack then s1 else s in
    let ended : Sock = if fin s.rcv_buf.buf then on_cb handle_fin s2 else s2 in
    if p.hdr.flags.ack && stop then s2 else ended

-- The data, or what has a number of its own, goes to reassembly.
unfoldable pub take_data : Packet → Sock → Sock
take_data p s =
    let r = tcp_reass_or_append p (record { cb = s.cb; rcv_buf = s.rcv_buf }) in
    if not (p.hdr.len == 0) || (p.hdr.flags.syn || p.hdr.flags.fin)
    then record s { cb = r.cb; rcv_buf = r.rcv_buf }
    else s

-- The slow path.
unfoldable pub slow_path : Packet → Sock → Sock
slow_path p s =
    let (p', c, stop) = handle_syn p s.cb in
    let synced = record s { cb = c } in
    if p.hdr.flags.syn
    then (if stop then synced else ack_and_fin p' (take_data p' synced))
    else ack_and_fin p (take_data p s)

-- The body of `input` up to `the_end`, on a packet in host order.
unfoldable pub process : Packet → Sock → Sock
process p s =
    let reset =
      on_cb
        (λ c. record c {
          last_error = some connection_reset;
          flags = record c.flags { notify_drop = true };
        })
        s in
    let refused = on_cb (λ c. record c { flags = record c.flags { need_reset = true } }) reset in
    let (s1, out) = drop_out_of_rcv_wnd_packet p s in
    let (s2, done) = do_header_prediction p s1 in
    if is_state s.cb.state closed
    then (if p.hdr.flags.rst then s else refused)
    else if p.hdr.flags.rst
    then reset
    else if out
    then s1
    else if done
    then s2
    else slow_path p s2

-- What `input` notes of every segment of the right size.
abbrev pub note : Packet → Cb → Cb
note p c =
    update_rtt p.hdr.pseq
      (record c { pseq = p.hdr.seq; idle = 0; timers = record c.timers { keep = s_keepidle } })

-- `input`: `true` says that the packet now belongs to the connection. The packet comes with its
-- header in network order, and `bytes_received` counts the header.
unfoldable pub input : Packet → ℕ → Sock → Sock × Bool
input p bytes_received s =
    let p' : Packet = record p { hdr = ntoh p.hdr } in
    let s1 = commit_notifies (process p' (on_cb (note p') s)) in
    let consumed = s1.cb.flags.packet_consumed in
    let s2 = on_cb (λ c. record c { flags = record c.flags { packet_consumed = false } }) s1 in
    if ltb bytes_received hdr_size || p.hdr.flags.hp
    then (s, false)
    else if p'.hdr.len + p'.hdr.off == bytes_received
    then (s2, consumed)
    else (s, false)
