-- ===== src/Notify.antt =====
-- What the control block and the socket tell one another: `recv_data`, `dispatch_recv_operation`,
-- `on_readable`, `on_writable`, `on_connected`, `on_disconnected` and `cancel` of
-- udt/udt_socket.cpp; `respond` and `drop` of udt/udt_sub.cpp; `commit_notifies` of
-- udt/udt_cb_input.cpp.
pub mod Sent
pub mod Delivery
pub mod Counted
use udt_boost.Base.{
  ℕ, Bool, true, false, not, ◌&&◌, ◌||◌, if◌then◌else◌, ◌==◌, ltb, List, [], ◌∷◌, Option, none,
  some, length, u16,
}
use udt_boost.Packet.{Flags, Hdr, no_flags, hdr_size}
use udt_boost.Packet.Wire.{hton}
use udt_boost.Buf.{acc, above_lowat, copy}
use udt_boost.Cb.{Error, closed, disconnected, have_rcvd_fin}
use udt_boost.Sock.{
  Sock, SendOp, RecvOp, send_to, post_send, post_receive, post_connect, post_accept, post_shutdown,
  probe_mtu, cancel_mtu, cancel_next_layer, start_delay, cancel_delay, emit, on_cb,
  consume_pending_data,
}
use udt_boost.Output.Round.{output}

-- There is an error: `if (e)`.
abbrev pub failed : Option Error → Bool
failed none = false
failed (some e) = true

-- `dispatch_recv_operation`: bytes, or the error, go to the handler. `false` says that there was
-- neither.
unfoldable pub dispatch_recv_operation : RecvOp → Sock → Sock × Bool
dispatch_recv_operation op s =
    let (buf, bytes) = copy true op.buf_len true s.rcv_buf.buf in
    let s1 = record s { rcv_buf = record s.rcv_buf { buf = buf } } in
    if not (length bytes == 0) || failed s.cb.last_error
    then (emit (post_receive op.handler s.cb.last_error bytes) s1, true)
    else (s1, false)

-- The loop of `recv_data` over the pending operations: a request for more than there is waits for
-- the delay timer. `true` says that an operation was served.
unfoldable pub recv_ops_loop : List RecvOp → Sock → Sock × Bool
recv_ops_loop [] s = (record s { recv_ops = [] }, false)
recv_ops_loop (op ∷ ops) s =
    let (s', served) = dispatch_recv_operation op s in
    let (rest, _) = recv_ops_loop ops s' in
    if not (failed s.cb.last_error) && ltb s.rcv_buf.cc op.buf_len
    then (emit start_delay (record s { recv_ops = op ∷ ops }), false)
    else if served
    then (rest, true)
    else (record s' { recv_ops = op ∷ ops }, false)

unfoldable pub recv_data : Sock → Sock
recv_data s =
    let (s', served) = recv_ops_loop s.recv_ops s in
    if s.rcv_buf.cc == 0 && not (failed s.cb.last_error)
    then s
    else if not (failed s'.cb.last_error) && served
    then (output s').0
    else s'

-- `handle_delay_recv_operation`, with the timer not cancelled and the socket alive.
unfoldable pub delayed_loop : List RecvOp → Sock → Sock
delayed_loop [] s = record s { recv_ops = [] }
delayed_loop (op ∷ ops) s =
    let (s', served) = dispatch_recv_operation op s in
    let rest = delayed_loop ops s' in if served then rest else record s' { recv_ops = op ∷ ops }

unfoldable pub handle_delay_recv_operation : Sock → Sock
handle_delay_recv_operation s = delayed_loop s.recv_ops s

unfoldable pub on_readable : Sock → Sock
on_readable s = if s.attached then recv_data s else s

unfoldable pub on_writable : Sock → Sock
on_writable s =
    let (s', consumed) = consume_pending_data s in
    if s.attached then (if consumed == 0 then s' else (output s').0) else s

-- `do_probe_mtu`: a prober is there since `create`.
abbrev pub do_probe_mtu : Sock → Sock
do_probe_mtu s = emit (probe_mtu s.peer_ep) s

-- The handler of the connect, or of the accept, is told; then the send buffer begins at
-- `m_snd_nxt`.
abbrev pub tell_connected : Option ℕ → Option ℕ → Sock → Sock
tell_connected (some h) acc s = record (emit (post_connect h s.cb.last_error) s) {
  connect_handler = none;
}
tell_connected none (some h) s =
    do_probe_mtu
      (record (emit (post_accept h s.cb.last_error s.peer_ep) s) { accept_handler = none })
tell_connected none none s = s

unfoldable pub on_connected : Sock → Sock
on_connected s =
    let s1 = tell_connected s.connect_handler s.accept_handler s in
    if s.attached then record s1 { snd_buf = record s1.snd_buf { seq = s1.cb.snd_nxt } } else s

-- `cancel_next_layer`.
abbrev pub cancel_layers : Sock → Sock
cancel_layers s =
    let s1 = if s.probing then emit cancel_mtu s else s in
    let s2 = if s.attached then emit cancel_next_layer s1 else s1 in emit cancel_delay s2

-- `cancel`: every pending operation and handler is forgotten.
unfoldable pub cancel : Sock → Sock
cancel s = record (cancel_layers s) {
  send_ops = [];
  recv_ops = [];
  accept_handler = none;
  connect_handler = none;
  shutdown_handler = none;
  pending_data = 0;
}

unfoldable pub fail_sends : List SendOp → Sock → Sock
fail_sends [] s = s
fail_sends (op ∷ ops) s = fail_sends ops (emit (post_send op.handler (some disconnected) 0) s)

unfoldable pub tell_disconnected : Option ℕ → Option ℕ → Sock → Sock
tell_disconnected (some h) acc s = emit (post_connect h (some disconnected)) s
tell_disconnected none (some h) s = emit (post_accept h (some disconnected) s.peer_ep) s
tell_disconnected none none s = s

unfoldable pub tell_shutdown : Option ℕ → Sock → Sock
tell_shutdown none s = s
tell_shutdown (some h) s = emit (post_shutdown h (some disconnected)) s

unfoldable pub on_disconnected : Sock → Sock
on_disconnected s =
    let s1 = recv_data (fail_sends s.send_ops s) in
    let s2 = tell_disconnected s1.connect_handler s1.accept_handler s1 in
    if s.attached then cancel (tell_shutdown s2.shutdown_handler s2) else s

-- `drop(e)` of the control block.
unfoldable pub drop : Option Error → Sock → Sock
drop e s =
    let s1 =
      on_disconnected
        (on_cb (λ c. record c { last_error = if failed e then e else c.last_error }) s) in
    on_cb (λ c. record c { state = closed }) s1

-- `respond`: a segment without data. `reset_peer` sends one with RST.
unfoldable pub respond : ℕ → ℕ → Flags → Sock → Sock
respond ack seq flags s =
    let hdr : Hdr = record {
      ver = 0;
      flags = flags;
      win = u16 (acc s.rcv_buf.buf);
      len = 0;
      off = hdr_size;
      seq = seq;
      ack = ack;
      pseq = s.cb.pseq;
    } in
    emit (send_to (hton hdr) [] []) s

abbrev pub reset_peer : Sock → Sock
reset_peer s = respond s.cb.rcv_nxt s.cb.snd_nxt (record no_flags { rst = true }) s

-- The five parts of `commit_notifies`.
abbrev pub commit_output : Sock → Sock
commit_output s = if s.cb.flags.acknow || s.cb.flags.need_output then (output s).0 else s

abbrev pub commit_reset : Sock → Sock
commit_reset s =
    if s.cb.flags.need_reset
    then on_cb (λ c. record c { flags = record c.flags { need_reset = false } }) (reset_peer s)
    else s

abbrev pub commit_read : Sock → Sock
commit_read s =
    let s1 = if above_lowat s.rcv_buf.buf || have_rcvd_fin s.cb.state then on_readable s else s in
    if s.cb.flags.notify_read
    then on_cb (λ c. record c { flags = record c.flags { notify_read = false } }) s1
    else s

abbrev pub commit_write : Sock → Sock
commit_write s =
    if s.cb.flags.notify_write
    then on_cb (λ c. record c { flags = record c.flags { notify_write = false } }) (on_writable s)
    else s

abbrev pub commit_drop : Sock → Sock
commit_drop s =
    if s.cb.flags.notify_drop
    then on_cb (λ c. record c { flags = record c.flags { notify_drop = false } })
        (drop s.cb.last_error s)
    else s

unfoldable pub commit_notifies : Sock → Sock
commit_notifies s = commit_drop (commit_write (commit_read (commit_reset (commit_output s))))
