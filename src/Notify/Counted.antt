-- ===== src/Notify/Counted.antt =====
-- The count of the retransmitted bytes when the socket is told, `commit_notifies` of
-- udt/udt_cb_input.cpp.
use udt_boost.Base.{
  ℕ, ◌≡◌, refl, ap, not, ◌&&◌, ◌||◌, ◌==◌, if◌then◌else◌, List, [], ◌∷◌, Option, none, some, arith,
  if_ind,
}
use udt_boost.Buf.{above_lowat}
use udt_boost.Cb.{Error, have_rcvd_fin}
use udt_boost.Sock.{Sock, SendOp, RecvOp, consume_pending_data}
use udt_boost.Sock.Counted.{carry}
use udt_boost.Output.Frame.{frame-output, frame-consume_pending_data}
use udt_boost.Output.Round.{output}
use udt_boost.Output.Retrans.{output-IsCounted, consume_pending-IsCounted}
use udt_boost.Input.Acks.{IsReady, ready}
use udt_boost.Notify.{
  failed, dispatch_recv_operation, recv_ops_loop, recv_data, on_readable, on_writable, cancel,
  fail_sends, tell_disconnected, tell_shutdown, on_disconnected, drop, respond, commit_output,
  commit_reset, commit_read, commit_write, commit_notifies,
}

-- A step that leaves the control block and the send buffer alone.
Quiet : Sock → Sock → Type 0
Quiet s s' = (s'.cb ≡ s.cb) × (s'.snd_buf ≡ s.snd_buf)

still : {s s' : Sock} → Quiet s s' → IsReady s → IsReady s'
unfolding Quiet
still (e, b) r = record {
  counted = carry (ap (λ c. c.retrans_data) e) b r.counted;
  size = let m = ap (λ c. c.maxseg) e in omega (arith, m, r.size);
}

pub output-IsReady : (s : Sock) → IsReady s → IsReady (output s).0
output-IsReady s r = record {
  counted = output-IsCounted s r.size r.counted;
  size = let m = ap (λ f. f.cb.maxseg) (frame-output s) in omega (arith, m, r.size);
}

dispatch-Quiet : (op : RecvOp) (s : Sock) → Quiet s (dispatch_recv_operation op s).0
unfolding dispatch_recv_operation Quiet
dispatch-Quiet op s = (ground arith, ground arith)

recv_ops-Quiet : (ops : List RecvOp) (s : Sock) → Quiet s (recv_ops_loop ops s).0
unfolding recv_ops_loop Quiet
recv_ops-Quiet [] s = (refl, refl)
recv_ops-Quiet (op ∷ ops) s =
    let one = dispatch-Quiet op s in
    let rest = recv_ops-Quiet ops (dispatch_recv_operation op s).0 in
    (ground (arith, one, rest), ground (arith, one, rest))

recv_data-IsReady : (s : Sock) → IsReady s → IsReady (recv_data s)
unfolding recv_data
recv_data-IsReady s r =
    let s' = (recv_ops_loop s.recv_ops s).0 in
    let r' = still (recv_ops-Quiet s.recv_ops s) r in
    if_ind IsReady (s.rcv_buf.cc == 0 && not (failed s.cb.last_error)) r (
      if_ind IsReady (not (failed s'.cb.last_error) && (recv_ops_loop s.recv_ops s).1)
        (output-IsReady s' r') r')

on_writable-IsReady : (s : Sock) → IsReady s → IsReady (on_writable s)
unfolding on_writable
on_writable-IsReady s r =
    let s' = (consume_pending_data s).0 in
    let m = ap (λ f. f.cb.maxseg) (frame-consume_pending_data s) in
    let r' : IsReady s' = record {
      counted = consume_pending-IsCounted s r.size r.counted;
      size = omega (arith, m, r.size);
    } in
    if_ind IsReady s.attached
      (if_ind IsReady ((consume_pending_data s).1 == 0) r' (output-IsReady s' r')) r

fail_sends-Quiet : (ops : List SendOp) (s : Sock) → Quiet s (fail_sends ops s)
unfolding fail_sends Quiet
fail_sends-Quiet [] s = (refl, refl)
fail_sends-Quiet (op ∷ ops) s = fail_sends-Quiet ops _

disconnected-Quiet : (a b : Option ℕ) (s : Sock) → Quiet s (tell_disconnected a b s)
unfolding tell_disconnected Quiet
disconnected-Quiet (some h) b s = (refl, refl)
disconnected-Quiet none (some h) s = (refl, refl)
disconnected-Quiet none none s = (refl, refl)

shutdown-Quiet : (a : Option ℕ) (s : Sock) → Quiet s (tell_shutdown a s)
unfolding tell_shutdown Quiet
shutdown-Quiet none s = (refl, refl)
shutdown-Quiet (some h) s = (refl, refl)

cancel-Quiet : (s : Sock) → Quiet s (cancel s)
unfolding cancel Quiet
cancel-Quiet s = (ground arith, ground arith)

on_disconnected-IsReady : (s : Sock) → IsReady s → IsReady (on_disconnected s)
unfolding on_disconnected
on_disconnected-IsReady s r =
    let r1 = recv_data-IsReady _ (still (fail_sends-Quiet s.send_ops s) r) in
    let s1 = recv_data (fail_sends s.send_ops s) in
    let r2 = still (disconnected-Quiet s1.connect_handler s1.accept_handler s1) r1 in
    let s2 = tell_disconnected s1.connect_handler s1.accept_handler s1 in
    let r3 = still (shutdown-Quiet s2.shutdown_handler s2) r2 in
    if_ind IsReady s.attached (still (cancel-Quiet _) r3) r

drop-IsReady : (e : Option Error) (s : Sock) → IsReady s → IsReady (drop e s)
unfolding drop
drop-IsReady e s r =
    let r1 =
      on_disconnected-IsReady _ (
        ready (λ c. record c { last_error = if failed e then e else c.last_error }) s refl refl
          r) in
    record { counted = carry refl refl r1.counted; size = r1.size }

-- What the socket is told leaves the counts, and the segment size.
pub commit_notifies-IsReady : (s : Sock) → IsReady s → IsReady (commit_notifies s)
unfolding commit_notifies respond on_readable
commit_notifies-IsReady s r =
    let r1 : IsReady (commit_output s) =
      if_ind IsReady (s.cb.flags.acknow || s.cb.flags.need_output) (output-IsReady s r) r in
    let s1 = commit_output s in
    let r2 : IsReady (commit_reset s1) =
      if_ind IsReady s1.cb.flags.need_reset
        (record { counted = carry refl refl r1.counted; size = r1.size }) r1 in
    let s2 = commit_reset s1 in
    let read : IsReady
        (if above_lowat s2.rcv_buf.buf || have_rcvd_fin s2.cb.state then on_readable s2 else s2) =
      if_ind IsReady (above_lowat s2.rcv_buf.buf || have_rcvd_fin s2.cb.state)
        (if_ind IsReady s2.attached (recv_data-IsReady s2 r2) r2) r2 in
    let r3 : IsReady (commit_read s2) =
      if_ind IsReady s2.cb.flags.notify_read
        (record { counted = carry refl refl read.counted; size = read.size }) r2 in
    let s3 = commit_read s2 in
    let written = on_writable-IsReady s3 r3 in
    let r4 : IsReady (commit_write s3) =
      if_ind IsReady s3.cb.flags.notify_write
        (record { counted = carry refl refl written.counted; size = written.size }) r3 in
    let s4 = commit_write s3 in
    let dropped = drop-IsReady s4.cb.last_error s4 r4 in
    if_ind IsReady s4.cb.flags.notify_drop
      (record { counted = carry refl refl dropped.counted; size = dropped.size }) r4
