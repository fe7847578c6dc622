-- ===== src/Notify/Delivery.antt =====
-- The received stream on its way to the user: `recv_data`, `dispatch_recv_operation` and
-- `handle_delay_recv_operation` of udt/udt_socket.cpp.
use udt_boost.Base.{
  ℕ, ◌≡◌, refl, sym, ap, ◌∙◌, true, not, ◌&&◌, ◌||◌, List, [], ◌∷◌, ◌++◌, arith, Bool-cases, inl,
  inr, append_assoc, length, ◌==◌, ltb,
}
use udt_boost.Buf.{copy}
use udt_boost.Buf.Queue.{IsQueue, contents, copy-Takes}
use udt_boost.Sock.{Sock, RecvOp, post_receive, start_delay}
use udt_boost.Output.Round.{output}
use udt_boost.Output.Frame.{frame-output}
use udt_boost.Notify.{
  failed, dispatch_recv_operation, recv_ops_loop, recv_data, delayed_loop,
  handle_delay_recv_operation,
}
use udt_boost.Notify.Sent.{delivered-append, given, given-emit, given-output}

-- The stream that has arrived: what the user was given, and what the receive buffer holds.
abbrev pub received : Sock → List ℕ
received s = given s ++ contents s.rcv_buf.buf

-- The buffer still has no gaps up to `stop`, and no byte is lost, doubled or out of its place.
pub record Conserves (stop : ℕ) (s s' : Sock) : Type 0 where
  pub start : ℕ
  pub kept : IsQueue start stop s'.rcv_buf.buf
  pub same : received s' ≡ received s

no_bytes : (bytes : List ℕ) → length bytes ≡ 0 → bytes ≡ []
no_bytes [] e = refl
no_bytes (x ∷ xs) e = absurd (omega (arith, e))

dispatch-Conserves :
    (start stop : ℕ) (op : RecvOp) (s : Sock)
    → IsQueue start stop s.rcv_buf.buf
    → Conserves stop s (dispatch_recv_operation op s).0
unfolding dispatch_recv_operation
dispatch-Conserves start stop op s q =
    let (buf, bytes) = copy true op.buf_len true s.rcv_buf.buf in
    let (all, _, kept) = copy-Takes start stop op.buf_len s.rcv_buf.buf q in
    let e = post_receive op.handler s.cb.last_error bytes in
    elim (Bool-cases (not (length bytes == 0) || failed s.cb.last_error)) [
      | inl t ↦ rw t (record {
        start = _;
        kept = kept;
        same =
            ap (λ bs. bs ++ contents buf) (delivered-append s.effects e)
            ∙ append_assoc (given s) bytes (contents buf)
            ∙ ap (λ bs. given s ++ bs) all;
      })
      | inr t ↦
          let nothing = no_bytes bytes (ground (arith, t)) in
          rw t (record {
            start = _;
            kept = kept;
            same = ap (λ bs. given s ++ bs) (ap (λ bs. bs ++ contents buf) (sym nothing) ∙ all);
          })
    ]

then-Conserves :
    {stop : ℕ} {s s1 s' : Sock} → Conserves stop s s1 → Conserves stop s1 s' → Conserves stop s s'
then-Conserves a b = record { start = b.start; kept = b.kept; same = b.same ∙ a.same }

loop-Conserves :
    (start stop : ℕ) (ops : List RecvOp) (s : Sock)
    → IsQueue start stop s.rcv_buf.buf
    → Conserves stop s (recv_ops_loop ops s).0
unfolding recv_ops_loop
loop-Conserves start stop [] s q = record { start = start; kept = q; same = refl }
loop-Conserves start stop (op ∷ ops) s q =
    let (s1, served) = dispatch_recv_operation op s in
    let d = dispatch-Conserves start stop op s q in
    let rest = loop-Conserves d.start stop ops s1 d.kept in
    elim (Bool-cases (not (failed s.cb.last_error) && ltb s.rcv_buf.cc op.buf_len)) [
      | inl e ↦ rw e (record {
        start = start;
        kept = q;
        same = ap (λ bs. bs ++ contents s.rcv_buf.buf) (given-emit start_delay s refl);
      })
      | inr e ↦ elim (Bool-cases served) [
        | inl t ↦ rw (e, t) (then-Conserves d rest)
        | inr t ↦ rw (e, t) (record { start = d.start; kept = d.kept; same = d.same })
      ]
    ]

output-Conserves :
    (start stop : ℕ) (s : Sock) → IsQueue start stop s.rcv_buf.buf → Conserves stop s (output s).0
output-Conserves start stop s q =
    let b = ap (λ f. f.rcv_buf.buf) (frame-output s) in
    record { start = start; kept = rw b q; same = rw (b, given-output s) refl }

-- The user gets the stream as it arrived: over a call of `recv_data`, the bytes that the handlers were
-- given, followed by those in the receive buffer, stay the same, and the buffer stays without gaps;
-- so no byte is lost, doubled or out of its place, whatever is read and sent in the call.
pub recv_data-Conserves :
    (start stop : ℕ) (s : Sock) → IsQueue start stop s.rcv_buf.buf → Conserves stop s (recv_data s)
unfolding recv_data
recv_data-Conserves start stop s q =
    let (s1, served) = recv_ops_loop s.recv_ops s in
    let l = loop-Conserves start stop s.recv_ops s q in
    let sent = then-Conserves l (output-Conserves l.start stop s1 l.kept) in
    elim (Bool-cases (s.rcv_buf.cc == 0 && not (failed s.cb.last_error))) [
      | inl e ↦ rw e (record { start = start; kept = q; same = refl })
      | inr e ↦ elim (Bool-cases (not (failed s1.cb.last_error) && served)) [
        | inl t ↦ rw (e, t) sent
        | inr t ↦ rw (e, t) l
      ]
    ]

delayed-Conserves :
    (start stop : ℕ) (ops : List RecvOp) (s : Sock)
    → IsQueue start stop s.rcv_buf.buf
    → Conserves stop s (delayed_loop ops s)
unfolding delayed_loop
delayed-Conserves start stop [] s q = record { start = start; kept = q; same = refl }
delayed-Conserves start stop (op ∷ ops) s q =
    let (s1, served) = dispatch_recv_operation op s in
    let d = dispatch-Conserves start stop op s q in
    let rest = delayed-Conserves d.start stop ops s1 d.kept in
    elim (Bool-cases served) [
      | inl t ↦ rw t (then-Conserves d rest)
      | inr t ↦ rw t (record { start = d.start; kept = d.kept; same = d.same })
    ]

-- When the delay timer goes off, too, the bytes that the handlers were given, followed by those in the
-- receive buffer, stay the same, and the buffer stays without gaps.
pub handle_delay-Conserves :
    (start stop : ℕ) (s : Sock)
    → IsQueue start stop s.rcv_buf.buf
    → Conserves stop s (handle_delay_recv_operation s)
unfolding handle_delay_recv_operation
handle_delay-Conserves start stop s q = delayed-Conserves start stop s.recv_ops s q
