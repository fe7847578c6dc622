-- ===== src/Input/Reliable.antt =====
-- The received stream over a whole datagram: `input` of udt/udt_cb_input.cpp.
use udt_boost.Base.{
  ℕ, ◌≡◌, refl, sym, ap, ◌∙◌, subst, Bool, true, false, not, ◌&&◌, if◌then◌else◌, [], ◌∷◌, ◌++◌,
  arith, Bool-cases, inl, inr, ◌⊎◌, add32, All, append_assoc, ◌==◌, is_empty, leb,
}
use mathlib.Core.Bool.{true≢false}
use udt_boost.Packet.{Packet}
use udt_boost.Buf.{append_pkt, acc}
use udt_boost.Seq.{seq_gt, seq_le}
use udt_boost.Cb.Congestion.{is_cwnd_full_open}
use udt_boost.Output.Round.{output}
use udt_boost.Buf.Accounting.{IsWhole}
use udt_boost.Buf.Stream.{stream, stream-append}
use udt_boost.Buf.Queue.{IsQueue, contents}
use udt_boost.Cb.{Cb}
use udt_boost.Cb.Window.{reset_rexmt_timer}
use udt_boost.Options.Handle.{drop_acked_data}
use udt_boost.Sock.{Sock, on_cb}
use udt_boost.Reass.Stream.{append_pkt-pkts, append_pkt-IsQueue}
use udt_boost.Input.{drop_out_of_rcv_wnd_packet}
use udt_boost.Input.Segment.{
  predicted, do_header_prediction, ack_and_fin, take_data, slow_path, process,
}
use udt_boost.Input.Quiet.{view, view-output, view-drop_acked_data}
use udt_boost.Input.Growth.{
  Grows, Grows-quiet, Grows-refl, take_data-Grows, view-ack_and_fin, view-out_of_wnd,
  rcv_nxt-out_of_wnd,
}

-- What header prediction does with a packet: it is dealt with, and the stream grows; or nothing is
-- done to the stream.
Predicted : Sock → Sock × Bool → Type 0
Predicted s r =
    ((r.1 ≡ true) × Grows (view s) (view r.0))
    ⊎ ((r.1 ≡ false) × (view r.0 ≡ view s) × (r.0.cb.rcv_nxt ≡ s.cb.rcv_nxt))

acked_view : Packet → Sock → Sock
acked_view p s =
    on_cb (λ c. record c { flags = record c.flags { notify_write = true } })
      (on_cb reset_rexmt_timer (drop_acked_data p.hdr.ack s))

received_Grows :
    (start : ℕ) (p : Packet) (s : Sock)
    → IsWhole p
    → p.hdr.seq ≡ s.cb.rcv_nxt
    → IsQueue start s.cb.rcv_nxt s.rcv_buf.buf
    → (append_pkt p s.rcv_buf.buf).1 ≡ true
    → Grows
        (view s)
        (record (view s) { rcv_buf = record s.rcv_buf { buf = (append_pkt p s.rcv_buf.buf).0 } })
received_Grows start p s wp e q t = record {
  start = start;
  stop = add32 s.cb.rcv_nxt p.hdr.len;
  kept = append_pkt-IsQueue start s.cb.rcv_nxt p s.rcv_buf.buf wp e q t;
  added = stream (p ∷ []);
  grown =
      ap (λ bs. (view s).given ++ bs)
        (ap stream (append_pkt-pkts p s.rcv_buf.buf t) ∙ stream-append s.rcv_buf.buf.pkts (p ∷ []))
      ∙ sym (append_assoc (view s).given (contents s.rcv_buf.buf) (stream (p ∷ [])));
}

acked-quiet : (p : Packet) (s : Sock) → view (acked_view p s) ≡ view s
unfolding acked_view
acked-quiet p s = view-drop_acked_data p.hdr.ack s

sent_view : Packet → Sock → Sock
sent_view p s = let a = acked_view p s in if a.snd_buf.cc == 0 then a else (output a).0

sent-quiet : (p : Packet) (s : Sock) → view (sent_view p s) ≡ view s
unfolding sent_view
sent-quiet p s = ground (arith, acked-quiet p s, view-output (acked_view p s))

in_sequence : (p : Packet) (c : Cb) → not (predicted p c) ≡ false → p.hdr.seq ≡ c.rcv_nxt
in_sequence p c h = ground arith

prediction :
    (start : ℕ) (p : Packet) (s : Sock)
    → IsWhole p
    → IsQueue start s.cb.rcv_nxt s.rcv_buf.buf
    → Predicted s (do_header_prediction p s)
unfolding do_header_prediction Predicted sent_view acked_view
prediction start p s wp q =
    let same = Grows-refl start s.cb.rcv_nxt (view s) q in
    elim (Bool-cases (not (predicted p s.cb))) [
      | inl e ↦ rw e (inr (refl, refl, refl))
      | inr e ↦ elim (Bool-cases (p.hdr.len == 0)) [
        | inl z ↦
            elim (Bool-cases (
              seq_gt p.hdr.ack s.cb.snd_una
              && seq_le p.hdr.ack s.cb.snd_max
              && is_cwnd_full_open s.cb)) [
                | inl c ↦ rw (e, z, c) (inl (refl, Grows-quiet _ _ _ (sent-quiet p s) same))
                | inr c ↦ rw (e, z, c) (inr (refl, refl, refl))
              ]
        | inr z ↦
            elim (Bool-cases (
              p.hdr.ack == s.cb.snd_una
              && is_empty s.rcv_buf.reasm_pkts
              && leb p.hdr.len (acc s.rcv_buf.buf))) [
                | inl c ↦ elim (Bool-cases (append_pkt p s.rcv_buf.buf).1) [
                  | inl t ↦
                      rw (e, z, c, t)
                        (inl (refl, received_Grows start p s wp (in_sequence p s.cb e) q t))
                  | inr t ↦ rw (e, z, c, t) (inr (refl, refl, refl))
                ]
                | inr c ↦ rw (e, z, c) (inr (refl, refl, refl))
              ]
      ]
    ]

no_syn :
    (p : Packet) (s : Sock)
    → p.hdr.flags.syn ≡ false
    → view (slow_path p s) ≡ view (ack_and_fin p (take_data p s))
unfolding slow_path
no_syn p s e = ground arith

-- `take_data` and the rest, for a packet without SYN.
slow-Grows :
    (start : ℕ) (p : Packet) (s : Sock)
    → p.hdr.flags.syn ≡ false
    → IsWhole p
    → All IsWhole s.rcv_buf.reasm_pkts
    → IsQueue start s.cb.rcv_nxt s.rcv_buf.buf
    → Grows (view s) (view (slow_path p s))
slow-Grows start p s e wp w q =
    Grows-quiet _ _ _ (no_syn p s e ∙ view-ack_and_fin p (take_data p s))
      (take_data-Grows start p s wp w q)

-- How `process` ends: with the stream as it was, with what header prediction did, or on the slow path.
process_cases :
    (p : Packet) (s : Sock)
    → let r = do_header_prediction p (drop_out_of_rcv_wnd_packet p s).0 in
      (view (process p s) ≡ view s)
      ⊎ ((r.1 ≡ true) × (view (process p s) ≡ view r.0))
      ⊎ ((r.1 ≡ false) × (view (process p s) ≡ view (slow_path p r.0)))
unfolding process
process_cases p s = let v1 = view-out_of_wnd p s in ground (arith, v1)

-- From a state with the same stream and the same `m_rcv_nxt`.
on_slow_path :
    (start : ℕ) (p : Packet) (s s2 : Sock)
    → p.hdr.flags.syn ≡ false
    → IsWhole p
    → All IsWhole s.rcv_buf.reasm_pkts
    → IsQueue start s.cb.rcv_nxt s.rcv_buf.buf
    → view s2 ≡ view s
    → s2.cb.rcv_nxt ≡ s.cb.rcv_nxt
    → Grows (view s) (view (slow_path p s2))
on_slow_path start p s s2 e wp w q v n =
    subst (λ u. Grows u (view (slow_path p s2))) v
      (slow-Grows start p s2 e wp (rw (ap (λ u. u.rcv_buf) v) w) (rw (n, ap (λ u. u.rcv_buf) v) q))

-- The body of `input`, up to the notifications: whatever segment without SYN arrives, in whatever
-- state, the stream that has arrived (the bytes that the user was given, then those in the receive
-- buffer) only grows at its end, and the receive buffer has no gaps. The segment's data lies in its
-- memory, like that of the packets that wait, and the buffer had no gaps up to `m_rcv_nxt`.
pub process-Grows :
    (start : ℕ) (p : Packet) (s : Sock)
    → p.hdr.flags.syn ≡ false
    → IsWhole p
    → All IsWhole s.rcv_buf.reasm_pkts
    → IsQueue start s.cb.rcv_nxt s.rcv_buf.buf
    → Grows (view s) (view (process p s))
unfolding Predicted
process-Grows start p s e wp w q =
    let s1 = (drop_out_of_rcv_wnd_packet p s).0 in
    let v1 = view-out_of_wnd p s in
    let n1 = rcv_nxt-out_of_wnd p s in
    let b1 = ap (λ u. u.rcv_buf) v1 in
    let d = prediction start p s1 wp (rw (n1, b1) q) in
    elim (process_cases p s) [
      | inl h ↦ Grows-quiet _ _ _ h (Grows-refl start s.cb.rcv_nxt (view s) q)
      | inr (inl (t, h)) ↦ elim d [
        | inl (_, g) ↦
            Grows-quiet _ _ _ h (subst (λ u. Grows u (view (do_header_prediction p s1).0)) v1 g)
        | inr (f, _, _) ↦ absurd (true≢false (sym t ∙ f))
      ]
      | inr (inr (f, h)) ↦ elim d [
        | inl (t, _) ↦ absurd (true≢false (sym t ∙ f))
        | inr (_, v, n) ↦ Grows-quiet _ _ _ h (on_slow_path start p s _ e wp w q (v ∙ v1) (n ∙ n1))
      ]
    ]
