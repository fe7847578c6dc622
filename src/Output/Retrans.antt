-- ===== src/Output/Retrans.antt =====
-- Sending keeps the count of the retransmitted bytes, udt/udt_cb_output.cpp.
use udt_boost.Base.{
  ℕ, zero, suc, ◌+◌, ◌≡◌, ◌<◌, refl, sym, ap, ◌∙◌, not, ◌&&◌, List, [], ◌∷◌, ◌++◌, arith, u16_mod,
  add32, Bool-cases, if_ind, inl, inr, Option, none, drop, length, min, ◌==◌, lt16s,
}
use udt_boost.Packet.{Packet, Flags, hdr_size}
use udt_boost.Buf.{Buf, append, segments}
use udt_boost.Buf.Queue.{append-Keeps}
use udt_boost.Cb.{Cb, State, closed}
use udt_boost.Cb.Rtt.{can_persist, enter_persist}
use udt_boost.Cb.Congestion.{slow_start}
use udt_boost.Cb.Window.{leave_persist}
use udt_boost.Sock.{
  Sock, SendOp, post_send, emit, on_cb, consume_ops, consume_pending_data, total_buffer_size,
}
use udt_boost.Sock.Counted.{retrans_len, IsCounted, carry}
use udt_boost.Output.Round.{
  refill, allowance, advance_nxt, start_rexmt, account, rewind, settle, send_segment, send_nothing,
  send_or_not, output_round, output_loop, send_packets_clamp, restart, output_in, output, pkt_len,
  out_flags, must_send,
}
use udt_boost.Output.Frame.{frame-round, frame-restart}
use udt_boost.Output.Marks.{picked-IsCounted}

retrans-account : (len : ℕ) (f : Flags) (c : Cb) → (account len f c).retrans_data ≡ c.retrans_data
unfolding account start_rexmt advance_nxt leave_persist
retrans-account len f c = ground arith

retrans-rewind : (f : Flags) (c : Cb) → (rewind f c).retrans_data ≡ c.retrans_data
unfolding rewind
retrans-rewind f c = ground arith

retrans-settle : (w : ℕ) (c : Cb) → (settle w c).retrans_data ≡ c.retrans_data
unfolding settle
retrans-settle w c = ground arith

retrans-enter_persist : (c : Cb) → (enter_persist c).retrans_data ≡ c.retrans_data
unfolding enter_persist
retrans-enter_persist c = ground arith

segment-IsCounted :
    (p : Option Packet) (f : Flags) (s : Sock) → IsCounted s → IsCounted (send_segment p f s)
unfolding send_segment
segment-IsCounted p f s =
    carry
      (retrans-settle _ _ ∙ retrans-account (pkt_len p) f (rewind f s.cb) ∙ retrans-rewind f s.cb)
      refl

nothing-IsCounted : (s : Sock) → IsCounted s → IsCounted (send_nothing s)
unfolding send_nothing
nothing-IsCounted s c = elim (Bool-cases (can_persist (total_buffer_size s) s.cb)) [
  | inl e ↦ rw e (carry (retrans-enter_persist (record s.cb { rxtshift = 0 })) refl c)
  | inr e ↦ rw e c
]

send_or_not-IsCounted :
    (n : ℕ) (p : Option Packet) (s : Sock) → IsCounted s → IsCounted (send_or_not n p s).0
unfolding send_or_not
send_or_not-IsCounted n p s c =
    elim (Bool-cases (must_send (pkt_len p) (out_flags (pkt_len p) s) s)) [
      | inl e ↦ rw e (segment-IsCounted p (out_flags (pkt_len p) s) s c)
      | inr e ↦ rw e (nothing-IsCounted s c)
    ]

retrans_len-append :
    (ps qs : List Packet) → retrans_len (ps ++ qs) ≡ retrans_len ps + retrans_len qs
retrans_len-append [] qs = omega arith
retrans_len-append (p ∷ ps) qs = omega (arith, retrans_len-append ps qs)

retrans_len-segments :
    (fuel : ℕ) (bytes : List ℕ) (seg_size seq : ℕ)
    → retrans_len (segments fuel bytes seg_size seq) ≡ 0
unfolding segments
retrans_len-segments zero bytes seg_size seq = refl
retrans_len-segments (suc fuel) [] seg_size seq = refl
retrans_len-segments (suc fuel) (x ∷ xs) seg_size seq =
    let n = min (length (x ∷ xs)) seg_size in
    omega (arith, retrans_len-segments fuel (drop n (x ∷ xs)) seg_size (add32 seq n))

retrans_len-append_bytes :
    (bytes : List ℕ) (n : ℕ) (b : Buf) → retrans_len (append bytes n b).0.pkts ≡ retrans_len b.pkts
unfolding append
retrans_len-append_bytes bytes n b =
    let ps = segments (length bytes) bytes n b.seq in
    ground (arith, retrans_len-append b.pkts ps, retrans_len-segments (length bytes) bytes n b.seq)

consume-IsCounted :
    (ops : List SendOp) (s : Sock)
    → s.cb.maxseg + hdr_size < u16_mod
    → IsCounted s
    → IsCounted (consume_ops ops s).0
unfolding consume_ops
consume-IsCounted [] s h c = carry refl refl c
consume-IsCounted (op ∷ ops) s h c =
    let (buf, taken) = append op.buf s.cb.maxseg s.snd_buf in
    let next : Sock =
      emit (post_send op.handler none (length op.buf)) (record s { snd_buf = buf }) in
    let valid = (append-Keeps op.buf s.cb.maxseg s.snd_buf h c.valid).2 in
    elim (Bool-cases taken) [
      | inl e ↦ rw e (
          consume-IsCounted ops next h (record {
            retrans = c.retrans ∙ sym (retrans_len-append_bytes op.buf s.cb.maxseg s.snd_buf);
            valid = valid;
          }))
      | inr e ↦ rw e (carry refl refl c)
    ]

pub consume_pending-IsCounted :
    (s : Sock)
    → s.cb.maxseg + hdr_size < u16_mod
    → IsCounted s
    → IsCounted (consume_pending_data s).0
unfolding consume_pending_data
consume_pending-IsCounted s h c = carry refl refl (consume-IsCounted s.send_ops s h c)

refill-IsCounted :
    (s : Sock) → s.cb.maxseg + hdr_size < u16_mod → IsCounted s → IsCounted (refill s)
unfolding refill
refill-IsCounted s h c = if_ind IsCounted _ (consume_pending-IsCounted s h c) c

round-IsCounted :
    (s : Sock) → s.cb.maxseg + hdr_size < u16_mod → IsCounted s → IsCounted (output_round s).0
unfolding output_round
round-IsCounted s h c =
    let s1 = refill s in
    send_or_not-IsCounted _ _ _ (picked-IsCounted (allowance s1.cb) s1 (refill-IsCounted s h c))

loop-IsCounted :
    (n : ℕ) (s : Sock)
    → s.cb.maxseg + hdr_size < u16_mod
    → IsCounted s
    → IsCounted (output_loop n s).0
unfolding output_loop
loop-IsCounted zero s h c = c
loop-IsCounted (suc n) s h c =
    let r = round-IsCounted s h c in
    let same = ap (λ f. f.cb.maxseg) (frame-round s) in
    if_ind (λ (r : Sock × ℕ). IsCounted r.0) _ (loop-IsCounted n (output_round s).0 (omega arith) r)
      r

retrans-slow_start : (c : Cb) → (slow_start c).retrans_data ≡ c.retrans_data
unfolding slow_start
retrans-slow_start c = ground arith

restart-IsCounted : (s : Sock) → IsCounted s → IsCounted (restart s)
unfolding restart
restart-IsCounted s c =
    let slow = carry {s' = on_cb slow_start s} (retrans-slow_start s.cb) refl c in
    elim (Bool-cases (s.cb.snd_max == s.cb.snd_una && not (lt16s s.cb.idle s.cb.rxtcur))) [
      | inl e ↦ rw e slow
      | inr e ↦ rw e c
    ]

open-IsCounted :
    (s : Sock)
    → s.cb.maxseg + hdr_size < u16_mod
    → IsCounted s
    → IsCounted (output_loop send_packets_clamp (restart s)).0
open-IsCounted s h c =
    let same = ap (λ f. f.cb.maxseg) (frame-restart s) in
    loop-IsCounted send_packets_clamp (restart s) (omega arith) (restart-IsCounted s c)

output_in-IsCounted :
    (st : State) (s : Sock)
    → s.cb.maxseg + hdr_size < u16_mod
    → IsCounted s
    → IsCounted (output_in st s).0
unfolding output_in
output_in-IsCounted closed s h c = c
output_in-IsCounted _ s h c = open-IsCounted s h c

-- Whatever `output` sends, retransmits and takes from the user's pending bytes, `m_retrans_data`
-- stays the size of the packets marked as retransmitted, and the send buffer valid: the debug
-- assertion `check_rexmt_data` holds after it if it did before. The segment size leaves a packet
-- with its header below 2 ^ 16 bytes.
pub output-IsCounted :
    (s : Sock) → s.cb.maxseg + hdr_size < u16_mod → IsCounted s → IsCounted (output s).0
unfolding output
output-IsCounted s h c = output_in-IsCounted s.cb.state s h c
