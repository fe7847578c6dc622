-- ===== src/Notify/Sent.antt =====
-- The bytes that have been handed to the user, and that sending does not hand any over.
use udt_boost.Base.{
  ℕ, zero, suc, ◌≡◌, refl, sym, ap, ◌∙◌, List, [], ◌∷◌, ◌++◌, arith, if_ind, Option, none,
  append-nil, append_assoc, length,
}
use udt_boost.Packet.{Packet, Flags}
use udt_boost.Buf.{append}
use udt_boost.Cb.{State, closed}
use udt_boost.Sock.{
  Sock, SendOp, Effect, post_receive, post_send, send_to, emit, consume_ops, consume_pending_data,
}
use udt_boost.Output.Round.{
  refill, send_segment, send_nothing, send_or_not, take_picked, output_round, output_loop,
  send_packets_clamp, restart, output_in, output, out_flags, pkt_len,
}

-- The bytes of one effect, and of all.
abbrev pub handed : Effect → List ℕ
handed (post_receive h e bytes) = bytes
handed _ = []

abbrev pub delivered : List Effect → List ℕ
delivered [] = []
delivered (e ∷ es) = handed e ++ delivered es

pub delivered-append :
    (es : List Effect) (e : Effect) → delivered (es ++ e ∷ []) ≡ delivered es ++ handed e
delivered-append [] e = append-nil (handed e)
delivered-append (x ∷ es) e =
    ap (λ bs. handed x ++ bs) (delivered-append es e)
    ∙ sym (append_assoc (handed x) (delivered es) (handed e))

-- What the user has been given by a state.
abbrev pub given : Sock → List ℕ
given s = delivered s.effects

pub given-emit : (e : Effect) (s : Sock) → handed e ≡ [] → given (emit e s) ≡ given s
given-emit e s h = delivered-append s.effects e ∙ ap (λ bs. given s ++ bs) h ∙ append-nil (given s)

given-consume_ops : (ops : List SendOp) (s : Sock) → given (consume_ops ops s).0 ≡ given s
unfolding consume_ops
given-consume_ops [] s = refl
given-consume_ops (op ∷ ops) s =
    let (buf, taken) = append op.buf s.cb.maxseg s.snd_buf in
    let e = post_send op.handler none (length op.buf) in
    let next : Sock = emit e (record s { snd_buf = buf }) in
    let rest = given-consume_ops ops next ∙ given-emit e (record s { snd_buf = buf }) refl in
    if_ind (λ (r : Sock × ℕ). given r.0 ≡ given s) taken rest refl

given-consume_pending_data : (s : Sock) → given (consume_pending_data s).0 ≡ given s
unfolding consume_pending_data
given-consume_pending_data s = given-consume_ops s.send_ops s

given-refill : (s : Sock) → given (refill s) ≡ given s
unfolding refill
given-refill s = ground (arith, given-consume_pending_data s)

given-send_segment :
    (p : Option Packet) (f : Flags) (s : Sock) → given (send_segment p f s) ≡ given s
unfolding send_segment
given-send_segment p f s = given-emit (send_to _ _ _) s refl

given-send_nothing : (s : Sock) → given (send_nothing s) ≡ given s
unfolding send_nothing
given-send_nothing s = ground arith

given-send_or_not : (n : ℕ) (p : Option Packet) (s : Sock) → given (send_or_not n p s).0 ≡ given s
unfolding send_or_not
given-send_or_not n p s =
    ground (arith, given-send_segment p (out_flags (pkt_len p) s) s, given-send_nothing s)

given-round : (s : Sock) → given (output_round s).0 ≡ given s
unfolding output_round
given-round s = given-send_or_not _ _ (take_picked _ (refill s)) ∙ given-refill s

given-loop : (n : ℕ) (s : Sock) → given (output_loop n s).0 ≡ given s
unfolding output_loop
given-loop zero s = refl
given-loop (suc n) s = ground (arith, given-loop n (output_round s).0, given-round s)

given-restart : (s : Sock) → given (restart s) ≡ given s
unfolding restart
given-restart s = ground arith

given-open : (s : Sock) → given (output_loop send_packets_clamp (restart s)).0 ≡ given s
given-open s = given-loop send_packets_clamp (restart s) ∙ given-restart s

given-output_in : (st : State) (s : Sock) → given (output_in st s).0 ≡ given s
unfolding output_in
given-output_in closed s = refl
given-output_in _ s = given-open s

pub given-output : (s : Sock) → given (output s).0 ≡ given s
unfolding output
given-output s = given-output_in s.cb.state s
