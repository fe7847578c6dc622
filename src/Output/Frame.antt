-- ===== src/Output/Frame.antt =====
-- What `output` of udt/udt_cb_output.cpp leaves alone.
use udt_boost.Base.{
  ℕ, zero, suc, ◌≡◌, refl, ◌∙◌, Bool, List, [], ◌∷◌, Option, none, some, arith, inl, inr,
  Bool-cases, not, ◌&&◌, ◌==◌, lt16s, if◌then◌else◌, length,
}
use udt_boost.Packet.{Packet, Flags}
use udt_boost.Buf.{RcvBuf, acc, append}
use udt_boost.Cb.{Cb, State, Error, closed}
use udt_boost.Cb.Rtt.{enter_persist, can_persist}
use udt_boost.Cb.Congestion.{slow_start}
use udt_boost.Cb.Window.{leave_persist}
use udt_boost.Sock.{
  Sock, SendOp, RecvOp, consume_ops, consume_pending_data, emit, post_send, on_cb,
  total_buffer_size,
}
use udt_boost.Output.{get_snd_pkt}
use udt_boost.Output.Round.{
  advertise, send_nothing, send_or_not, take_picked, restart, start_rexmt, rewind, settle, refill,
  allowance, pick, unpersist, advance_nxt, account, send_segment, output_round, output_loop,
  output_in, output, pkt_len, out_flags, must_send, send_packets_clamp,
}

-- The part of the control block that sending does not touch.
pub record CbFrame : Type 0 where
  pub state : State
  pub snd_una : ℕ
  pub rcv_nxt : ℕ
  pub rcv_wnd : ℕ
  pub irs : ℕ
  pub last_error : Option Error
  pub maxseg : ℕ
  pub timers_on : Bool

abbrev pub cb_frame : Cb → CbFrame
cb_frame c = record {
  state = c.state;
  snd_una = c.snd_una;
  rcv_nxt = c.rcv_nxt;
  rcv_wnd = c.rcv_wnd;
  irs = c.irs;
  last_error = c.last_error;
  maxseg = c.maxseg;
  timers_on = c.timers_on;
}

-- The part of the socket that sending does not touch.
pub record Frame : Type 0 where
  pub cb : CbFrame
  pub rcv_buf : RcvBuf
  pub attached : Bool
  pub peer_ep : ℕ
  pub connect_handler : Option ℕ
  pub accept_handler : Option ℕ
  pub shutdown_handler : Option ℕ
  pub recv_ops : List RecvOp
  pub fault : Bool

abbrev pub frame : Sock → Frame
frame s = record {
  cb = cb_frame s.cb;
  rcv_buf = s.rcv_buf;
  attached = s.attached;
  peer_ep = s.peer_ep;
  connect_handler = s.connect_handler;
  accept_handler = s.accept_handler;
  shutdown_handler = s.shutdown_handler;
  recv_ops = s.recv_ops;
  fault = s.fault;
}

frame-consume_ops : (ops : List SendOp) (s : Sock) → frame (consume_ops ops s).0 ≡ frame s
unfolding consume_ops
frame-consume_ops [] s = refl
frame-consume_ops (op ∷ ops) s = ground (
  arith,
  frame-consume_ops ops (
      emit (post_send op.handler none (length op.buf))
        (record s { snd_buf = (append op.buf s.cb.maxseg s.snd_buf).0 })),
)

pub frame-consume_pending_data : (s : Sock) → frame (consume_pending_data s).0 ≡ frame s
unfolding consume_pending_data
frame-consume_pending_data s = frame-consume_ops s.send_ops s

pub frame-refill : (s : Sock) → frame (refill s) ≡ frame s
unfolding refill
frame-refill s = ground (arith, frame-consume_pending_data s)

frame-get_snd_pkt :
    (len : ℕ) (c : Cb) (pkts : List Packet) → cb_frame (get_snd_pkt len c pkts).cb ≡ cb_frame c
unfolding get_snd_pkt
frame-get_snd_pkt len c [] = refl
frame-get_snd_pkt len c (p ∷ ps) = ground (arith, frame-get_snd_pkt len c ps)

frame-pick : (n : ℕ) (c : Cb) (pkts : List Packet) → cb_frame (pick n c pkts).cb ≡ cb_frame c
unfolding pick
frame-pick n c pkts = ground (arith, frame-get_snd_pkt n c pkts)

pub frame-leave_persist : (c : Cb) → cb_frame (leave_persist c) ≡ cb_frame c
unfolding leave_persist
frame-leave_persist c = ground arith

frame-enter_persist : (c : Cb) → cb_frame (enter_persist c) ≡ cb_frame c
unfolding enter_persist
frame-enter_persist c = ground arith

frame-slow_start : (c : Cb) → cb_frame (slow_start c) ≡ cb_frame c
unfolding slow_start
frame-slow_start c = ground arith

frame-advance_nxt : (len : ℕ) (f : Flags) (c : Cb) → cb_frame (advance_nxt len f c) ≡ cb_frame c
unfolding advance_nxt
frame-advance_nxt len f c = ground arith

frame-start_rexmt : (c : Cb) → cb_frame (start_rexmt c) ≡ cb_frame c
unfolding start_rexmt
frame-start_rexmt c =
    ground (arith, frame-leave_persist (record c { timers = record c.timers { rexmt = c.rxtcur } }))

frame-account : (len : ℕ) (f : Flags) (c : Cb) → cb_frame (account len f c) ≡ cb_frame c
unfolding account
frame-account len f c =
    ground (arith, frame-start_rexmt (advance_nxt len f c), frame-advance_nxt len f c)

frame-rewind : (f : Flags) (c : Cb) → cb_frame (rewind f c) ≡ cb_frame c
unfolding rewind
frame-rewind f c = ground arith

frame-settle : (w : ℕ) (c : Cb) → cb_frame (settle w c) ≡ cb_frame c
unfolding settle
frame-settle w c = ground arith

frame-unpersist : (p : Option Packet) (c : Cb) → cb_frame (unpersist p c) ≡ cb_frame c
unfolding unpersist
frame-unpersist none c = refl
frame-unpersist (some p) c = ground (arith, frame-leave_persist c)

-- A change of the control block alone.
frame-on_cb :
    (f : Cb → Cb) (s : Sock) → cb_frame (f s.cb) ≡ cb_frame s.cb → frame (on_cb f s) ≡ frame s
frame-on_cb f s e = λ i. record (frame s) { cb = e i }

frame-send_segment :
    (p : Option Packet) (f : Flags) (s : Sock) → frame (send_segment p f s) ≡ frame s
unfolding send_segment
frame-send_segment p f s =
    let w = advertise (if pkt_len p == 0 then acc s.rcv_buf.buf else s.junk) (on_cb (rewind f) s) in
    let e =
      frame-settle w (account (pkt_len p) f (rewind f s.cb))
      ∙ frame-account (pkt_len p) f (rewind f s.cb)
      ∙ frame-rewind f s.cb in
    λ i. record (frame s) { cb = e i }

frame-send_nothing : (s : Sock) → frame (send_nothing s) ≡ frame s
unfolding send_nothing
frame-send_nothing s = elim (Bool-cases (can_persist (total_buffer_size s) s.cb)) [
  | inl e ↦
      rw e (λ i. record (frame s) { cb = frame-enter_persist (record s.cb { rxtshift = 0 }) i })
  | inr e ↦ rw e
]

frame-send_or_not : (n : ℕ) (p : Option Packet) (s : Sock) → frame (send_or_not n p s).0 ≡ frame s
unfolding send_or_not
frame-send_or_not n p s = elim (Bool-cases (must_send (pkt_len p) (out_flags (pkt_len p) s) s)) [
  | inl e ↦ rw e (frame-send_segment p (out_flags (pkt_len p) s) s)
  | inr e ↦ rw e (frame-send_nothing s)
]

frame-take_picked :
    (n : ℕ) (s : Sock) → frame (take_picked (pick n s.cb s.snd_buf.pkts) s) ≡ frame s
frame-take_picked n s =
    let r = pick n s.cb s.snd_buf.pkts in
    let e = frame-unpersist r.pkt r.cb ∙ frame-pick n s.cb s.snd_buf.pkts in
    λ i. record (frame s) { cb = e i }

pub frame-round : (s : Sock) → frame (output_round s).0 ≡ frame s
unfolding output_round
frame-round s =
    frame-send_or_not _ _ _
    ∙ frame-take_picked (allowance (refill s).cb) (refill s)
    ∙ frame-refill s

frame-loop : (n : ℕ) (s : Sock) → frame (output_loop n s).0 ≡ frame s
unfolding output_loop
frame-loop zero s = refl
frame-loop (suc n) s = elim (Bool-cases (output_round s).2) [
  | inl e ↦ rw e (frame-loop n (output_round s).0 ∙ frame-round s)
  | inr e ↦ rw e (frame-round s)
]

pub frame-restart : (s : Sock) → frame (restart s) ≡ frame s
unfolding restart
frame-restart s =
    elim (Bool-cases (s.cb.snd_max == s.cb.snd_una && not (lt16s s.cb.idle s.cb.rxtcur))) [
      | inl e ↦ rw e (λ i. record (frame s) { cb = frame-slow_start s.cb i })
      | inr e ↦ rw e
    ]

frame-open : (s : Sock) → frame (output_loop send_packets_clamp (restart s)).0 ≡ frame s
frame-open s = frame-loop send_packets_clamp (restart s) ∙ frame-restart s

frame-output_in : (st : State) (s : Sock) → frame (output_in st s).0 ≡ frame s
unfolding output_in
frame-output_in closed s = refl
frame-output_in _ s = frame-open s

pub frame-output : (s : Sock) → frame (output s).0 ≡ frame s
unfolding output
frame-output s = frame-output_in s.cb.state s
