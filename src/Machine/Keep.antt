-- ===== src/Machine/Keep.antt =====
-- The functions of the connection that leave its state alone.
use udt_boost.Base.{
  ℕ, zero, suc, ◌≡◌, refl, ap, ◌∙◌, true, List, [], ◌∷◌, Option, none, some, arith, u16, get_or,
  drop, reverse, ◌+◌, ◌-◌, ◌*◌,
}
use udt_boost.Packet.{Packet, Flags}
use udt_boost.Cb.{Cb, State}
use udt_boost.Cb.Rtt.{xmit_timer, timed, smooth_with, first_rtt}
use udt_boost.Cb.Window.{update_snd_fack, update_snd_una, update_rtt, reset_rexmt_timer}
use udt_boost.Cb.Congestion.{handle_packet_lost, marked, decr_snd_cwnd, incr_snd_cwnd}
use udt_boost.Sock.{Sock, on_cb, SendOp, RecvOp, consume_pending_data}
use udt_boost.Options.Handle.{
  drop_snd_pkt, drop_snd_pkts, handle_option_sack, handle_option_cwnd, handle_options,
  drop_acked_data, read_pairs, sack_walks, acked_walk, sack_size,
}
use udt_boost.Options.{opt_size, pair_size, cwnd_size, read_be32}
use udt_boost.Output.{validate_first_pkt, validate_pkts}
use udt_boost.Output.Round.{output}
use udt_boost.Output.Frame.{frame-output, frame-consume_pending_data}
use udt_boost.Reass.{Rcv, tcp_reass_or_append, tcp_reass, merge_reasm_pkts}
use udt_boost.Notify.{
  dispatch_recv_operation, recv_ops_loop, recv_data, on_readable, on_writable, on_connected, cancel,
  fail_sends, on_disconnected, respond, tell_disconnected, tell_shutdown,
}
use udt_boost.Input.{drop_out_of_rcv_wnd_packet, set_rcv_wnd, do_fast_rexmt, dup_ack, new_ack}
use udt_boost.Input.Segment.{do_header_prediction, take_data}

abbrev pub state : Sock → State
state s = s.cb.state

pub state-output : (s : Sock) → state (output s).0 ≡ state s
state-output s = ap (λ f. f.cb.state) (frame-output s)

pub state-consume : (s : Sock) → state (consume_pending_data s).0 ≡ state s
state-consume s = ap (λ f. f.cb.state) (frame-consume_pending_data s)

cb-dispatch : (op : RecvOp) (s : Sock) → (dispatch_recv_operation op s).0.cb ≡ s.cb
unfolding dispatch_recv_operation
cb-dispatch op s = ground arith

cb-recv_ops_loop : (ops : List RecvOp) (s : Sock) → (recv_ops_loop ops s).0.cb ≡ s.cb
unfolding recv_ops_loop
cb-recv_ops_loop [] s = refl
cb-recv_ops_loop (op ∷ ops) s =
    ground (arith, cb-dispatch op s, cb-recv_ops_loop ops (dispatch_recv_operation op s).0)

pub state-recv_data : (s : Sock) → state (recv_data s) ≡ state s
unfolding recv_data
state-recv_data s =
    ground (arith, cb-recv_ops_loop s.recv_ops s, state-output (recv_ops_loop s.recv_ops s).0)

pub state-on_readable : (s : Sock) → state (on_readable s) ≡ state s
unfolding on_readable
state-on_readable s = ground (arith, state-recv_data s)

pub state-on_writable : (s : Sock) → state (on_writable s) ≡ state s
unfolding on_writable
state-on_writable s = ground (arith, state-consume s, state-output (consume_pending_data s).0)

pub state-on_connected : (s : Sock) → state (on_connected s) ≡ state s
unfolding on_connected
state-on_connected s = ground arith

cb-fail_sends : (ops : List SendOp) (s : Sock) → (fail_sends ops s).cb ≡ s.cb
unfolding fail_sends
cb-fail_sends [] s = refl
cb-fail_sends (op ∷ ops) s = cb-fail_sends ops _

state-drop_snd_pkt : (p : Packet) (s : Sock) → state (drop_snd_pkt p s) ≡ state s
unfolding drop_snd_pkt
state-drop_snd_pkt p s = ground arith

state-drop_snd_pkts : (ps : List Packet) (s : Sock) → state (drop_snd_pkts ps s) ≡ state s
unfolding drop_snd_pkts
state-drop_snd_pkts [] s = refl
state-drop_snd_pkts (p ∷ ps) s = state-drop_snd_pkts ps (drop_snd_pkt p s) ∙ state-drop_snd_pkt p s

state-update_snd_fack : (ack : ℕ) (c : Cb) → (update_snd_fack ack c).state ≡ c.state
state-update_snd_fack ack c = ground arith

state-update_snd_una : (ack : ℕ) (c : Cb) → (update_snd_una ack c).state ≡ c.state
state-update_snd_una ack c = ground arith

pub state-drop_acked_data : (ack : ℕ) (s : Sock) → state (drop_acked_data ack s) ≡ state s
unfolding drop_acked_data
state-drop_acked_data ack s =
    let s1 = drop_snd_pkts (acked_walk ack s.snd_buf.pkts).gone s in
    state-update_snd_una ack s1.cb ∙ state-drop_snd_pkts (acked_walk ack s.snd_buf.pkts).gone s

pub state-handle_option_sack :
    (prs : List (ℕ × ℕ)) (s : Sock) → state (handle_option_sack prs s) ≡ state s
unfolding handle_option_sack
state-handle_option_sack [] s = refl
state-handle_option_sack (pr ∷ prs) s =
    state-drop_snd_pkts (sack_walks (reverse (pr ∷ prs)) s.snd_buf.pkts).gone _
    ∙ state-update_snd_fack pr.1 s.cb

pub state-handle_option_cwnd : (n : ℕ) (s : Sock) → state (handle_option_cwnd n s) ≡ state s
unfolding handle_option_cwnd
state-handle_option_cwnd n s = refl

pub state-handle_options :
    (fuel : ℕ) (bytes : List ℕ) (n : ℕ) (s : Sock) → state (handle_options fuel bytes n s) ≡ state s
unfolding handle_options
state-handle_options zero bytes n s = refl
state-handle_options (suc fuel) bytes n s =
    let size = sack_size (get_or bytes 1 0) in
    let used = opt_size + pair_size * size in
    let prs = read_pairs size (drop opt_size bytes) in
    let pcwnd = read_be32 (drop opt_size bytes) in
    ground (
      arith,
      state-handle_options fuel (drop used bytes) (n - used) (handle_option_sack prs s),
      state-handle_option_sack prs s,
      state-handle_options fuel (drop cwnd_size bytes) (n - cwnd_size) (handle_option_cwnd pcwnd s),
      state-handle_option_cwnd pcwnd s,
      state-handle_options fuel (drop opt_size bytes) (n - opt_size) s,
    )

pub state-cancel : (s : Sock) → state (cancel s) ≡ state s
unfolding cancel
state-cancel s = ground arith

state-tell_disconnected : (c a : Option ℕ) (s : Sock) → state (tell_disconnected c a s) ≡ state s
unfolding tell_disconnected
state-tell_disconnected none none s = refl
state-tell_disconnected none (some h) s = refl
state-tell_disconnected (some h) a s = refl

state-tell_shutdown : (h : Option ℕ) (s : Sock) → state (tell_shutdown h s) ≡ state s
unfolding tell_shutdown
state-tell_shutdown none s = refl
state-tell_shutdown (some h) s = refl

pub state-on_disconnected : (s : Sock) → state (on_disconnected s) ≡ state s
unfolding on_disconnected
state-on_disconnected s =
    let s1 = recv_data (fail_sends s.send_ops s) in
    let s2 = tell_disconnected s1.connect_handler s1.accept_handler s1 in
    let s3 = tell_shutdown s2.shutdown_handler s2 in
    let e =
      state-cancel s3
      ∙ state-tell_shutdown s2.shutdown_handler s2
      ∙ state-tell_disconnected s1.connect_handler s1.accept_handler s1
      ∙ state-recv_data (fail_sends s.send_ops s)
      ∙ ap (λ c. c.state) (cb-fail_sends s.send_ops s) in
    ground (arith, e)

pub state-respond : (a q : ℕ) (f : Flags) (s : Sock) → state (respond a q f s) ≡ state s
unfolding respond
state-respond a q f s = refl

state-validate_pkts : (ps : List Packet) (c : Cb) → (validate_pkts ps c).1.state ≡ c.state
unfolding validate_pkts
state-validate_pkts [] c = refl
state-validate_pkts (p ∷ ps) c = ground arith

pub state-validate_first_pkt : (s : Sock) → state (validate_first_pkt s) ≡ state s
unfolding validate_first_pkt
state-validate_first_pkt s = state-validate_pkts s.snd_buf.pkts s.cb

state-merge : (r : Rcv) → (merge_reasm_pkts r).cb.state ≡ r.cb.state
unfolding merge_reasm_pkts
state-merge r = refl

state-tcp_reass : (p : Packet) (r : Rcv) → (tcp_reass p r).cb.state ≡ r.cb.state
unfolding tcp_reass merge_reasm_pkts
state-tcp_reass p r = ground arith

pub state-reass : (p : Packet) (r : Rcv) → (tcp_reass_or_append p r).cb.state ≡ r.cb.state
unfolding tcp_reass_or_append
state-reass p r = ground (arith, state-tcp_reass p r)

pub state-take_data : (p : Packet) (s : Sock) → state (take_data p s) ≡ state s
unfolding take_data
state-take_data p s = ground (arith, state-reass p (record { cb = s.cb; rcv_buf = s.rcv_buf }))

pub state-xmit_timer : (rtt : ℕ) (c : Cb) → (xmit_timer rtt c).state ≡ c.state
unfolding xmit_timer timed smooth_with first_rtt
state-xmit_timer rtt c = ground arith

pub state-update_rtt : (ack : ℕ) (c : Cb) → (update_rtt ack c).state ≡ c.state
unfolding update_rtt
state-update_rtt ack c = ground (arith, state-xmit_timer c.rtt c)

pub state-reset_rexmt_timer : (c : Cb) → (reset_rexmt_timer c).state ≡ c.state
unfolding reset_rexmt_timer
state-reset_rexmt_timer c = ground arith

pub state-incr : (c : Cb) → (incr_snd_cwnd c).state ≡ c.state
unfolding incr_snd_cwnd
state-incr c = refl

pub state-handle_packet_lost : (now : ℕ) (c : Cb) → (handle_packet_lost now c).state ≡ c.state
unfolding handle_packet_lost marked decr_snd_cwnd
state-handle_packet_lost now c = ground arith

pub state-out_of_wnd : (p : Packet) (s : Sock) → state (drop_out_of_rcv_wnd_packet p s).0 ≡ state s
unfolding drop_out_of_rcv_wnd_packet set_rcv_wnd
state-out_of_wnd p s = ground arith

pub state-header_prediction : (p : Packet) (s : Sock) → state (do_header_prediction p s).0 ≡ state s
unfolding do_header_prediction
state-header_prediction p s =
    let d = drop_acked_data p.hdr.ack s in
    let acked =
      on_cb (λ c. record c { flags = record c.flags { notify_write = true } })
        (on_cb reset_rexmt_timer d) in
    ground
      (arith, state-output acked, state-reset_rexmt_timer d.cb, state-drop_acked_data p.hdr.ack s)

pub state-do_fast_rexmt : (ack : ℕ) (s : Sock) → state (do_fast_rexmt ack s) ≡ state s
unfolding do_fast_rexmt
state-do_fast_rexmt ack s =
    state-output _ ∙ state-validate_first_pkt _ ∙ state-handle_packet_lost s.clock s.cb

pub state-dup_ack : (ack : ℕ) (s : Sock) → state (dup_ack ack s).0 ≡ state s
unfolding dup_ack
state-dup_ack ack s = ground (
  arith,
  state-do_fast_rexmt ack (on_cb (λ c. record c { dupacks = u16 (c.dupacks + 1); rtt = 0 }) s),
)

pub state-new_ack : (ack win : ℕ) (s : Sock) → state (new_ack ack win s) ≡ state s
unfolding new_ack
state-new_ack ack win s = state-drop_acked_data ack _ ∙ state-incr s.cb
