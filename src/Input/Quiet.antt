-- ===== src/Input/Quiet.antt =====
-- The functions that leave alone the received stream: the receive buffer, the queue of waiting
-- packets, and what the user has been given.
use udt_boost.Base.{
  ℕ, zero, suc, ◌≡◌, refl, ap, ◌∙◌, List, [], ◌∷◌, arith, Option, none, some, get_or, drop, u16,
  ◌+◌, ◌-◌, ◌*◌,
}
use udt_boost.Packet.{Packet, hdr_size}
use udt_boost.Buf.{RcvBuf}
use udt_boost.Cb.{State, syn_sent, syn_received}
use udt_boost.Sock.{Sock, on_cb, emit, Effect, post_connect, post_accept, probe_mtu}
use udt_boost.Options.{opt_size, pair_size, cwnd_size, read_be32}
use udt_boost.Options.Handle.{
  drop_snd_pkt, drop_snd_pkts, acked_walk, handle_option_sack, handle_option_cwnd, handle_options,
  drop_acked_data, sack_size, read_pairs,
}
use udt_boost.Output.{validate_first_pkt}
use udt_boost.Output.Round.{output}
use udt_boost.Output.Frame.{frame-output}
use udt_boost.Notify.{on_connected, tell_connected}
use udt_boost.Notify.Sent.{given, handed, given-emit, given-output}
use udt_boost.Input.{
  ack_of_syn, update_ack_state, do_fast_rexmt, dup_ack, new_ack, before_ack, handle_ack,
}

-- The received stream.
pub record View : Type 0 where
  pub rcv_buf : RcvBuf
  pub given : List ℕ

abbrev pub view : Sock → View
view s = record { rcv_buf = s.rcv_buf; given = given s }

pub view-output : (s : Sock) → view (output s).0 ≡ view s
view-output s = cc (ap (λ f. f.rcv_buf) (frame-output s), given-output s)

view-emit : (e : Effect) (s : Sock) → handed e ≡ [] → view (emit e s) ≡ view s
view-emit e s h = let same = given-emit e s h in cc same

view-tell_connected : (a b : Option ℕ) (s : Sock) → view (tell_connected a b s) ≡ view s
view-tell_connected (some h) b s = view-emit (post_connect h s.cb.last_error) s refl
view-tell_connected none (some h) s =
    let e = post_accept h s.cb.last_error s.peer_ep in
    view-emit (probe_mtu s.peer_ep) (record (emit e s) { accept_handler = none }) refl
    ∙ view-emit e s refl
view-tell_connected none none s = refl

view-on_connected : (s : Sock) → view (on_connected s) ≡ view s
unfolding on_connected
view-on_connected s = ground (arith, view-tell_connected s.connect_handler s.accept_handler s)

view-drop_snd_pkts : (ps : List Packet) (s : Sock) → view (drop_snd_pkts ps s) ≡ view s
unfolding drop_snd_pkts drop_snd_pkt
view-drop_snd_pkts [] s = refl
view-drop_snd_pkts (p ∷ ps) s = view-drop_snd_pkts ps _

pub view-drop_acked_data : (ack : ℕ) (s : Sock) → view (drop_acked_data ack s) ≡ view s
unfolding drop_acked_data
view-drop_acked_data ack s = view-drop_snd_pkts (acked_walk ack s.snd_buf.pkts).gone s

view-handle_option_sack : (prs : List (ℕ × ℕ)) (s : Sock) → view (handle_option_sack prs s) ≡ view s
unfolding handle_option_sack
view-handle_option_sack [] s = refl
view-handle_option_sack (pr ∷ prs) s = view-drop_snd_pkts _ _

view-handle_options :
    (fuel : ℕ) (bytes : List ℕ) (n : ℕ) (s : Sock) → view (handle_options fuel bytes n s) ≡ view s
unfolding handle_options handle_option_cwnd
view-handle_options zero bytes n s = refl
view-handle_options (suc fuel) bytes n s =
    let size = sack_size (get_or bytes 1 0) in
    let used = opt_size + pair_size * size in
    let prs = read_pairs size (drop opt_size bytes) in
    let pcwnd = read_be32 (drop opt_size bytes) in
    ground (
      arith,
      view-handle_options fuel (drop used bytes) (n - used) (handle_option_sack prs s),
      view-handle_option_sack prs s,
      view-handle_options fuel (drop cwnd_size bytes) (n - cwnd_size)
          (on_cb (λ c. record c { pcwnd = pcwnd }) s),
      view-handle_options fuel (drop opt_size bytes) (n - opt_size) s,
    )

view-ack_of_syn : (st : State) (s : Sock) → view (ack_of_syn st s) ≡ view s
unfolding ack_of_syn
view-ack_of_syn syn_sent s = refl
view-ack_of_syn syn_received s = view-on_connected _
view-ack_of_syn _ s = refl

view-update_ack_state : (s : Sock) → view (update_ack_state s) ≡ view s
unfolding update_ack_state
view-update_ack_state s = ground (arith, view-ack_of_syn s.cb.state s)

view-before_ack : (p : Packet) (s : Sock) → view (before_ack p s) ≡ view s
unfolding before_ack
view-before_ack p s =
    let n = p.hdr.off - hdr_size in
    ground (
      arith,
      view-handle_options n p.body n s,
      view-handle_options n p.body n (update_ack_state s),
      view-update_ack_state s,
    )

view-validate_first_pkt : (s : Sock) → view (validate_first_pkt s) ≡ view s
unfolding validate_first_pkt
view-validate_first_pkt s = refl

view-do_fast_rexmt : (ack : ℕ) (s : Sock) → view (do_fast_rexmt ack s) ≡ view s
unfolding do_fast_rexmt
view-do_fast_rexmt ack s = view-output _ ∙ view-validate_first_pkt _

view-dup_ack : (ack : ℕ) (s : Sock) → view (dup_ack ack s).0 ≡ view s
unfolding dup_ack
view-dup_ack ack s = ground (
  arith,
  view-do_fast_rexmt ack (on_cb (λ c. record c { dupacks = u16 (c.dupacks + 1); rtt = 0 }) s),
)

view-new_ack : (ack win : ℕ) (s : Sock) → view (new_ack ack win s) ≡ view s
unfolding new_ack
view-new_ack ack win s = view-drop_acked_data ack _

pub view-handle_ack : (p : Packet) (s : Sock) → view (handle_ack p s).0 ≡ view s
unfolding handle_ack
view-handle_ack p s =
    let s1 = before_ack p s in
    ground
      (arith, view-before_ack p s, view-dup_ack p.hdr.ack s1, view-new_ack p.hdr.ack p.hdr.win s1)
