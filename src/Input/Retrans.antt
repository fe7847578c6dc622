-- ===== src/Input/Retrans.antt =====
-- An ack keeps the count of the retransmitted bytes, `handle_ack` of udt/udt_cb_input.cpp.
use udt_boost.Base.{
  ℕ, zero, suc, ◌+◌, ◌-◌, ◌*◌, ◌≡◌, ◌<◌, refl, ap, ◌∙◌, Bool, true, ◌||◌, ◌==◌, if◌then◌else◌, List,
  [], ◌∷◌, arith, if_ind, inl, inr, ◌⊎◌, Option, none, some, u16_mod, u32_mod, ltb, get_or, drop,
}
use udt_boost.Seq.{seq_gt}
use udt_boost.Packet.{Packet, hdr_size}
use udt_boost.Cb.{
  Cb, canceltimers, State, syn_sent, syn_received, fin_wait_1, closing, last_ack, established,
}
use udt_boost.Cb.Congestion.{incr_snd_cwnd}
use udt_boost.Cb.Rtt.{xmit_timer, timed, smooth_with, first_rtt}
use udt_boost.Cb.Window.{reset_rexmt_timer, is_max_ack, is_old_ack}
use udt_boost.Sock.{Sock, on_cb}
use udt_boost.Sock.Counted.{IsCounted, carry}
use udt_boost.Options.{
  opt_size, pair_size, cwnd_size, read_be32, max_pair_seqs, opt_sack, opt_cwnd, opt_nop,
}
use udt_boost.Options.Handle.{
  drop_snd_pkt, drop_snd_pkts, acked_walk, drop_acked_data, handle_option_sack, handle_option_cwnd,
  handle_options, sack_size, read_pairs,
}
use udt_boost.Options.Dropping.{handle_option_sack-Drops}
use udt_boost.Notify.{on_connected, tell_connected}
use udt_boost.Input.{
  ack_of_syn, ack_of_fin, update_ack_state, same_ack, before_ack, handle_ack, new_ack,
}
use udt_boost.Input.Acks.{IsReady, ready, dup_ack-IsCounted, new_ack-IsCounted, maxseg-dup_ack}

maxseg-drop_snd_pkts : (ps : List Packet) (s : Sock) → (drop_snd_pkts ps s).cb.maxseg ≡ s.cb.maxseg
unfolding drop_snd_pkts drop_snd_pkt
maxseg-drop_snd_pkts [] s = refl
maxseg-drop_snd_pkts (p ∷ ps) s = maxseg-drop_snd_pkts ps (drop_snd_pkt p s) ∙ ground arith

pub maxseg-drop_acked_data : (ack : ℕ) (s : Sock) → (drop_acked_data ack s).cb.maxseg ≡ s.cb.maxseg
unfolding drop_acked_data
maxseg-drop_acked_data ack s =
    ground (arith, maxseg-drop_snd_pkts (acked_walk ack s.snd_buf.pkts).gone s)

pub maxseg-reset : (c : Cb) → (reset_rexmt_timer c).maxseg ≡ c.maxseg
unfolding reset_rexmt_timer
maxseg-reset c = ground arith

maxseg-sack : (prs : List (ℕ × ℕ)) (s : Sock) → (handle_option_sack prs s).cb.maxseg ≡ s.cb.maxseg
unfolding handle_option_sack
maxseg-sack [] s = refl
maxseg-sack (pr ∷ prs) s = maxseg-drop_snd_pkts _ _ ∙ ground arith

sack-IsReady : (prs : List (ℕ × ℕ)) (s : Sock) → IsReady s → IsReady (handle_option_sack prs s)
sack-IsReady prs s r = record {
  counted = (handle_option_sack-Drops prs s r.counted).counted;
  size = omega (arith, maxseg-sack prs s, r.size);
}

options-IsReady :
    (fuel : ℕ) (bytes : List ℕ) (n : ℕ) (s : Sock)
    → IsReady s
    → IsReady (handle_options fuel bytes n s)
unfolding handle_options handle_option_cwnd
options-IsReady zero bytes n s r = r
options-IsReady (suc fuel) bytes n s r =
    let kind = get_or bytes 0 0 in
    let size = sack_size (get_or bytes 1 0) in
    let used = opt_size + pair_size * size in
    let prs = read_pairs size (drop opt_size bytes) in
    let pcwnd = read_be32 (drop opt_size bytes) in
    let bad : IsReady (record s { fault = true }) = record {
      counted = carry refl refl r.counted;
      size = r.size;
    } in
    if_ind IsReady (ltb n opt_size) r (
      if_ind IsReady (kind == opt_sack)
        (if_ind IsReady (ltb max_pair_seqs size || ltb n used) bad (
          options-IsReady fuel (drop used bytes) (n - used) (handle_option_sack prs s)
            (sack-IsReady prs s r)))
        (if_ind IsReady (kind == opt_cwnd)
          (if_ind IsReady (ltb n cwnd_size) bad (
            options-IsReady fuel (drop cwnd_size bytes) (n - cwnd_size)
              (on_cb (λ c. record c { pcwnd = pcwnd }) s)
              (ready (λ c. record c { pcwnd = pcwnd }) s refl refl r)))
          (if_ind IsReady (kind == opt_nop)
            (options-IsReady fuel (drop opt_size bytes) (n - opt_size) s r) r)))

-- What `on_connected` does to the sending side.
Connected : Sock → Sock → Type 0
Connected s s' =
    (s'.cb ≡ s.cb)
    × ((s'.snd_buf ≡ s.snd_buf) ⊎ (s'.snd_buf ≡ record s.snd_buf { seq = s.cb.snd_nxt }))

told :
    (a b : Option ℕ) (s : Sock)
    → ((tell_connected a b s).cb ≡ s.cb) × ((tell_connected a b s).snd_buf ≡ s.snd_buf)
told (some h) b s = (refl, refl)
told none (some h) s = (refl, refl)
told none none s = (refl, refl)

on_connected-Connected : (s : Sock) → Connected s (on_connected s)
unfolding on_connected Connected
on_connected-Connected s = let t = told s.connect_handler s.accept_handler s in ground (arith, t)

Connected-IsCounted :
    (s s' : Sock) → s.cb.snd_nxt < u32_mod → Connected s s' → IsCounted s → IsCounted s'
unfolding Connected
Connected-IsCounted s s' h (e, inl b) c = carry (ap (λ x. x.retrans_data) e) b c
Connected-IsCounted s s' h (e, inr b) c =
    let v = c.valid in
    let moved : Sock = record s { snd_buf = record s.snd_buf { seq = s.cb.snd_nxt } } in
    let m : IsCounted moved = record {
      retrans = c.retrans;
      valid = record {
        counted = v.counted;
        within = v.within;
        hiwat32 = v.hiwat32;
        seq32 = h;
        whole = v.whole;
      };
    } in
    carry {s = moved} (ap (λ x. x.retrans_data) e) b m

pub timer_same :
    (rtt : ℕ) (c : Cb)
    → ((xmit_timer rtt c).retrans_data ≡ c.retrans_data)
      × ((xmit_timer rtt c).maxseg ≡ c.maxseg)
      × ((xmit_timer rtt c).snd_nxt ≡ c.snd_nxt)
unfolding xmit_timer timed smooth_with first_rtt
timer_same rtt c = (ground arith, ground arith, ground arith)

-- The control block with which `on_connected` is called.
open_cb : Cb → Cb
open_cb c = let d = record c { state = established } in if d.rtt == 0 then d else xmit_timer d.rtt d

open_same :
    (c : Cb)
    → ((open_cb c).retrans_data ≡ c.retrans_data)
      × ((open_cb c).maxseg ≡ c.maxseg)
      × ((open_cb c).snd_nxt ≡ c.snd_nxt)
unfolding open_cb
open_same c =
    let t = timer_same c.rtt (record c { state = established }) in
    (ground (arith, t), ground (arith, t), ground (arith, t))

Connected-size :
    (s s' : Sock)
    → Connected s s'
    → s.cb.maxseg + hdr_size < u16_mod
    → s'.cb.maxseg + hdr_size < u16_mod
unfolding Connected
Connected-size s s' c h = let e = ap (λ x. x.maxseg) c.0 in omega (arith, e, h)

opened-IsReady :
    (s : Sock) → s.cb.snd_nxt < u32_mod → IsReady s → IsReady (on_connected (on_cb open_cb s))
opened-IsReady s h r =
    let (e, m, n) = open_same s.cb in
    let s1 = on_cb open_cb s in
    let c = on_connected-Connected s1 in
    record {
      counted =
          Connected-IsCounted s1 (on_connected s1) (omega (arith, n, h)) c (carry e refl r.counted);
      size = Connected-size s1 (on_connected s1) c (omega (arith, m, r.size));
    }

syn-IsReady :
    (st : State) (s : Sock) → s.cb.snd_nxt < u32_mod → IsReady s → IsReady (ack_of_syn st s)
unfolding ack_of_syn open_cb
syn-IsReady syn_sent s h r = record { counted = carry refl refl r.counted; size = r.size }
syn-IsReady syn_received s h r = opened-IsReady s h r
syn-IsReady _ s h r = r

fin_same :
    (st : State) (c : Cb)
    → ((ack_of_fin st c).retrans_data ≡ c.retrans_data) × ((ack_of_fin st c).maxseg ≡ c.maxseg)
unfolding ack_of_fin canceltimers
fin_same fin_wait_1 c = (refl, refl)
fin_same closing c = (refl, refl)
fin_same last_ack c = (refl, refl)
fin_same _ c = (refl, refl)

update-IsReady : (s : Sock) → s.cb.snd_nxt < u32_mod → IsReady s → IsReady (update_ack_state s)
unfolding update_ack_state
update-IsReady s h r =
    let s1 = ack_of_syn s.cb.state s in
    let r1 = syn-IsReady s.cb.state s h r in
    let (e, m) = fin_same s1.cb.state s1.cb in
    if_ind IsReady s1.cb.flags.sentfin (ready (ack_of_fin s1.cb.state) s1 e m r1) r1

before-IsReady :
    (p : Packet) (s : Sock) → s.cb.snd_nxt < u32_mod → IsReady s → IsReady (before_ack p s)
unfolding before_ack
before-IsReady p s h r =
    let s1 : Sock = if is_max_ack p.hdr.ack s.cb then update_ack_state s else s in
    let n = p.hdr.off - hdr_size in
    let r1 : IsReady s1 = if_ind IsReady (is_max_ack p.hdr.ack s.cb) (update-IsReady s h r) r in
    if_ind IsReady (ltb hdr_size p.hdr.off) (options-IsReady n p.body n s1 r1) r1

pub reset_same : (c : Cb) → (reset_rexmt_timer c).retrans_data ≡ c.retrans_data
unfolding reset_rexmt_timer
reset_same c = ground arith

-- An ack, whatever it says and whatever options come with it, keeps the counts of the send buffer: the
-- debug assertion `check_rexmt_data` holds after `handle_ack` if it held before. `m_snd_nxt` has 32
-- bits, and the segment size leaves a packet with its header below 2 ^ 16 bytes.
pub handle_ack-IsCounted :
    (p : Packet) (s : Sock)
    → s.cb.snd_nxt < u32_mod
    → s.cb.maxseg + hdr_size < u16_mod
    → IsCounted s
    → IsCounted (handle_ack p s).0
unfolding handle_ack
handle_ack-IsCounted p s h hm c =
    let ack = p.hdr.ack in
    let s1 = before_ack p s in
    let r1 = before-IsReady p s h (record { counted = c; size = hm }) in
    let dup = dup_ack-IsCounted ack s1 r1 in
    let same : IsCounted (same_ack ack p.hdr.win s1).0 =
      if_ind (λ (r : Sock × Bool). IsCounted r.0) (p.hdr.win == s1.cb.snd_wnd) dup
        (carry refl refl r1.counted) in
    let fresh = new_ack-IsCounted ack p.hdr.win s1 r1.counted in
    let P : Sock × Bool → Type 0 = λ r. IsCounted r.0 in
    if_ind P (is_old_ack ack s.cb) c (
      if_ind P (seq_gt ack s.cb.snd_max) (carry refl refl c) (
        if_ind P (ack == s1.cb.snd_una)
          (if_ind P (same_ack ack p.hdr.win s1).1 same (carry (reset_same _) refl same))
          (carry (reset_same _) refl fresh)))

maxseg-new_ack : (ack win : ℕ) (s : Sock) → (new_ack ack win s).cb.maxseg ≡ s.cb.maxseg
unfolding new_ack incr_snd_cwnd
maxseg-new_ack ack win s = maxseg-drop_acked_data ack _ ∙ ground arith

-- The segment size after an ack.
pub handle_ack-size :
    (p : Packet) (s : Sock)
    → s.cb.snd_nxt < u32_mod
    → IsReady s
    → (handle_ack p s).0.cb.maxseg + hdr_size < u16_mod
unfolding handle_ack
handle_ack-size p s n r =
    let ack = p.hdr.ack in
    let s1 = before_ack p s in
    let small = (before-IsReady p s n r).size in
    let P : Sock × Bool → Type 0 = λ x. x.0.cb.maxseg + hdr_size < u16_mod in
    let same : P (same_ack ack p.hdr.win s1) =
      if_ind P (p.hdr.win == s1.cb.snd_wnd) (omega (arith, maxseg-dup_ack ack s1, small)) small in
    let s2 = (same_ack ack p.hdr.win s1).0 in
    let s3 = new_ack ack p.hdr.win s1 in
    let kept = maxseg-new_ack ack p.hdr.win s1 in
    if_ind P (is_old_ack ack s.cb) r.size (
      if_ind P (seq_gt ack s.cb.snd_max) r.size (
        if_ind P (ack == s1.cb.snd_una)
          (if_ind P (same_ack ack p.hdr.win s1).1 same (omega (arith, maxseg-reset s2.cb, same)))
          (omega (arith, maxseg-reset s3.cb, kept, small))))
