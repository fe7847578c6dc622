-- ===== src/Input/Counted.antt =====
-- The count of the retransmitted bytes over a whole segment: `input` of udt/udt_cb_input.cpp.
use udt_boost.Base.{
  ℕ, ◌+◌, ◌≡◌, ◌<◌, refl, ap, ◌∙◌, Bool, true, false, not, ◌&&◌, ◌||◌, ◌==◌, if◌then◌else◌, arith,
  if_ind, inl, inr, ◌⊎◌, u16_mod, u32_mod, ltb, leb, is_empty, Bool-cases,
}
use udt_boost.Seq.{seq_gt, seq_le}
use udt_boost.Packet.{Packet, hdr_size}
use udt_boost.Buf.{acc, append_pkt, fin}
use udt_boost.Cb.{
  Cb, State, closed, listen, syn_sent, syn_received, established, close_wait, fin_wait_1, closing,
  fin_wait_2, time_wait, s_keepidle,
}
use udt_boost.Cb.Congestion.{is_cwnd_full_open}
use udt_boost.Cb.Window.{reset_rexmt_timer, update_rtt}
use udt_boost.Sock.{Sock, on_cb}
use udt_boost.Sock.Counted.{IsCounted, carry}
use udt_boost.Options.Handle.{drop_acked_data}
use udt_boost.Options.Dropping.{drop_acked_data-Drops}
use udt_boost.Output.Round.{output}
use udt_boost.Notify.Counted.{output-IsReady, commit_notifies-IsReady}
use udt_boost.Packet.Wire.{ntoh}
use udt_boost.Input.Acks.{IsReady, ready}
use udt_boost.Reass.{Rcv, tcp_reass_or_append, tcp_reass, merge_reasm_pkts}
use udt_boost.Input.{
  drop_out_of_rcv_wnd_packet, set_rcv_wnd, syn_state, syn_passive, handle_syn, handle_ack,
  fin_state, handle_fin,
}
use udt_boost.Input.Segment.{
  predicted, do_header_prediction, ack_and_fin, take_data, slow_path, process, is_state, note,
  input,
}
use udt_boost.Input.Retrans.{
  handle_ack-IsCounted, handle_ack-size, reset_same, timer_same, maxseg-drop_acked_data,
  maxseg-reset,
}

-- What an ack needs: the counts agree, a packet has a size below 2 ^ 16, and `m_snd_nxt` has 32 bits.
pub record IsAble (s : Sock) : Type 0 where
  pub counted : IsCounted s
  pub size : s.cb.maxseg + hdr_size < u16_mod
  pub nxt32 : s.cb.snd_nxt < u32_mod

-- What of a control block this is about.
abbrev Kept : Type 0
Kept = ℕ × (ℕ × ℕ)

abbrev kept : Cb → Kept
kept c = (c.retrans_data, (c.maxseg, c.snd_nxt))

keep : {s s' : Sock} → kept s'.cb ≡ kept s.cb → s'.snd_buf ≡ s.snd_buf → IsAble s → IsAble s'
keep {s} {s'} e b h =
    let r : s'.cb.retrans_data ≡ s.cb.retrans_data = ap (λ k. k.0) e in
    let m : s'.cb.maxseg ≡ s.cb.maxseg = ap (λ k. k.1.0) e in
    let n : s'.cb.snd_nxt ≡ s.cb.snd_nxt = ap (λ k. k.1.1) e in
    record {
      counted = carry r b h.counted;
      size = omega (arith, m, h.size);
      nxt32 = omega (arith, n, h.nxt32);
    }

out_of_wnd-kept :
    (p : Packet) (s : Sock)
    → let d = (drop_out_of_rcv_wnd_packet p s).0 in
      (kept d.cb ≡ kept s.cb) × (d.snd_buf ≡ s.snd_buf)
unfolding drop_out_of_rcv_wnd_packet set_rcv_wnd
out_of_wnd-kept p s = (ground arith, ground arith)

out_of_wnd-IsAble : (p : Packet) (s : Sock) → IsAble s → IsAble (drop_out_of_rcv_wnd_packet p s).0
out_of_wnd-IsAble p s h = keep (out_of_wnd-kept p s).0 (out_of_wnd-kept p s).1 h

syn-kept :
    (st : State) (p : Packet) (c : Cb)
    → let d = (syn_state st p c).0 in
      (d.retrans_data ≡ c.retrans_data)
      × (d.maxseg ≡ c.maxseg)
      × (c.snd_nxt < u32_mod → d.snd_nxt < u32_mod)
unfolding syn_state syn_passive
syn-kept listen p c = (refl, refl, λ h. omega arith)
syn-kept syn_sent p c = (refl, refl, λ h. h)
syn-kept syn_received p c = (refl, refl, λ h. h)
syn-kept established p c = (refl, refl, λ h. h)
syn-kept _ p c = (refl, refl, λ h. h)

synced-IsAble :
    (p : Packet) (s : Sock) → IsAble s → IsAble (record s { cb = (handle_syn p s.cb).1 })
unfolding handle_syn
synced-IsAble p s h =
    let (e, m, n) = syn-kept s.cb.state _ _ in
    record { counted = carry e refl h.counted; size = omega (arith, m, h.size); nxt32 = n h.nxt32 }

reass-kept : (p : Packet) (r : Rcv) → kept (tcp_reass_or_append p r).cb ≡ kept r.cb
unfolding tcp_reass_or_append tcp_reass merge_reasm_pkts
reass-kept p r = ground arith

take_data-kept :
    (p : Packet) (s : Sock)
    → (kept (take_data p s).cb ≡ kept s.cb) × ((take_data p s).snd_buf ≡ s.snd_buf)
unfolding take_data
take_data-kept p s =
    let e = reass-kept p (record { cb = s.cb; rcv_buf = s.rcv_buf }) in
    (ground (arith, e), ground arith)

take_data-IsAble : (p : Packet) (s : Sock) → IsAble s → IsAble (take_data p s)
take_data-IsAble p s h = keep (take_data-kept p s).0 (take_data-kept p s).1 h

pub IsAble-IsReady : {s : Sock} → IsAble s → IsReady s
IsAble-IsReady h = record { counted = h.counted; size = h.size }

fin-kept :
    (st : State) (c : Cb)
    → ((fin_state st c).retrans_data ≡ c.retrans_data) × ((fin_state st c).maxseg ≡ c.maxseg)
unfolding fin_state
fin-kept established c = (refl, refl)
fin-kept close_wait c = (refl, refl)
fin-kept fin_wait_1 c = (refl, refl)
fin-kept closing c = (refl, refl)
fin-kept fin_wait_2 c = (refl, refl)
fin-kept time_wait c = (refl, refl)
fin-kept _ c = (refl, refl)

handle_fin-kept :
    (c : Cb) → ((handle_fin c).retrans_data ≡ c.retrans_data) × ((handle_fin c).maxseg ≡ c.maxseg)
unfolding handle_fin
handle_fin-kept c = ((fin-kept c.state _).0 ∙ ground arith, (fin-kept c.state _).1 ∙ ground arith)

ack_and_fin-IsReady : (p : Packet) (s : Sock) → IsAble s → IsReady (ack_and_fin p s)
unfolding ack_and_fin
ack_and_fin-IsReady p s h =
    let r = IsAble-IsReady h in
    let acked : IsReady (handle_ack p s).0 = record {
      counted = handle_ack-IsCounted p s h.nxt32 h.size h.counted;
      size = handle_ack-size p s h.nxt32 r;
    } in
    let s2 : Sock = if p.hdr.flags.ack then (handle_ack p s).0 else s in
    let r2 : IsReady s2 = if_ind IsReady p.hdr.flags.ack acked r in
    let (e, m) = handle_fin-kept s2.cb in
    if_ind IsReady (p.hdr.flags.ack && (handle_ack p s).1) r2
      (if_ind IsReady (fin s.rcv_buf.buf) (ready handle_fin s2 e m r2) r2)

slow_path-IsReady : (p : Packet) (s : Sock) → IsAble s → IsReady (slow_path p s)
unfolding slow_path
slow_path-IsReady p s h =
    let syn = handle_syn p s.cb in
    let h1 = synced-IsAble p s h in
    if_ind IsReady p.hdr.flags.syn
      (if_ind IsReady syn.2 (IsAble-IsReady h1)
        (ack_and_fin-IsReady syn.0 _ (take_data-IsAble syn.0 _ h1)))
      (ack_and_fin-IsReady p _ (take_data-IsAble p s h))

-- What header prediction does: the counts agree, and if it has not dealt with the segment, an ack may
-- follow.
Predicted : Sock × Bool → Type 0
Predicted r = IsReady r.0 × ((r.1 ≡ true) ⊎ IsAble r.0)

acked-IsReady :
    (p : Packet) (s : Sock)
    → IsReady s
    → IsReady (
        on_cb
          (λ c. record c { flags = record c.flags { notify_write = true } })
          (on_cb reset_rexmt_timer (drop_acked_data p.hdr.ack s)))
acked-IsReady p s r =
    let d = drop_acked_data p.hdr.ack s in
    record {
      counted =
          carry (reset_same d.cb) refl (drop_acked_data-Drops p.hdr.ack s r.counted).0.counted;
      size = omega (arith, maxseg-reset d.cb, maxseg-drop_acked_data p.hdr.ack s, r.size);
    }

prediction : (p : Packet) (s : Sock) → IsAble s → Predicted (do_header_prediction p s)
unfolding do_header_prediction Predicted
prediction p s h =
    let acked =
      on_cb (λ c. record c { flags = record c.flags { notify_write = true } })
        (on_cb reset_rexmt_timer (drop_acked_data p.hdr.ack s)) in
    let r1 = acked-IsReady p s (IsAble-IsReady h) in
    let sent : Sock = if acked.snd_buf.cc == 0 then acked else (output acked).0 in
    let r2 : IsReady sent = if_ind IsReady (acked.snd_buf.cc == 0) r1 (output-IsReady acked r1) in
    let idle : Predicted (s, false) = (IsAble-IsReady h, inr h) in
    if_ind Predicted (not (predicted p s.cb)) idle (
      if_ind Predicted (p.hdr.len == 0)
        (if_ind Predicted
          (seq_gt p.hdr.ack s.cb.snd_una && seq_le p.hdr.ack s.cb.snd_max && is_cwnd_full_open s.cb)
          (r2, inl refl) idle)
        (if_ind Predicted
          (p.hdr.ack == s.cb.snd_una
            && is_empty s.rcv_buf.reasm_pkts
            && leb p.hdr.len (acc s.rcv_buf.buf))
          (if_ind Predicted (append_pkt p s.rcv_buf.buf).1
            (record { counted = carry refl refl h.counted; size = h.size }, inl refl)
            (record { counted = carry refl refl h.counted; size = h.size }, inr (keep refl refl h)))
          idle))

-- The body of `input`, up to the notifications.
process-IsReady : (p : Packet) (s : Sock) → IsAble s → IsReady (process p s)
unfolding process Predicted
process-IsReady p s h =
    let h1 = out_of_wnd-IsAble p s h in
    let r = do_header_prediction p (drop_out_of_rcv_wnd_packet p s).0 in
    let done = prediction p (drop_out_of_rcv_wnd_packet p s).0 h1 in
    if_ind IsReady (is_state s.cb.state closed)
      (if_ind IsReady p.hdr.flags.rst (IsAble-IsReady h)
        (record { counted = carry refl refl h.counted; size = h.size }))
      (if_ind IsReady p.hdr.flags.rst
        (record { counted = carry refl refl h.counted; size = h.size })
        (if_ind IsReady (drop_out_of_rcv_wnd_packet p s).1 (IsAble-IsReady h1)
          (elim (Bool-cases r.1) [
            | inl e ↦ rw e done.0
            | inr e ↦ rw e (elim done.1 [
              | inl t ↦ absurd (ground (arith, e, t))
              | inr able ↦ slow_path-IsReady p r.0 able
            ])
          ])))

noted-IsAble : (p : Packet) (s : Sock) → IsAble s → IsAble (on_cb (note p) s)
unfolding update_rtt
noted-IsAble p s h =
    let c : Cb = record s.cb {
      pseq = p.hdr.seq;
      idle = 0;
      timers = record s.cb.timers { keep = s_keepidle };
    } in
    let t = timer_same c.rtt c in keep (ground (arith, t)) refl h

-- A datagram keeps the counts of the send buffer, whatever arrives, in whatever state: the debug
-- assertion `check_rexmt_data` holds after `input`, with all that it sends, takes from the pending
-- operations and tells the socket, if it held before; and so does the bound on the segment size.
-- `m_snd_nxt` has 32 bits, and the segment size leaves a packet with its header below 2 ^ 16 bytes.
pub input-IsCounted :
    (p : Packet) (bytes_received : ℕ) (s : Sock)
    → s.cb.snd_nxt < u32_mod
    → s.cb.maxseg + hdr_size < u16_mod
    → IsCounted s
    → let s' = (input p bytes_received s).0 in IsCounted s' × (s'.cb.maxseg + hdr_size < u16_mod)
unfolding input
input-IsCounted p bytes_received s n m c =
    let p' : Packet = record p { hdr = ntoh p.hdr } in
    let h : IsAble s = record { counted = c; size = m; nxt32 = n } in
    let r = commit_notifies-IsReady _ (process-IsReady p' _ (noted-IsAble p' s h)) in
    let P : Sock × Bool → Type 0 = λ x. IsCounted x.0 × (x.0.cb.maxseg + hdr_size < u16_mod) in
    if_ind P (ltb bytes_received hdr_size || p.hdr.flags.hp) (c, m)
      (if_ind P (p'.hdr.len + p'.hdr.off == bytes_received) (carry refl refl r.counted, r.size)
        (c, m))
