-- ===== src/Machine/Retries.antt =====
-- How often the retransmit timer of udt/udt_timo.cpp goes off before the connection is given up.
use udt_boost.Base.{
  ℕ, zero, suc, ◌+◌, ◌≡◌, ◌≢◌, ◌≤◌, ◌<◌, refl, sym, ap, ap₂, ◌∙◌, inl, inr, false, not, ◌&&◌, ◌||◌,
  lt32s, lt16s, ◌==◌, List, [], ◌∷◌, Option, none, some, Bool-cases, arith, if_ind, if◌then◌else◌,
  ltb, length,
}
use udt_boost.Packet.{Packet, Flags}
use udt_boost.Cb.{Cb, State, closed, tcp_maxrxtshift, tcptv_min}
use udt_boost.Cb.Rtt.{rexmt_timer_value, rexmt_timer_value-InRange, can_persist}
use udt_boost.Cb.Congestion.{slow_start, handle_packet_lost, marked, decr_snd_cwnd}
use udt_boost.Cb.Window.{leave_persist}
use udt_boost.Buf.{acc, append}
use udt_boost.Sock.{
  Sock, SendOp, emit, post_send, on_cb, consume_ops, consume_pending_data, total_buffer_size,
}
use udt_boost.Output.{get_snd_pkt}
use udt_boost.Output.Round.{
  advertise, refill, allowance, pick, unpersist, rewind, advance_nxt, start_rexmt, account, settle,
  send_segment, send_nothing, send_or_not, must_send, out_flags, pkt_len, output_round, output_loop,
  send_packets_clamp, restart, output_in, output,
}
use udt_boost.Timo.{rexmt_expired, rexmt_back_off, clear_snd_buf_flags}
use udt_boost.Machine.Keep.{state, state-output}
use udt_boost.Machine.Timers.{rexmt_expired-closes, state-rexmt_back_off, state-clear_snd_buf_flags}

-- The persist timer is off, there have been `k` retransmissions in a row, and the peer's window has room
-- for a segment.
record IsAt (k : ℕ) (c : Cb) : Type 0 where
  off : c.timers.persist ≡ 0
  shift : c.rxtshift ≡ k
  room : lt32s c.snd_wnd c.maxseg ≡ false
  floor : c.rttmin ≡ tcptv_min

-- And the retransmit timer runs, so that the persist timer is not started.
record Runs (k : ℕ) (c : Cb) : Type 0 where
  counted : IsAt k c
  running : c.timers.rexmt ≢ 0

-- What of the control block this is about.
abbrev Key : Type 0
Key = ℕ × ℕ × ℕ × ℕ × ℕ × ℕ

abbrev key : Cb → Key
key c = (c.timers.persist, c.rxtshift, c.snd_wnd, c.maxseg, c.rttmin, c.timers.rexmt)

Runs-same : {k : ℕ} {c d : Cb} → key d ≡ key c → Runs k c → Runs k d
Runs-same {c = c} {d = d} e r =
    let h = r.counted in
    let wnd : d.snd_wnd ≡ c.snd_wnd = ap (λ x. x.2) e in
    let seg : d.maxseg ≡ c.maxseg = ap (λ x. x.3) e in
    record {
      counted = record {
        off = ap (λ x. x.0) e ∙ h.off;
        shift = ap (λ x. x.1) e ∙ h.shift;
        room = ap₂ lt32s wnd seg ∙ h.room;
        floor = ap (λ x. x.4) e ∙ h.floor;
      };
      running = λ z. r.running (sym (ap (λ x. x.5) e) ∙ z);
    }

key-get_snd_pkt : (len : ℕ) (c : Cb) (ps : List Packet) → key (get_snd_pkt len c ps).cb ≡ key c
unfolding get_snd_pkt
key-get_snd_pkt len c [] = refl
key-get_snd_pkt len c (p ∷ ps) = ground (arith, key-get_snd_pkt len c ps)

key-pick : (k n : ℕ) (c : Cb) (ps : List Packet) → Runs k c → key (pick n c ps).cb ≡ key c
unfolding pick
key-pick k n c ps r = rw r.counted.room (ground (arith, key-get_snd_pkt n c ps))

key-leave_persist : (c : Cb) → c.timers.persist ≡ 0 → key (leave_persist c) ≡ key c
unfolding leave_persist
key-leave_persist c h = ground (arith, h)

key-unpersist : (p : Option Packet) (c : Cb) → c.timers.persist ≡ 0 → key (unpersist p c) ≡ key c
unfolding unpersist
key-unpersist none c h = refl
key-unpersist (some p) c h = if_ind (λ (x : Cb). key x ≡ key c) c.force refl (key-leave_persist c h)

key-rewind : (f : Flags) (c : Cb) → key (rewind f c) ≡ key c
unfolding rewind
key-rewind f c = ground arith

key-advance_nxt : (len : ℕ) (f : Flags) (c : Cb) → key (advance_nxt len f c) ≡ key c
unfolding advance_nxt
key-advance_nxt len f c = ground arith

key-start_rexmt : (c : Cb) → c.timers.rexmt ≢ 0 → key (start_rexmt c) ≡ key c
unfolding start_rexmt
key-start_rexmt c h = let no : (c.timers.rexmt == 0) ≡ false = ground (arith, h) in rw no refl

key-account : (len : ℕ) (f : Flags) (c : Cb) → c.timers.rexmt ≢ 0 → key (account len f c) ≡ key c
unfolding account
key-account len f c h =
    let d = advance_nxt len f c in
    let same = key-advance_nxt len f c in
    let rexmt : d.timers.rexmt ≡ c.timers.rexmt = ap (λ x. x.5) same in
    let sent : key (start_rexmt d) ≡ key c = key-start_rexmt d (λ z. h (sym rexmt ∙ z)) ∙ same in
    if_ind (λ (x : Cb). key x ≡ key c) (not c.force || c.timers.persist == 0) sent (ground arith)

key-settle : (w : ℕ) (c : Cb) → key (settle w c) ≡ key c
unfolding settle
key-settle w c = ground arith

key-slow_start : (c : Cb) → key (slow_start c) ≡ key c
unfolding slow_start
key-slow_start c = ground arith

consume-cb : (ops : List SendOp) (s : Sock) → (consume_ops ops s).0.cb ≡ s.cb
unfolding consume_ops
consume-cb [] s = refl
consume-cb (op ∷ ops) s =
    let (buf, taken) = append op.buf s.cb.maxseg s.snd_buf in
    let next : Sock =
      emit (post_send op.handler none (length op.buf)) (record s { snd_buf = buf }) in
    if_ind (λ (r : Sock × ℕ). r.0.cb ≡ s.cb) taken (consume-cb ops next) refl

refill-cb : (s : Sock) → (refill s).cb ≡ s.cb
unfolding refill consume_pending_data
refill-cb s = ground (arith, consume-cb s.send_ops s)

send_segment-Runs :
    (k : ℕ) (p : Option Packet) (f : Flags) (s : Sock)
    → Runs k s.cb
    → Runs k (send_segment p f s).cb
unfolding send_segment
send_segment-Runs k p f s r =
    let w = advertise (if pkt_len p == 0 then acc s.rcv_buf.buf else s.junk) (on_cb (rewind f) s) in
    let c1 = rewind f s.cb in
    let r1 : Runs k c1 = Runs-same (key-rewind f s.cb) r in
    let c2 = account (pkt_len p) f c1 in
    let r2 : Runs k c2 = Runs-same (key-account (pkt_len p) f c1 r1.running) r1 in
    Runs-same (key-settle w c2) r2

send_or_not-Runs :
    (k n : ℕ) (p : Option Packet) (s : Sock) → Runs k s.cb → Runs k (send_or_not n p s).0.cb
unfolding send_or_not send_nothing
send_or_not-Runs k n p s r = elim (Bool-cases (must_send (pkt_len p) (out_flags (pkt_len p) s) s)) [
  | inl e ↦ rw e (send_segment-Runs k p (out_flags (pkt_len p) s) s r)
  | inr e ↦
      let no : (s.cb.timers.rexmt == 0) ≡ false = let run = r.running in ground (arith, run) in
      let off : can_persist (total_buffer_size s) s.cb ≡ false = ground (arith, no) in rw (e, off) r
]

round-Runs : (k : ℕ) (s : Sock) → Runs k s.cb → Runs k (output_round s).0.cb
unfolding output_round
round-Runs k s r =
    let s1 = refill s in
    let r1 : Runs k s1.cb = rw (refill-cb s) r in
    let picked = pick (allowance s1.cb) s1.cb s1.snd_buf.pkts in
    let r2 : Runs k picked.cb =
      Runs-same (key-pick k (allowance s1.cb) s1.cb s1.snd_buf.pkts r1) r1 in
    send_or_not-Runs k _ _ _ (Runs-same (key-unpersist picked.pkt picked.cb r2.counted.off) r2)

loop-Runs : (k n : ℕ) (s : Sock) → Runs k s.cb → Runs k (output_loop n s).0.cb
unfolding output_loop
loop-Runs k zero s r = r
loop-Runs k (suc n) s r =
    let one = round-Runs k s r in
    if_ind (λ (x : Sock × ℕ). Runs k x.0.cb) (output_round s).2
      (loop-Runs k n (output_round s).0 one) one

output_in-Runs : (k : ℕ) (st : State) (s : Sock) → Runs k s.cb → Runs k (output_in st s).0.cb
unfolding output_in restart
output_in-Runs k closed s r = r
output_in-Runs k _ s r = loop-Runs k send_packets_clamp (restart s) (
    if_ind (λ (x : Sock). Runs k x.cb)
      (s.cb.snd_max == s.cb.snd_una && not (lt16s s.cb.idle s.cb.rxtcur))
      (Runs-same (key-slow_start s.cb) r) r)

back_off-Runs : (k clock : ℕ) (c : Cb) → IsAt k c → Runs (suc k) (rexmt_back_off clock c)
unfolding rexmt_back_off handle_packet_lost marked decr_snd_cwnd
back_off-Runs k clock c h =
    let up = record c { rxtshift = c.rxtshift + 1 } in
    let d = rexmt_back_off clock c in
    let wnd : d.snd_wnd ≡ c.snd_wnd = ground arith in
    let seg : d.maxseg ≡ c.maxseg = ground arith in
    let timer : d.timers.rexmt ≡ rexmt_timer_value up = ground arith in
    let range = rexmt_timer_value-InRange up h.floor in
    record {
      counted = record {
        off = ground (arith, h.off);
        shift = ground (arith, h.shift);
        room = ap₂ lt32s wnd seg ∙ h.room;
        floor = ground (arith, h.floor);
      };
      running = λ z. absurd (omega (arith, timer, z, range));
    }

-- A time-out before the last.
again :
    (k : ℕ) (s : Sock)
    → IsAt k s.cb
    → k < tcp_maxrxtshift
    → IsAt (suc k) (rexmt_expired s).cb × (state (rexmt_expired s) ≡ state s)
unfolding rexmt_expired output clear_snd_buf_flags
again k s h lt =
    let backed = on_cb (rexmt_back_off s.clock) s in
    let b = back_off-Runs k s.clock s.cb h in
    let more : ltb tcp_maxrxtshift (s.cb.rxtshift + 1) ≡ false = ground (arith, h.shift) in
    rw more (
      (output_in-Runs (suc k) _ (clear_snd_buf_flags backed) (Runs-same refl b)).counted,
      state-output (clear_snd_buf_flags backed)
          ∙ (state-clear_snd_buf_flags backed ∙ state-rexmt_back_off s.clock s.cb),
    )

-- The timer goes off `n` times in a row.
unfoldable pub time_outs : ℕ → Sock → Sock
time_outs zero s = s
time_outs (suc n) s = rexmt_expired (time_outs n s)

retried :
    (n : ℕ) (s : Sock)
    → IsAt 0 s.cb
    → n ≤ tcp_maxrxtshift
    → IsAt n (time_outs n s).cb × (state (time_outs n s) ≡ state s)
unfolding time_outs
retried zero s h le = (h, refl)
retried (suc n) s h le =
    let (i, same) = retried n s h (omega arith) in
    let (next, kept) = again n (time_outs n s) i (omega arith) in (next, kept ∙ same)

-- The retransmit timer gives an open connection up when it goes off for the thirteenth time in a row,
-- and not before: each of the first twelve times leaves the state and is counted in `m_rxtshift`, and
-- the thirteenth closes it, when nothing is heard in between. The count begins at 0, with the persist timer
-- off and `m_rttmin` at its constant; and the peer's window has room for a segment, since else the
-- persist timer takes over.
pub retries-close :
    (s : Sock)
    → state s ≢ closed
    → s.cb.rxtshift ≡ 0
    → s.cb.timers.persist ≡ 0
    → s.cb.rttmin ≡ tcptv_min
    → lt32s s.cb.snd_wnd s.cb.maxseg ≡ false
    → ((n : ℕ)
        → n ≤ tcp_maxrxtshift
        → (state (time_outs n s) ≡ state s) × ((time_outs n s).cb.rxtshift ≡ n))
      × (state (time_outs (tcp_maxrxtshift + 1) s) ≡ closed)
unfolding time_outs
retries-close s open_s z off floor room =
    let h : IsAt 0 s.cb = record { off = off; shift = z; room = room; floor = floor } in
    let (last, same) = retried tcp_maxrxtshift s h (omega arith) in
    (
      λ n le. let (i, e) = retried n s h le in (e, i.shift),
      (rexmt_expired-closes (time_outs tcp_maxrxtshift s) (λ c. open_s (sym same ∙ c))).1
          (omega (arith, last.shift)),
    )
