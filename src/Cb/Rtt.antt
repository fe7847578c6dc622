-- ===== src/Cb/Rtt.antt =====
-- The round-trip estimate and the retransmit and persist intervals: `xmit_timer`, `enter_persist`
-- and `can_persist` of udt/udt_sub.cpp, `rexmt_timer_value` of udt/udt_cb.h. All of it is `short`
-- arithmetic, which wraps at 2 ^ 16.
use udt_boost.Base.{
  ℕ, ◌+◌, ◌-◌, ◌*◌, ◌/◌, ◌%◌, ◌≤◌, ◌<◌, ◌≡◌, Bool, inl, inr, Bool-cases, not, ◌&&◌, ◌||◌,
  if◌then◌else◌, ◌==◌, ltb, leb, arith, List, [], ◌∷◌, get_or, u16, sar2, sar3, is_neg32, u32_mod,
  add32, sign_extend,
}
use udt_boost.Cb.{
  Cb, tcpt_rangeset, tcptv_min, tcptv_rexmtmax, tcptv_persmin, tcptv_persmax, tcp_maxrxtshift,
}

-- `s_tcp_backoff`, 13 entries.
abbrev pub s_tcp_backoff : List ℕ
s_tcp_backoff = 1 ∷ 2 ∷ 4 ∷ 8 ∷ 16 ∷ 32 ∷ 64 ∷ 64 ∷ 64 ∷ 64 ∷ 64 ∷ 64 ∷ 64 ∷ []

-- `s_tcp_backoff[m_rxtshift]`. An index past the end is out of the model.
abbrev pub backoff : ℕ → ℕ
backoff shift = get_or s_tcp_backoff shift 0

-- `TCP_REXMTVAL`.
abbrev pub tcp_rexmtval : Cb → ℕ
tcp_rexmtval c = u16 (sar3 c.srtt + c.rttvar)

unfoldable pub rexmt_timer_value : Cb → ℕ
unfolding tcpt_rangeset
rexmt_timer_value c =
    tcpt_rangeset (u16 (tcp_rexmtval c * backoff c.rxtshift)) c.rttmin tcptv_rexmtmax

-- `(short)(a - b)`.
abbrev sub16 : ℕ → ℕ → ℕ
sub16 a b = (a + 65536 - b) % 65536

-- `v <= 0` of a `short`.
abbrev le_zero16 : ℕ → Bool
le_zero16 v = v == 0 || leb 32768 v

-- `if ((x += delta) <= 0) x = 1`.
unfoldable pub bump : ℕ → ℕ → ℕ
bump x delta = if le_zero16 (u16 (x + delta)) then 1 else u16 (x + delta)

-- `if (delta < 0) delta = -delta`.
abbrev abs16 : ℕ → ℕ
abs16 d = if leb 32768 d then sub16 0 d else d

-- The two branches of `xmit_timer`: the smoothed estimate, and the first one.
unfoldable pub smooth_with : ℕ → Cb → Cb
smooth_with delta c = record c {
  srtt = bump c.srtt delta;
  rttvar = bump c.rttvar (sub16 (abs16 delta) (sar2 c.rttvar));
}

unfoldable pub first_rtt : ℕ → Cb → Cb
first_rtt rtt c = record c { srtt = u16 (rtt * 8); rttvar = u16 (rtt * 2) }

-- The end of `xmit_timer`, common to both.
unfoldable pub timed : Cb → Cb
timed c =
    let reset = record c { rtt = 0; rxtshift = 0 } in
    record reset { rxtcur = rexmt_timer_value reset }

unfoldable pub xmit_timer : ℕ → Cb → Cb
xmit_timer rtt c =
    let delta = sub16 (sub16 rtt 1) (sar3 c.srtt) in
    timed (if not (c.srtt == 0) then smooth_with delta c else first_rtt rtt c)

-- `x >> 1` of an `int`.
abbrev sar1 : ℕ → ℕ
sar1 x = if is_neg32 x then (x + u32_mod) / 2 else x / 2

-- The product is an `int`, which the call of `TCPT_RANGESET` cuts to a `short`.
unfoldable pub enter_persist : Cb → Cb
unfolding tcpt_rangeset
enter_persist c =
    let t = sar1 (add32 (sign_extend (sar2 c.srtt)) (sign_extend c.rttvar)) in
    let d = record c {
      timers = record c.timers {
        persist = tcpt_rangeset (u16 (t * backoff c.rxtshift)) tcptv_persmin tcptv_persmax;
      };
    } in
    if ltb c.rxtshift tcp_maxrxtshift then record d { rxtshift = c.rxtshift + 1 } else d

-- `can_persist`; `buffered` is the socket's `total_buffer_size()`.
abbrev pub can_persist : ℕ → Cb → Bool
can_persist buffered c = not (buffered == 0) && c.timers.persist == 0 && c.timers.rexmt == 0

-- A retransmit interval in the model's range: within `TCPTV_MIN` and `TCPTV_REXMTMAX`.
abbrev pub InRange : ℕ → Type 0
InRange t = (tcptv_min ≤ t) × (t ≤ tcptv_rexmtmax)

pub rexmt_timer_value-InRange : (c : Cb) → c.rttmin ≡ tcptv_min → InRange (rexmt_timer_value c)
unfolding rexmt_timer_value
rexmt_timer_value-InRange c h = ground arith

bump_pos : (x delta : ℕ) → (0 < bump x delta) × (bump x delta < 32768)
unfolding bump
bump_pos x delta = ground arith

-- The estimates are positive as `short`.
abbrev IsEstimate : Cb → Type 0
IsEstimate c =
    (0 < c.srtt) × (c.srtt < 32768) × (0 < c.rttvar) × (c.rttvar < 32768) × (c.rttmin ≡ tcptv_min)

smooth_with-IsEstimate :
    (delta : ℕ) (c : Cb) → c.rttmin ≡ tcptv_min → IsEstimate (smooth_with delta c)
unfolding smooth_with
smooth_with-IsEstimate delta c h =
    let s = bump_pos c.srtt delta in
    let v = bump_pos c.rttvar (sub16 (abs16 delta) (sar2 c.rttvar)) in (s.0, s.1, v.0, v.1, h)

first_rtt-IsEstimate :
    (rtt : ℕ) (c : Cb) → 0 < rtt → rtt < 4096 → c.rttmin ≡ tcptv_min → IsEstimate (first_rtt rtt c)
unfolding first_rtt
first_rtt-IsEstimate rtt c h0 h m = omega arith

after_bounds :
    (c : Cb)
    → IsEstimate c
    → let d = timed c in
      (0 < d.srtt)
      × (d.srtt < 32768)
      × (0 < d.rttvar)
      × (d.rttvar < 32768)
      × (d.rtt ≡ 0)
      × (d.rxtshift ≡ 0)
      × InRange d.rxtcur
unfolding timed
after_bounds c v =
    let r = rexmt_timer_value-InRange (record c { rtt = 0; rxtshift = 0 }) v.4 in omega arith

-- A round-trip sample, of 1 to 4095 ticks and with `m_rttmin` at `TCPTV_MIN`, leaves a positive estimate and variance (as signed
-- 16-bit numbers), also where the sums wrap; it stops the timing, takes back the backoff, and sets
-- the retransmit interval to `rexmt_timer_value`, between 1 and 16 seconds.
pub xmit_timer_bounds :
    (rtt : ℕ) (c : Cb)
    → 0 < rtt
    → rtt < 4096
    → c.rttmin ≡ tcptv_min
    → let d = xmit_timer rtt c in
      (0 < d.srtt)
      × (d.srtt < 32768)
      × (0 < d.rttvar)
      × (d.rttvar < 32768)
      × (d.rtt ≡ 0)
      × (d.rxtshift ≡ 0)
      × InRange d.rxtcur
unfolding xmit_timer
xmit_timer_bounds rtt c h0 h h2 = elim (Bool-cases (c.srtt == 0)) [
  | inl e ↦ rw e (after_bounds (first_rtt rtt c) (first_rtt-IsEstimate rtt c h0 h h2))
  | inr e ↦
      let delta = sub16 (sub16 rtt 1) (sar3 c.srtt) in
      rw e (after_bounds (smooth_with delta c) (smooth_with-IsEstimate delta c h2))
]
