-- ===== src/Machine/Timers.antt =====
-- What the interval timers of udt/udt_timo.cpp do to the state of a connection.
use udt_boost.Base.{
  ℕ, ◌≡◌, ◌≢◌, ◌↔◌, ◌≤◌, if_ind, ◌⊎◌, refl, sym, ◌∙◌, inl, inr, true, false, Bool-cases, arith,
  some, ltb, ◌+◌,
}
use udt_boost.Cb.{Cb, State, closed, timed_out, tcp_maxrxtshift}
use udt_boost.Cb.Rtt.{enter_persist}
use udt_boost.Sock.{Sock, on_cb}
use udt_boost.Notify.{respond}
use udt_boost.Timo.{
  count_down, handle_fast_timo, clear_snd_buf_flags, rexmt_back_off, rexmt_expired, persist_expired,
  keep_expired, tick_rexmt, tick_persist, tick_keep, tick_2msl, handle_slow_timo,
}
use udt_boost.Machine.Keep.{state, state-output, state-validate_first_pkt, state-handle_packet_lost}
use udt_boost.Machine.Moves.{drop-closed}

state-enter_persist : (c : Cb) → (enter_persist c).state ≡ c.state
unfolding enter_persist
state-enter_persist c = ground arith

pub state-rexmt_back_off : (clock : ℕ) (c : Cb) → (rexmt_back_off clock c).state ≡ c.state
unfolding rexmt_back_off
state-rexmt_back_off clock c = state-handle_packet_lost clock _ ∙ ground arith

pub state-clear_snd_buf_flags : (s : Sock) → state (clear_snd_buf_flags s) ≡ state s
unfolding clear_snd_buf_flags
state-clear_snd_buf_flags s = refl

-- The state stays, or the connection is closed.
Outcome : State → State → Type 0
Outcome a b = (b ≡ a) ⊎ (b ≡ closed)

rexmt-Outcome : (s : Sock) → Outcome (state s) (state (rexmt_expired s))
unfolding rexmt_expired Outcome
rexmt-Outcome s =
    let dropped = on_cb (λ c. record c { rxtshift = tcp_maxrxtshift }) s in
    let backed = on_cb (rexmt_back_off s.clock) s in
    ground (
      arith,
      drop-closed (some timed_out) dropped,
      state-output (clear_snd_buf_flags backed),
      state-clear_snd_buf_flags backed,
      state-rexmt_back_off s.clock s.cb,
    )

state-persist_expired : (s : Sock) → state (persist_expired s) ≡ state s
unfolding persist_expired
state-persist_expired s =
    state-output _ ∙ state-validate_first_pkt (on_cb enter_persist s) ∙ state-enter_persist s.cb

keep-Outcome : (s : Sock) → Outcome (state s) (state (keep_expired s))
unfolding keep_expired Outcome respond
keep-Outcome s = ground (arith, drop-closed (some timed_out) s)

-- One outcome after another.
then-Outcome : (a b c : State) → Outcome a b → Outcome b c → Outcome a c
unfolding Outcome
then-Outcome a b c (inl e) (inl h) = inl (h ∙ e)
then-Outcome a b c (inl e) (inr h) = inr h
then-Outcome a b c (inr e) (inl h) = inr (h ∙ e)
then-Outcome a b c (inr e) (inr h) = inr h

tick_rexmt-Outcome : (s : Sock) → Outcome (state s) (state (tick_rexmt s))
unfolding tick_rexmt Outcome
tick_rexmt-Outcome s =
    let t = s.cb.timers.rexmt in
    let s' = on_cb (λ c. record c { timers = record c.timers { rexmt = (count_down t).0 } }) s in
    if_ind (λ (r : Sock). Outcome (state s) (state r)) (count_down t).1 (rexmt-Outcome s')
      (inl refl)

tick_persist-Outcome : (s : Sock) → Outcome (state s) (state (tick_persist s))
unfolding tick_persist Outcome
tick_persist-Outcome s =
    let t = s.cb.timers.persist in
    let s' = on_cb (λ c. record c { timers = record c.timers { persist = (count_down t).0 } }) s in
    if_ind (λ (r : Sock). Outcome (state s) (state r)) (count_down t).1
      (inl (state-persist_expired s')) (inl refl)

tick_keep-Outcome : (s : Sock) → Outcome (state s) (state (tick_keep s))
unfolding tick_keep Outcome
tick_keep-Outcome s =
    let t = s.cb.timers.keep in
    let s' = on_cb (λ c. record c { timers = record c.timers { keep = (count_down t).0 } }) s in
    if_ind (λ (r : Sock). Outcome (state s) (state r)) (count_down t).1 (keep-Outcome s') (inl refl)

tick_2msl-Outcome : (s : Sock) → Outcome (state s) (state (tick_2msl s))
unfolding tick_2msl Outcome
tick_2msl-Outcome s =
    let t = s.cb.timers.msl2 in
    let s' = on_cb (λ c. record c { timers = record c.timers { msl2 = (count_down t).0 } }) s in
    if_ind (λ (r : Sock). Outcome (state s) (state r)) (count_down t).1
      (inr (drop-closed (some timed_out) s')) (inl refl)

-- A tick of the slow timer leaves the state of the connection, or closes it; a tick of the fast timer
-- leaves it.
pub timo_outcome :
    (s : Sock)
    → ((state (handle_slow_timo s) ≡ state s) ⊎ (state (handle_slow_timo s) ≡ closed))
      × (state (handle_fast_timo s) ≡ state s)
unfolding handle_slow_timo handle_fast_timo Outcome
timo_outcome s =
    let s1 = tick_rexmt s in
    let s2 = tick_persist s1 in
    let s3 = tick_keep s2 in
    (
      then-Outcome _ _ _ (tick_rexmt-Outcome s) (
          then-Outcome _ _ _ (tick_persist-Outcome s1)
            (then-Outcome _ _ _ (tick_keep-Outcome s2) (tick_2msl-Outcome s3))),
      ground (
        arith,
        state-output
            (on_cb (λ c. record c { flags = record c.flags { delack = false; acknow = true } }) s),
      ),
    )

-- The retransmit timer gives an open connection up exactly when it goes off for the thirteenth time
-- in a row, after the twelve retransmissions that `TCP_MAXRXTSHIFT` allows.
pub rexmt_expired-closes :
    (s : Sock)
    → state s ≢ closed
    → (state (rexmt_expired s) ≡ closed) ↔ (tcp_maxrxtshift ≤ s.cb.rxtshift)
unfolding rexmt_expired
rexmt_expired-closes s h =
    let dropped = on_cb (λ c. record c { rxtshift = tcp_maxrxtshift }) s in
    let backed = on_cb (rexmt_back_off s.clock) s in
    let sent =
      state-output (clear_snd_buf_flags backed)
      ∙ state-clear_snd_buf_flags backed
      ∙ state-rexmt_back_off s.clock s.cb in
    elim (Bool-cases (ltb tcp_maxrxtshift (s.cb.rxtshift + 1))) [
      | inl e ↦ rw e ((λ c. ground arith), λ le. drop-closed (some timed_out) dropped)
      | inr e ↦ rw e ((λ c. absurd (h (sym sent ∙ c))), λ le. absurd (ground arith))
    ]
