-- ===== src/Machine.antt =====
-- The state diagram of a connection, udt/udt_cb.h: the moves that the code makes, one for each
-- assignment of `m_state`.
pub mod Keep
pub mod Moves
pub mod Timers
pub mod Retries
use udt_boost.Base.{◌≡◌, subst, ℕ, ◌≤◌, arith}
use udt_boost.Cb.{
  State, closed, listen, syn_sent, syn_received, established, close_wait, fin_wait_1, closing,
  last_ack, fin_wait_2, time_wait,
}

infix 40 ◌⟶◌ ◌⟶*◌
pub data ◌⟶◌ : State → State → Type 0 where
  -- `handle_syn` and `update_ack_state`
  syn_passive : listen ⟶ syn_received
  syn_active : syn_sent ⟶ syn_received
  connected : syn_received ⟶ established
  -- `handle_fin`
  fin_passive : established ⟶ close_wait
  fin_both : fin_wait_1 ⟶ closing
  fin_last : fin_wait_2 ⟶ time_wait
  -- an ack of the FIN that was sent, `update_ack_state`
  fin_acked : fin_wait_1 ⟶ fin_wait_2
  both_acked : closing ⟶ time_wait
  last_acked : last_ack ⟶ closed
  -- `drop`
  dropped : {s : State} → s ⟶ closed

pub data ◌⟶*◌ : State → State → Type 0 where
  here : {s : State} → s ⟶* s
  step : {s t u : State} → s ⟶ t → t ⟶* u → s ⟶* u

pub ⟶*-trans : {s t u : State} → s ⟶* t → t ⟶* u → s ⟶* u
⟶*-trans here q = q
⟶*-trans (step e p) q = step e (⟶*-trans p q)

pub one : {s t : State} → s ⟶ t → s ⟶* t
one e = step e here

pub stay : {s t : State} → t ≡ s → s ⟶* t
stay {s} e = rw e here

-- How far a connection has come.
abbrev pub progress : State → ℕ
progress listen = 1
progress syn_sent = 1
progress syn_received = 2
progress established = 3
progress close_wait = 4
progress fin_wait_1 = 4
progress closing = 5
progress last_ack = 5
progress fin_wait_2 = 5
progress time_wait = 6
progress closed = 7

⟶-progress : {s t : State} → s ⟶ t → progress s ≤ progress t
⟶-progress syn_passive = omega arith
⟶-progress syn_active = omega arith
⟶-progress connected = omega arith
⟶-progress fin_passive = omega arith
⟶-progress fin_both = omega arith
⟶-progress fin_last = omega arith
⟶-progress fin_acked = omega arith
⟶-progress both_acked = omega arith
⟶-progress last_acked = omega arith
⟶-progress (dropped {s}) = most s
  where
    most : (s : State) → progress s ≤ 7
    most closed = omega arith
    most _ = omega arith

pub ⟶*-progress : {s t : State} → s ⟶* t → progress s ≤ progress t
⟶*-progress here = omega arith
⟶*-progress (step e p) = omega (arith, ⟶-progress e, ⟶*-progress p)
