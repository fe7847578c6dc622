-- ===== src/Timer.antt =====
-- `timer` of udt/timer.h and udt/timer.cpp: it calls a handler again and again. What asio is asked to
-- do is an effect, the latest last; what a handler does, to the timer too, is the argument `call`.
pub mod Quiet
use udt_boost.Base.{
  ℕ, Bool, true, false, ◌||◌, if◌then◌else◌, List, [], ◌∷◌, ◌++◌, Option, none, some,
}
use udt_boost.Asio.{ErrorCode, is_error}
use udt_boost.Tracker
use udt_boost.Tracker.{Tracker, WeakRefer}

pub data Effect : Type 0 where
  expires_from_now : ℕ → Effect
  wait : WeakRefer → Effect
  cancel : Effect

pub record Timer : Type 0 where
  pub timer_proc_t : Option ℕ
  pub milli_sec : ℕ
  pub stopping : Bool
  pub tracker : Tracker
  pub effects : List Effect

unfoldable pub ask : Effect → Timer → Timer
ask x t = record t { effects = t.effects ++ x ∷ [] }

-- The constructor does not set m_stopping.
unfoldable pub init : Bool → Timer
init garbage = record {
  timer_proc_t = none;
  milli_sec = 0;
  stopping = garbage;
  tracker = Tracker.init;
  effects = [];
}

unfoldable pub async_wait : Timer → Timer
async_wait t = ask (wait (Tracker.get t.tracker)) (ask (expires_from_now t.milli_sec) t)

unfoldable pub start : ℕ → Option ℕ → Timer → Timer
start milli_sec timer_proc t =
    async_wait (record t { stopping = false; milli_sec = milli_sec; timer_proc_t = timer_proc })

unfoldable pub stop : Timer → Timer
stop t = if t.stopping then t else ask cancel (record t { stopping = true })

-- The destructor, with that of m_tracker.
unfoldable pub destroy : Timer → Timer
destroy t = let t1 = stop t in record t1 { tracker = Tracker.reset t1.tracker }

-- The virtual function, which does nothing.
unfoldable pub timer_proc : Timer → Timer
timer_proc t = t

unfoldable pub handle_timeout : (ℕ → Timer → Timer) → Option ErrorCode → WeakRefer → Timer → Timer
handle_timeout call e w t =
    let called : Timer = elim t.timer_proc_t [ none ↦ timer_proc t | some h ↦ call h t ] in
    if Tracker.expired w t.tracker || (is_error e || t.stopping)
    then t
    else if Tracker.expired (Tracker.get t.tracker) called.tracker
    then called
    else async_wait called
