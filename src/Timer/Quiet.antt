-- ===== src/Timer/Quiet.antt =====
-- A timer that is stopped, and one that is destroyed, udt/timer.cpp.
use udt_boost.Base.{ℕ, ◌≡◌, refl, true, List, [], ◌∷◌, Option, arith}
use udt_boost.Asio.{ErrorCode}
use udt_boost.Tracker.{WeakRefer}
use udt_boost.Timer.{Timer, stop, destroy, ask, handle_timeout}

-- The time-outs that come, one after the other.
pub timeouts : (ℕ → Timer → Timer) → List (Option ErrorCode × WeakRefer) → Timer → Timer
timeouts call [] t = t
timeouts call ((e, w) ∷ es) t = timeouts call es (handle_timeout call e w t)

stop-stopping : (t : Timer) → (stop t).stopping ≡ true
unfolding stop ask
stop-stopping t = ground arith

quiet :
    (call : ℕ → Timer → Timer) (es : List (Option ErrorCode × WeakRefer)) (t : Timer)
    → t.stopping ≡ true
    → timeouts call es t ≡ t
unfolding timeouts handle_timeout
quiet call [] t h = refl
quiet call ((e, w) ∷ es) t h = ground (arith, h, quiet call es t h)

-- Once a timer is stopped or destroyed, nothing comes of the time-outs that are still on their way,
-- in whatever number and with whatever error codes: the handler is not called, asio is asked for
-- nothing, and the timer stays as stop or the destructor left it.
pub stop-quiet :
    (call : ℕ → Timer → Timer) (es : List (Option ErrorCode × WeakRefer)) (t : Timer)
    → (timeouts call es (stop t) ≡ stop t) × (timeouts call es (destroy t) ≡ destroy t)
unfolding destroy
stop-quiet call es t =
    (quiet call es (stop t) (stop-stopping t), quiet call es (destroy t) (stop-stopping t))
