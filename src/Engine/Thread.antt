-- ===== src/Engine/Thread.antt =====
-- Starting and stopping the engine's thread, udt/udt_engine.cpp.
use udt_boost.Base.{ℕ, zero, suc, ◌≡◌, refl, ap, ◌∙◌, true, false, [], ◌∷◌, ◌++◌, arith}
use udt_boost.Engine.{Env, clear, Engine, post_handler, perform, clear_, step, run, stop}

-- The thread, if there is one, gets to `n` requests; the user posts none.
unfoldable pub steps : (ℕ → Env) → ℕ → Engine → Engine
steps env zero g = g
steps env (suc n) g = steps env n (step (env n) g)

steps_stopped : (env : ℕ → Env) (n : ℕ) (g : Engine) → g.thread ≡ false → steps env n g ≡ g
unfolding steps step
steps_stopped env zero g h = refl
steps_stopped env (suc n) g h = ap (steps env n) (idle (env n) g h) ∙ steps_stopped env n g h
  where
    idle : (e : Env) (g : Engine) → g.thread ≡ false → step e g ≡ g
    idle e g h = ground arith

abbrev stopped : Engine → Engine
stopped g = record g { thread = false; worker = false; queue = clear ∷ [] }

stop_lem : (g : Engine) → g.thread ≡ true → g.queue ≡ [] → stop g ≡ stopped g
unfolding stop post_handler
stop_lem g t q =
    rw (t, stop)
      (ap (λ rs. record g { thread = false; worker = false; queue = rs ++ clear ∷ [] }) q)

-- `stop` closes no socket: the thread queues `clear_` after it has left the queue, so that all sockets
-- stay as they are, however long the engine is stopped; the first thing that the thread does when the
-- engine is run again is to delete them. The engine was running, with nothing in its queue.
pub stop-sockets :
    (env : ℕ → Env) (e : Env) (n : ℕ) (g : Engine)
    → g.thread ≡ true
    → g.queue ≡ []
    → ((steps env n (stop g)).sockets ≡ g.sockets)
      × ((step e (run (steps env n (stop g)))).sockets ≡ [])
stop-sockets env e n g t q =
    let same : steps env n (stop g) ≡ stopped g =
      ap (steps env n) (stop_lem g t q) ∙ steps_stopped env n (stopped g) refl in
    (
      ap (λ (x : Engine). x.sockets) same,
      ap (λ (x : Engine). (step e (run x)).sockets) same ∙ unfold step run perform clear_ in refl,
    )
