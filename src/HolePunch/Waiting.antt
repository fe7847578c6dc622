-- ===== src/HolePunch/Waiting.antt =====
-- The timer of a hole punching client, udt/udp_hp_clt.cpp: what is posted, and when the client gives
-- up.
use udt_boost.Base.{total, ℕ, zero, suc, ◌+◌, ◌-◌, ◌≡◌, false, List, [], ◌∷◌, ◌++◌, none, some}
use udt_boost.Asio.{timed_out}
use udt_boost.Tracker
use udt_boost.Tracker.{Tracker, WeakRefer}
use udt_boost.HolePunch.{
  Effect, send_to, receive_from, wait, post, cancel_socket, cancel_timer, HpClt, established_eps,
  handle_async_timeout,
}

-- How often an effect is that the handler is told, or that the timer is started.
unfoldable pub tells : Effect → ℕ
tells (post h e eps) = 1
tells (send_to ep bytes) = 0
tells (receive_from w) = 0
tells (wait n w) = 0
tells cancel_socket = 0
tells cancel_timer = 0

unfoldable pub waits : Effect → ℕ
waits (wait n w) = 1
waits (post h e eps) = 0
waits (send_to ep bytes) = 0
waits (receive_from w) = 0
waits cancel_socket = 0
waits cancel_timer = 0

-- The timer goes off `n` times, with `remain` rounds left at first.
unfoldable pub time_out : ℕ → ℕ → HpClt → HpClt
unfolding Tracker.get
time_out zero remain c = c
time_out (suc n) remain c =
    time_out n (remain - 1) (handle_async_timeout none remain (Tracker.get c.tracker) c)

-- A client that waits, and has a handler to tell.
pub record IsWaiting (h : ℕ) (c : HpClt) : Type 0 where
  pub told : c.handler ≡ some h
  pub tracked : Tracker.is_null c.tracker ≡ false

-- What the handler and the timer have been asked, after the counts at first.
pub record Asked (told started : ℕ) (c c' : HpClt) : Type 0 where
  pub tells_more : total tells c'.effects ≡ total tells c.effects + told
  pub waits_more : total waits c'.effects ≡ total waits c.effects + started

-- The last thing that was asked is to tell the handler that the time is out.
abbrev pub GivesUp : ℕ → HpClt → Type 0
GivesUp h c =
    (before : List Effect) × (c.effects
      ≡ before ++ post h (some timed_out) (established_eps c.peer_eps) ∷ [])
