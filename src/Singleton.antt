-- ===== src/Singleton.antt =====
-- `singleton` of udt/singleton.h, of which the engine is one: threads that get and release the one
-- instance. A step is what a thread does to the shared pointer at once: a read, or an interlocked
-- exchange; the steps of the threads come in any order. An instance is the number of its `new`: no
-- address is used twice.
pub mod Places
pub mod Agreement
use udt_boost.Base.{
  ℕ, ◌+◌, if◌then◌else◌, ◌==◌, List, [], ◌∷◌, Option, none, some, get_elem?, map, set,
}

-- Where a thread is in `get_instance`. `exchanging i` has made i and is before the exchange;
-- `discarding i` was late, and is before the delete; `returning` is before the second read.
pub data Getting : Type 0 where
  capturing making returning : Getting
  exchanging discarding : ℕ → Getting
  returned : Option ℕ → Getting

-- Where a thread is in `release_instance`. `exchanging_null i` is before the exchange, `deleting i`
-- has taken i out.
pub data Releasing : Type 0 where
  capturing released : Releasing
  exchanging_null deleting : ℕ → Releasing

pub data Thread : Type 0 where
  get : Getting → Thread
  release : Releasing → Thread

-- `made` counts the instances that were made, `deleted` lists those that were deleted.
pub record Singleton : Type 0 where
  pub s_instance : Option ℕ
  pub made : ℕ
  pub deleted : List ℕ
  pub threads : List Thread

unfoldable pub move : ℕ → Thread → Singleton → Singleton
move t p s = record s { threads = set s.threads t p }

-- The next step of `get_instance` by the thread t.
unfoldable pub get_instance : ℕ → Getting → Singleton → Singleton
get_instance t capturing s = elim s.s_instance [
  | none ↦ move t (get making) s
  | some i ↦ move t (get returning) s
]
get_instance t making s = move t (get (exchanging s.made)) (record s { made = s.made + 1 })
get_instance t (exchanging i) s = elim s.s_instance [
  | none ↦ move t (get returning) (record s { s_instance = some i })
  | some j ↦ move t (get (discarding i)) s
]
get_instance t (discarding i) s = move t (get returning) (record s { deleted = i ∷ s.deleted })
get_instance t returning s = move t (get (returned s.s_instance)) s
get_instance t (returned r) s = s

-- The next step of `release_instance` by the thread t.
unfoldable pub release_instance : ℕ → Releasing → Singleton → Singleton
release_instance t capturing s = elim s.s_instance [
  | none ↦ move t (release released) s
  | some i ↦ move t (release (exchanging_null i)) s
]
release_instance t (exchanging_null i) s = elim s.s_instance [
  | none ↦ move t (release released) s
  | some j ↦
      if j == i
      then move t (release (deleting i)) (record s { s_instance = none })
      else move t (release released) s
]
release_instance t (deleting i) s = move t (release released) (record s { deleted = i ∷ s.deleted })
release_instance t released s = s

unfoldable pub advance : ℕ → Thread → Singleton → Singleton
advance t (get p) s = get_instance t p s
advance t (release p) s = release_instance t p s

-- A step of the thread t, if there is one.
unfoldable pub step : ℕ → Singleton → Singleton
step t s = elim (get_elem? s.threads t) [ none ↦ s | some p ↦ advance t p s ]

-- The threads' steps in the order of a schedule.
unfoldable pub run : List ℕ → Singleton → Singleton
run [] s = s
run (t ∷ ts) s = run ts (step t s)

-- What a thread calls.
pub data Call : Type 0 where
  to_get to_release : Call

unfoldable pub enter : Call → Thread
enter to_get = get capturing
enter to_release = release capturing

-- Before the first step, with a thread for each call.
unfoldable pub start : List Call → Singleton
start cs = record { s_instance = none; made = 0; deleted = []; threads = map enter cs }
