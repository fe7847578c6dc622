-- ===== src/Singleton/Places.antt =====
-- Where the instances of a singleton are, udt/singleton.h.
use udt_boost.Base.{
  ℕ, ◌+◌, ◌≡◌, refl, Bool-cases, inl, inr, ◌==◌, ltb, if◌then◌else◌, List, [], ◌∷◌, Option, none,
  some, get_elem?, map, total, total-set, arith, Option-cases,
}
use udt_boost.Singleton.{
  Getting, capturing, making, returning, exchanging, discarding, returned, Releasing, released,
  exchanging_null, deleting, Thread, get, release, Singleton, move, get_instance, release_instance,
  advance, step, run, Call, to_get, to_release, enter, start,
}

-- 1 for the instance i, 0 for every other.
abbrev pub one : ℕ → ℕ → ℕ
one i j = if i == j then 1 else 0

-- How often s_instance is the instance i.
abbrev pub current : ℕ → Option ℕ → ℕ
current i none = 0
current i (some j) = one i j

-- How often a thread owns the instance i: it has made it or taken it out, and is to publish it or to
-- delete it.
abbrev pub owned : ℕ → Thread → ℕ
owned i (get (exchanging j)) = one i j
owned i (get (discarding j)) = one i j
owned i (release (deleting j)) = one i j
owned i _ = 0

-- In how many places the instance i is: current, owned, deleted.
abbrev pub places : ℕ → Singleton → ℕ
places i s = current i s.s_instance + total (owned i) s.threads + total (one i) s.deleted

abbrev pub was_made : ℕ → Singleton → ℕ
was_made i s = if ltb i s.made then 1 else 0

abbrev pub IsPlaced : ℕ → Singleton → Type 0
IsPlaced i s = places i s ≡ was_made i s

get-IsPlaced :
    (i t : ℕ) (p : Getting) (s : Singleton)
    → get_elem? s.threads t ≡ some (get p)
    → IsPlaced i s
    → IsPlaced i (get_instance t p s)
unfolding get_instance move
get-IsPlaced i t capturing s e h =
    let moved = λ (q : Getting). total-set (owned i) s.threads t (get capturing) (get q) e in
    elim (Option-cases s.s_instance) [
      | inl o ↦ ground (arith, o, moved making)
      | inr (j, o) ↦ ground (arith, o, moved returning)
    ]
get-IsPlaced i t making s e h =
    ground (arith, total-set (owned i) s.threads t (get making) (get (exchanging s.made)) e)
get-IsPlaced i t (exchanging j) s e h =
    let moved = λ (q : Getting). total-set (owned i) s.threads t (get (exchanging j)) (get q) e in
    elim (Option-cases s.s_instance) [
      | inl o ↦ ground (arith, o, moved returning)
      | inr (k, o) ↦ ground (arith, o, moved (discarding j))
    ]
get-IsPlaced i t (discarding j) s e h =
    ground (arith, total-set (owned i) s.threads t (get (discarding j)) (get returning) e)
get-IsPlaced i t returning s e h =
    ground (arith, total-set (owned i) s.threads t (get returning) (get (returned s.s_instance)) e)
get-IsPlaced i t (returned r) s e h = h

release-IsPlaced :
    (i t : ℕ) (p : Releasing) (s : Singleton)
    → get_elem? s.threads t ≡ some (release p)
    → IsPlaced i s
    → IsPlaced i (release_instance t p s)
unfolding release_instance move
release-IsPlaced i t capturing s e h =
    let moved =
      λ (q : Releasing). total-set (owned i) s.threads t (release capturing) (release q) e in
    elim (Option-cases s.s_instance) [
      | inl o ↦ ground (arith, o, moved released)
      | inr (j, o) ↦ ground (arith, o, moved (exchanging_null j))
    ]
release-IsPlaced i t (exchanging_null j) s e h =
    let moved = λ (q : Releasing).
      total-set (owned i) s.threads t (release (exchanging_null j)) (release q) e in
    elim (Option-cases s.s_instance) [
      | inl o ↦ ground (arith, o, moved released)
      | inr (k, o) ↦ elim (Bool-cases (k == j)) [
        | inl same ↦ ground (arith, o, same, moved (deleting j))
        | inr other ↦ ground (arith, o, other, moved released)
      ]
    ]
release-IsPlaced i t (deleting j) s e h =
    ground (arith, total-set (owned i) s.threads t (release (deleting j)) (release released) e)
release-IsPlaced i t released s e h = h

-- What every step of a thread keeps, every step keeps.
pub step_ind {ℓ} :
    (P : Singleton → Type ℓ) (t : ℕ) (s : Singleton)
    → ((p : Thread) → get_elem? s.threads t ≡ some p → P s → P (advance t p s))
    → P s
    → P (step t s)
unfolding step
step_ind P t s keep h = elim (Option-cases (get_elem? s.threads t)) [
  | inl e ↦ rw (step, e) h
  | inr (p, e) ↦ rw (step, e) (keep p e h)
]

pub run_ind {ℓ} :
    (P : Singleton → Type ℓ)
    → ((t : ℕ) (s : Singleton) (p : Thread)
        → get_elem? s.threads t ≡ some p
        → P s
        → P (advance t p s))
    → (ts : List ℕ) (s : Singleton) → P s
    → P (run ts s)
unfolding run
run_ind P keep [] s h = h
run_ind P keep (t ∷ ts) s h = run_ind P keep ts (step t s) (step_ind P t s (keep t s) h)

advance-IsPlaced :
    (i t : ℕ) (s : Singleton) (p : Thread)
    → get_elem? s.threads t ≡ some p
    → IsPlaced i s
    → IsPlaced i (advance t p s)
unfolding advance
advance-IsPlaced i t s (get p) e h = get-IsPlaced i t p s e h
advance-IsPlaced i t s (release p) e h = release-IsPlaced i t p s e h

enter-owns : (i : ℕ) (cs : List Call) → total (owned i) (map enter cs) ≡ 0
unfolding enter
enter-owns i [] = refl
enter-owns i (to_get ∷ cs) = omega (arith, enter-owns i cs)
enter-owns i (to_release ∷ cs) = omega (arith, enter-owns i cs)

-- No instance is lost, and none is deleted twice or while it is the current one: however many threads
-- get and release the instance, and in whatever order their steps come, each instance that was made is
-- in just one place: it is s_instance, or one thread owns it, which has still to publish it or to
-- delete it, or it was deleted, once.
pub run-places :
    (cs : List Call) (ts : List ℕ) (i : ℕ)
    → places i (run ts (start cs)) ≡ was_made i (run ts (start cs))
unfolding start
run-places cs ts i =
    run_ind (IsPlaced i) (advance-IsPlaced i) ts (start cs) (ground (arith, enter-owns i cs))
