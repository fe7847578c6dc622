-- ===== src/Singleton/Agreement.antt =====
-- What the threads get of a singleton that no thread releases, udt/singleton.h.
use udt_boost.Base.{
  ℕ, ◌≡◌, refl, subst, inl, inr, List, [], ◌∷◌, Option, none, some, get_elem?, map, total, All,
  All-set, All-get, All-mono, arith, Option-cases,
}
use udt_boost.Singleton.{
  Getting, capturing, making, returning, exchanging, discarding, returned, Thread, get, release,
  Singleton, move, get_instance, advance, run, Call, to_get, to_release, enter, start,
}
use udt_boost.Singleton.Places.{one, run_ind, run-places}

-- A thread that is in `get_instance`, and finds an instance there when it needs one.
Settled : Option ℕ → Thread → Type 0
Settled o (get returning) = (i : ℕ) × (o ≡ some i)
Settled o (get (discarding j)) = (i : ℕ) × (o ≡ some i)
Settled o (get (returned r)) = (i : ℕ) × ((o ≡ some i) × (r ≡ some i))
Settled o (get _) = Unit
Settled o (release _) = ⊥

AreSettled : Singleton → Type 0
AreSettled s = All (Settled s.s_instance) s.threads

Settled-some : (o : Option ℕ) (i : ℕ) → o ≡ none → (p : Thread) → Settled o p → Settled (some i) p
unfolding Settled
Settled-some o i e (get capturing) h = tt
Settled-some o i e (get making) h = tt
Settled-some o i e (get returning) h = (i, refl)
Settled-some o i e (get (exchanging j)) h = tt
Settled-some o i e (get (discarding j)) h = (i, refl)
Settled-some o i e (get (returned r)) h = absurd (ground (arith, h.1.0))
Settled-some o i e (release p) h = h

get-AreSettled :
    (t : ℕ) (p : Getting) (s : Singleton)
    → Settled s.s_instance (get p)
    → AreSettled s
    → AreSettled (get_instance t p s)
unfolding get_instance move AreSettled Settled
get-AreSettled t capturing s g h = elim (Option-cases s.s_instance) [
  | inl e ↦ rw (get_instance, e) (All-set _ s.threads t (get making) h tt)
  | inr (i, e) ↦ rw (get_instance, e) (All-set _ s.threads t (get returning) h (i, e))
]
get-AreSettled t making s g h = All-set _ s.threads t (get (exchanging s.made)) h tt
get-AreSettled t (exchanging j) s g h = elim (Option-cases s.s_instance) [
  | inl e ↦
      let grown = All-mono _ (Settled (some j)) s.threads (Settled-some s.s_instance j e) h in
      rw (get_instance, e) (All-set _ s.threads t (get returning) grown (j, refl))
  | inr (i, e) ↦ rw (get_instance, e) (All-set _ s.threads t (get (discarding j)) h (i, e))
]
get-AreSettled t (discarding j) s g h = All-set _ s.threads t (get returning) h g
get-AreSettled t returning s g h =
    All-set _ s.threads t (get (returned s.s_instance)) h (g.0, (g.1, g.1))
get-AreSettled t (returned r) s g h = h

advance-AreSettled :
    (t : ℕ) (s : Singleton) (p : Thread)
    → get_elem? s.threads t ≡ some p
    → AreSettled s
    → AreSettled (advance t p s)
unfolding advance AreSettled Settled
advance-AreSettled t s (get p) e h =
    get-AreSettled t p s (All-get (Settled s.s_instance) s.threads t (get p) h e) h
advance-AreSettled t s (release p) e h =
    absurd (All-get (Settled s.s_instance) s.threads t (release p) h e)

enter-AreSettled : (cs : List Call) → All (λ c. c ≡ to_get) cs → All (Settled none) (map enter cs)
unfolding enter Settled
enter-AreSettled [] h = tt
enter-AreSettled (to_get ∷ cs) h = (tt, enter-AreSettled cs h.1)
enter-AreSettled (to_release ∷ cs) h = absurd (ground (arith, h.0))

-- All threads get the same instance, and it is there: if no thread releases it, any two calls of
-- get_instance that have returned, in whatever order the steps came, have returned one and the same
-- instance, which was not deleted.
pub get_instance-agree :
    (cs : List Call) (ts : List ℕ) (t u : ℕ) (r q : Option ℕ)
    → All (λ c. c ≡ to_get) cs
    → get_elem? (run ts (start cs)).threads t ≡ some (get (returned r))
    → get_elem? (run ts (start cs)).threads u ≡ some (get (returned q))
    → (i : ℕ) × ((r ≡ some i) × ((q ≡ some i) × (total (one i) (run ts (start cs)).deleted ≡ 0)))
unfolding AreSettled Settled start
get_instance-agree cs ts t u r q all et eu =
    let s = run ts (start cs) in
    let settled = run_ind AreSettled advance-AreSettled ts (start cs) (enter-AreSettled cs all) in
    let at_t = All-get (Settled s.s_instance) s.threads t (get (returned r)) settled et in
    let at_u = All-get (Settled s.s_instance) s.threads u (get (returned q)) settled eu in
    let same : at_u.0 ≡ at_t.0 = ground (arith, at_u.1.0, at_t.1.0) in
    let kept : total (one at_t.0) s.deleted ≡ 0 =
      ground (arith, at_t.1.0, run-places cs ts at_t.0) in
    (at_t.0, (at_t.1.1, (subst (λ i. q ≡ some i) same at_u.1.1, kept)))
