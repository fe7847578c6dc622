-- ===== src/Examples/Running.antt =====
-- Threads that get and release the engine, and the theorems of the development at them.
use udt_boost.Base.{ℕ, ◌≡◌, refl, List, [], ◌∷◌, ◌++◌, some, total}
use udt_boost.Singleton.{
  Call, to_get, to_release, start, step, advance, get_instance, move, enter, run,
}
use udt_boost.Singleton.Places.{one, places, was_made, run-places}
use udt_boost.Singleton.Agreement.{get_instance-agree}

-- Two threads that both make an instance, of which the second throws its own away, and a third that
-- releases the instance.
abbrev racers : List Call
racers = to_get ∷ to_get ∷ []

abbrev race : List ℕ
race = 0 ∷ 1 ∷ 0 ∷ 1 ∷ 0 ∷ 1 ∷ 1 ∷ 0 ∷ 1 ∷ []

abbrev with_release : List Call
with_release = to_get ∷ to_get ∷ to_release ∷ []

run-places_example :
    places 0 (run (race ++ 2 ∷ 2 ∷ 2 ∷ []) (start with_release))
    ≡ was_made 0 (run (race ++ 2 ∷ 2 ∷ 2 ∷ []) (start with_release))
run-places_example = run-places with_release (race ++ 2 ∷ 2 ∷ 2 ∷ []) 0

get_instance-agree_example :
    (i : ℕ) × ((some 0 ≡ some i)
      × ((some 0 ≡ some i) × (total (one i) (run race (start racers)).deleted ≡ 0)))
unfolding run step advance get_instance move start enter
get_instance-agree_example =
    get_instance-agree racers race 0 1 (some 0) (some 0) (refl, (refl, tt)) refl refl
