-- ===== src/Tracker.antt =====
-- `tracker` of udt/tracker.h: a shared reference whose weak references tell a handler whether what it
-- was started by still goes on.
use udt_boost.Base.{ℕ, ◌+◌, Bool, true, false, not, Option, none, some, ◌==◌}

-- `m_refer`: which of the objects made so far it holds. The next to be made is `made`.
pub record Tracker : Type 0 where
  pub refer : Option ℕ
  pub made : ℕ

-- `weak_refer`.
abbrev pub WeakRefer : Type 0
WeakRefer = Option ℕ

unfoldable pub init : Tracker
init = record { refer = some 0; made = 1 }

unfoldable pub get : Tracker → WeakRefer
get t = t.refer

unfoldable pub set : Tracker → Tracker
set t = record { refer = some t.made; made = t.made + 1 }

unfoldable pub reset : Tracker → Tracker
reset t = record t { refer = none }

unfoldable pub is_null : Tracker → Bool
is_null t = elim t.refer [ none ↦ true | some r ↦ false ]

-- `wref.expired()`.
unfoldable pub expired : WeakRefer → Tracker → Bool
expired none t = true
expired (some r) t = elim t.refer [ none ↦ true | some r' ↦ not (r == r') ]
