-- ===== src/Storage/Trail.antt =====
-- The revision log read as a history of lanes.
use observable_agent_workflo.Prelude.{
  String, ◌==◌, ◌≡◌, refl, Option, none, some, List, [], ◌∷◌, ◌++◌, if◌then◌else◌,
}
use observable_agent_workflo.Core.Lane.{Lane}
use observable_agent_workflo.Core.Event.{MemoryRevision}

-- the lane of each memory, as a revision leaves it
abbrev pub History : Type 0
History = String → Option Lane

abbrev pub unknown : History
unknown id = none

abbrev pub noted : History → MemoryRevision → History
noted lanes v id = if v.memory_id == id then some v.after_lane else lanes id

unfoldable pub lanes_after : History → List MemoryRevision → History
lanes_after lanes [] = lanes
lanes_after lanes (v ∷ vs) = lanes_after (noted lanes v) vs

-- Every revision starts from the lane that the ones before it have left.
abbrev pub Chained : History → List MemoryRevision → Type 0
Chained lanes [] = Unit
Chained lanes (v ∷ vs) = (v.before_lane ≡ lanes v.memory_id) × Chained (noted lanes v) vs

pub lanes_after-append :
    (lanes : History) (vs : List MemoryRevision) (v : MemoryRevision)
    → lanes_after lanes (vs ++ v ∷ []) ≡ noted (lanes_after lanes vs) v
unfolding lanes_after
lanes_after-append lanes [] v = refl
lanes_after-append lanes (u ∷ vs) v = lanes_after-append (noted lanes u) vs v

pub Chained-append :
    (lanes : History) (vs : List MemoryRevision) (v : MemoryRevision)
    → Chained lanes vs
    → v.before_lane ≡ lanes_after lanes vs v.memory_id
    → Chained lanes (vs ++ v ∷ [])
unfolding lanes_after
Chained-append lanes [] v h e = (e, tt)
Chained-append lanes (u ∷ vs) v h e = (h.0, Chained-append (noted lanes u) vs v h.1 e)
