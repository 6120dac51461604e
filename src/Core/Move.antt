-- ===== src/Core/Move.antt =====
-- `move_memory` of core/transitions.py.
use observable_agent_workflo.Prelude.{String, ◌≡◌, none, arith}
use observable_agent_workflo.Result.{Result, ok, ◌>>◌}
use observable_agent_workflo.Core.Lane.{Lane}
use observable_agent_workflo.Core.Record.{MemoryRecord, moved, validated}
use observable_agent_workflo.Core.Transitions.{assert_transition_allowed}
use observable_agent_workflo.Core.Transitions.Reach.{◌⟶◌, assert_transition_allowed_iff}

-- at the time that `now_utc` returns
unfoldable pub move_memory : MemoryRecord → Lane → (reason now : String) → Result MemoryRecord
move_memory r target reason now = do
  assert_transition_allowed r.lane target
  moved r target reason none now

-- A move that returns is an edge of the lifecycle diagram; the record is in the lane that was asked
-- for, and its identifiers are those that it had.
pub move_memory_lem :
    (r : MemoryRecord) (target : Lane) (reason now : String) (s : MemoryRecord)
    → move_memory r target reason now ≡ ok s
    → (r.lane ⟶ target)
      × (s.lane ≡ target)
      × (s.memory_id ≡ r.memory_id)
      × (s.update_id ≡ r.update_id)
unfolding move_memory moved validated
move_memory_lem r target reason now s h = (
  (assert_transition_allowed_iff r.lane target).0 (ground arith),
  ground arith,
  ground arith,
  ground arith,
)
