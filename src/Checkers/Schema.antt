-- ===== src/Checkers/Schema.antt =====
-- `CandidateSchemaChecker`: the JSON schema of a candidate, and its lane.
use observable_agent_workflo.Prelude.{
  String, ◌==◌, Bool, true, false, not, List, [], ◌∷◌, ◌++◌, cat, is_empty, if◌then◌else◌, join,
  starts_with, map,
}
use observable_agent_workflo.Result.{ok}
use observable_agent_workflo.Core.Lane.{lane_value, candidate, shadow}
use observable_agent_workflo.Core.Record.{MemoryRecord}
use observable_agent_workflo.Core.Receipt.{accept, reject}
use observable_agent_workflo.Core.Transitions.{lane_mem}
use observable_agent_workflo.Checkers.Base.{Checker, Validation}

abbrev pub check : Bool → (path rule : String) → List (String × String)
check true path rule = []
check false path rule = (path, rule) ∷ []

item_errors : List String → List (String × String)
item_errors [] = []
item_errors (id ∷ ids) =
    check (starts_with id "evt_") "source_event_ids[]" "pattern" ++ item_errors ids

-- The rules of `CANDIDATE_SCHEMA` that a dumped record can break, in the order of their paths: the
-- required keys are there, and have the types that the model gives them.
unfoldable pub schema_errors : MemoryRecord → List (String × String)
unfolding item_errors lane_mem
schema_errors r =
    check (not (r.claim == "")) "claim" "minLength"
    ++ check (lane_mem r.lane (candidate ∷ shadow ∷ [])) "lane" "enum"
    ++ check (starts_with r.memory_id "mem_") "memory_id" "pattern"
    ++ check (not (is_empty r.source_event_ids)) "source_event_ids" "minItems"
    ++ item_errors r.source_event_ids
    ++ check (starts_with r.update_id "upd_") "update_id" "pattern"

unfoldable pub candidate_schema : Validation → Checker
candidate_schema validation = record {
  checker_name = "candidate-schema";
  verify = λ r evidence context.
      if not (is_empty (schema_errors r))
      then ok (
          reject "candidate-schema"
            (join "; " (map (λ e. validation.message e.0 e.1) (schema_errors r))))
      else if not (lane_mem r.lane (candidate ∷ shadow ∷ []))
      then ok (reject "candidate-schema" (cat "candidate lane required, got " (lane_value r.lane)))
      else ok (accept "candidate-schema");
}
