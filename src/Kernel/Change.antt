-- ===== src/Kernel/Change.antt =====
-- The methods of `AgentKernel` that change what the agent holds true: `correct_memory`, `retire`,
-- `contradict` and `supersede`.
use observable_agent_workflo.Prelude.{
  String, ◌==◌, not, ◌||◌, Option, none, some, List, [], ◌∷◌, cat, length, min, max, ◌*◌,
}
use observable_agent_workflo.Prelude.Int.{pos}
use observable_agent_workflo.Result.{fail_closed_error}
use observable_agent_workflo.Exec.{lift, pure, reads, guard, ◌>>=◌, ◌>>◌}
use observable_agent_workflo.Json.{Host, Fields, str, obj, arr, nil, int, strs, dict, get, py_str}
use observable_agent_workflo.Core.Lane.{Lane, lane_eq, MemoryOperation}
use observable_agent_workflo.Core.Record.{MemoryRecord, moved}
use observable_agent_workflo.Core.Receipt.{is_passed}
use observable_agent_workflo.Core.Transitions.{assert_transition_allowed}
use observable_agent_workflo.Storage.{
  World, Action, now_utc, get_memory_record, get_receipt, upsert_memory_record,
}
use observable_agent_workflo.Promotion.Events.{run_id_or}
use observable_agent_workflo.Kernel.{new_memory, record_memory_operation, text_or}

-- `str(metadata.get("interface_signature", "agent.workflow.v1"))`
abbrev pub signature_of : Host → Fields → String
signature_of host metadata = elim (get "interface_signature" metadata) [
  | none ↦ "agent.workflow.v1"
  | some v ↦ py_str host v
]

-- `{"max_steps": min(32, max(1, len(xs) * 2))}`
abbrev pub step_caps : {A : Type 0} → List A → Fields
step_caps xs = dict (("max_steps", int (pos (min 32 (max 1 (length xs * 2))))) ∷ [])

unfoldable pub correct_memory :
    Host
    → (memory_id corrected_claim : String) (run_id : Option String) (sources : List String)
    → Action MemoryRecord
correct_memory host memory_id corrected_claim run_id sources = do
  original ← reads (λ (w : World). get_memory_record memory_id w.db)
  let run = text_or run_id (run_id_or host "correction" original.metadata)
  event ← record_memory_operation host MemoryOperation.correct run (memory_id ∷ []) (
      dict (
        ("corrected_claim", str corrected_claim)
        ∷ ("supporting_source_event_ids", strs sources)
        ∷ []))
  candidate ← new_memory host (record {
    lane = Lane.candidate;
    claim = corrected_claim;
    source_event_ids = event.event_id ∷ sources;
    metadata = dict (
        ("proposal_scope", str "correction")
        ∷ ("run_id", str run)
        ∷ ("corrected_from", str memory_id)
        ∷ ("interface_signature", str (signature_of host original.metadata))
        ∷ ("resource_caps", obj (step_caps (event.event_id ∷ sources)))
        ∷ (
          "steps",
          strs (
              cat "Correct memory " memory_id
              ∷ "Verify supporting observable correction events"
              ∷ []),
        )
        ∷ []);
    evidence_refs = [];
    supersedes = memory_id ∷ [];
    contradicts = [];
  })
  upsert_memory_record host candidate MemoryOperation.correct
      (cat "correction candidate for " memory_id) none (some event.event_id)

unfoldable pub retire : Host → (memory_id reason : String) → Action MemoryRecord
retire host memory_id reason = do
  r ← reads (λ (w : World). get_memory_record memory_id w.db)
  lift (assert_transition_allowed r.lane Lane.tombstone)
  time ← now_utc host
  retired ← lift (moved r Lane.tombstone reason none time)
  stored ← upsert_memory_record host retired MemoryOperation.delete reason retired.receipt_id none
  record_memory_operation host MemoryOperation.delete (run_id_or host "retire" r.metadata)
      (memory_id ∷ []) (dict (("reason", str reason) ∷ []))
  pure stored

unfoldable pub contradict :
    Host
    → (memory_id claim : String) (sources : List String) (reason : String) → Action MemoryRecord
contradict host memory_id claim sources reason = do
  original ← reads (λ (w : World). get_memory_record memory_id w.db)
  event ←
      record_memory_operation host MemoryOperation.correct
        (run_id_or host "contradiction" original.metadata) (memory_id ∷ [])
        (dict
          (("claim", str claim) ∷ ("reason", str reason) ∷ ("source_event_ids", strs sources) ∷ []))
  contradiction ← new_memory host (record {
    lane = Lane.contradiction;
    claim = claim;
    source_event_ids = event.event_id ∷ sources;
    metadata = dict (
        ("proposal_scope", str "contradiction")
        ∷ ("run_id", str event.run_id)
        ∷ ("reason", str reason)
        ∷ ("interface_signature", str (signature_of host original.metadata))
        ∷ ("tools", arr nil)
        ∷ ("resource_caps", obj (dict (("max_steps", int (pos 4)) ∷ [])))
        ∷ []);
    evidence_refs = [];
    supersedes = [];
    contradicts = memory_id ∷ [];
  })
  upsert_memory_record host contradiction MemoryOperation.correct reason none (some event.event_id)

unfoldable pub supersede : Host → (old_id new_id receipt_id : String) → Action MemoryRecord
supersede host old_id new_id receipt_id = do
  old ← reads (λ (w : World). get_memory_record old_id w.db)
  new ← reads (λ (w : World). get_memory_record new_id w.db)
  receipt ← reads (λ (w : World). get_receipt receipt_id w.db)
  guard (not (lane_eq new.lane Lane.certified))
      (fail_closed_error "superseding memory must already be certified")
  guard (not (is_passed receipt.result) || not (receipt.candidate_id == new_id))
      (fail_closed_error "supersede requires a passing receipt for the new memory")
  lift (assert_transition_allowed old.lane Lane.superseded)
  time ← now_utc host
  let reason = cat "superseded by " new_id
  superseded ← lift (moved old Lane.superseded reason (some receipt_id) time)
  stored ←
      upsert_memory_record host superseded MemoryOperation.replace reason (some receipt_id) none
  record_memory_operation host MemoryOperation.replace (run_id_or host "supersede" new.metadata)
      (old_id ∷ new_id ∷ []) (dict (("receipt_id", str receipt_id) ∷ []))
  pure stored
