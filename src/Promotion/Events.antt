-- ===== src/Promotion/Events.antt =====
-- `_append_verify_event` and `_append_promote_event` of runtime/promotion.py.
use observable_agent_workflo.Prelude.{String, none, some, List, [], ◌∷◌, if◌then◌else◌}
use observable_agent_workflo.Exec.{lift, pure, ◌>>=◌, ◌>>◌}
use observable_agent_workflo.Json.{
  Host, Items, Fields, str, obj, arr, nil, cons, boolean, strs, dict, get, py_str,
}
use observable_agent_workflo.Core.Record.{MemoryRecord, memory_ref}
use observable_agent_workflo.Core.Event.{create}
use observable_agent_workflo.Core.Receipt.{CheckerResult, PromotionReceipt, verdict_value}
use observable_agent_workflo.Core.Contract.{WorkflowContract}
use observable_agent_workflo.Storage.{Action, now_utc, uuid4, append_event}
use observable_agent_workflo.Checkers.Base.{truthy}
use observable_agent_workflo.Promotion.Evidence.{get_or_empty}

-- `str(metadata.get("run_id") or default)`
unfoldable pub run_id_or : Host → String → Fields → String
run_id_or host default metadata = elim (get "run_id" metadata) [
  | none ↦ default
  | some v ↦ if truthy v then py_str host v else default
]

abbrev dump_checks : List CheckerResult → Items
dump_checks [] = nil
dump_checks (c ∷ cs) =
    cons
      (obj (
        dict (
          ("checker_name", str c.checker_name)
          ∷ ("passed", boolean c.passed)
          ∷ ("reason", str c.reason)
          ∷ [])))
      (dump_checks cs)

-- `Event.create` at the next time and identifier, and `append_event`
unfoldable pub append_new_event :
    Host
    → (kind : String) (payload : Fields) (run_id : String) (parents : List String) → Action Unit
append_new_event host kind payload run_id parents = do
  time ← now_utc host
  nonce ← uuid4 host
  event ← lift (create host time nonce kind payload run_id parents)
  append_event host event
  pure tt

unfoldable pub append_verify_event :
    Host → MemoryRecord → PromotionReceipt → (evidence : Fields) → Action Unit
append_verify_event host r receipt evidence = do
  ref ← lift (memory_ref host r)
  append_new_event host "memory_verify"
      (dict (
        ("operation", str "verify")
        ∷ ("memory_ids", strs (r.memory_id ∷ []))
        ∷ ("memory_refs", arr (cons (obj ref) nil))
        ∷ (
          "details",
          obj (
              dict (
                ("receipt_id", str receipt.receipt_id)
                ∷ ("verification_id", str receipt.verification_id)
                ∷ ("receipt_digest", str receipt.receipt_digest)
                ∷ ("result", str (verdict_value receipt.result))
                ∷ ("checks", arr (dump_checks receipt.checks))
                ∷ (
                  "evidence_refs",
                  strs (
                      get_or_empty host "manifest_id" evidence
                      ∷ get_or_empty host "replay_digest" evidence
                      ∷ []),
                )
                ∷ [])),
        )
        ∷ []))
      (run_id_or host "verification" r.metadata) r.source_event_ids

unfoldable pub append_promote_event :
    Host → MemoryRecord → PromotionReceipt → WorkflowContract → Action Unit
append_promote_event host r receipt contract = do
  ref ← lift (memory_ref host r)
  append_new_event host "memory_promote"
      (dict (
        ("operation", str "promote")
        ∷ ("memory_ids", strs (r.memory_id ∷ []))
        ∷ ("memory_refs", arr (cons (obj ref) nil))
        ∷ (
          "details",
          obj (
              dict (
                ("receipt_id", str receipt.receipt_id)
                ∷ ("verification_id", str receipt.verification_id)
                ∷ ("receipt_digest", str receipt.receipt_digest)
                ∷ ("workflow_contract_id", str contract.contract_id)
                ∷ ("supersedes", strs r.supersedes)
                ∷ [])),
        )
        ∷ []))
      (run_id_or host "promotion" r.metadata) r.source_event_ids
