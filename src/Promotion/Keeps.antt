-- ===== src/Promotion/Keeps.antt =====
-- Verification and promotion keep the store consistent, whether they return or raise.
use observable_agent_workflo.Prelude.{String, Option, none, some, List, [], ◌∷◌}
use observable_agent_workflo.Exec.{Keeps, Keeps-bind, keeps_rules}
use observable_agent_workflo.Json.{Host, Fields}
use observable_agent_workflo.Core.Record.{MemoryRecord}
use observable_agent_workflo.Core.Receipt.{CheckerResult, PromotionReceipt}
use observable_agent_workflo.Core.Contract.{WorkflowContract}
use observable_agent_workflo.Storage.{now_utc, uuid4}
use observable_agent_workflo.Storage.Invariant.{
  IsConsistent, Holds, now_utc-Keeps, uuid4-Keeps, upsert_memory_record-Keeps, append_event-Keeps,
  create_contract-Keeps, create_receipt-Keeps, create_evidence_manifest-Keeps,
}
use observable_agent_workflo.Checkers.Base.{Context}
use observable_agent_workflo.Promotion.Evidence.{build_evidence}
use observable_agent_workflo.Promotion.Events.{
  append_new_event, append_verify_event, append_promote_event,
}
use observable_agent_workflo.Promotion.{
  Pipeline, supplied_or, settle, conclude, issue, verify_candidate, verify, supersede_one,
  supersede_all, promote_with, promote,
}

module _ (host : Host) where
  now-Keeps : Keeps (Holds host) (now_utc host)
  now-Keeps = now_utc-Keeps (IsConsistent host) host

  uuid-Keeps : Keeps (Holds host) (uuid4 host)
  uuid-Keeps = uuid4-Keeps (IsConsistent host) host

  settle-Keeps :
      (c : MemoryRecord) (r : PromotionReceipt) (checks : List CheckerResult)
      → Keeps (Holds host) (settle host c r checks)
  unfolding settle
  settle-Keeps c r checks = search (keeps_rules, now-Keeps, upsert_memory_record-Keeps host)

  build_evidence-Keeps : (c : MemoryRecord) → Keeps (Holds host) (build_evidence host c)
  unfolding build_evidence
  build_evidence-Keeps c =
      search (keeps_rules, now-Keeps, create_evidence_manifest-Keeps host) depth 12

  pub append_new_event-Keeps :
      (kind : String) (payload : Fields) (run : String) (parents : List String)
      → Keeps (Holds host) (append_new_event host kind payload run parents)
  unfolding append_new_event
  append_new_event-Keeps kind payload run parents =
      search (keeps_rules, now-Keeps, uuid-Keeps, append_event-Keeps host)

  append_verify_event-Keeps :
      (c : MemoryRecord) (r : PromotionReceipt) (evidence : Fields)
      → Keeps (Holds host) (append_verify_event host c r evidence)
  unfolding append_verify_event
  append_verify_event-Keeps c r evidence = search (keeps_rules, append_new_event-Keeps)

  append_promote_event-Keeps :
      (c : MemoryRecord) (r : PromotionReceipt) (k : WorkflowContract)
      → Keeps (Holds host) (append_promote_event host c r k)
  unfolding append_promote_event
  append_promote_event-Keeps c r k = search (keeps_rules, append_new_event-Keeps)

  supplied-Keeps :
      (evidence : Option Fields) (c : MemoryRecord)
      → Keeps (Holds host) (supplied_or evidence (build_evidence host c))
  supplied-Keeps none c = build_evidence-Keeps c
  supplied-Keeps (some e) c = search keeps_rules

  ruleset promotion_rules = (
    keeps_rules, now-Keeps, uuid-Keeps, settle-Keeps, append_verify_event-Keeps,
    append_promote_event-Keeps, supplied-Keeps,
  )

  conclude-Keeps :
      (c : MemoryRecord) (supplied : Fields) (checks : List CheckerResult) (r : PromotionReceipt)
      → Keeps (Holds host) (conclude host c supplied checks r)
  unfolding conclude
  conclude-Keeps c supplied checks r = search (promotion_rules, create_receipt-Keeps host) depth 12

  issue-Keeps :
      (p : Pipeline) (c : MemoryRecord) (supplied : Fields) (checks : List CheckerResult)
      (action : Option String)
      → Keeps (Holds host) (issue host p c supplied checks action)
  unfolding issue
  issue-Keeps p c supplied checks action = search promotion_rules depth 12

  verify_candidate-Keeps :
      (p : Pipeline) (c : MemoryRecord) (evidence : Option Fields) (context : Context)
      → Keeps (Holds host) (verify_candidate host p c evidence context)
  unfolding verify_candidate
  verify_candidate-Keeps p c evidence context =
      search (promotion_rules, conclude-Keeps, issue-Keeps) depth 14

  -- A verification keeps the store consistent, whatever the checkers say and wherever it raises.
  pub verify-Keeps :
      (p : Pipeline) (id : String) (evidence : Option Fields) (context : Context)
      → Keeps (Holds host) (verify host p id evidence context)
  unfolding verify
  verify-Keeps p id evidence context = search (keeps_rules, verify_candidate-Keeps) depth 12

  supersede_one-Keeps :
      (c : MemoryRecord) (r : PromotionReceipt) (id : String)
      → Keeps (Holds host) (supersede_one host c r id)
  unfolding supersede_one
  supersede_one-Keeps c r id =
      search (keeps_rules, now-Keeps, upsert_memory_record-Keeps host) depth 12

  supersede_all-Keeps :
      (c : MemoryRecord) (r : PromotionReceipt) (ids : List String)
      → Keeps (Holds host) (supersede_all host c r ids)
  unfolding supersede_all
  supersede_all-Keeps c r [] = search keeps_rules
  supersede_all-Keeps c r (id ∷ ids) =
      Keeps-bind (supersede_one host c r id) (λ _. supersede_all host c r ids)
        (supersede_one-Keeps c r id) (λ _. supersede_all-Keeps c r ids)

  promote_with-Keeps :
      (c : MemoryRecord) (r : PromotionReceipt) → Keeps (Holds host) (promote_with host c r)
  unfolding promote_with
  promote_with-Keeps c r =
      search
        (
          promotion_rules,
          upsert_memory_record-Keeps host,
          create_contract-Keeps host,
          supersede_all-Keeps,
        )
        depth 30

  -- A promotion keeps the store consistent, also one that raises after it has stored something.
  pub promote-Keeps : (id : String) → Keeps (Holds host) (promote host id)
  unfolding promote
  promote-Keeps id = search (keeps_rules, promote_with-Keeps) depth 12
