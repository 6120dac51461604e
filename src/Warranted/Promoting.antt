-- ===== src/Warranted/Promoting.antt =====
-- Verification and promotion, and what they leave of the warrants.
use observable_agent_workflo.Prelude.{
  String, ◌≡◌, ◌≢◌, sym, ◌∙◌, Option, some, none, List, [], ◌∷◌, arith, cat, if◌then◌else◌,
}
use observable_agent_workflo.Result.{ok}
use observable_agent_workflo.Exec.{
  Exec, Keeps, keeps_rules, Keeps-known, Keeps-bind, Keeps-lift, Keeps-reads, Keeps-pure, lift,
  pure, ◌>>=◌,
}
use observable_agent_workflo.Json.{Host, Fields}
use observable_agent_workflo.Core.Lane.{Lane, certified, superseded, MemoryOperation}
use observable_agent_workflo.Core.Record.{MemoryRecord, moved, validated}
use observable_agent_workflo.Core.Receipt.{
  CheckerResult, EvidenceManifest, PromotionReceipt, is_passed,
}
use observable_agent_workflo.Core.Event.{Event}
use observable_agent_workflo.Core.Contract.{WorkflowContract}
use observable_agent_workflo.Core.Transitions.{assert_transition_allowed}
use observable_agent_workflo.Storage.{
  World, now_utc, uuid4, append_event, create_evidence_manifest, upsert_memory_record,
}
use observable_agent_workflo.Checkers.Base.{Context}
use observable_agent_workflo.Kernel.Changed.{Same, now-Same, uuid-Same, append_event-Same}
use observable_agent_workflo.Promotion.Evidence.{build_evidence}
use observable_agent_workflo.Promotion.Events.{
  append_new_event, append_verify_event, append_promote_event,
}
use observable_agent_workflo.Promotion.Verified.{verified_lane}
use observable_agent_workflo.Promotion.{
  Pipeline, supplied_or, settle, conclude, issue, verify_candidate, verify, supersede_one,
  supersede_all, shadow_reason, failure_reasons,
}
use observable_agent_workflo.Warranted.Base.{IsWarranted}
use observable_agent_workflo.Warranted.Writes.{
  Persists, IsWarranted-Persists, create_evidence_manifest-Same, create_receipt-IsWarranted,
}

module _ (host : Host) (v : World) where
  now-V : Keeps (Same v) (now_utc host)
  now-V = now-Same host v

  uuid-V : Keeps (Same v) (uuid4 host)
  uuid-V = uuid-Same host v

  append_event-V : (e : Event) → Keeps (Same v) (append_event host e)
  append_event-V = append_event-Same host v

  manifest-V : (m : EvidenceManifest) → Keeps (Same v) (create_evidence_manifest m)
  manifest-V = create_evidence_manifest-Same host v

  build_evidence-Same : (c : MemoryRecord) → Keeps (Same v) (build_evidence host c)
  unfolding build_evidence
  build_evidence-Same c = search (keeps_rules, now-V, manifest-V) depth 12

  supplied-Same :
      (evidence : Option Fields) (c : MemoryRecord)
      → Keeps (Same v) (supplied_or evidence (build_evidence host c))
  supplied-Same none c = build_evidence-Same c
  supplied-Same (some e) c = search keeps_rules

  append_new_event-Same :
      (kind : String) (payload : Fields) (run : String) (parents : List String)
      → Keeps (Same v) (append_new_event host kind payload run parents)
  unfolding append_new_event
  append_new_event-Same kind payload run parents =
      search (keeps_rules, now-V, uuid-V, append_event-V)

  append_verify_event-Same :
      (c : MemoryRecord) (r : PromotionReceipt) (evidence : Fields)
      → Keeps (Same v) (append_verify_event host c r evidence)
  unfolding append_verify_event
  append_verify_event-Same c r evidence = search (keeps_rules, append_new_event-Same)

  pub append_promote_event-Same :
      (c : MemoryRecord) (r : PromotionReceipt) (k : WorkflowContract)
      → Keeps (Same v) (append_promote_event host c r k)
  unfolding append_promote_event
  append_promote_event-Same c r k = search (keeps_rules, append_new_event-Same)

  issue-Same :
      (p : Pipeline) (c : MemoryRecord) (supplied : Fields) (checks : List CheckerResult)
      (action : Option String)
      → Keeps (Same v) (issue host p c supplied checks action)
  unfolding issue
  issue-Same p c supplied checks action = search (keeps_rules, now-V, uuid-V) depth 12

never_certified : (r : PromotionReceipt) → verified_lane r ≢ certified
never_certified r h = ground arith

moved_lane :
    (c : MemoryRecord) (lane : Lane) (reason : String) (receipt : Option String) (time : String)
    {s : MemoryRecord}
    → moved c lane reason receipt time ≡ ok s
    → s.lane ≡ lane
unfolding moved validated
moved_lane c lane reason receipt time h = ground arith

module _ (host : Host) (P : World → Type 0) (persists : Persists host P) where
  pub now-P : Keeps P (now_utc host)
  now-P = persists.frame _ (now_utc host) (now-Same host)

  -- a record is moved to another lane than the certified one and stored
  pub moved_write-P :
      (c : MemoryRecord) (lane : Lane) (op : MemoryOperation) (reason : String)
      (receipt : Option String) (stored : MemoryRecord → Option String) (time : String) {B : Type 0}
      (rest : MemoryRecord → MemoryRecord → Exec World B)
      → lane ≢ certified
      → ((s t : MemoryRecord) → Keeps P (rest s t))
      → Keeps P (do
        s ← lift (moved c lane reason receipt time)
        t ← upsert_memory_record host s op reason (stored s) none
        rest s t)
  moved_write-P c lane op reason receipt stored time rest other kept =
      Keeps-known (λ s. s.lane ≡ lane) (lift (moved c lane reason receipt time))
        (λ s. do t ← upsert_memory_record host s op reason (stored s) none; rest s t)
        (λ w s e. moved_lane c lane reason receipt time e) (Keeps-lift _)
        (λ s same.
          Keeps-bind (upsert_memory_record host s op reason (stored s) none) (rest s)
            (persists.write s op reason (stored s) none (λ e. other (sym same ∙ e))) (kept s))

  pub settle-P :
      (c : MemoryRecord) (r : PromotionReceipt) (checks : List CheckerResult)
      → Keeps P (settle host c r checks)
  unfolding settle
  settle-P c r checks = Keeps-bind _ _ now-P λ time.
      moved_write-P c (verified_lane r) MemoryOperation.verify
        (if is_passed r.result then shadow_reason else failure_reasons checks) (some r.receipt_id)
        (λ _. some r.receipt_id) time (λ s t. pure tt) (never_certified r) (λ s t. Keeps-pure tt)

  pub supersede_one-P :
      (c : MemoryRecord) (r : PromotionReceipt) (id : String) → Keeps P (supersede_one host c r id)
  unfolding supersede_one
  supersede_one-P c r id = Keeps-bind _ _ (Keeps-reads _) λ old.
      Keeps-bind _ _ (Keeps-lift (assert_transition_allowed old.lane superseded)) λ _.
        Keeps-bind _ _ now-P λ time.
          moved_write-P old superseded MemoryOperation.replace (cat "superseded by " c.memory_id)
            (some r.receipt_id) (λ _. some r.receipt_id) time (λ s t. pure tt) ended
            (λ s t. Keeps-pure tt)
    where
      ended : superseded ≢ certified
      ended h = ground arith

  pub supersede_all-P :
      (c : MemoryRecord) (r : PromotionReceipt) (ids : List String)
      → Keeps P (supersede_all host c r ids)
  unfolding supersede_all
  supersede_all-P c r [] = Keeps-pure tt
  supersede_all-P c r (id ∷ ids) =
      Keeps-bind (supersede_one host c r id) (λ _. supersede_all host c r ids)
        (supersede_one-P c r id) (λ _. supersede_all-P c r ids)

module _ (host : Host) where
  conclude-IsWarranted :
      (c : MemoryRecord) (supplied : Fields) (checks : List CheckerResult) (r : PromotionReceipt)
      → Keeps IsWarranted (conclude host c supplied checks r)
  unfolding conclude
  conclude-IsWarranted c supplied checks r = Keeps-bind _ _ (create_receipt-IsWarranted r) λ _.
      Keeps-bind _ _
        ((IsWarranted-Persists host).frame _ _ (λ v. append_verify_event-Same host v c r supplied))
        λ _.
          Keeps-bind _ _ (settle-P host IsWarranted (IsWarranted-Persists host) c r checks)
            λ _. Keeps-pure r

  supplied-IsWarranted :
      (evidence : Option Fields) (c : MemoryRecord)
      → Keeps IsWarranted (supplied_or evidence (build_evidence host c))
  supplied-IsWarranted evidence c =
      (IsWarranted-Persists host).frame _ _ (λ v. supplied-Same host v evidence c)

  issue-IsWarranted :
      (p : Pipeline) (c : MemoryRecord) (supplied : Fields) (checks : List CheckerResult)
      (action : Option String)
      → Keeps IsWarranted (issue host p c supplied checks action)
  issue-IsWarranted p c supplied checks action =
      (IsWarranted-Persists host).frame _ _ (λ v. issue-Same host v p c supplied checks action)

  verify_candidate-IsWarranted :
      (p : Pipeline) (c : MemoryRecord) (evidence : Option Fields) (context : Context)
      → Keeps IsWarranted (verify_candidate host p c evidence context)
  unfolding verify_candidate
  verify_candidate-IsWarranted p c evidence context =
      search (keeps_rules, supplied-IsWarranted, issue-IsWarranted, conclude-IsWarranted) depth 14

  pub verify-IsWarranted :
      (p : Pipeline) (id : String) (evidence : Option Fields) (context : Context)
      → Keeps IsWarranted (verify host p id evidence context)
  unfolding verify
  verify-IsWarranted p id evidence context =
      search (keeps_rules, verify_candidate-IsWarranted) depth 12
