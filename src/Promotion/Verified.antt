-- ===== src/Promotion/Verified.antt =====
-- What a verification that returns has done to the candidate.
use observable_agent_workflo.Prelude.{
  suc, String, ◌≡◌, false, Option, none, some, inl, inr, List, arith, if◌then◌else◌, is_empty, sym,
  ◌∙◌,
}
use observable_agent_workflo.Result.{ok, Result-cases}
use observable_agent_workflo.Json.{Host, Fields}
use observable_agent_workflo.Core.Lane.{Lane, shadow, quarantine, tombstone, MemoryOperation}
use observable_agent_workflo.Core.Record.{MemoryRecord, validated, moved}
use observable_agent_workflo.Core.Receipt.{
  CheckerResult, PromotionReceipt, Profile, is_passed, all_passed, create_receipt,
}
use observable_agent_workflo.Core.Transitions.Reach.{◌⟶*◌, tombstone_absorbs}
use observable_agent_workflo.Storage.{
  World, get_memory_record, now_utc, uuid4, create_receipt as store_receipt,
}
use observable_agent_workflo.Storage.Laws.{reads_after_upsert}
use observable_agent_workflo.Checkers.Base.{Context, run_checkers}
use observable_agent_workflo.Promotion.Evidence.{build_evidence, collect_event_digests}
use observable_agent_workflo.Promotion.{
  Pipeline, settle, conclude, issue, verify_candidate, verify, failure_reasons, shadow_reason,
  append_verify_event, supplied_or, bound_action, checker_context,
}

abbrev pub verified_lane : PromotionReceipt → Lane
verified_lane r = if is_passed r.result then shadow else quarantine

-- The candidate's record after a verification with this receipt.
pub record Settled (c : MemoryRecord) (r : PromotionReceipt) (s : MemoryRecord) : Type 0 where
  pub lane : s.lane ≡ verified_lane r
  pub same_memory : s.memory_id ≡ c.memory_id
  pub same_update : s.update_id ≡ c.update_id

-- A receipt that says of its checks what they say, and names the candidate's update.
pub record Honest (c : MemoryRecord) (checks : List CheckerResult) (r : PromotionReceipt)
    : Type 0 where
  pub checks_ : r.checks ≡ checks
  pub result : is_passed r.result ≡ all_passed checks
  pub candidate : r.candidate_id ≡ c.memory_id
  pub update : r.candidate_update_id ≡ c.update_id

pub moved-Settled :
    (c : MemoryRecord) (r : PromotionReceipt) (reason time : String) {s : MemoryRecord}
    → moved c (verified_lane r) reason (some r.receipt_id) time ≡ ok s
    → Settled c r s
unfolding moved validated
moved-Settled c r reason time h = ground arith

settle_lem :
    (host : Host) (c : MemoryRecord) (r : PromotionReceipt) (checks : List CheckerResult)
    (w : World) {w' : World}
    → settle host c r checks w ≡ (ok tt, w')
    → (s : MemoryRecord) × (get_memory_record c.memory_id w'.db ≡ ok s) × Settled c r s
unfolding settle now_utc
settle_lem host c r checks w {w'} h =
    elim (Result-cases (moved c (verified_lane r) reason (some r.receipt_id) (host.now w.clock))) [
      | inr (e, refused) ↦ absurd (ground arith)
      | inl (s, settled) ↦
          let done = moved-Settled c r reason (host.now w.clock) settled in
          let reads =
            reads_after_upsert host s MemoryOperation.verify reason (some r.receipt_id) none
              (record w { clock = suc w.clock }) in
          (s, ground (arith, reads, done), done)
    ]
  where
    reason : String
    reason = if is_passed r.result then shadow_reason else failure_reasons checks

create_receipt_lem :
    (host : Host) (time nonce : String) (c : MemoryRecord) (p : Profile)
    (checks : List CheckerResult) (refs : List String) (action : Option String)
    {r : PromotionReceipt}
    → create_receipt host time nonce c p checks refs action ≡ ok r
    → Honest c checks r
unfolding create_receipt
create_receipt_lem host time nonce c p checks refs action h = ground arith

-- A verification that is concluded returns the receipt that it was given, and moves the candidate.
conclude_lem :
    (host : Host) (c : MemoryRecord) (supplied : Fields) (checks : List CheckerResult)
    (r : PromotionReceipt) (w : World) {q : PromotionReceipt} {w' : World}
    → conclude host c supplied checks r w ≡ (ok q, w')
    → (q ≡ r) × ((s : MemoryRecord) × (get_memory_record c.memory_id w'.db ≡ ok s) × Settled c r s)
unfolding conclude
conclude_lem host c supplied checks r w {w' = w'} h =
    let before : World = (append_verify_event host c r supplied (store_receipt r w).1).1 in
    (ground arith, settle_lem host c r checks before {w' = w'} (ground arith))

-- The outcome of a verification of the record `c`, in the world that it leaves.
pub record Outcome (host : Host) (p : Pipeline) (c : MemoryRecord) (r : PromotionReceipt)
    (w' : World) : Type 0 where
  pub checks : List CheckerResult
  pub honest : Honest c checks r
  pub ran :
      (supplied : Fields) × (context : Context) × (run_checkers p.checkers c supplied context
        ≡ ok checks)
  pub record_ : MemoryRecord
  pub reads : get_memory_record c.memory_id w'.db ≡ ok record_
  pub settled : Settled c r record_

issue_lem :
    (host : Host) (p : Pipeline) (c : MemoryRecord) (supplied : Fields)
    (checks : List CheckerResult) (action : Option String) (w : World) {r : PromotionReceipt}
    → (issue host p c supplied checks action w).0 ≡ ok r
    → Honest c checks r
unfolding issue now_utc uuid4
issue_lem host p c supplied checks action w h =
    create_receipt_lem host _ _ c p.profile checks _ action h

verify_candidate_lem :
    (host : Host) (p : Pipeline) (c : MemoryRecord) (evidence : Option Fields) (context : Context)
    (w : World) {r : PromotionReceipt} {w' : World}
    → verify_candidate host p c evidence context w ≡ (ok r, w')
    → Outcome host p c r w'
unfolding verify_candidate
verify_candidate_lem host p c evidence context w {r} {w'} h =
    elim (Result-cases (supplied_or evidence (build_evidence host c) w).0) [
      | inr (e, bad) ↦ absurd (ground arith)
      | inl (supplied, given) ↦ elim (Result-cases (run_checkers p.checkers c supplied full)) [
        | inr (e, bad) ↦ absurd (ground arith)
        | inl (checks, ran) ↦ elim (Result-cases (issue host p c supplied checks action after).0) [
          | inr (e, bad) ↦ absurd (ground arith)
          | inl (q, issued) ↦
              let (same, (s, reads, done)) =
                conclude_lem host c supplied checks q
                  (issue host p c supplied checks action after).1 {q = r} {w' = w'}
                  (ground arith) in
              record {
                checks = checks;
                honest = rw same (issue_lem host p c supplied checks action after issued);
                ran = (supplied, full, ran);
                record_ = s;
                reads = reads;
                settled = rw same done;
              }
        ]
      ]
    ]
  where
    after : World
    after = (supplied_or evidence (build_evidence host c) w).1

    full : Context
    full = checker_context context (collect_event_digests c w.db)

    action : Option String
    action = bound_action context.action_intent

-- A verification that returns has run the pipeline's checkers, of which there is at least one, on
-- the stored candidate. Its receipt carries their results, says "passed" exactly if all of them did,
-- and names the candidate's update. The candidate is stored in the shadow lane after a passing
-- receipt and in quarantine after any other.
pub verify_sound :
    (host : Host) (p : Pipeline) (id : String) (evidence : Option Fields) (context : Context)
    (w : World) {r : PromotionReceipt} {w' : World}
    → verify host p id evidence context w ≡ (ok r, w')
    → (is_empty p.checkers ≡ false)
      × ((c : MemoryRecord) × (get_memory_record id w.db ≡ ok c) × Outcome host p c r w')
unfolding verify
verify_sound host p id evidence context w {r} {w'} h =
    elim (Result-cases (get_memory_record id w.db)) [
      | inr (e, bad) ↦ absurd (ground arith)
      | inl (c, reads) ↦ (
        ground arith,
        (
          c,
          reads,
          verify_candidate_lem host p c evidence context w {r = r} {w' = w'} (ground arith),
        ),
      )
    ]

not_verified : (r : PromotionReceipt) → ¬ (verified_lane r ≡ tombstone)
not_verified r h = ground arith

-- A verification that returns takes even a retired candidate back: the record in the tombstone lane
-- is afterwards in a lane that no sequence of allowed moves leads to.
pub verify_leaves_tombstone :
    (host : Host) (p : Pipeline) (id : String) (evidence : Option Fields) (context : Context)
    (w : World) (c : MemoryRecord) {r : PromotionReceipt} {w' : World}
    → get_memory_record id w.db ≡ ok c
    → c.lane ≡ tombstone
    → verify host p id evidence context w ≡ (ok r, w')
    → (s : MemoryRecord) × (get_memory_record c.memory_id w'.db ≡ ok s) × ¬ (c.lane ⟶* s.lane)
verify_leaves_tombstone host p id evidence context w c {r} {w'} stored dead h =
    let (_, (d, reads, out)) = verify_sound host p id evidence context w {r = r} {w' = w'} h in
    let same : c ≡ d = ground arith in
    (
      out.record_,
      rw same out.reads,
      λ path. not_verified r (sym out.settled.lane ∙ tombstone_absorbs dead path),
    )
