-- ===== src/Promotion.antt =====
-- runtime/promotion.py: `MemoryPromotionPipeline`.
pub mod Evidence
pub mod Inputs
pub mod Events
pub mod Keeps
pub mod Sound
pub mod Verified
use Events.{append_verify_event, append_promote_event}
use observable_agent_workflo.Prelude.{
  String, ◌==◌, Bool, true, false, not, ◌&&◌, Option, none, some, List, [], ◌∷◌, ◌++◌, cat, select,
  last, is_empty, if◌then◌else◌, join, map,
}
use observable_agent_workflo.Result.{Result, ok, err, fail_closed_error, or_raise}
use observable_agent_workflo.Exec.{Exec, pure, lift, gets, reads, guard, ◌>>=◌, ◌>>◌}
use observable_agent_workflo.Json.{Host, Fields, obj, strs, put, py_str}
use observable_agent_workflo.Core.Lane.{certified, quarantine, shadow, superseded, MemoryOperation}
use observable_agent_workflo.Core.Record.{MemoryRecord, moved, validated}
use observable_agent_workflo.Core.Receipt.{
  CheckerResult, PromotionReceipt, Profile, create_receipt, is_passed, ActionIntent,
}
use observable_agent_workflo.Core.Contract.{WorkflowContract, from_candidate}
use observable_agent_workflo.Core.Transitions.{assert_transition_allowed}
use observable_agent_workflo.Storage.{
  World, Action, now_utc, uuid4, get_memory_record, list_receipts, upsert_memory_record,
  create_contract, create_receipt as store_receipt,
}
use observable_agent_workflo.Gate.{is_passing}
use observable_agent_workflo.Checkers.Base.{Checker, Context, run_checkers}
use Evidence.{collect_event_digests, build_evidence, get_or_empty}

pub record Pipeline : Type 0 where
  pub checkers : List Checker
  pub profile : Profile

-- `"; ".join(check.reason for check in checks if not check.passed)`
abbrev pub failure_reasons : List CheckerResult → String
failure_reasons checks =
    join "; "
      (map (λ (c : CheckerResult). c.reason) (select (λ (c : CheckerResult). not c.passed) checks))

abbrev pub shadow_reason : String
shadow_reason = "verified in shadow lane; promotion still requires explicit promote"

-- the candidate after a verification: quarantined or moved to the shadow lane
unfoldable pub settle : Host → MemoryRecord → PromotionReceipt → List CheckerResult → Action Unit
settle host candidate receipt checks = do
  let lane = if is_passed receipt.result then shadow else quarantine
  let reason = if is_passed receipt.result then shadow_reason else failure_reasons checks
  time ← now_utc host
  settled ← lift (moved candidate lane reason (some receipt.receipt_id) time)
  upsert_memory_record host settled MemoryOperation.verify reason (some receipt.receipt_id) none
  pure tt

abbrev pub bound_action : Option ActionIntent → Option String
bound_action none = none
bound_action (some i) = some i.action_id

abbrev opt_list : Option String → List String
opt_list none = []
opt_list (some s) = s ∷ []

-- the context of the checkers: the caller's, with the digests that the store has
abbrev pub checker_context : Context → Fields × List String → Context
checker_context context (digests, missing) = record context {
  entries =
      put "missing_source_event_ids" (strs missing)
        (put "actual_event_digests" (obj digests) context.entries);
}

abbrev pub supplied_or : Option Fields → Action Fields → Action Fields
supplied_or none build = build
supplied_or (some evidence) build = pure evidence

-- the end of a verification: the receipt is stored, the event appended, the candidate moved
unfoldable pub conclude :
    Host
    → MemoryRecord
    → (supplied : Fields) → List CheckerResult
    → PromotionReceipt
    → Action PromotionReceipt
conclude host candidate supplied checks receipt = do
  store_receipt receipt
  append_verify_event host candidate receipt supplied
  settle host candidate receipt checks
  pure receipt

-- the receipt for the checks, at the next time and identifier
unfoldable pub issue :
    Host
    → Pipeline
    → MemoryRecord
    → (supplied : Fields) → List CheckerResult
    → (action : Option String) → Action PromotionReceipt
issue host pipeline candidate supplied checks action = do
  time ← now_utc host
  nonce ← uuid4 host
  lift (
      create_receipt host time nonce candidate pipeline.profile checks
        (get_or_empty host "manifest_id" supplied
          ∷ get_or_empty host "replay_digest" supplied
          ∷ opt_list action)
        action)

unfoldable pub verify_candidate :
    Host → Pipeline → MemoryRecord → (evidence : Option Fields) → Context → Action PromotionReceipt
verify_candidate host pipeline candidate evidence context = do
  collected ← gets (λ (w : World). collect_event_digests candidate w.db)
  supplied ← supplied_or evidence (build_evidence host candidate)
  checks ←
      lift (run_checkers pipeline.checkers candidate supplied (checker_context context collected))
  receipt ← issue host pipeline candidate supplied checks (bound_action context.action_intent)
  conclude host candidate supplied checks receipt

unfoldable pub verify :
    Host
    → Pipeline
    → (candidate_id : String) (evidence : Option Fields) → Context
    → Action PromotionReceipt
verify host pipeline candidate_id evidence context = do
  guard (is_empty pipeline.checkers)
      (fail_closed_error "verification requires a nonempty checker set")
  candidate ← reads (λ (w : World). get_memory_record candidate_id w.db)
  verify_candidate host pipeline candidate evidence context

-- the receipts that let this update be promoted
abbrev pub passing_receipts : MemoryRecord → List PromotionReceipt → List PromotionReceipt
passing_receipts candidate =
    select (λ (r : PromotionReceipt). is_passing r && r.candidate_update_id == candidate.update_id)

-- the certified record that `promote` stores, at its time
abbrev pub certify : MemoryRecord → WorkflowContract → PromotionReceipt → String → MemoryRecord
certify candidate contract receipt time = record candidate {
  lane = certified;
  workflow_contract_id = some contract.contract_id;
  receipt_id = some receipt.receipt_id;
  status_reason = "promoted with passing receipt";
  updated_at = time;
}

-- one round of the loop over `candidate.supersedes`
unfoldable pub supersede_one : Host → MemoryRecord → PromotionReceipt → (id : String) → Action Unit
supersede_one host candidate receipt id = do
  old ← reads (λ (w : World). get_memory_record id w.db)
  lift (assert_transition_allowed old.lane superseded)
  time ← now_utc host
  let reason = cat "superseded by " candidate.memory_id
  replaced ← lift (moved old superseded reason (some receipt.receipt_id) time)
  upsert_memory_record host replaced MemoryOperation.replace reason (some receipt.receipt_id) none
  pure tt

unfoldable pub supersede_all : Host → MemoryRecord → PromotionReceipt → List String → Action Unit
supersede_all host candidate receipt [] = pure tt
supersede_all host candidate receipt (id ∷ ids) =
    supersede_one host candidate receipt id >> supersede_all host candidate receipt ids

-- what `promote` does once it has its candidate and a receipt that lets it
unfoldable pub promote_with : Host → MemoryRecord → PromotionReceipt → Action MemoryRecord
promote_with host candidate receipt = do
  lift (assert_transition_allowed candidate.lane certified)
  contract_time ← now_utc host
  contract ← lift (from_candidate host contract_time candidate receipt)
  create_contract contract
  time ← now_utc host
  promoted ← lift (validated (certify candidate contract receipt time))
  stored ←
      upsert_memory_record host promoted MemoryOperation.promote "promoted with passing receipt"
        (some receipt.receipt_id) none
  supersede_all host candidate receipt candidate.supersedes
  append_promote_event host stored receipt contract
  pure stored

unfoldable pub promote : Host → (candidate_id : String) → Action MemoryRecord
promote host candidate_id = do
  candidate ← reads (λ (w : World). get_memory_record candidate_id w.db)
  receipts ← gets (λ (w : World). list_receipts (some candidate_id) w.db)
  receipt ← lift (
      or_raise (last (passing_receipts candidate receipts))
        (fail_closed_error "promotion requires a passing receipt for this candidate update"))
  promote_with host candidate receipt
