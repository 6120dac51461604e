-- ===== src/Kernel/Audit.antt =====
-- `verify_receipt`, `audit_receipts` and `_strict_recheck_receipt` of runtime/kernel.py.
use observable_agent_workflo.Prelude.{
  String, ◌==◌, starts_with, Bool, not, ◌&&◌, Option, none, some, List, [], ◌∷◌, cat, select, first,
  is_empty, join, map, if◌then◌else◌,
}
use observable_agent_workflo.Result.{Error, not_found_error, Result, ok, err, ◌>>=◌}
use observable_agent_workflo.Json.{Host, end, strs, dict}
use observable_agent_workflo.Core.Receipt.{
  CheckerResult, reject, reject_with, PromotionReceipt, Verdict,
}
use observable_agent_workflo.Storage.{
  Db, get_memory_record, get_receipt, get_evidence_manifest, list_receipts,
}
use observable_agent_workflo.Receipts.{verify_receipt as verify_binding}
use observable_agent_workflo.Checkers.Base.{Checker, Context, run_checkers}
use observable_agent_workflo.Promotion.Evidence.{collect_event_digests, dump_manifest}
use observable_agent_workflo.Promotion.{checker_context}

-- `next((ref for ref in evidence_refs if ref.startswith("evm_")), "")`
unfoldable pub manifest_ref : List String → String
manifest_ref refs = elim (first (λ ref. starts_with ref "evm_") refs) [ none ↦ "" | some ref ↦ ref ]

-- `except NotFoundError`: it becomes a failed result; another exception goes on
unfoldable pub or_missing : String → Error → Result CheckerResult
or_missing name (not_found_error text) = ok (reject name text)
or_missing name e = err e

abbrev catch_missing :
    {A : Type 0} → String → Result A → (A → Result CheckerResult) → Result CheckerResult
catch_missing name (ok a) f = f a
catch_missing name (err e) f = or_missing name e

abbrev no_manifest : String
no_manifest = "receipt has no evidence manifest reference"

-- the check of a receipt that the store has
unfoldable pub check_receipt : Host → PromotionReceipt → Db → Result CheckerResult
check_receipt host receipt db =
    if manifest_ref receipt.evidence_refs == ""
    then ok (reject "receipt-reference" no_manifest)
    else catch_missing "receipt-reference" (get_memory_record receipt.candidate_id db) λ candidate.
      catch_missing "receipt-reference"
        (get_evidence_manifest (manifest_ref receipt.evidence_refs) db)
        λ manifest. verify_binding host receipt manifest (some candidate)

-- `AgentKernel.verify_receipt`
unfoldable pub verify_receipt : Host → (receipt_id : String) → Db → Result CheckerResult
verify_receipt host receipt_id db = do
  receipt ← get_receipt receipt_id db
  check_receipt host receipt db

-- the failed checks of a recheck as one result
unfoldable pub recheck_result : List CheckerResult → CheckerResult
recheck_result checks =
    let failed = select (λ (c : CheckerResult). not c.passed) checks in
    record (reject_with "strict-recheck"
      (join "; " (map (λ (c : CheckerResult). cat c.checker_name (cat ": " c.reason)) failed))
      (dict
        (("failed_checkers", strs (map (λ (c : CheckerResult). c.checker_name) failed)) ∷ []))) {
          passed = is_empty failed;
        }

abbrev pub no_context : Context
no_context = record { action_intent = none; entries = end }

-- `_strict_recheck_receipt`: the checkers run again on what the store has now
unfoldable pub strict_recheck : Host → List Checker → PromotionReceipt → Db → Result CheckerResult
strict_recheck host checkers receipt db =
    catch_missing "strict-recheck" (get_memory_record receipt.candidate_id db) λ candidate.
      if manifest_ref receipt.evidence_refs == ""
      then ok (reject "strict-recheck" no_manifest)
      else catch_missing "strict-recheck"
          (get_evidence_manifest (manifest_ref receipt.evidence_refs) db)
          λ manifest. do
            checks ←
                run_checkers checkers candidate (dump_manifest manifest)
                  (checker_context no_context (collect_event_digests candidate db))
            ok (recheck_result checks)

pub record AuditRow : Type 0 where
  pub receipt_id : String
  pub candidate_id : String
  pub candidate_update_id : String
  pub result : Verdict
  pub bound_action_id : String
  pub verified : Bool
  pub receipt_integrity : Bool
  pub checker_recheck : Option Bool
  pub reason : String

-- the recheck, if the audit is strict and the receipt is intact
unfoldable pub recheck_if :
    Host
    → (strict_recheck : Bool) → List Checker
    → PromotionReceipt
    → CheckerResult
    → Db
    → Result (Option CheckerResult)
recheck_if host strict checkers receipt integrity db =
    if strict && integrity.passed
    then strict_recheck host checkers receipt db >>= (λ r. ok (some r))
    else ok none

-- `_join_reasons`
abbrev join_reasons : String → String → String
join_reasons a b = join "; " (select (λ r. not (r == "")) (a ∷ b ∷ []))

abbrev recheck_reason : Option CheckerResult → String
recheck_reason none = ""
recheck_reason (some r) = r.reason

unfoldable pub audit_row : PromotionReceipt → CheckerResult → Option CheckerResult → AuditRow
audit_row receipt integrity recheck = record {
  receipt_id = receipt.receipt_id;
  candidate_id = receipt.candidate_id;
  candidate_update_id = receipt.candidate_update_id;
  result = receipt.result;
  bound_action_id = elim receipt.bound_action_id [ none ↦ "" | some id ↦ id ];
  verified = elim recheck [ none ↦ integrity.passed | some r ↦ integrity.passed && r.passed ];
  receipt_integrity = integrity.passed;
  checker_recheck = elim recheck [ none ↦ none | some r ↦ some r.passed ];
  reason = join_reasons integrity.reason (recheck_reason recheck);
}

unfoldable pub audit_rows :
    Host
    → (strict_recheck : Bool) → List Checker
    → List PromotionReceipt
    → Db
    → Result (List AuditRow)
audit_rows host strict checkers [] db = ok []
audit_rows host strict checkers (receipt ∷ receipts) db = do
  integrity ← verify_receipt host receipt.receipt_id db
  recheck ← recheck_if host strict checkers receipt integrity db
  rows ← audit_rows host strict checkers receipts db
  ok (audit_row receipt integrity recheck ∷ rows)

unfoldable pub audit_receipts :
    Host → (strict_recheck : Bool) → List Checker → Db → Result (List AuditRow)
audit_receipts host strict checkers db = audit_rows host strict checkers (list_receipts none db) db
