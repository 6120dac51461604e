-- ===== src/Receipts.antt =====
-- adapters/receipt_verifier.py: does a receipt still speak of the candidate and its evidence?
pub mod Integrity
use observable_agent_workflo.Prelude.{
  String, ◌==◌, Bool, true, false, not, ◌&&◌, Option, none, some, List, [], ◌∷◌, str_mem,
  if◌then◌else◌,
}
use observable_agent_workflo.Result.{Result, ok, ◌>>=◌}
use observable_agent_workflo.Json.{Host, Fields, str, dict}
use observable_agent_workflo.Core.Record.{MemoryRecord}
use observable_agent_workflo.Core.Receipt.{
  CheckerResult, accept, reject, reject_with, EvidenceManifest, PromotionReceipt,
  compute_receipt_digest,
}

abbrev pub name : String
name = "default-receipt"

-- `receipt.bound_action_id is None or receipt.bound_action_id in receipt.evidence_refs`
abbrev pub references_action : PromotionReceipt → Bool
references_action r = elim r.bound_action_id [ none ↦ true | some id ↦ str_mem id r.evidence_refs ]

unfoldable pub digest_result : PromotionReceipt → (expected : String) → CheckerResult
digest_result r expected =
    if r.receipt_digest == expected
    then accept name
    else reject_with name "receipt_digest mismatch"
        (dict (("expected", str expected) ∷ ("observed", str r.receipt_digest) ∷ []))

-- `verify_receipt`, with the candidate of its context
unfoldable pub verify_receipt :
    Host → PromotionReceipt → EvidenceManifest → Option MemoryRecord → Result CheckerResult
verify_receipt host receipt evidence none =
    ok (reject name "receipt verification requires candidate context")
verify_receipt host receipt evidence (some candidate) =
    if not (receipt.candidate_id == candidate.memory_id)
    then ok (reject name "receipt candidate_id does not match candidate")
    else if not (receipt.candidate_update_id == candidate.update_id)
    then ok (reject name "receipt candidate_update_id does not match current candidate")
    else if not (evidence.candidate_id == receipt.candidate_id)
    then ok (reject name "manifest candidate_id does not match receipt")
    else if not (evidence.candidate_update_id == receipt.candidate_update_id)
    then ok (reject name "manifest candidate_update_id does not match receipt")
    else if not (str_mem evidence.manifest_id receipt.evidence_refs)
    then ok (reject name "receipt does not reference evidence manifest")
    else if not (references_action receipt)
    then ok (reject name "receipt does not reference bound action id")
    else do
      expected ←
          compute_receipt_digest host receipt.candidate_id receipt.candidate_update_id
            receipt.bound_action_id receipt.profile receipt.checks receipt.result
            receipt.evidence_refs
      ok (digest_result receipt expected)
