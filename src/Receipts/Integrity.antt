-- ===== src/Receipts/Integrity.antt =====
-- When the verifier accepts a receipt.
use observable_agent_workflo.Prelude.{
  String, ◌≡◌, ◌↔◌, refl, true, some, inl, inr, arith, eq_iff, str_mem,
}
use observable_agent_workflo.Result.{Result, ok, Result-cases}
use observable_agent_workflo.Json.{Host}
use observable_agent_workflo.Core.Record.{MemoryRecord}
use observable_agent_workflo.Core.Receipt.{
  CheckerResult, accept, EvidenceManifest, PromotionReceipt, compute_receipt_digest,
}
use observable_agent_workflo.Receipts.{name, references_action, digest_result, verify_receipt}

-- The receipt, the manifest and the candidate name one update of one memory, the receipt refers to
-- the manifest and to its action, and its digest is that of its present fields.
pub record Attests (host : Host) (r : PromotionReceipt) (m : EvidenceManifest) (c : MemoryRecord)
    : Type 0 where
  pub candidate : r.candidate_id ≡ c.memory_id
  pub update : r.candidate_update_id ≡ c.update_id
  pub manifest_candidate : m.candidate_id ≡ r.candidate_id
  pub manifest_update : m.candidate_update_id ≡ r.candidate_update_id
  pub manifest : str_mem m.manifest_id r.evidence_refs ≡ true
  pub action : references_action r ≡ true
  pub digest :
      compute_receipt_digest host r.candidate_id r.candidate_update_id r.bound_action_id r.profile
        r.checks r.result r.evidence_refs
      ≡ ok r.receipt_digest

abbrev expected : Host → PromotionReceipt → Result String
expected host r =
    compute_receipt_digest host r.candidate_id r.candidate_update_id r.bound_action_id r.profile
      r.checks r.result r.evidence_refs

verify_receipt_sound :
    (host : Host) (r : PromotionReceipt) (m : EvidenceManifest) (c : MemoryRecord)
    (v : CheckerResult)
    → verify_receipt host r m (some c) ≡ ok v
    → v.passed ≡ true
    → Attests host r m c
unfolding verify_receipt digest_result
verify_receipt_sound host r m c v h p = elim (Result-cases (expected host r)) [
  | inl (d, e) ↦ ground (
    arith,
    eq_iff r.candidate_id c.memory_id,
    eq_iff r.candidate_update_id c.update_id,
    eq_iff m.candidate_id r.candidate_id,
    eq_iff m.candidate_update_id r.candidate_update_id,
    eq_iff r.receipt_digest d,
  )
  | inr (x, e) ↦ absurd (ground arith)
]

verify_receipt_complete :
    (host : Host) (r : PromotionReceipt) (m : EvidenceManifest) (c : MemoryRecord)
    → Attests host r m c
    → verify_receipt host r m (some c) ≡ ok (accept name)
unfolding verify_receipt digest_result
verify_receipt_complete host r m c a = ground (
  arith,
  eq_iff r.candidate_id c.memory_id,
  eq_iff r.candidate_update_id c.update_id,
  eq_iff m.candidate_id r.candidate_id,
  eq_iff m.candidate_update_id r.candidate_update_id,
  eq_iff r.receipt_digest r.receipt_digest,
)

-- The verifier passes a receipt exactly when it attests the candidate, whichever check comes first.
pub verify_receipt_iff :
    (host : Host) (r : PromotionReceipt) (m : EvidenceManifest) (c : MemoryRecord)
    → ((v : CheckerResult) × (verify_receipt host r m (some c) ≡ ok v) × (v.passed ≡ true))
      ↔ Attests host r m c
verify_receipt_iff host r m c = (
  (λ (v, h, p). verify_receipt_sound host r m c v h p),
  (λ a. (accept name, verify_receipt_complete host r m c a, refl)),
)
