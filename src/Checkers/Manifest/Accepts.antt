-- ===== src/Checkers/Manifest/Accepts.antt =====
-- The manifest checker on the manifests that `EvidenceManifest.create` makes.
use observable_agent_workflo.Prelude.{String, ◌≡◌, arith, eq_refl, List}
use observable_agent_workflo.Result.{ok}
use observable_agent_workflo.Json.{Host, Fields}
use observable_agent_workflo.Core.Record.{MemoryRecord}
use observable_agent_workflo.Core.Receipt.{EvidenceManifest, accept, create_manifest, int_fields}
use observable_agent_workflo.Checkers.Manifest.{verify_manifest, manifest_name}

-- A manifest created from a candidate is accepted for that candidate, given that its resource caps are
-- integers already: pydantic's coercion leaves them as they are.
pub verify_manifest-create_manifest :
    (host : Host) (time : String) (r : MemoryRecord) (ids : List String) (digests : Fields)
    (tools : List String) (caps : Fields) {m : EvidenceManifest}
    → int_fields host caps ≡ ok caps
    → create_manifest host time r ids digests tools caps ≡ ok m
    → verify_manifest host r m ≡ ok (accept manifest_name)
unfolding create_manifest verify_manifest
verify_manifest-create_manifest host time r ids digests tools caps {m} whole h = ground (
  arith,
  eq_refl r.memory_id,
  eq_refl r.update_id,
  eq_refl m.candidate_digest,
  eq_refl m.replay_digest,
  eq_refl m.manifest_id,
)
