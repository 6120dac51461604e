-- ===== src/Checkers/Manifest.antt =====
-- `CandidateDigestChecker` and `EvidenceManifestChecker`: the evidence is bound to the candidate's
-- present content.
pub mod Accepts
use observable_agent_workflo.Prelude.{
  String, ◌==◌, Bool, true, false, not, List, [], ◌∷◌, cat, if◌then◌else◌,
}
use observable_agent_workflo.Result.{Error, Result, ok, err, ◌>>=◌}
use observable_agent_workflo.Json.{Host, Value, Fields, str, obj, dict, digest_json, value_eq}
use observable_agent_workflo.Core.Record.{
  MemoryRecord, content_digest, compute_update_id, tagged_id,
}
use observable_agent_workflo.Core.Receipt.{
  CheckerResult, accept, reject, reject_with, EvidenceManifest, replay_seed, manifest_seed,
}
use observable_agent_workflo.Checkers.Base.{Checker, Validation, get_or_none}

abbrev expected_observed : Value → Value → Fields
expected_observed e o = dict (("expected", e) ∷ ("observed", o) ∷ [])

unfoldable pub verify_digest : Host → MemoryRecord → Fields → Result CheckerResult
verify_digest host r evidence = do
  let observed = get_or_none "candidate_digest" evidence
  expected ← content_digest host r
  expected_update_id ← compute_update_id host r.memory_id expected
  ok (
      if not (value_eq observed (str expected))
      then reject_with "digest" "candidate_digest mismatch or missing"
          (expected_observed (str expected) observed)
      else if not (r.update_id == expected_update_id)
      then reject_with "digest" "candidate update_id mismatch"
          (expected_observed (str expected_update_id) (str r.update_id))
      else accept "digest")

unfoldable pub candidate_digest : Host → Checker
candidate_digest host = record {
  checker_name = "digest";
  verify = λ r evidence context. verify_digest host r evidence;
}

abbrev pub manifest_name : String
manifest_name = "evidence-manifest"

verify_id : EvidenceManifest → (id : String) → CheckerResult
verify_id m id =
    if not (m.manifest_id == id)
    then reject_with manifest_name "evidence manifest_id mismatch"
        (expected_observed (str id) (str m.manifest_id))
    else accept manifest_name

verify_replay :
    Host → MemoryRecord → EvidenceManifest → (digest replay : String) → Result CheckerResult
unfolding verify_id
verify_replay host r m digest replay =
    if not (m.replay_digest == replay)
    then ok (
        reject_with manifest_name "evidence manifest replay_digest mismatch"
          (expected_observed (str replay) (str m.replay_digest)))
    else do
      id ←
          tagged_id host "evm_"
            (manifest_seed r m.input_event_ids m.input_event_digests digest replay)
      ok (verify_id m id)

verify_bound : Host → MemoryRecord → EvidenceManifest → (digest : String) → Result CheckerResult
unfolding verify_replay
verify_bound host r m digest =
    if not (m.candidate_digest == digest)
    then ok (
        reject_with manifest_name "evidence manifest candidate_digest mismatch"
          (expected_observed (str digest) (str m.candidate_digest)))
    else do
      replay ← digest_json host (
          obj (
            replay_seed r m.input_event_ids m.input_event_digests digest m.declared_tools
              m.resource_caps))
      verify_replay host r m digest replay

-- the manifest against the candidate, each digest from the parts that it is made of
unfoldable pub verify_manifest : Host → MemoryRecord → EvidenceManifest → Result CheckerResult
unfolding verify_bound
verify_manifest host r m =
    if not (m.candidate_id == r.memory_id)
    then ok (reject manifest_name "evidence manifest candidate_id does not match candidate")
    else if not (m.candidate_update_id == r.update_id)
    then ok (reject manifest_name "evidence manifest candidate_update_id does not match candidate")
    else do digest ← content_digest host r; verify_bound host r m digest

abbrev error_text : Error → String
error_text (Error.transition_error m) = m
error_text (Error.fail_closed_error m) = m
error_text (Error.not_found_error m) = m
error_text (Error.value_error m) = m
error_text (Error.integrity_error m) = m
error_text (Error.key_error m) = m
error_text (Error.index_error m) = m
error_text (Error.type_error m) = m
error_text (Error.schema_error m) = m

unfoldable pub verify_evidence :
    Host → MemoryRecord → Result EvidenceManifest → Result CheckerResult
verify_evidence host r (err e) =
    ok (reject manifest_name (cat "invalid evidence manifest: " (error_text e)))
verify_evidence host r (ok m) = verify_manifest host r m

unfoldable pub evidence_manifest : Host → Validation → Checker
evidence_manifest host validation = record {
  checker_name = manifest_name;
  verify = λ r evidence context. verify_evidence host r (validation.manifest evidence);
}
