-- ===== src/Qualified/Eligibility.antt =====
-- qualified/eligibility.py: is the memory of a qualification still what was promoted, and may it be
-- exposed for an input now? Both are read from the store, whatever a retriever says.
use observable_agent_workflo.Prelude.{
  String, ◌==◌, Bool, false, not, ◌&&◌, Option, none, some, List, [], ◌∷◌, ◌++◌, cat, first, map,
  starts_with,
}
use observable_agent_workflo.Result.{Result, ok, value_error, raise_if, or_raise, ◌>>=◌, ◌>>◌}
use observable_agent_workflo.Json.{
  Host, Fields, str, obj, end, strs, dict, put, value_eq, digest_json,
}
use observable_agent_workflo.Core.Lane.{certified, shadow, lane_value}
use observable_agent_workflo.Core.Record.{
  MemoryRecord, validated, content_digest, compute_update_id,
}
use observable_agent_workflo.Core.Receipt.{EvidenceManifest, PromotionReceipt}
use observable_agent_workflo.Storage.{Db, find_event, find_record, find_receipt, find_contract}
use observable_agent_workflo.Gate.{is_passing}
use observable_agent_workflo.Receipts.{verify_receipt}
use observable_agent_workflo.Checkers.Base.{
  Checker, Validation, Context as CheckerContext, same_set, get_or_none,
}
use observable_agent_workflo.Checkers.Default.{create_default_checkers}
use observable_agent_workflo.Promotion.Evidence.{dump_manifest}
use observable_agent_workflo.Qualified.Wire.{loads}
use observable_agent_workflo.Qualified.Model.{Source, Qualification}

-- `row`: a record that must be there
unfoldable pub row {ℓ} : {A : Type ℓ} → Option A → Result A
row found = or_raise found (value_error "missing authoritative record")

abbrev or_empty : Option String → String
or_empty none = ""
or_empty (some s) = s

abbrev same_text : Option String → String → Bool
same_text none t = false
same_text (some s) t = s == t

abbrev is_manifest_ref : String → Bool
is_manifest_ref s = starts_with s "evm_"

-- the first of the references that names a manifest
abbrev manifest_id : PromotionReceipt → String
manifest_id r = or_empty (first is_manifest_ref r.evidence_refs)

abbrev has_manifest_id : String → EvidenceManifest → Bool
has_manifest_id id m = m.manifest_id == id

-- the memory as the qualification names it: certified, and bound to its own content
unfoldable pub current_memory : Host → Db → Qualification → Result MemoryRecord
unfolding row
current_memory host db q = do
  found ← row (find_record q.memory_id db.memory_records)
  memory ← validated found
  let mismatch = value_error "current promotion or memory revision mismatch"
  raise_if (not (lane_value memory.lane == lane_value certified && memory.update_id == q.update_id))
      mismatch
  content ← content_digest host memory
  raise_if (not (content == q.workflow_digest)) mismatch
  update ← compute_update_id host memory.memory_id content
  raise_if (not (memory.update_id == update)) (value_error "memory content binding mismatch")
  ok memory

-- the receipt, the contract and the manifest of the promotion
unfoldable pub check_receipt : Host → Db → MemoryRecord → Result EvidenceManifest
unfolding row
check_receipt host db memory = do
  receipt ← row (find_receipt (or_empty memory.receipt_id) db.promotion_receipts)
  contract ← row (find_contract (or_empty memory.workflow_contract_id) db.workflow_contracts)
  raise_if (not (is_passing receipt)) (value_error "empty or failed promotion checks")
  manifest ← row (first (has_manifest_id (manifest_id receipt)) db.evidence_manifests)
  verdict ← verify_receipt host receipt manifest (some memory)
  raise_if (not verdict.passed) (value_error "receipt binding failed")
  raise_if
      (not (
        same_text contract.source_update_id memory.update_id
        && same_text contract.source_memory_id memory.memory_id
        && value_eq (get_or_none "receipt_id" contract.replay_spec) (str receipt.receipt_id)))
      (value_error "workflow receipt mismatch")
  ok manifest

-- the events that the memory cites, with their payloads rehashed
unfoldable pub event_digests : Host → Db → List String → (digests : Fields) → Result Fields
unfolding row
event_digests host db [] digests = ok digests
event_digests host db (id ∷ ids) digests = do
  observed ← row (find_event id db.events)
  computed ← digest_json host (obj observed.payload)
  raise_if (not (computed == observed.payload_digest))
      (value_error "authoritative event corruption")
  event_digests host db ids (put id (str observed.payload_digest) digests)

-- the loop over the checkers, which stops at the first that refuses
unfoldable pub recheck :
    List Checker → MemoryRecord → (evidence : Fields) → CheckerContext → Result (Unit {0})
recheck [] memory evidence context = ok tt
recheck (c ∷ cs) memory evidence context = do
  result ← c.verify memory evidence context
  raise_if (not result.passed) (value_error (cat "promotion recheck failed: " c.checker_name))
  recheck cs memory evidence context

-- the sources are events that the store has observed
unfoldable pub check_sources : Host → Db → List Source → Result (Unit {0})
unfolding row
check_sources host db [] = ok tt
check_sources host db (s ∷ ss) = do
  original ← row (find_event s.event_id db.events)
  let unknown = value_error "source bytes not authoritative local observations"
  raise_if
      (not (
        original.kind == "registered_operation"
        && value_eq (get_or_none "raw" original.payload) (str s.raw)))
      unknown
  value ← loads host s.raw
  producer ← digest_json host value
  raise_if (not (s.producer_digest == producer)) unknown
  computed ← digest_json host (obj original.payload)
  raise_if (not (computed == original.payload_digest))
      (value_error "observed envelope digest mismatch")
  check_sources host db ss

abbrev source_id : Source → String
source_id s = s.event_id

unfoldable pub promotion : Host → Validation → Db → Qualification → Result MemoryRecord
promotion host validation db q = do
  memory ← current_memory host db q
  manifest ← check_receipt host db memory
  digests ← event_digests host db memory.source_event_ids end
  recheck (create_default_checkers host validation) (record memory { lane = shadow })
      (dump_manifest manifest)
      (record {
        action_intent = none;
        entries =
            dict
              (("actual_event_digests", obj digests) ∷ ("missing_source_event_ids", strs []) ∷ []);
      })
  raise_if (not (same_set memory.source_event_ids (map source_id q.training)))
      (value_error "unmapped memory source events")
  check_sources host db (q.training ++ q.evaluation)
  ok memory
