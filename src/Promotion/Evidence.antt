-- ===== src/Promotion/Evidence.antt =====
-- `_collect_event_digests` and `build_evidence` of runtime/promotion.py.
use observable_agent_workflo.Prelude.{String, none, some, List, [], ◌∷◌}
use observable_agent_workflo.Exec.{lift, gets, pure, ◌>>=◌, ◌>>◌}
use observable_agent_workflo.Json.{Host, Fields, str, obj, end, strs, dict, get, put, py_str}
use observable_agent_workflo.Core.Record.{MemoryRecord}
use observable_agent_workflo.Core.Receipt.{EvidenceManifest, create_manifest}
use observable_agent_workflo.Core.Contract.{metadata_strs, metadata_caps}
use observable_agent_workflo.Storage.{Db, Action, now_utc, find_event, create_evidence_manifest}

-- the digests of the events that the store has, and the identifiers of the others
unfoldable pub collect_from : List String → (digests : Fields) → Db → Fields × List String
collect_from [] digests db = (digests, [])
collect_from (id ∷ ids) digests db = elim (find_event id db.events) [
  | some e ↦ collect_from ids (put id (str e.payload_digest) digests) db
  | none ↦ let (found, missing) = collect_from ids digests db in (found, id ∷ missing)
]

unfoldable pub collect_event_digests : MemoryRecord → Db → Fields × List String
unfolding collect_from
collect_event_digests r db = collect_from r.source_event_ids end db

-- `model_dump(mode="json")`
unfoldable pub dump_manifest : EvidenceManifest → Fields
dump_manifest m = dict (
    ("schema_version", str m.schema_version)
    ∷ ("manifest_id", str m.manifest_id)
    ∷ ("candidate_id", str m.candidate_id)
    ∷ ("candidate_update_id", str m.candidate_update_id)
    ∷ ("input_event_ids", strs m.input_event_ids)
    ∷ ("input_event_digests", obj m.input_event_digests)
    ∷ ("candidate_digest", str m.candidate_digest)
    ∷ ("replay_digest", str m.replay_digest)
    ∷ ("declared_tools", strs m.declared_tools)
    ∷ ("resource_caps", obj m.resource_caps)
    ∷ ("created_at", str m.created_at)
    ∷ [])

unfoldable pub build_evidence : Host → MemoryRecord → Action Fields
build_evidence host r = do
  (digests, _) ← gets (λ w. collect_event_digests r w.db)
  tools ← lift (metadata_strs "tools" r.metadata)
  caps ← lift (metadata_caps end r.metadata)
  time ← now_utc host
  m ← lift (create_manifest host time r r.source_event_ids digests tools caps)
  create_evidence_manifest m
  pure (dump_manifest m)

-- `str(evidence.get(key, ""))`
abbrev pub get_or_empty : Host → String → Fields → String
get_or_empty host key evidence = elim (get key evidence) [ none ↦ "" | some v ↦ py_str host v ]
