-- ===== src/Kernel.antt =====
-- runtime/kernel.py: `AgentKernel`, with the default retriever (adapters/fts_retriever.py). This file
-- holds what its methods share: observed events, the log of memory operations, and retrieval.
pub mod Propose
pub mod Change
pub mod Tools
pub mod Run
pub mod Audit
pub mod Keeps
pub mod Exposure
pub mod Admission
pub mod Logged
pub mod Changed
pub mod Drafted
pub mod Ended
pub mod Consolidate
pub mod Attested
use observable_agent_workflo.Prelude.{
  ℕ, String, ◌==◌, Bool, true, false, ◌&&◌, Option, none, some, List, [], ◌∷◌, ◌++◌, cat, prefix,
  map, not, if◌then◌else◌,
}
use observable_agent_workflo.Prelude.Int.{ℤ, pos}
use observable_agent_workflo.Result.{Result, ok, err, ◌>>=◌ as ◌>>=ᵣ◌}
use observable_agent_workflo.Exec.{lift, pure, gets, reads, ◌>>=◌, ◌>>◌}
use observable_agent_workflo.Json.{
  Host, Value, Items, Fields, str, obj, arr, nil, cons, int, strs, dict, get, py_str,
}
use observable_agent_workflo.Core.Lane.{Lane, lane_value, MemoryOperation, operation_value}
use observable_agent_workflo.Core.Record.{MemoryRecord, Draft, create, memory_ref}
use observable_agent_workflo.Core.Event.{StoredEvent, create as create_event}
use observable_agent_workflo.Core.Transitions.{admissible_lanes_for_mode}
use observable_agent_workflo.Storage.{
  Db, World, Action, now_utc, uuid4, find_record, append_event, upsert_memory_record,
}
use observable_agent_workflo.Storage.Search.{RetrievedMemory, search_memory}

-- `MemoryRecord.create`: the two timestamps are read from the clock one after the other
unfoldable pub new_memory : Host → Draft → Action MemoryRecord
new_memory host draft = do
  created_at ← now_utc host
  updated_at ← now_utc host
  lift (create host created_at updated_at draft)

-- `_append_event`
unfoldable pub record_event :
    Host
    → (kind : String) (payload : Fields) (run_id : String) (parents : List String)
    → Action StoredEvent
record_event host kind payload run_id parents = do
  time ← now_utc host
  nonce ← uuid4 host
  event ← lift (create_event host time nonce kind payload run_id parents)
  append_event host event

-- `_payload_to_claim`
unfoldable pub payload_to_claim : Host → (kind : String) (payload : Fields) → String
payload_to_claim host kind payload =
    let about = λ (v : Value). cat kind (cat ": " (py_str host v)) in
    elim (get "text" payload) [
      | some v ↦ about v
      | none ↦ elim (get "task" payload) [
        | some v ↦ about v
        | none ↦ elim (get "content" payload) [ some v ↦ about v | none ↦ about (obj payload) ]
      ]
    ]

abbrev pub new_run_id : Host → Action String
new_run_id host = do nonce ← uuid4 host; pure (cat "run_" (prefix 12 nonce))

-- `run_id or f"run_{uuid.uuid4().hex[:12]}"`
unfoldable pub actual_run_id : Host → Option String → Action String
actual_run_id host none = new_run_id host
actual_run_id host (some id) = if id == "" then new_run_id host else pure id

-- the raw record that an observed event is indexed as
unfoldable pub index_raw :
    Host → (kind : String) (payload : Fields) (run_id : String) → StoredEvent → Action MemoryRecord
index_raw host kind payload run_id stored = do
  r ← new_memory host (record {
    lane = Lane.raw;
    claim = payload_to_claim host kind payload;
    source_event_ids = stored.event_id ∷ [];
    metadata =
        dict (
          ("kind", str kind) ∷ ("run_id", str run_id) ∷ ("obs_seq", int (pos stored.obs_seq)) ∷ []);
    evidence_refs = [];
    supersedes = [];
    contradicts = [];
  })
  upsert_memory_record host r MemoryOperation.write "" none (some stored.event_id)

unfoldable pub observe :
    Host
    → (kind : String) (payload : Fields) (run_id : Option String) (parents : List String)
    → (index_as_raw : Bool) → Action StoredEvent
observe host kind payload run_id parents index_as_raw = do
  run ← actual_run_id host run_id
  stored ← record_event host kind payload run parents
  if index_as_raw then (index_raw host kind payload run stored >> pure stored) else pure stored

-- `_memory_ref`: a memory that is not stored is named without its update
unfoldable pub ref_or_blank : Host → (memory_id : String) → Db → Result Value
ref_or_blank host id db = elim (find_record id db.memory_records) [
  | none ↦
      ok (
        obj
          (dict (("memory_id", str id) ∷ ("update_id", str "") ∷ ("content_digest", str "") ∷ [])))
  | some r ↦ elim (memory_ref host r) [ ok ref ↦ ok (obj ref) | err e ↦ err e ]
]

unfoldable pub memory_refs : Host → List String → Db → Result Items
memory_refs host [] db = ok nil
memory_refs host (id ∷ ids) db =
    ref_or_blank host id db >>=ᵣ λ ref. memory_refs host ids db >>=ᵣ λ refs. ok (cons ref refs)

unfoldable pub record_memory_operation :
    Host
    → MemoryOperation
    → (run_id : String) (memory_ids : List String) (details : Fields) → Action StoredEvent
record_memory_operation host operation run_id memory_ids details = do
  refs ← reads (λ (w : World). memory_refs host memory_ids w.db)
  observe host (cat "memory_" (operation_value operation))
      (dict (
        ("operation", str (operation_value operation))
        ∷ ("memory_ids", strs memory_ids)
        ∷ ("memory_refs", arr refs)
        ∷ ("details", obj details)
        ∷ []))
      (some run_id) [] false

abbrev pub memory_ids : List RetrievedMemory → List String
memory_ids = map (λ (m : RetrievedMemory). m.memory_id)

-- `x or default`, of a text that may be missing
abbrev pub text_or : Option String → String → String
text_or none default = default
text_or (some s) default = if s == "" then default else s

unfoldable pub retrieve :
    Host
    → (query mode : String) (limit : ℕ) (run_id : Option String) → Action (List RetrievedMemory)
retrieve host query mode limit run_id = do
  lanes ← lift (admissible_lanes_for_mode mode)
  results ← reads (λ (w : World). search_memory host query lanes limit w.db)
  record_memory_operation host MemoryOperation.read (text_or run_id "retrieval")
      (memory_ids results)
      (dict (
        ("query", str query)
        ∷ ("mode", str mode)
        ∷ ("lane_filter", strs (map lane_value lanes))
        ∷ []))
  pure results
