-- ===== src/Core/Record.antt =====
-- core/models.py: `MemoryRecord`.
pub mod Binding
use Prim.Native.String.{◌++◌}
use observable_agent_workflo.Prelude.{
  String, ◌==◌, Bool, Option, none, some, List, [], ◌∷◌, if◌then◌else◌, prefix, strip,
}
use observable_agent_workflo.Result.{Result, ok, err, value_error, ◌>>=◌}
use observable_agent_workflo.Json.{Host, Value, Fields, str, obj, strs, dict, digest_json, opt_str}
use observable_agent_workflo.Core.Lane.{Lane, lane_value}

abbrev pub schema_version : String
schema_version = "1.1"

pub record MemoryRecord : Type 0 where
  pub schema_version : String
  pub memory_id : String
  pub update_id : String
  pub lane : Lane
  pub claim : String
  pub source_event_ids : List String
  pub evidence_refs : List String
  pub supersedes : List String
  pub contradicts : List String
  pub workflow_contract_id : Option String
  pub receipt_id : Option String
  pub status_reason : String
  pub metadata : Fields
  pub created_at : String
  pub updated_at : String

-- `MemoryRecord(**data)`: the claim is stripped, and refused if nothing is left.
unfoldable pub validated : MemoryRecord → Result MemoryRecord
validated r =
    let claim = strip r.claim in
    if claim == ""
    then err (value_error "claim must not be empty")
    else ok (record r { claim = claim })

-- the dict that `create` and `content_digest` hash
unfoldable pub content_seed : String → List String → Fields → List String → List String → Fields
content_seed claim source_event_ids metadata supersedes contradicts = dict (
    ("claim", str claim)
    ∷ ("source_event_ids", strs source_event_ids)
    ∷ ("metadata", obj metadata)
    ∷ ("supersedes", strs supersedes)
    ∷ ("contradicts", strs contradicts)
    ∷ [])

unfoldable pub content_digest : Host → MemoryRecord → Result String
content_digest host r =
    digest_json host
      (obj (content_seed r.claim r.source_event_ids r.metadata r.supersedes r.contradicts))

-- an identifier of 32 hexadecimal digits behind its tag, `f"upd_{digest_json(seed)[:32]}"`
unfoldable pub tagged_id : Host → String → Fields → Result String
tagged_id host tag seed = do digest ← digest_json host (obj seed); ok (tag ++ prefix 32 digest)

unfoldable pub compute_update_id : Host → String → String → Result String
compute_update_id host memory_id content_digest =
    tagged_id host "upd_"
      (dict (("memory_id", str memory_id) ∷ ("content_digest", str content_digest) ∷ []))

-- What `create` is given: the optional arguments are empty where the source's default is `None`.
pub record Draft : Type 0 where
  pub lane : Lane
  pub claim : String
  pub source_event_ids : List String
  pub metadata : Fields
  pub evidence_refs : List String
  pub supersedes : List String
  pub contradicts : List String

-- `MemoryRecord.create`, at the times that its two default timestamps take
unfoldable pub create : Host → (created_at updated_at : String) → Draft → Result MemoryRecord
create host created_at updated_at d = do
  let seed = content_seed d.claim d.source_event_ids d.metadata d.supersedes d.contradicts
  memory_id ← tagged_id host "mem_" (Fields.field "lane" (str (lane_value d.lane)) seed)
  digest ← digest_json host (obj seed)
  update_id ← compute_update_id host memory_id digest
  validated (record {
    schema_version = schema_version;
    memory_id = memory_id;
    update_id = update_id;
    lane = d.lane;
    claim = d.claim;
    source_event_ids = d.source_event_ids;
    evidence_refs = d.evidence_refs;
    supersedes = d.supersedes;
    contradicts = d.contradicts;
    workflow_contract_id = none;
    receipt_id = none;
    status_reason = "";
    metadata = d.metadata;
    created_at = created_at;
    updated_at = updated_at;
  })

-- `receipt_id or self.receipt_id`
abbrev pub or_else : Option String → Option String → Option String
or_else none b = b
or_else (some a) b = if a == "" then b else some a

-- `moved`, at the time that `now_utc` returns
unfoldable pub moved :
    MemoryRecord → Lane → (reason : String) → Option String → (now : String) → Result MemoryRecord
moved r lane reason receipt_id now = validated (record r {
  lane = lane;
  status_reason = reason;
  receipt_id = or_else receipt_id r.receipt_id;
  updated_at = now;
})

-- `model_dump(mode="json")`
unfoldable pub dump : MemoryRecord → Fields
dump r = dict (
    ("schema_version", str r.schema_version)
    ∷ ("memory_id", str r.memory_id)
    ∷ ("update_id", str r.update_id)
    ∷ ("lane", str (lane_value r.lane))
    ∷ ("claim", str r.claim)
    ∷ ("source_event_ids", strs r.source_event_ids)
    ∷ ("evidence_refs", strs r.evidence_refs)
    ∷ ("supersedes", strs r.supersedes)
    ∷ ("contradicts", strs r.contradicts)
    ∷ ("workflow_contract_id", opt_str r.workflow_contract_id)
    ∷ ("receipt_id", opt_str r.receipt_id)
    ∷ ("status_reason", str r.status_reason)
    ∷ ("metadata", obj r.metadata)
    ∷ ("created_at", str r.created_at)
    ∷ ("updated_at", str r.updated_at)
    ∷ [])

-- `_memory_ref` of runtime/promotion.py
unfoldable pub memory_ref : Host → MemoryRecord → Result Fields
memory_ref host r = do
  digest ← content_digest host r
  ok (
      dict (
        ("memory_id", str r.memory_id)
        ∷ ("update_id", str r.update_id)
        ∷ ("content_digest", str digest)
        ∷ []))
