-- ===== src/Core/Event.antt =====
-- core/models.py: `Event`, `StoredEvent` and `MemoryRevision`.
use observable_agent_workflo.Prelude.{ℕ, String, Option, none, some, List, [], ◌∷◌}
use observable_agent_workflo.Result.{Result, ok, ◌>>=◌}
use observable_agent_workflo.Json.{Host, Value, Fields, str, obj, strs, dict, opt_str, digest_json}
use observable_agent_workflo.Core.Lane.{Lane, lane_value, MemoryOperation, operation_value}
use observable_agent_workflo.Core.Record.{
  MemoryRecord, schema_version, content_digest, tagged_id, dump,
}

pub record Event : Type 0 where
  pub schema_version : String
  pub event_id : String
  pub event_nonce : String
  pub run_id : String
  pub agent_id : String
  pub kind : String
  pub payload : Fields
  pub payload_digest : String
  pub parents : List String
  pub created_at : String

-- `Event.create`, at its time and nonce; the kernel leaves `agent_id` at its default.
unfoldable pub create :
    Host
    → (created_at nonce kind : String) (payload : Fields) (run_id : String) (parents : List String)
    → Result Event
create host created_at nonce kind payload run_id parents = do
  payload_digest ← digest_json host (obj payload)
  event_id ← tagged_id host "evt_" (
      dict (
        ("schema_version", str schema_version)
        ∷ ("event_nonce", str nonce)
        ∷ ("run_id", str run_id)
        ∷ ("agent_id", str "default")
        ∷ ("kind", str kind)
        ∷ ("payload_digest", str payload_digest)
        ∷ ("parents", strs parents)
        ∷ ("created_at", str created_at)
        ∷ []))
  ok (record {
    schema_version = schema_version;
    event_id = event_id;
    event_nonce = nonce;
    run_id = run_id;
    agent_id = "default";
    kind = kind;
    payload = payload;
    payload_digest = payload_digest;
    parents = parents;
    created_at = created_at;
  })

-- the event with what the collector adds; `collector_id` is always "local"
pub record StoredEvent : Type 0 where
  pub event : Event
  pub open event use *
  pub obs_seq : ℕ
  pub obs_time : String
  pub collector_seq : ℕ

pub record MemoryRevision : Type 0 where
  pub revision_id : String
  pub memory_id : String
  pub update_id : String
  pub content_digest : String
  pub operation : MemoryOperation
  pub before_lane : Option Lane
  pub after_lane : Lane
  pub reason : String
  pub receipt_id : Option String
  pub event_id : Option String
  pub record_ : Fields
  pub created_at : String

abbrev lane_or_null : Option Lane → Value
lane_or_null none = Value.null
lane_or_null (some l) = str (lane_value l)

-- `MemoryRevision.create`, at its time and nonce
unfoldable pub revise :
    Host
    → (created_at nonce : String) (r : MemoryRecord) → MemoryOperation
    → Option Lane
    → (reason : String) (receipt_id event_id : Option String) → Result MemoryRevision
revise host created_at nonce r operation before_lane reason receipt_id event_id = do
  digest ← content_digest host r
  revision_id ← tagged_id host "rev_" (
      dict (
        ("nonce", str nonce)
        ∷ ("memory_id", str r.memory_id)
        ∷ ("update_id", str r.update_id)
        ∷ ("content_digest", str digest)
        ∷ ("operation", str (operation_value operation))
        ∷ ("before_lane", lane_or_null before_lane)
        ∷ ("after_lane", str (lane_value r.lane))
        ∷ ("receipt_id", opt_str receipt_id)
        ∷ ("event_id", opt_str event_id)
        ∷ ("created_at", str created_at)
        ∷ []))
  ok (record {
    revision_id = revision_id;
    memory_id = r.memory_id;
    update_id = r.update_id;
    content_digest = digest;
    operation = operation;
    before_lane = before_lane;
    after_lane = r.lane;
    reason = reason;
    receipt_id = receipt_id;
    event_id = event_id;
    record_ = dump r;
    created_at = created_at;
  })
