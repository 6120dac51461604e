-- ===== src/Examples/Stores.antt =====
-- The theorems about the store, at the session's worlds.
use observable_agent_workflo.Prelude.{◌==◌, ◌≡◌, refl, false, none, [], ◌∷◌, if◌then◌else◌}
use observable_agent_workflo.Prelude.Int.{pos}
use observable_agent_workflo.Result.{Error, Result, ok, err, value_error}
use observable_agent_workflo.Exec.{Keeps}
use observable_agent_workflo.Json.{
  Value, str, dict, canonical_json, normalize_for_json, normalize_items, normalize_fields, Float,
}
use observable_agent_workflo.Core.Lane.{MemoryOperation}
use observable_agent_workflo.Core.Record.{MemoryRecord}
use observable_agent_workflo.Core.Event.{Event}
use observable_agent_workflo.Storage.{World, get_memory_record, upsert_memory_record, append_event}
use observable_agent_workflo.Storage.Laws.{upsert_memory_record-reads}
use observable_agent_workflo.Storage.Invariant.{
  Holds, upsert_memory_record-Keeps, append_event-Keeps,
}
use observable_agent_workflo.Examples.Hosted.{host, start}
use observable_agent_workflo.Examples.Session.{blank_record, proposal, promoted, written}
use observable_agent_workflo.Examples.Steps.{written_is}

upsert_memory_record-reads_example : get_memory_record proposal.memory_id written.1.db ≡ (
    if proposal.memory_id == proposal.memory_id
    then ok proposal
    else get_memory_record proposal.memory_id promoted.1.db)
upsert_memory_record-reads_example =
    upsert_memory_record-reads host proposal MemoryOperation.write "again" none none promoted.1
      written_is proposal.memory_id

-- a record whose metadata has a number that JSON cannot hold
abbrev infinite : Float
infinite = record { finite = false; num = pos 0; den = 1; repr = "inf" }

abbrev unwritable : MemoryRecord
unwritable = record blank_record { metadata = dict (("x", Value.float infinite) ∷ []) }

abbrev refused : Result MemoryRecord × World
refused = upsert_memory_record host unwritable MemoryOperation.write "" none none start

abbrev error_of : Result MemoryRecord → Error
error_of (ok r) = value_error ""
error_of (err e) = e

refused_is : refused ≡ (err (error_of refused.0), refused.1)
unfolding upsert_memory_record canonical_json normalize_for_json normalize_items normalize_fields
refused_is = refl

upsert_memory_record-Keeps_example :
    Keeps (Holds host) (upsert_memory_record host proposal MemoryOperation.write "again" none none)
upsert_memory_record-Keeps_example =
    upsert_memory_record-Keeps host proposal MemoryOperation.write "again" none none

abbrev event : Event
event = record {
  schema_version = "1.1";
  event_id = "evt_1";
  event_nonce = "n";
  run_id = "r1";
  agent_id = "default";
  kind = "task";
  payload = dict (("text", str "build") ∷ []);
  payload_digest = "";
  parents = [];
  created_at = "t0";
}

append_event-Keeps_example : Keeps (Holds host) (append_event host event)
append_event-Keeps_example = append_event-Keeps host event
