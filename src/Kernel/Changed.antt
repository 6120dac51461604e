-- ===== src/Kernel/Changed.antt =====
-- What the methods that change a memory have done when they return.
use observable_agent_workflo.Prelude.{
  String, ◌==◌, ◌≡◌, false, Option, none, some, List, arith, if◌then◌else◌,
}
use observable_agent_workflo.Result.{ok}
use observable_agent_workflo.Exec.{Keeps, keeps_rules}
use observable_agent_workflo.Json.{Host, Fields}
use observable_agent_workflo.Core.Lane.{MemoryOperation}
use observable_agent_workflo.Core.Record.{MemoryRecord, Draft, create, validated}
use observable_agent_workflo.Core.Event.{Event}
use observable_agent_workflo.Storage.Tables.{insert_event}
use observable_agent_workflo.Storage.{
  World, now_utc, uuid4, transaction, append_event, get_memory_record, upsert_memory_record,
}
use observable_agent_workflo.Storage.Laws.{upsert_memory_record-reads, upsert_memory_record-returns}
use observable_agent_workflo.Kernel.{
  new_memory, record_event, actual_run_id, new_run_id, observe, record_memory_operation,
}

-- the memories and the receipts of the store are those of the world `v`
abbrev pub Same : World → World → Type 0
Same v w = (w.memory_records ≡ v.memory_records) × (w.promotion_receipts ≡ v.promotion_receipts)

module _ (host : Host) (v : World) where
  pub append_event-Same : (e : Event) → Keeps (Same v) (append_event host e)
  unfolding append_event now_utc transaction insert_event
  append_event-Same e = record { at = λ w h. ground arith }

  pub now-Same : Keeps (Same v) (now_utc host)
  unfolding now_utc
  now-Same = record { at = λ w h. h }

  pub uuid-Same : Keeps (Same v) (uuid4 host)
  unfolding uuid4
  uuid-Same = record { at = λ w h. h }

  pub record_event-Same :
      (kind : String) (payload : Fields) (run_id : String) (parents : List String)
      → Keeps (Same v) (record_event host kind payload run_id parents)
  unfolding record_event
  record_event-Same kind payload run_id parents =
      search (keeps_rules, now-Same, uuid-Same, append_event-Same) depth 12

  new_run_id-Same : Keeps (Same v) (new_run_id host)
  new_run_id-Same = search (keeps_rules, uuid-Same)

  pub actual_run_id-Same : (id : Option String) → Keeps (Same v) (actual_run_id host id)
  unfolding actual_run_id
  actual_run_id-Same none = new_run_id-Same
  actual_run_id-Same (some id) = search (keeps_rules, new_run_id-Same)

  observe-Same :
      (kind : String) (payload : Fields) (run_id : Option String) (parents : List String)
      → Keeps (Same v) (observe host kind payload run_id parents false)
  unfolding observe
  observe-Same kind payload run_id parents =
      search (keeps_rules, actual_run_id-Same, record_event-Same) depth 12

  -- The log of memory operations changes no memory.
  pub record_memory_operation-Same :
      (op : MemoryOperation) (run_id : String) (ids : List String) (details : Fields)
      → Keeps (Same v) (record_memory_operation host op run_id ids details)
  unfolding record_memory_operation
  record_memory_operation-Same op run_id ids details = search (keeps_rules, observe-Same) depth 12

  pub new_memory-Same : (d : Draft) → Keeps (Same v) (new_memory host d)
  unfolding new_memory
  new_memory-Same d = search (keeps_rules, now-Same) depth 12

-- A method that ends by storing the record `s` left every other memory as it found it.
pub record Stored (w w' : World) (s : MemoryRecord) : Type 0 where
  pub reads :
      (j : String)
      → get_memory_record j w'.db ≡ (if s.memory_id == j then ok s else get_memory_record j w.db)

-- the world after a method that keeps the memories, and an upsert
pub upsert-Stored :
    (host : Host) (r : MemoryRecord) (op : MemoryOperation) (reason : String)
    (receipt event : Option String) (w v : World) (s : MemoryRecord) (w' : World)
    → v.memory_records ≡ w.memory_records
    → upsert_memory_record host r op reason receipt event v ≡ (ok s, w')
    → (s ≡ r) × Stored w w' s
unfolding get_memory_record
upsert-Stored host r op reason receipt event w v s w' same h =
    let is_r : s ≡ r = upsert_memory_record-returns host r op reason receipt event v h in
    (
      is_r,
      record {
        reads = λ j.
            ground
              (arith, is_r, same, upsert_memory_record-reads host r op reason receipt event v h j);
      },
    )

create_lem :
    (host : Host) (t u : String) (d : Draft) {r : MemoryRecord}
    → create host t u d ≡ ok r
    → (r.lane ≡ d.lane)
      × (r.source_event_ids ≡ d.source_event_ids)
      × (r.supersedes ≡ d.supersedes)
      × (r.contradicts ≡ d.contradicts)
      × (r.metadata ≡ d.metadata)
      × (r.receipt_id ≡ none)
unfolding create validated
create_lem host t u d h = ground arith

pub new_memory_lem :
    (host : Host) (d : Draft) (w : World) {r : MemoryRecord}
    → (new_memory host d w).0 ≡ ok r
    → (r.lane ≡ d.lane)
      × (r.source_event_ids ≡ d.source_event_ids)
      × (r.supersedes ≡ d.supersedes)
      × (r.contradicts ≡ d.contradicts)
      × (r.metadata ≡ d.metadata)
      × (r.receipt_id ≡ none)
unfolding new_memory now_utc
new_memory_lem host d w h = create_lem host _ _ d h
