-- ===== src/Storage/Laws.antt =====
-- What one statement or method of the store does to what the readers see.
use observable_agent_workflo.Prelude.{
  String, ◌==◌, ◌≡◌, refl, Option, some, List, [], ◌∷◌, ◌++◌, arith, eq_iff, eq_refl, true,
  if◌then◌else◌, inl, inr,
}
use observable_agent_workflo.Result.{Result, ok, is_ok, Result-cases}
use observable_agent_workflo.Json.{Host}
use observable_agent_workflo.Core.Lane.{Lane, MemoryOperation}
use observable_agent_workflo.Core.Record.{MemoryRecord}
use observable_agent_workflo.Core.Event.{MemoryRevision, revise}
use observable_agent_workflo.Storage.Tables.{
  Db, find_record, upsert_record, delete_fts, insert_revision,
}
use observable_agent_workflo.Storage.{
  World, transaction, upsert_rows, before_lane, fts_row, upsert_memory_record, get_memory_record,
  now_utc, uuid4,
}

pub find_record-upsert_record :
    (j : String) (r : MemoryRecord) (rs : List MemoryRecord)
    → find_record j (upsert_record r rs) ≡ (if r.memory_id == j then some r else find_record j rs)
unfolding find_record upsert_record
find_record-upsert_record j r [] = refl
find_record-upsert_record j r (s ∷ rs) = ground (
  arith,
  find_record-upsert_record j r rs,
  eq_iff s.memory_id r.memory_id,
  eq_iff s.memory_id j,
  eq_iff r.memory_id j,
)

-- What a transaction of an upsert has done when it commits.
pub upsert_rows-tables :
    (r : MemoryRecord) (body : String) (revision : Option Lane → Result MemoryRevision) (db : Db)
    {db' : Db}
    → upsert_rows r body revision db ≡ ok db'
    → (db'.memory_records ≡ upsert_record r db.memory_records)
      × (db'.memory_fts ≡ delete_fts r.memory_id db.memory_fts ++ fts_row r body ∷ [])
      × (db'.events ≡ db.events)
      × (db'.promotion_receipts ≡ db.promotion_receipts)
      × (db'.workflow_contracts ≡ db.workflow_contracts)
      × (db'.evidence_manifests ≡ db.evidence_manifests)
unfolding upsert_rows insert_revision
upsert_rows-tables r body revision db h = ground arith

-- After an upsert that returns, `get_memory_record` returns the record that was written under its
-- identifier, and under any other identifier what it returned before.
pub upsert_memory_record-reads :
    (host : Host) (r : MemoryRecord) (op : MemoryOperation) (reason : String)
    (receipt event : Option String) (w : World) {s : MemoryRecord} {w' : World}
    → upsert_memory_record host r op reason receipt event w ≡ (ok s, w')
    → (j : String)
    → get_memory_record j w'.db ≡ (if r.memory_id == j then ok r else get_memory_record j w.db)
unfolding upsert_memory_record transaction now_utc uuid4 get_memory_record upsert_rows
    insert_revision
upsert_memory_record-reads host r op reason receipt event w h j =
    ground (arith, find_record-upsert_record j r w.memory_records)

-- the tables after an upsert whose revision is `v`
abbrev pub after_upsert : MemoryRecord → String → MemoryRevision → Db → Db
after_upsert r body v db = record db {
  memory_records = upsert_record r db.memory_records;
  memory_revisions = db.memory_revisions ++ v ∷ [];
  memory_fts = delete_fts r.memory_id db.memory_fts ++ fts_row r body ∷ [];
}

abbrev pub Revises : MemoryRecord → Db → MemoryRevision → Type 0
Revises r db v =
    (v.memory_id ≡ r.memory_id) × (v.before_lane ≡ before_lane r db) × (v.after_lane ≡ r.lane)

revise-Revises :
    (host : Host) (r : MemoryRecord) (time nonce reason : String) (op : MemoryOperation)
    (before : Option Lane) (receipt event : Option String) {v : MemoryRevision}
    → revise host time nonce r op before reason receipt event ≡ ok v
    → (v.memory_id ≡ r.memory_id) × (v.before_lane ≡ before) × (v.after_lane ≡ r.lane)
unfolding revise
revise-Revises host r time nonce reason op before receipt event h = ground arith

pub upsert_rows_lem :
    (host : Host) (r : MemoryRecord) (body : String) (time nonce reason : String)
    (op : MemoryOperation) (receipt event : Option String) (db : Db) {db' : Db}
    → upsert_rows r body (λ before. revise host time nonce r op before reason receipt event) db
      ≡ ok db'
    → (v : MemoryRevision) × Revises r db v × (db' ≡ after_upsert r body v db)
unfolding upsert_rows insert_revision
upsert_rows_lem host r body time nonce reason op receipt event db h =
    elim (Result-cases (revise host time nonce r op (before_lane r db) reason receipt event)) [
      | inl (v, e) ↦ (
        v,
        revise-Revises host r time nonce reason op (before_lane r db) receipt event e,
        ground arith,
      )
      | inr (x, e) ↦ absurd (ground arith)
    ]

-- What an upsert returns is the record that it was given.
pub upsert_memory_record-returns :
    (host : Host) (r : MemoryRecord) (op : MemoryOperation) (reason : String)
    (receipt event : Option String) (w : World) {s : MemoryRecord} {w' : World}
    → upsert_memory_record host r op reason receipt event w ≡ (ok s, w')
    → s ≡ r
unfolding upsert_memory_record transaction now_utc uuid4
upsert_memory_record-returns host r op reason receipt event w h = ground arith

pub reads_after_upsert :
    (host : Host) (r : MemoryRecord) (op : MemoryOperation) (reason : String)
    (receipt event : Option String) (w : World)
    → is_ok (upsert_memory_record host r op reason receipt event w).0 ≡ true
    → get_memory_record r.memory_id (upsert_memory_record host r op reason receipt event w).1.db
      ≡ ok r
unfolding upsert_memory_record transaction now_utc uuid4 get_memory_record upsert_rows
    insert_revision
reads_after_upsert host r op reason receipt event w h =
    ground (arith, find_record-upsert_record r.memory_id r w.memory_records, eq_refl r.memory_id)
