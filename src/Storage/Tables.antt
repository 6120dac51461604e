-- ===== src/Storage/Tables.antt =====
-- The tables that adapters/sqlite_storage.py creates, and the statements that it runs on them.
-- A list is in the order of its table's row numbers. No statement of the program deletes a row of a
-- table with an AUTOINCREMENT key, so the next key is the number of rows plus one.
use Prim.Native.Nat.{Ordering}
use Prim.Native.String.{compare}
use observable_agent_workflo.Prelude.{
  String, ◌==◌, Option, none, some, List, [], ◌∷◌, ◌++◌, any, if◌then◌else◌,
}
use observable_agent_workflo.Result.{Result, ok, err, integrity_error}
use observable_agent_workflo.Json.{FtsRow}
use observable_agent_workflo.Core.Record.{MemoryRecord}
use observable_agent_workflo.Core.Event.{StoredEvent, MemoryRevision}
use observable_agent_workflo.Core.Receipt.{EvidenceManifest, PromotionReceipt}
use observable_agent_workflo.Core.Contract.{WorkflowContract}

pub record Db : Type 0 where
  pub events : List StoredEvent
  pub memory_records : List MemoryRecord
  pub memory_revisions : List MemoryRevision
  pub memory_fts : List FtsRow
  pub workflow_contracts : List WorkflowContract
  pub promotion_receipts : List PromotionReceipt
  pub evidence_manifests : List EvidenceManifest

abbrev pub empty : Db
empty = record {
  events = [];
  memory_records = [];
  memory_revisions = [];
  memory_fts = [];
  workflow_contracts = [];
  promotion_receipts = [];
  evidence_manifests = [];
}

-- `SELECT … WHERE event_id = ?` and the like: the first row with the key
unfoldable pub find_event : String → List StoredEvent → Option StoredEvent
find_event id [] = none
find_event id (e ∷ es) = if e.event_id == id then some e else find_event id es

unfoldable pub find_record : String → List MemoryRecord → Option MemoryRecord
find_record id [] = none
find_record id (r ∷ rs) = if r.memory_id == id then some r else find_record id rs

unfoldable pub find_receipt : String → List PromotionReceipt → Option PromotionReceipt
find_receipt id [] = none
find_receipt id (r ∷ rs) = if r.receipt_id == id then some r else find_receipt id rs

unfoldable pub find_contract : String → List WorkflowContract → Option WorkflowContract
find_contract id [] = none
find_contract id (c ∷ cs) = if c.contract_id == id then some c else find_contract id cs

-- `ORDER BY manifest_seq DESC LIMIT 1`: the last row with the key
unfoldable pub find_manifest : String → List EvidenceManifest → Option EvidenceManifest
find_manifest id [] = none
find_manifest id (m ∷ ms) = elim (find_manifest id ms) [
  | some later ↦ some later
  | none ↦ if m.manifest_id == id then some m else none
]

-- `INSERT … ON CONFLICT(memory_id) DO UPDATE`
unfoldable pub upsert_record : MemoryRecord → List MemoryRecord → List MemoryRecord
upsert_record r [] = r ∷ []
upsert_record r (s ∷ rs) = if s.memory_id == r.memory_id then r ∷ rs else s ∷ upsert_record r rs

-- `DELETE FROM memory_fts WHERE memory_id = ?`
unfoldable pub delete_fts : String → List FtsRow → List FtsRow
delete_fts id [] = []
delete_fts id (f ∷ fs) = let rest = delete_fts id fs in if f.memory_id == id then rest else f ∷ rest

insert_by_id : MemoryRecord → List MemoryRecord → List MemoryRecord
insert_by_id r [] = r ∷ []
insert_by_id r (s ∷ rs) = elim (compare s.memory_id r.memory_id) [
  | Ordering.gt ↦ r ∷ s ∷ rs
  | _ ↦ s ∷ insert_by_id r rs
]

-- `ORDER BY memory_id ASC`
unfoldable pub order_by_id : List MemoryRecord → List MemoryRecord
unfolding insert_by_id
order_by_id [] = []
order_by_id (r ∷ rs) = insert_by_id r (order_by_id rs)

-- an INSERT into a table whose key column is UNIQUE
unfoldable pub insert_event : StoredEvent → Db → Result Db
insert_event e db = elim (find_event e.event_id db.events) [
  | some _ ↦ err (integrity_error "UNIQUE constraint failed: events.event_id")
  | none ↦ ok (record db { events = db.events ++ e ∷ [] })
]

unfoldable pub insert_revision : MemoryRevision → Db → Result Db
insert_revision v db =
    if any (λ (w : MemoryRevision). w.revision_id == v.revision_id) db.memory_revisions
    then err (integrity_error "UNIQUE constraint failed: memory_revisions.revision_id")
    else ok (record db { memory_revisions = db.memory_revisions ++ v ∷ [] })

unfoldable pub insert_receipt : PromotionReceipt → Db → Result Db
insert_receipt r db = elim (find_receipt r.receipt_id db.promotion_receipts) [
  | some _ ↦ err (integrity_error "UNIQUE constraint failed: promotion_receipts.receipt_id")
  | none ↦ ok (record db { promotion_receipts = db.promotion_receipts ++ r ∷ [] })
]
