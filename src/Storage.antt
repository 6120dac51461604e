-- ===== src/Storage.antt =====
-- adapters/sqlite_storage.py: `SQLiteStorage`. A method is one transaction: it commits as a whole,
-- or it raises and the tables are as they were. A row's `raw_json` is the model that it was dumped
-- from; the upgrade of rows of older schema versions is not modelled.
pub mod Tables
pub mod Search
pub mod Laws
pub mod Trail
pub mod Invariant
pub use Tables.{Db, empty, upsert_record}
unfoldable pub use Tables.{find_event, find_record, find_receipt, find_contract, find_manifest}
use observable_agent_workflo.Prelude.{
  ℕ, suc, ◌+◌, String, ◌==◌, Bool, true, false, not, ◌&&◌, Option, none, some, List, [], ◌∷◌, ◌++◌,
  cat, length, take, select, nat_eq, if◌then◌else◌, strip,
}
use observable_agent_workflo.Result.{
  Error, Result, ok, err, fail_closed_error, not_found_error, or_raise,
}
use observable_agent_workflo.Exec.{Exec, pure, raise, lift, gets, reads, guard, ◌>>=◌, ◌>>◌}
use observable_agent_workflo.Json.{
  Host, FtsRow, str, obj, strs, dict, opt_str, digest_json, canonical_json,
}
use observable_agent_workflo.Core.Lane.{Lane, lane_value, lane_eq, MemoryOperation}
use observable_agent_workflo.Core.Record.{MemoryRecord, dump, or_else}
use observable_agent_workflo.Core.Event.{Event, StoredEvent, MemoryRevision, revise}
use observable_agent_workflo.Core.Receipt.{EvidenceManifest, PromotionReceipt}
use observable_agent_workflo.Core.Contract.{WorkflowContract, contract_json}
use Tables.{delete_fts, order_by_id, insert_event, insert_revision, insert_receipt}

-- The store, and how often the clock and the source of identifiers have been asked.
pub record World : Type 0 where
  pub db : Db
  pub open db use *
  pub clock : ℕ
  pub fresh : ℕ

abbrev pub Action : Type 0 → Type 0
Action A = Exec World A

unfoldable pub now_utc : Host → Action String
now_utc host w = (ok (host.now w.clock), record w { clock = suc w.clock })

unfoldable pub uuid4 : Host → Action String
uuid4 host w = (ok (host.uuid w.fresh), record w { fresh = suc w.fresh })

abbrev committed : World → Result Db → Result (Unit {0}) × World
committed w (ok db) = (ok tt, record w { db = db })
committed w (err e) = (err e, w)

-- `with self._connect() as con`: the connection commits, or rolls back on an exception.
unfoldable pub transaction : (Db → Result Db) → Action (Unit {0})
transaction f w = committed w (f w.db)

-- the lane that the row of the record's identifier has before the upsert
abbrev pub before_lane : MemoryRecord → Db → Option Lane
before_lane r db = elim (find_record r.memory_id db.memory_records) [
  | none ↦ none
  | some old ↦ some old.lane
]

abbrev pub fts_row : MemoryRecord → (body : String) → FtsRow
fts_row r body = record {
  memory_id = r.memory_id;
  lane = lane_value r.lane;
  claim = r.claim;
  body = body;
}

-- the statements of one upsert, in their order
unfoldable pub upsert_rows :
    MemoryRecord → (body : String) → (Option Lane → Result MemoryRevision) → Db → Result Db
upsert_rows r body revision db =
    let old = before_lane r db in
    let written : Db = record db { memory_records = upsert_record r db.memory_records } in
    elim (revision old) [
      | err e ↦ err e
      | ok v ↦ elim (insert_revision v written) [
        | err e ↦ err e
        | ok db' ↦ ok (record db' {
          memory_fts = delete_fts r.memory_id db'.memory_fts ++ fts_row r body ∷ [];
        })
      ]
    ]

module _ (host : Host) where
  unfoldable pub append_event : Event → Action StoredEvent
  append_event event = do
    observed ← lift (digest_json host (obj event.payload))
    guard (not (event.payload_digest == observed))
        (fail_closed_error "event payload_digest does not match canonical payload digest")
    obs_time ← now_utc host
    seq ← gets (λ w. length w.events + 1)
    let stored : StoredEvent = record {
      event = event;
      obs_seq = seq;
      obs_time = obs_time;
      collector_seq = seq;
    }
    transaction (insert_event stored)
    pure stored

  unfoldable pub upsert_memory_record :
      MemoryRecord
      → MemoryOperation
      → (reason : String) (receipt_id event_id : Option String) → Action MemoryRecord
  upsert_memory_record r operation reason receipt_id event_id = do
    body ← lift (
        canonical_json (
          obj (
            dict (
              ("claim", str r.claim)
              ∷ ("metadata", obj r.metadata)
              ∷ ("source_event_ids", strs r.source_event_ids)
              ∷ ("workflow_contract_id", opt_str r.workflow_contract_id)
              ∷ ("receipt_id", opt_str r.receipt_id)
              ∷ []))))
    created_at ← now_utc host
    nonce ← uuid4 host
    transaction (
        upsert_rows r body (λ before.
          revise host created_at nonce r operation before reason (or_else receipt_id r.receipt_id)
            event_id))
    pure r

-- the readers: no statement of theirs changes a table
unfoldable pub get_event : String → Db → Result StoredEvent
get_event id db = or_raise (find_event id db.events) (not_found_error (cat "event not found: " id))

unfoldable pub get_memory_record : String → Db → Result MemoryRecord
get_memory_record id db =
    or_raise (find_record id db.memory_records)
      (not_found_error (cat "memory record not found: " id))

unfoldable pub get_contract : String → Db → Result WorkflowContract
get_contract id db =
    or_raise (find_contract id db.workflow_contracts)
      (not_found_error (cat "workflow contract not found: " id))

unfoldable pub get_receipt : String → Db → Result PromotionReceipt
get_receipt id db =
    or_raise (find_receipt id db.promotion_receipts)
      (not_found_error (cat "receipt not found: " id))

unfoldable pub get_evidence_manifest : String → Db → Result EvidenceManifest
get_evidence_manifest id db =
    or_raise (find_manifest id db.evidence_manifests)
      (not_found_error (cat "evidence manifest not found: " id))

abbrev limited {ℓ} : {A : Type ℓ} → Option ℕ → List A → List A
limited none xs = xs
limited (some n) xs = take n xs

unfoldable pub list_events : (run_id : Option String) (limit : Option ℕ) → Db → List StoredEvent
list_events none limit db = limited limit db.events
list_events (some run) limit db =
    limited limit (select (λ (e : StoredEvent). e.run_id == run) db.events)

unfoldable pub list_memory_records : Option Lane → Db → List MemoryRecord
list_memory_records none db = order_by_id db.memory_records
list_memory_records (some lane) db =
    order_by_id (select (λ (r : MemoryRecord). lane_eq r.lane lane) db.memory_records)

unfoldable pub list_memory_revisions : Option String → Db → List MemoryRevision
list_memory_revisions none db = db.memory_revisions
list_memory_revisions (some id) db =
    select (λ (v : MemoryRevision). v.memory_id == id) db.memory_revisions

unfoldable pub list_receipts : Option String → Db → List PromotionReceipt
list_receipts none db = db.promotion_receipts
list_receipts (some id) db =
    select (λ (r : PromotionReceipt). r.candidate_id == id) db.promotion_receipts

-- A contract is stored once: one with the same text is accepted again, another is a conflict.
unfoldable pub insert_contract : WorkflowContract → (raw_json : String) → Db → Result Db
insert_contract c raw_json db = elim (find_contract c.contract_id db.workflow_contracts) [
  | none ↦ ok (record db { workflow_contracts = db.workflow_contracts ++ c ∷ [] })
  | some old ↦ elim (contract_json old) [
    | err e ↦ err e
    | ok old_json ↦
        if old_json == raw_json
        then ok db
        else err (fail_closed_error (cat "workflow contract conflict for id: " c.contract_id))
  ]
]

unfoldable pub create_contract : WorkflowContract → Action WorkflowContract
create_contract c = do
  raw_json ← lift (contract_json c)
  transaction (insert_contract c raw_json)
  pure c

unfoldable pub create_receipt : PromotionReceipt → Action PromotionReceipt
create_receipt r = do transaction (insert_receipt r); pure r

unfoldable pub create_evidence_manifest : EvidenceManifest → Action EvidenceManifest
create_evidence_manifest m = do
  transaction (λ db. ok (record db { evidence_manifests = db.evidence_manifests ++ m ∷ [] }))
  pure m

-- `SELECT lane, COUNT(*) … GROUP BY lane ORDER BY lane` has a row for each lane that occurs.
unfoldable pub count_lane : Lane → Db → ℕ
count_lane lane db = length (select (λ (r : MemoryRecord). lane_eq r.lane lane) db.memory_records)

-- the lanes in the order of their names
abbrev lanes : List Lane
lanes =
    Lane.candidate ∷ Lane.certified ∷ Lane.contradiction ∷ Lane.quarantine ∷ Lane.raw ∷ Lane.shadow
    ∷ Lane.superseded ∷ Lane.tombstone ∷ []

lane_counts : List Lane → Db → List (String × ℕ)
unfolding count_lane
lane_counts [] db = []
lane_counts (l ∷ ls) db =
    let rest = lane_counts ls db in
    if nat_eq (count_lane l db) 0 then rest else (lane_value l, count_lane l db) ∷ rest

unfoldable pub audit_counts : Db → List (String × ℕ)
unfolding lane_counts
audit_counts db =
    lane_counts lanes db
    ++ (("events", length db.events)
        ∷ ("receipts", length db.promotion_receipts)
        ∷ ("contracts", length db.workflow_contracts)
        ∷ ("evidence_manifests", length db.evidence_manifests)
        ∷ ("memory_revisions", length db.memory_revisions)
        ∷ [])
