-- ===== src/Storage/Invariant.antt =====
-- What holds of the tables between two methods, whatever methods ran.
use observable_agent_workflo.Prelude.{
  ℕ, suc, ◌+◌, String, ◌==◌, ◌≡◌, refl, eq_refl, ◌∙◌, sym, ap, Option, none, some, List, [], ◌∷◌,
  ◌++◌, arith, eq_iff, All, All-append, length, Bool-cases, inl, inr,
}
use observable_agent_workflo.Result.{Result, ok, Result-cases}
use observable_agent_workflo.Exec.{Keeps, Keeps-bind, Keeps-lift, Keeps-pure, continue-pure_state}
use observable_agent_workflo.Json.{Host, FtsRow, obj, digest_json}
use observable_agent_workflo.Core.Lane.{Lane, lane_value, MemoryOperation}
use observable_agent_workflo.Core.Record.{MemoryRecord}
use observable_agent_workflo.Core.Event.{Event, StoredEvent, revise}
use observable_agent_workflo.Core.Receipt.{PromotionReceipt, EvidenceManifest}
use observable_agent_workflo.Core.Contract.{WorkflowContract}
use observable_agent_workflo.Storage.Tables.{
  Db, find_record, upsert_record, delete_fts, insert_event, insert_receipt,
}
use observable_agent_workflo.Storage.Laws.{find_record-upsert_record, upsert_rows_lem}
use observable_agent_workflo.Storage.Trail.{
  unknown, lanes_after, Chained, lanes_after-append, Chained-append,
}
use observable_agent_workflo.Storage.{
  World, transaction, upsert_rows, before_lane, upsert_memory_record, now_utc, uuid4, append_event,
  insert_contract, create_contract, create_receipt, create_evidence_manifest,
}

-- the events have the sequence numbers n + 1, n + 2, … and the digests of their payloads
abbrev pub Numbered : Host → ℕ → List StoredEvent → Type 0
Numbered host n [] = Unit
Numbered host n (e ∷ es) =
    (e.obs_seq ≡ suc n)
    × (e.collector_seq ≡ e.obs_seq)
    × (digest_json host (obj e.payload) ≡ ok e.payload_digest)
    × Numbered host (suc n) es

-- the full-text row of a memory has the lane of its record
abbrev pub Mirrors : List MemoryRecord → FtsRow → Type 0
Mirrors records f =
    (r : MemoryRecord) × (find_record f.memory_id records ≡ some r) × (f.lane ≡ lane_value r.lane)

abbrev pub lane_of : Option MemoryRecord → Option Lane
lane_of none = none
lane_of (some r) = some r.lane

pub record IsConsistent (host : Host) (db : Db) : Type 0 where
  -- the observable order is complete, and every event has the digest of its payload
  pub numbered : Numbered host 0 db.events
  -- the index shows no memory in a lane that it is not in
  pub mirrored : All (Mirrors db.memory_records) db.memory_fts
  -- the revisions form one history for each memory
  pub chained : Chained unknown db.memory_revisions
  -- and that history ends in the lane that the memory has
  pub current :
      (id : String)
      → lanes_after unknown db.memory_revisions id ≡ lane_of (find_record id db.memory_records)

Numbered-append :
    (host : Host) (n : ℕ) (es : List StoredEvent) (e : StoredEvent)
    → Numbered host n es
    → e.obs_seq ≡ n + length es + 1
    → e.collector_seq ≡ e.obs_seq
    → digest_json host (obj e.payload) ≡ ok e.payload_digest
    → Numbered host n (es ++ e ∷ [])
Numbered-append host n [] e h a b c = (omega arith, b, c, tt)
Numbered-append host n (x ∷ es) e (p, q, r, h) a b c =
    (p, q, r, Numbered-append host (suc n) es e h (omega arith) b c)

-- The rows that an upsert keeps are of other memories, whose records it leaves alone.
Mirrors-upsert :
    (r : MemoryRecord) (records : List MemoryRecord) (fs : List FtsRow)
    → All (Mirrors records) fs
    → All (Mirrors (upsert_record r records)) (delete_fts r.memory_id fs)
unfolding delete_fts
Mirrors-upsert r records [] h = tt
Mirrors-upsert r records (f ∷ fs) ((s, found, lane), h) =
    elim (Bool-cases (f.memory_id == r.memory_id)) [
      | inl same ↦ rw same (Mirrors-upsert r records fs h)
      | inr other ↦ rw other (
        (
          s,
          ground (
            arith,
            find_record-upsert_record f.memory_id r records,
            eq_iff f.memory_id r.memory_id,
            eq_iff r.memory_id f.memory_id,
          ),
          lane,
        ),
        Mirrors-upsert r records fs h,
      )
    ]

insert_event-IsConsistent :
    (host : Host) (e : StoredEvent) (db : Db) {db' : Db}
    → insert_event e db ≡ ok db'
    → e.obs_seq ≡ length db.events + 1
    → e.collector_seq ≡ e.obs_seq
    → digest_json host (obj e.payload) ≡ ok e.payload_digest
    → IsConsistent host db
    → IsConsistent host db'
unfolding insert_event
insert_event-IsConsistent host e db {db'} h a b c inv =
    let same : db' ≡ record db { events = db.events ++ e ∷ [] } = ground arith in
    rw same (record {
      numbered = Numbered-append host 0 db.events e inv.numbered (omega arith) b c;
      mirrored = inv.mirrored;
      chained = inv.chained;
      current = inv.current;
    })

before_lane-current :
    (host : Host) (r : MemoryRecord) (db : Db)
    → IsConsistent host db
    → before_lane r db ≡ lanes_after unknown db.memory_revisions r.memory_id
before_lane-current host r db inv = ground (arith, inv.current r.memory_id)

upsert_rows-IsConsistent :
    (host : Host) (r : MemoryRecord) (body : String) (time nonce reason : String)
    (op : MemoryOperation) (receipt event : Option String) (db : Db) {db' : Db}
    → upsert_rows r body (λ before. revise host time nonce r op before reason receipt event) db
      ≡ ok db'
    → IsConsistent host db
    → IsConsistent host db'
upsert_rows-IsConsistent host r body time nonce reason op receipt event db h inv =
    let (v, (id, before, after), same) =
      upsert_rows_lem host r body time nonce reason op receipt event db h in
    rw same (record {
      numbered = inv.numbered;
      mirrored =
          All-append _ _ _ (Mirrors-upsert r db.memory_records db.memory_fts inv.mirrored)
            ((r, rw find_record-upsert_record (rw eq_refl refl), refl), tt);
      chained =
          Chained-append unknown db.memory_revisions v inv.chained
            (rw id (before ∙ before_lane-current host r db inv));
      current = λ j.
          rw lanes_after-append
            (ground (arith, inv.current j, find_record-upsert_record j r db.memory_records));
    })

-- A transaction that commits only consistent tables keeps the store consistent.
module _ {P : Db → Type 0} where
  transaction_at :
      (f : Db → Result Db) (w : World)
      → ((db' : Db) → f w.db ≡ ok db' → P db')
      → P w.db
      → P (transaction f w).1.db
  unfolding transaction
  transaction_at f w h p = elim (Result-cases (f w.db)) [
    | inl (db', e) ↦ rw e (h db' e)
    | inr (x, e) ↦ rw e p
  ]

  transaction-Keeps :
      (f : Db → Result Db)
      → ((db db' : Db) → f db ≡ ok db' → P db → P db')
      → Keeps (λ (w : World). P w.db) (transaction f)
  transaction-Keeps f h = record { at = λ w p. transaction_at f w (λ db' e. h w.db db' e p) p }

pub now_utc-Keeps : (P : Db → Type 0) (host : Host) → Keeps (λ (w : World). P w.db) (now_utc host)
unfolding now_utc
now_utc-Keeps P host = record { at = λ w h. h }

pub uuid4-Keeps : (P : Db → Type 0) (host : Host) → Keeps (λ (w : World). P w.db) (uuid4 host)
unfolding uuid4
uuid4-Keeps P host = record { at = λ w h. h }

insert_contract-IsConsistent :
    (host : Host) (c : WorkflowContract) (raw_json : String) (db db' : Db)
    → insert_contract c raw_json db ≡ ok db'
    → IsConsistent host db
    → IsConsistent host db'
unfolding insert_contract
insert_contract-IsConsistent host c raw_json db db' h inv = ground arith

insert_receipt-IsConsistent :
    (host : Host) (r : PromotionReceipt) (db db' : Db)
    → insert_receipt r db ≡ ok db'
    → IsConsistent host db
    → IsConsistent host db'
unfolding insert_receipt
insert_receipt-IsConsistent host r db db' h inv = ground arith

abbrev collected : Host → Event → World → StoredEvent
collected host e w = record {
  event = e;
  obs_seq = length w.events + 1;
  obs_time = host.now w.clock;
  collector_seq = length w.events + 1;
}

module _ (host : Host) where
  abbrev pub Holds : World → Type 0
  Holds w = IsConsistent host w.db

  -- An upsert of a memory keeps the tables consistent, whether it returns or raises.
  pub upsert_memory_record-Keeps :
      (r : MemoryRecord) (op : MemoryOperation) (reason : String) (receipt event : Option String)
      → Keeps Holds (upsert_memory_record host r op reason receipt event)
  unfolding upsert_memory_record
  upsert_memory_record-Keeps r op reason receipt event = Keeps-bind _ _ (Keeps-lift _) λ body.
      Keeps-bind _ _ (now_utc-Keeps (IsConsistent host) host) λ time.
        Keeps-bind _ _ (uuid4-Keeps (IsConsistent host) host) λ nonce.
          Keeps-bind _ _
            (transaction-Keeps _ (λ db db' h inv.
              upsert_rows-IsConsistent host r body time nonce reason op _ event db h inv))
            λ _. Keeps-pure r

  -- An appended event keeps the tables consistent, also where it is refused.
  pub append_event-Keeps : (e : Event) → Keeps Holds (append_event host e)
  unfolding append_event now_utc
  append_event-Keeps e = record {
    at = λ w inv. elim (Result-cases (digest_json host (obj e.payload))) [
      | inr (x, bad) ↦ rw bad inv
      | inl (d, good) ↦ rw good (elim (Bool-cases (e.payload_digest == d)) [
        | inr differs ↦ rw differs inv
        | inl same ↦ rw same (
            let stored : StoredEvent = collected host e w in
            let row = good ∙ ap ok (sym ((eq_iff e.payload_digest d).0 same)) in
            rw (continue-pure_state _ stored _) (
              transaction_at _ _
                (λ db' h. insert_event-IsConsistent host stored w.db h refl refl row inv) inv))
      ])
    ];
  }

  pub create_contract-Keeps : (c : WorkflowContract) → Keeps Holds (create_contract c)
  unfolding create_contract
  create_contract-Keeps c = Keeps-bind _ _ (Keeps-lift _) λ raw_json.
      Keeps-bind _ _ (transaction-Keeps _ (insert_contract-IsConsistent host c raw_json))
        λ _. Keeps-pure c

  pub create_receipt-Keeps : (r : PromotionReceipt) → Keeps Holds (create_receipt r)
  unfolding create_receipt
  create_receipt-Keeps r =
      Keeps-bind _ _ (transaction-Keeps _ (insert_receipt-IsConsistent host r)) λ _. Keeps-pure r

  pub create_evidence_manifest-Keeps :
      (m : EvidenceManifest) → Keeps Holds (create_evidence_manifest m)
  unfolding create_evidence_manifest
  create_evidence_manifest-Keeps m =
      Keeps-bind _ _ (transaction-Keeps _ (λ db db' h inv. ground arith)) λ _. Keeps-pure m
