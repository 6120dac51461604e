-- ===== src/Kernel/Drafted.antt =====
-- The methods that store a new record: `correct_memory`, `contradict` and `propose_memory`.
use observable_agent_workflo.Prelude.{
  String, ◌≡◌, refl, ◌∙◌, false, Option, none, some, List, [], ◌∷◌, arith, ap, cat, Bool-cases, inl,
  inr, is_empty,
}
use observable_agent_workflo.Result.{ok, Result-cases}
use observable_agent_workflo.Exec.{Keeps, keeps_rules, ◌>>=◌}
use observable_agent_workflo.Json.{Host, Fields}
use observable_agent_workflo.Core.Lane.{candidate, contradiction, MemoryOperation}
use observable_agent_workflo.Core.Record.{MemoryRecord, Draft}
use observable_agent_workflo.Core.Event.{StoredEvent}
use observable_agent_workflo.Storage.Tables.{insert_revision}
use observable_agent_workflo.Storage.{
  World, now_utc, uuid4, transaction, upsert_rows, get_memory_record, upsert_memory_record,
  list_events,
}
use observable_agent_workflo.Kernel.Logged.{Logged, record_memory_operation_lem}
use observable_agent_workflo.Kernel.{new_memory, record_memory_operation}
use observable_agent_workflo.Kernel.Changed.{
  Same, Stored, record_memory_operation-Same, new_memory-Same, new_memory_lem, upsert-Stored,
}
use observable_agent_workflo.Kernel.Propose.{propose, propose_memory, event_ids, proposal_metadata}
use observable_agent_workflo.Kernel.Change.{correct_memory, contradict}

-- a new record and its upsert leave the log alone
new_memory_events :
    (host : Host) (d : Draft) (w : World) → (new_memory host d w).1.events ≡ w.events
unfolding new_memory now_utc
new_memory_events host d w = refl

upsert_events :
    (host : Host) (r : MemoryRecord) (op : MemoryOperation) (reason : String)
    (receipt event : Option String) (w : World) (s : MemoryRecord) (w' : World)
    → upsert_memory_record host r op reason receipt event w ≡ (ok s, w')
    → w'.events ≡ w.events
unfolding upsert_memory_record transaction now_utc uuid4 upsert_rows insert_revision
upsert_events host r op reason receipt event w s w' h = ground arith

-- a log entry, a new record and its upsert, in a row
drafting_lem :
    (host : Host) (op stored_as : MemoryOperation) (run_id id : String) (details : Fields)
    (d : StoredEvent → Draft) (reason : StoredEvent → String) (w : World) (s : MemoryRecord)
    (w' : World)
    → (do
      event ← record_memory_operation host op run_id (id ∷ []) details
      r ← new_memory host (d event)
      upsert_memory_record host r stored_as (reason event) none (some event.event_id))
        w
      ≡ (ok s, w')
    → (event : StoredEvent) × Logged op (id ∷ []) w.events w'.events event
      × (s.lane ≡ (d event).lane)
      × (s.source_event_ids ≡ (d event).source_event_ids)
      × (s.supersedes ≡ (d event).supersedes)
      × (s.contradicts ≡ (d event).contradicts)
      × (s.receipt_id ≡ none)
      × Stored w w' s
drafting_lem host op stored_as run_id id details d reason w s w' h =
    elim (Result-cases (record_memory_operation host op run_id (id ∷ []) details w).0) [
      | inr (e, bad) ↦ absurd (ground arith)
      | inl (event, logged) ↦ elim (Result-cases (new_memory host (d event) after).0) [
        | inr (e, bad) ↦ absurd (ground arith)
        | inl (r, made) ↦
            let kept = (new_memory-Same host w (d event)).at after (
              (record_memory_operation-Same host w op run_id (id ∷ []) details).at w
                (refl, refl)) in
            let (same, stored) =
              upsert-Stored host r stored_as (reason event) none (some event.event_id) w
                (new_memory host (d event) after).1 s w' kept.0 (ground arith) in
            let (lane, from, supersedes, contradicts, _, receipt) =
              new_memory_lem host (d event) after made in
            (
              event,
              rw
                  (
                    upsert_events host r stored_as (reason event) none (some event.event_id)
                        (new_memory host (d event) after).1 s w' (ground arith),
                    new_memory_events host (d event) after,
                  )
                  (record_memory_operation_lem host op run_id (id ∷ []) details w event after
                    (ground arith)),
              ap (λ x. x.lane) same ∙ lane,
              ap (λ x. x.source_event_ids) same ∙ from,
              ap (λ x. x.supersedes) same ∙ supersedes,
              ap (λ x. x.contradicts) same ∙ contradicts,
              ap (λ x. x.receipt_id) same ∙ receipt,
              stored,
            )
      ]
    ]
  where
    after : World
    after = (record_memory_operation host op run_id (id ∷ []) details w).1

-- What a method that puts a new record beside the memory `id` leaves behind: the memory was found, one
-- event was appended to the log, a correction that names just this memory, which stands first among the
-- sources of the record, the record is what its identifier reads as, and all other identifiers read as
-- before.
pub record Beside (id : String) (sources : List String) (w w' : World) (s : MemoryRecord)
    : Type 0 where
  pub original : MemoryRecord
  pub found : get_memory_record id w.db ≡ ok original
  pub event : StoredEvent
  pub logged : Logged MemoryOperation.correct (id ∷ []) w.events w'.events event
  pub evidence : s.source_event_ids ≡ event.event_id ∷ sources
  pub unreceipted : s.receipt_id ≡ none
  pub stored : Stored w w' s

-- A correction that returns found the memory. It appends one event to the log, a correction that names
-- this memory, and stores a candidate without a receipt that is to supersede it and whose sources are
-- that event and then the ones given. All identifiers but the candidate's read as before.
pub correct_memory_lem :
    (host : Host) (id claim : String) (run_id : Option String) (sources : List String) (w : World)
    (s : MemoryRecord) (w' : World)
    → correct_memory host id claim run_id sources w ≡ (ok s, w')
    → (s.lane ≡ candidate) × (s.supersedes ≡ id ∷ []) × Beside id sources w w' s
unfolding correct_memory
correct_memory_lem host id claim run_id sources w s w' h =
    elim (Result-cases (get_memory_record id w.db)) [
      | inr (e, bad) ↦ absurd (ground arith)
      | inl (original, found) ↦
          let (event, logged, lane, from, supersedes, contradicts, receipt, stored) =
            drafting_lem host MemoryOperation.correct MemoryOperation.correct _ id _ _ _ w s w'
              (rw found at h) in
          (
            lane,
            supersedes,
            record {
              original = original;
              found = found;
              event = event;
              logged = logged;
              evidence = from;
              unreceipted = receipt;
              stored = stored;
            },
          )
    ]

-- A contradiction that returns found the memory. It appends one event to the log, a correction that
-- names this memory, and stores a record without a receipt in the contradiction lane that names it and
-- whose sources are that event and then the ones given. All identifiers but the record's read as before.
pub contradict_lem :
    (host : Host) (id claim : String) (sources : List String) (reason : String) (w : World)
    (s : MemoryRecord) (w' : World)
    → contradict host id claim sources reason w ≡ (ok s, w')
    → (s.lane ≡ contradiction) × (s.contradicts ≡ id ∷ []) × Beside id sources w w' s
unfolding contradict
contradict_lem host id claim sources reason w s w' h =
    elim (Result-cases (get_memory_record id w.db)) [
      | inr (e, bad) ↦ absurd (ground arith)
      | inl (original, found) ↦
          let (event, logged, lane, from, supersedes, contradicts, receipt, stored) =
            drafting_lem host MemoryOperation.correct MemoryOperation.correct _ id _ _ _ w s w'
              (rw found at h) in
          (
            lane,
            contradicts,
            record {
              original = original;
              found = found;
              event = event;
              logged = logged;
              evidence = from;
              unreceipted = receipt;
              stored = stored;
            },
          )
    ]

pub propose-Same :
    (host : Host) (v : World) (events : List StoredEvent) (scope : String)
    → Keeps (Same v) (propose host events scope)
unfolding propose
propose-Same host v events scope = search (keeps_rules, new_memory-Same host v)

pub propose_lem :
    (host : Host) (events : List StoredEvent) (scope : String) (w : World) {p : MemoryRecord}
    → (propose host events scope w).0 ≡ ok p
    → (p.lane ≡ candidate) × (p.source_event_ids ≡ event_ids events)
unfolding propose
propose_lem host events scope w h = elim (Bool-cases (is_empty events)) [
  | inl empty_ ↦ absurd (ground arith)
  | inr some_ ↦
      let (lane, from, _, _, _, _) = new_memory_lem host _ w (rw some_ at h) in (lane, from)
]

-- A proposal that returns rests on observed events: the run has some, and they are the sources of the
-- record, in their order. The record is a candidate, whose metadata is made of the caller's options and
-- the metadata of the record that the proposer gives for these events, and all identifiers but its own
-- read as before.
pub propose_memory_lem :
    (host : Host) (run_id scope : String) (tools : Option (List String)) (caps : Option Fields)
    (signature : Option String) (w : World) (s : MemoryRecord) (w' : World)
    → propose_memory host run_id scope tools caps signature w ≡ (ok s, w')
    → (is_empty (list_events (some run_id) none w.db) ≡ false)
      × (s.lane ≡ candidate)
      × (s.source_event_ids ≡ event_ids (list_events (some run_id) none w.db))
      × ((proposed : MemoryRecord) × ((propose host (list_events (some run_id) none w.db) scope w).0
            ≡ ok proposed)
          × (s.metadata
              ≡ proposal_metadata host run_id scope tools caps signature
                  (list_events (some run_id) none w.db)
                  proposed.metadata))
      × Stored w w' s
unfolding propose_memory
propose_memory_lem host run_id scope tools caps signature w s w' h =
    elim (Result-cases (propose host events scope w).0) [
      | inr (e, bad) ↦ absurd (ground arith)
      | inl (p, proposed) ↦ elim (Result-cases (new_memory host (draft p) after).0) [
        | inr (e, bad) ↦ absurd (ground arith)
        | inl (r, made) ↦
            let (lane, from, _, _, metadata, _) = new_memory_lem host _ _ made in
            let (p_lane, p_from) = propose_lem host events scope w proposed in
            let kept =
              (new_memory-Same host w (draft p)).at after
                ((propose-Same host w events scope).at w (refl, refl)) in
            let (same, stored) =
              upsert-Stored host r MemoryOperation.write (cat "proposed from run " run_id) none none
                w (new_memory host (draft p) after).1 s w' kept.0 (ground arith) in
            (
              ground arith,
              ap (λ x. x.lane) same ∙ lane ∙ p_lane,
              ap (λ x. x.source_event_ids) same ∙ from ∙ p_from,
              (p, proposed, ap (λ x. x.metadata) same ∙ metadata),
              stored,
            )
      ]
    ]
  where
    events : List StoredEvent
    events = list_events (some run_id) none w.db

    after : World
    after = (propose host events scope w).1

    draft : MemoryRecord → Draft
    draft p = record {
      lane = p.lane;
      claim = p.claim;
      source_event_ids = p.source_event_ids;
      metadata = proposal_metadata host run_id scope tools caps signature events p.metadata;
      evidence_refs = p.evidence_refs;
      supersedes = p.supersedes;
      contradicts = p.contradicts;
    }
