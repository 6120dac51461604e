-- ===== src/Kernel/Ended.antt =====
-- The methods that end a memory's standing: `retire` and `supersede`.
use observable_agent_workflo.Prelude.{
  String, ◌≡◌, refl, ap, ◌∙◌, Option, none, some, List, [], ◌∷◌, arith, eq_iff, inl, inr, cat,
}
use observable_agent_workflo.Result.{ok, Result-cases}
use observable_agent_workflo.Exec.{◌>>=◌, ◌>>◌, pure}
use observable_agent_workflo.Json.{Host, Fields, str, dict}
use observable_agent_workflo.Core.Lane.{
  Lane, lane_eq_iff, certified, superseded, tombstone, MemoryOperation,
}
use observable_agent_workflo.Core.Record.{MemoryRecord, moved, validated}
use observable_agent_workflo.Core.Receipt.{PromotionReceipt, passed}
use observable_agent_workflo.Core.Transitions.Reach.{
  ◌⟶◌, ◌⟶*◌, assert_transition_allowed_iff, tombstone_absorbs,
}
use observable_agent_workflo.Storage.{
  World, now_utc, get_memory_record, get_receipt, upsert_memory_record,
}
use observable_agent_workflo.Promotion.Events.{run_id_or}
use observable_agent_workflo.Kernel.{record_memory_operation}
use observable_agent_workflo.Kernel.Changed.{Stored, record_memory_operation-Same, upsert-Stored}
use observable_agent_workflo.Kernel.Change.{retire, supersede}

-- an upsert and its log entry, in a row: the log changes no memory
stored_then_logged :
    (host : Host) (r : MemoryRecord) (op : MemoryOperation) (reason : String)
    (receipt : Option String) (run_id : String) (ids : List String) (details : Fields) (w v : World)
    (s : MemoryRecord) (w' : World)
    → v.memory_records ≡ w.memory_records
    → (do
      stored ← upsert_memory_record host r op reason receipt none
      record_memory_operation host op run_id ids details
      pure stored)
        v
      ≡ (ok s, w')
    → (s ≡ r) × Stored w w' s
unfolding get_memory_record
stored_then_logged host r op reason receipt run_id ids details w v s w' same h =
    elim (Result-cases (upsert_memory_record host r op reason receipt none v).0) [
      | inr (e, bad) ↦ absurd (ground arith)
      | inl (q, written) ↦
          let (is_r, stored) =
            upsert-Stored host r op reason receipt none w v q after same (ground arith) in
          let kept =
            (record_memory_operation-Same host after op run_id ids details).at after (refl, refl) in
          let same_q : s ≡ q = ground arith in
          let left : w'.memory_records ≡ after.memory_records = ground arith in
          (same_q ∙ is_r, record { reads = λ j. rw same_q (rw left (stored.reads j)) })
    ]
  where
    after : World
    after = (upsert_memory_record host r op reason receipt none v).1

moved_lem :
    (c : MemoryRecord) (lane : Lane) (reason : String) (receipt : Option String) (time : String)
    {s : MemoryRecord}
    → moved c lane reason receipt time ≡ ok s
    → (s.lane ≡ lane) × (s.memory_id ≡ c.memory_id) × (s.update_id ≡ c.update_id)
unfolding moved validated
moved_lem c lane reason receipt time h = ground arith

-- A retirement that returns has put the memory that it found, under its own identifier, into the
-- tombstone lane; all other identifiers read as before, and no sequence of allowed moves takes the
-- memory anywhere else.
pub retire_lem :
    (host : Host) (id reason : String) (w : World) (s : MemoryRecord) (w' : World)
    → retire host id reason w ≡ (ok s, w')
    → (s.lane ≡ tombstone)
      × ((c : MemoryRecord) × (get_memory_record id w.db ≡ ok c)
          × (s.update_id ≡ c.update_id)
          × (s.memory_id ≡ c.memory_id))
      × Stored w w' s
      × ((l : Lane) → s.lane ⟶* l → l ≡ tombstone)
unfolding retire now_utc
retire_lem host id reason w s w' h = elim (Result-cases (get_memory_record id w.db)) [
  | inr (e, bad) ↦ absurd (ground arith)
  | inl (c, found) ↦ elim (Result-cases (moved c tombstone reason none (host.now w.clock))) [
    | inr (e, bad) ↦ absurd (ground arith)
    | inl (r, ended) ↦
        let (lane, same_id, same_update) = moved_lem c tombstone reason none _ ended in
        let (same, stored) =
          stored_then_logged host r MemoryOperation.delete reason r.receipt_id
            (run_id_or host "retire" c.metadata) (id ∷ []) (dict (("reason", str reason) ∷ [])) w
            (now_utc host w).1 s w' refl (ground arith) in
        let dead = ap (λ x. x.lane) same ∙ lane in
        (
          dead,
          (
            c,
            found,
            ap (λ x. x.update_id) same ∙ same_update,
            ap (λ x. x.memory_id) same ∙ same_id,
          ),
          stored,
          λ l path. tombstone_absorbs dead path,
        )
  ]
]

-- Under which conditions a memory is superseded: the new one is certified, the receipt has passed and
-- is for the new memory, and the old one may move to the superseded lane.
pub record Supersedes (w : World) (old_id new_id receipt_id : String) (old : MemoryRecord)
    : Type 0 where
  pub found : get_memory_record old_id w.db ≡ ok old
  pub movable : old.lane ⟶ superseded
  pub new : MemoryRecord
  pub new_found : get_memory_record new_id w.db ≡ ok new
  pub new_certified : new.lane ≡ certified
  pub receipt : PromotionReceipt
  pub receipt_found : get_receipt receipt_id w.db ≡ ok receipt
  pub receipt_passed : receipt.result ≡ passed
  pub receipt_names : receipt.candidate_id ≡ new_id

-- A call of `supersede` that returns found the old memory, whose lane may move to the superseded lane,
-- found the new one certified, and found a receipt that has passed and names the new one. The record
-- that it stores and returns has the old memory's identifiers and the superseded lane, and every other
-- identifier reads as before.
pub supersede_lem :
    (host : Host) (old_id new_id receipt_id : String) (w : World) (s : MemoryRecord) (w' : World)
    → supersede host old_id new_id receipt_id w ≡ (ok s, w')
    → (old : MemoryRecord) × Supersedes w old_id new_id receipt_id old
      × (s.lane ≡ superseded)
      × (s.memory_id ≡ old.memory_id)
      × (s.update_id ≡ old.update_id)
      × Stored w w' s
unfolding supersede now_utc
supersede_lem host old_id new_id receipt_id w s w' h =
    elim (Result-cases (get_memory_record old_id w.db)) [
      | inr (e, bad) ↦ absurd (ground arith)
      | inl (old, found) ↦ elim (Result-cases (get_memory_record new_id w.db)) [
        | inr (e, bad) ↦ absurd (ground arith)
        | inl (new, new_found) ↦ elim (Result-cases (get_receipt receipt_id w.db)) [
          | inr (e, bad) ↦ absurd (ground arith)
          | inl (receipt, receipt_found) ↦
              elim (Result-cases (
                moved old superseded (cat "superseded by " new_id) (some receipt_id)
                  (host.now w.clock))) [
                    | inr (e, bad) ↦ absurd (ground arith)
                    | inl (r, ended) ↦
                        let (lane, same_id, same_update) =
                          moved_lem old superseded _ (some receipt_id) _ ended in
                        let (same, stored) =
                          stored_then_logged host r MemoryOperation.replace
                            (cat "superseded by " new_id) (some receipt_id)
                            (run_id_or host "supersede" new.metadata) (old_id ∷ new_id ∷ [])
                            (dict (("receipt_id", str receipt_id) ∷ [])) w (now_utc host w).1 s w'
                            refl (ground arith) in
                        (
                          old,
                          record {
                            found = found;
                            movable =
                                (assert_transition_allowed_iff old.lane superseded).0
                                  (ground arith);
                            new = new;
                            new_found = new_found;
                            new_certified = ground (arith, lane_eq_iff new.lane certified);
                            receipt = receipt;
                            receipt_found = receipt_found;
                            receipt_passed = ground arith;
                            receipt_names = ground (arith, eq_iff receipt.candidate_id new_id);
                          },
                          ap (λ x. x.lane) same ∙ lane,
                          ap (λ x. x.memory_id) same ∙ same_id,
                          ap (λ x. x.update_id) same ∙ same_update,
                          stored,
                        )
                  ]
        ]
      ]
    ]
