-- ===== src/Warranted/Writes.antt =====
-- The methods of the store, and what they leave of the warrants.
use observable_agent_workflo.Prelude.{
  String, ◌≡◌, ◌≢◌, refl, ◌⊎◌, Option, [], ◌∷◌, ◌++◌, Elem, inl, inr, arith,
}
use observable_agent_workflo.Result.{Result}
use observable_agent_workflo.Exec.{Keeps}
use observable_agent_workflo.Json.{Host}
use observable_agent_workflo.Core.Lane.{certified, MemoryOperation}
use observable_agent_workflo.Core.Record.{MemoryRecord}
use observable_agent_workflo.Core.Receipt.{PromotionReceipt, EvidenceManifest}
use observable_agent_workflo.Core.Contract.{WorkflowContract}
use observable_agent_workflo.Storage.Tables.{upsert_record, insert_receipt, insert_revision}
use observable_agent_workflo.Storage.{
  World, now_utc, uuid4, transaction, upsert_rows, upsert_memory_record, create_receipt,
  create_contract, insert_contract, create_evidence_manifest,
}
use observable_agent_workflo.Kernel.Changed.{Same}
use observable_agent_workflo.Warranted.Base.{
  BacksIfCertified, IsWarranted, Warranted-upsert_record, Warranted-append,
}

-- The store's warrants hold, and `r` is one of its receipts.
abbrev pub Holds : PromotionReceipt → World → Type 0
Holds r w = IsWarranted w × Elem r w.promotion_receipts

-- An action that leaves memories and receipts alone leaves the warrants alone.
pub Same-IsWarranted :
    {A : Type 0} (m : World → Result A × World)
    → ((v : World) → Keeps (Same v) m)
    → Keeps IsWarranted m
Same-IsWarranted m same = record {
  at = λ w h. let (records, receipts) = (same w).at w (refl, refl) in rw records (rw receipts h);
}

pub Same-Holds :
    {A : Type 0} (r : PromotionReceipt) (m : World → Result A × World)
    → ((v : World) → Keeps (Same v) m)
    → Keeps (Holds r) m
Same-Holds r m same = record {
  at = λ w (h, e).
      let (records, receipts) = (same w).at w (refl, refl) in
      (rw records (rw receipts h), rw receipts e);
}

-- What an upsert does to the memories and receipts: it puts the record in, or nothing happens.
upsert_tables :
    (host : Host) (r : MemoryRecord) (op : MemoryOperation) (reason : String)
    (receipt event : Option String) (w : World)
    → let w' = (upsert_memory_record host r op reason receipt event w).1 in
      ((w'.memory_records ≡ w.memory_records)
        ⊎ (w'.memory_records ≡ upsert_record r w.memory_records))
      × (w'.promotion_receipts ≡ w.promotion_receipts)
unfolding upsert_memory_record transaction now_utc uuid4 upsert_rows insert_revision
upsert_tables host r op reason receipt event w = ground arith

pub upsert-IsWarranted_at :
    (host : Host) (r : MemoryRecord) (op : MemoryOperation) (reason : String)
    (receipt event : Option String) (w : World)
    → BacksIfCertified w.promotion_receipts r
    → IsWarranted w
    → IsWarranted (upsert_memory_record host r op reason receipt event w).1
upsert-IsWarranted_at host r op reason receipt event w b h =
    let (memories, receipts) = upsert_tables host r op reason receipt event w in
    elim memories [
      | inl kept ↦ rw kept (rw receipts h)
      | inr written ↦
          rw written
            (rw receipts (Warranted-upsert_record r w.memory_records w.promotion_receipts b h))
    ]

pub upsert-Holds_at :
    (q : PromotionReceipt) (host : Host) (r : MemoryRecord) (op : MemoryOperation) (reason : String)
    (receipt event : Option String) (w : World)
    → BacksIfCertified w.promotion_receipts r
    → Holds q w
    → Holds q (upsert_memory_record host r op reason receipt event w).1
upsert-Holds_at q host r op reason receipt event w b (h, e) = (
  upsert-IsWarranted_at host r op reason receipt event w b h,
  let (_, receipts) = upsert_tables host r op reason receipt event w in rw receipts e,
)

module _ (host : Host) (v : World) where
  pub create_contract-Same : (c : WorkflowContract) → Keeps (Same v) (create_contract c)
  unfolding create_contract transaction insert_contract
  create_contract-Same c = record { at = λ w h. ground arith }

  pub create_evidence_manifest-Same :
      (m : EvidenceManifest) → Keeps (Same v) (create_evidence_manifest m)
  unfolding create_evidence_manifest transaction
  create_evidence_manifest-Same m = record { at = λ w h. ground arith }

receipt_tables :
    (q : PromotionReceipt) (w : World)
    → ((create_receipt q w).1.memory_records ≡ w.memory_records)
      × (((create_receipt q w).1.promotion_receipts ≡ w.promotion_receipts)
          ⊎ ((create_receipt q w).1.promotion_receipts ≡ w.promotion_receipts ++ q ∷ []))
unfolding create_receipt transaction insert_receipt
receipt_tables q w = ground arith

pub create_receipt-IsWarranted : (q : PromotionReceipt) → Keeps IsWarranted (create_receipt q)
create_receipt-IsWarranted q = record {
  at = λ w h.
      let (records, receipts) = receipt_tables q w in
      elim receipts [
        | inl kept ↦ rw records (rw kept h)
        | inr added ↦
            rw records (rw added (Warranted-append w.memory_records w.promotion_receipts q h))
      ];
}

-- A property of worlds that the warrants give: actions that leave memories and receipts alone keep
-- it, and so does the upsert of a record that is not certified.
pub record Persists (host : Host) (P : World → Type 0) : Type 1 where
  pub frame :
      (A : Type 0) (m : World → Result A × World) → ((v : World) → Keeps (Same v) m) → Keeps P m
  pub write :
      (r : MemoryRecord) (op : MemoryOperation) (reason : String) (receipt event : Option String)
      → r.lane ≢ certified
      → Keeps P (upsert_memory_record host r op reason receipt event)

pub IsWarranted-Persists : (host : Host) → Persists host IsWarranted
IsWarranted-Persists host = record {
  frame = λ A m same. Same-IsWarranted m same;
  write = λ r op reason receipt event other. record {
    at = λ w h.
        upsert-IsWarranted_at host r op reason receipt event w (λ lane. absurd (other lane)) h;
  };
}

pub Holds-Persists : (host : Host) (q : PromotionReceipt) → Persists host (Holds q)
Holds-Persists host q = record {
  frame = λ A m same. Same-Holds q m same;
  write = λ r op reason receipt event other. record {
    at = λ w h. upsert-Holds_at q host r op reason receipt event w (λ lane. absurd (other lane)) h;
  };
}
