-- ===== src/Warranted/Base.antt =====
-- When a store's certified memories are warranted, and which changes of the tables keep that.
use observable_agent_workflo.Prelude.{
  ◌==◌, ◌≡◌, Bool-cases, some, List, [], ◌∷◌, ◌++◌, All, All-mono, Elem, Elem-append_left, inl, inr,
}
use observable_agent_workflo.Core.Lane.{certified}
use observable_agent_workflo.Core.Record.{MemoryRecord}
use observable_agent_workflo.Core.Receipt.{PromotionReceipt}
use observable_agent_workflo.Gate.Sound.{IsPassing}
use observable_agent_workflo.Storage.{World}
use observable_agent_workflo.Storage.Tables.{upsert_record}

-- A passing receipt of the store for the very update of the memory, which names it.
pub record Backs (receipts : List PromotionReceipt) (c : MemoryRecord) : Type 0 where
  pub receipt : PromotionReceipt
  pub stored : Elem receipt receipts
  pub passing : IsPassing receipt
  pub candidate : receipt.candidate_id ≡ c.memory_id
  pub update : receipt.candidate_update_id ≡ c.update_id
  pub named : c.receipt_id ≡ some receipt.receipt_id

abbrev pub BacksIfCertified : List PromotionReceipt → MemoryRecord → Type 0
BacksIfCertified receipts c = c.lane ≡ certified → Backs receipts c

abbrev pub Warranted : List MemoryRecord → List PromotionReceipt → Type 0
Warranted records receipts = All (BacksIfCertified receipts) records

abbrev pub IsWarranted : World → Type 0
IsWarranted w = Warranted w.memory_records w.promotion_receipts

pub Warranted-upsert_record :
    (r : MemoryRecord) (records : List MemoryRecord) (receipts : List PromotionReceipt)
    → BacksIfCertified receipts r
    → Warranted records receipts
    → Warranted (upsert_record r records) receipts
unfolding upsert_record
Warranted-upsert_record r [] receipts b h = (b, tt)
Warranted-upsert_record r (s ∷ records) receipts b h =
    elim (Bool-cases (s.memory_id == r.memory_id)) [
      | inl same ↦ rw same (b, h.1)
      | inr other ↦ rw other (h.0, Warranted-upsert_record r records receipts b h.1)
    ]

Backs-append :
    (receipts : List PromotionReceipt) (q : PromotionReceipt) (c : MemoryRecord)
    → Backs receipts c
    → Backs (receipts ++ q ∷ []) c
Backs-append receipts q c b = record {
  receipt = b.receipt;
  stored = Elem-append_left b.receipt receipts (q ∷ []) b.stored;
  passing = b.passing;
  candidate = b.candidate;
  update = b.update;
  named = b.named;
}

-- A new receipt takes no warrant away.
pub Warranted-append :
    (records : List MemoryRecord) (receipts : List PromotionReceipt) (q : PromotionReceipt)
    → Warranted records receipts
    → Warranted records (receipts ++ q ∷ [])
Warranted-append records receipts q h =
    All-mono _ _ records (λ c b lane. Backs-append receipts q c (b lane)) h
