-- ===== src/Promotion/Sound.antt =====
-- What verification and promotion establish when they return.
use observable_agent_workflo.Prelude.{
  String, ◌==◌, ◌≡◌, ◌⊎◌, true, Option, none, some, inl, inr, List, [], ◌∷◌, arith, eq_iff, Elem,
  Elem-select, last, &&-eq-true, Option-cases,
}
use observable_agent_workflo.Result.{ok, err, fail_closed_error, Result-cases}
use observable_agent_workflo.Json.{Host}
use observable_agent_workflo.Core.Lane.{Lane, certified, shadow}
use observable_agent_workflo.Core.Record.{MemoryRecord, validated}
use observable_agent_workflo.Core.Receipt.{PromotionReceipt}
use observable_agent_workflo.Core.Transitions.{assert_transition_allowed}
use observable_agent_workflo.Storage.{World, get_memory_record, list_receipts, upsert_memory_record}
use observable_agent_workflo.Gate.{is_passing}
use observable_agent_workflo.Gate.Sound.{IsPassing}
use observable_agent_workflo.Promotion.{passing_receipts, promote_with, promote}

last-Elem : {A : Type 0} (xs : List A) (x : A) → last xs ≡ some x → Elem x xs
last-Elem [] x h = absurd (ground arith)
last-Elem (y ∷ []) x h = inl (ground arith)
last-Elem (y ∷ z ∷ zs) x h = inr (last-Elem (z ∷ zs) x h)

is_passing-IsPassing : (r : PromotionReceipt) → is_passing r ≡ true → IsPassing r
unfolding is_passing
is_passing-IsPassing r h = ground arith

certified_from :
    (l : Lane) → assert_transition_allowed l certified ≡ ok tt → (l ≡ shadow) ⊎ (l ≡ certified)
unfolding assert_transition_allowed
certified_from l h = ground arith

-- A receipt of the store that lets the record `c` be promoted.
pub record Warrants (w : World) (id : String) (c : MemoryRecord) (r : PromotionReceipt)
    : Type 0 where
  pub stored : Elem r w.promotion_receipts
  pub candidate : r.candidate_id ≡ id
  pub update : r.candidate_update_id ≡ c.update_id
  pub passing : IsPassing r

pub chosen_Warrants :
    (w : World) (id : String) (c : MemoryRecord) (r : PromotionReceipt)
    → last (passing_receipts c (list_receipts (some id) w.db)) ≡ some r
    → Warrants w id c r
unfolding list_receipts
chosen_Warrants w id c r h =
    let (listed, fits) = Elem-select _ r _ (last-Elem _ r h) in
    let (stored, named) =
      Elem-select (λ (r : PromotionReceipt). r.candidate_id == id) r w.promotion_receipts listed in
    let (pass, same) = &&-eq-true _ _ fits in
    record {
      stored = stored;
      candidate = (eq_iff r.candidate_id id).0 named;
      update = (eq_iff r.candidate_update_id c.update_id).0 same;
      passing = is_passing-IsPassing r pass;
    }

-- What `promote_with` returns.
pub record Promoted (c : MemoryRecord) (r : PromotionReceipt) (m : MemoryRecord) : Type 0 where
  pub lane : m.lane ≡ certified
  pub from : (c.lane ≡ shadow) ⊎ (c.lane ≡ certified)
  pub receipt : m.receipt_id ≡ some r.receipt_id
  pub same_memory : m.memory_id ≡ c.memory_id
  pub same_update : m.update_id ≡ c.update_id

promote_with-Promoted :
    (host : Host) (c : MemoryRecord) (r : PromotionReceipt) (w : World) {m : MemoryRecord}
    {w' : World}
    → promote_with host c r w ≡ (ok m, w')
    → Promoted c r m
unfolding promote_with upsert_memory_record validated
promote_with-Promoted host c r w h = record {
  lane = ground arith;
  from = certified_from c.lane (ground arith);
  receipt = ground arith;
  same_memory = ground arith;
  same_update = ground arith;
}

-- A promotion that returns has found the candidate in the shadow lane (or certified already) and,
-- in the store, a receipt for this memory and this very update that passed with checks, all of them
-- passed. It returns the record of that update in the certified lane, with that receipt.
pub promote_sound :
    (host : Host) (id : String) (w : World) {m : MemoryRecord} {w' : World}
    → promote host id w ≡ (ok m, w')
    → (c : MemoryRecord) × (get_memory_record id w.db ≡ ok c)
      × ((r : PromotionReceipt) × Warrants w id c r × Promoted c r m)
unfolding promote
promote_sound host id w {m} {w'} h = elim (Result-cases (get_memory_record id w.db)) [
  | inr (e, missing) ↦ absurd (ground arith)
  | inl (c, found) ↦ elim (Option-cases (chosen c)) [
    | inl nothing ↦ absurd (ground arith)
    | inr (r, some_) ↦ (
      c,
      found,
      (
        r,
        chosen_Warrants w id c r some_,
        promote_with-Promoted host c r w {m = m} {w' = w'} (ground arith),
      ),
    )
  ]
]
  where
    chosen : MemoryRecord → Option PromotionReceipt
    chosen c = last (passing_receipts c (list_receipts (some id) w.db))

nothing_chosen :
    (w : World) (id : String) (c : MemoryRecord)
    → ((r : PromotionReceipt) → ¬ Warrants w id c r)
    → last (passing_receipts c (list_receipts (some id) w.db)) ≡ none
nothing_chosen w id c h =
    elim (Option-cases (last (passing_receipts c (list_receipts (some id) w.db)))) [
      | inl nothing ↦ nothing
      | inr (r, some_) ↦ absurd (h r (chosen_Warrants w id c r some_))
    ]

-- If no receipt in the store warrants the present update, a promotion raises and changes nothing.
pub promote_refused :
    (host : Host) (id : String) (w : World) (c : MemoryRecord)
    → get_memory_record id w.db ≡ ok c
    → ((r : PromotionReceipt) → ¬ Warrants w id c r)
    → promote host id w ≡ (
      err (fail_closed_error "promotion requires a passing receipt for this candidate update"),
      w,
    )
unfolding promote
promote_refused host id w c found h = ground (arith, nothing_chosen w id c h)
