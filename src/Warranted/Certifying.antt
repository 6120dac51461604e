-- ===== src/Warranted/Certifying.antt =====
-- A promotion, which certifies a record, and its warrant.
use observable_agent_workflo.Prelude.{
  String, ◌≡◌, sym, ◌∙◌, Option, some, none, List, [], ◌∷◌, Elem, inl, inr, arith, Option-cases,
  eq_iff, last,
}
use observable_agent_workflo.Result.{ok, Result-cases}
use observable_agent_workflo.Exec.{
  Keeps, Keeps-known, Keeps-bind, Keeps-lift, Keeps-pure, lift, pure, ◌>>=◌, ◌>>◌,
}
use observable_agent_workflo.Json.{Host}
use observable_agent_workflo.Core.Lane.{certified, MemoryOperation}
use observable_agent_workflo.Core.Record.{MemoryRecord, validated}
use observable_agent_workflo.Core.Receipt.{PromotionReceipt}
use observable_agent_workflo.Core.Contract.{WorkflowContract, from_candidate}
use observable_agent_workflo.Core.Transitions.{assert_transition_allowed}
use observable_agent_workflo.Gate.Sound.{IsPassing}
use observable_agent_workflo.Storage.Tables.{find_record}
use observable_agent_workflo.Storage.{
  World, now_utc, create_contract, upsert_memory_record, get_memory_record, list_receipts,
}
use observable_agent_workflo.Promotion.Events.{append_promote_event}
use observable_agent_workflo.Promotion.Sound.{chosen_Warrants}
use observable_agent_workflo.Promotion.{
  certify, supersede_all, promote_with, promote, passing_receipts,
}
use observable_agent_workflo.Warranted.Base.{Backs, IsWarranted}
use observable_agent_workflo.Warranted.Writes.{
  Holds, Holds-Persists, upsert-Holds_at, create_contract-Same,
}
use observable_agent_workflo.Warranted.Promoting.{append_promote_event-Same, supersede_all-P, now-P}

-- What a promotion needs of the receipt that it has chosen.
pub record Fits (c : MemoryRecord) (r : PromotionReceipt) : Type 0 where
  pub passing : IsPassing r
  pub candidate : r.candidate_id ≡ c.memory_id
  pub update : r.candidate_update_id ≡ c.update_id

-- The certified record is of the candidate's update and names the receipt.
abbrev Certifies : MemoryRecord → PromotionReceipt → MemoryRecord → Type 0
Certifies c r s =
    (s.memory_id ≡ c.memory_id) × (s.update_id ≡ c.update_id) × (s.receipt_id ≡ some r.receipt_id)

certify_lem :
    (c : MemoryRecord) (k : WorkflowContract) (r : PromotionReceipt) (time : String)
    {s : MemoryRecord}
    → validated (certify c k r time) ≡ ok s
    → Certifies c r s
unfolding validated
certify_lem c k r time h = ground arith

Certifies-Backs :
    (c : MemoryRecord) (r : PromotionReceipt) (s : MemoryRecord) (receipts : List PromotionReceipt)
    → Fits c r
    → Certifies c r s
    → Elem r receipts
    → Backs receipts s
Certifies-Backs c r s receipts fits (memory, update, receipt) e = record {
  receipt = r;
  stored = e;
  passing = fits.passing;
  candidate = fits.candidate ∙ sym memory;
  update = fits.update ∙ sym update;
  named = receipt;
}

module _ (host : Host) (c : MemoryRecord) (r : PromotionReceipt) (fits : Fits c r) where
  written-Holds :
      (s : MemoryRecord) (op : MemoryOperation) (reason : String) (receipt event : Option String)
      → Certifies c r s
      → Keeps (Holds r) (upsert_memory_record host s op reason receipt event)
  written-Holds s op reason receipt event q = record {
    at = λ w (h, e).
        upsert-Holds_at r host s op reason receipt event w
          (λ _. Certifies-Backs c r s w.promotion_receipts fits q e) (h, e);
  }

  -- the end of a promotion, once the certified record is made
  stored-Holds :
      (k : WorkflowContract) (s : MemoryRecord)
      → Certifies c r s
      → Keeps (Holds r) (do
        stored ←
            upsert_memory_record host s MemoryOperation.promote "promoted with passing receipt"
              (some r.receipt_id)
              none
        supersede_all host c r c.supersedes
        append_promote_event host stored r k
        pure stored)
  stored-Holds k s q = Keeps-bind _ _ (written-Holds s _ _ (some r.receipt_id) none q) λ stored.
      Keeps-bind _ _ (supersede_all-P host (Holds r) (Holds-Persists host r) c r c.supersedes) λ _.
        Keeps-bind _ _
          ((Holds-Persists host r).frame _ _ (λ v. append_promote_event-Same host v stored r k))
          λ _. Keeps-pure stored

  promote_with-Holds : Keeps (Holds r) (promote_with host c r)
  unfolding promote_with
  promote_with-Holds = Keeps-bind _ _ (Keeps-lift (assert_transition_allowed c.lane certified)) λ _.
      Keeps-bind _ _ now λ contract_time.
        Keeps-bind _ _ (Keeps-lift (from_candidate host contract_time c r)) λ k.
          Keeps-bind _ _
            ((Holds-Persists host r).frame _ (create_contract k)
              (λ v. create_contract-Same host v k))
            λ _. Keeps-bind _ _ now λ time.
              Keeps-known (Certifies c r) (lift (validated (certify c k r time))) _
                (λ w s e. certify_lem c k r time e) (Keeps-lift _) (λ s q. stored-Holds k s q)
    where
      now : Keeps (Holds r) (now_utc host)
      now = now-P host (Holds r) (Holds-Persists host r)

find_record-id :
    (id : String) (rs : List MemoryRecord) (c : MemoryRecord)
    → find_record id rs ≡ some c
    → c.memory_id ≡ id
unfolding find_record
find_record-id id [] c h = ground arith
find_record-id id (s ∷ rs) c h = ground (arith, find_record-id id rs c, eq_iff s.memory_id id)

found_id :
    (id : String) (w : World) (c : MemoryRecord)
    → get_memory_record id w.db ≡ ok c
    → c.memory_id ≡ id
unfolding get_memory_record
found_id id w c h = ground (arith, find_record-id id w.memory_records c)

-- A promotion keeps the warrants: the record that it certifies has the receipt that it has chosen.
pub promote-IsWarranted : (host : Host) (id : String) → Keeps IsWarranted (promote host id)
unfolding promote
promote-IsWarranted host id = record {
  at = λ w h. elim (Result-cases (get_memory_record id w.db)) [
    | inr (e, missing) ↦ rw missing h
    | inl (c, found) ↦
        rw found (elim (Option-cases (last (passing_receipts c (list_receipts (some id) w.db)))) [
          | inl nothing ↦ rw nothing h
          | inr (r, some_) ↦ rw some_ (
              let warrants = chosen_Warrants w id c r some_ in
              let fits : Fits c r = record {
                passing = warrants.passing;
                candidate = warrants.candidate ∙ sym (found_id id w c found);
                update = warrants.update;
              } in
              let (kept, _) = (promote_with-Holds host c r fits).at w (h, warrants.stored) in kept)
        ])
  ];
}
