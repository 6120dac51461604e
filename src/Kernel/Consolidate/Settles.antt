-- ===== src/Kernel/Consolidate/Settles.antt =====
-- Where a consolidation leaves its candidate.
use observable_agent_workflo.Prelude.{
  String, ◌≡◌, ◌≢◌, sym, ap, ◌∙◌, none, List, arith, false, is_empty, inl, inr, eq_refl, subst,
}
use observable_agent_workflo.Result.{ok, Result-cases}
use observable_agent_workflo.Json.{Host, Fields}
use observable_agent_workflo.Core.Lane.{certified}
use observable_agent_workflo.Core.Record.{MemoryRecord}
use observable_agent_workflo.Core.Receipt.{CheckerResult, PromotionReceipt}
use observable_agent_workflo.Storage.{World, get_memory_record}
use observable_agent_workflo.Checkers.Base.{Context, run_checkers}
use observable_agent_workflo.Promotion.{Pipeline}
use observable_agent_workflo.Promotion.Verified.{Honest, Settled, verify_sound, verified_lane}
use observable_agent_workflo.Kernel.Propose.{propose_memory}
use observable_agent_workflo.Kernel.Consolidate.{consolidate_run, verify_memory, intent_context}
use observable_agent_workflo.Kernel.Changed.{Stored}
use observable_agent_workflo.Kernel.Drafted.{propose_memory_lem}

Stored-reads :
    (w w' : World) (s : MemoryRecord) → Stored w w' s → get_memory_record s.memory_id w'.db ≡ ok s
Stored-reads w w' s stored = ground (arith, eq_refl s.memory_id, stored.reads s.memory_id)

never : (r : PromotionReceipt) → verified_lane r ≢ certified
never r h = ground arith

-- A candidate that a consolidation has settled with the receipt `r` of its verification: the pipeline's
-- checkers ran on it, the receipt says what they say, and the record is settled by the receipt.
pub record Consolidated (p : Pipeline) (candidate : MemoryRecord) (r : PromotionReceipt)
    (s : MemoryRecord) : Type 0 where
  pub some_checker : is_empty p.checkers ≡ false
  pub checks : List CheckerResult
  pub ran :
      (supplied : Fields) × (context : Context) × (run_checkers p.checkers candidate supplied
          context
        ≡ ok checks)
  pub honest : Honest candidate checks r
  pub settled : Settled candidate r s
  pub uncertified : s.lane ≢ certified

the_same : {x y : MemoryRecord} → ok x ≡ ok y → x ≡ y
the_same e = ground arith

verified_candidate :
    (host : Host) (p : Pipeline) (candidate : MemoryRecord) (w : World) (r : PromotionReceipt)
    (w' : World) (s : MemoryRecord)
    → get_memory_record candidate.memory_id w.db ≡ ok candidate
    → verify_memory host p candidate.memory_id none w ≡ (ok r, w')
    → get_memory_record candidate.memory_id w'.db ≡ ok s
    → Consolidated p candidate r s
unfolding verify_memory
verified_candidate host p candidate w r w' s found h read =
    let (nonempty, (c, stored, out)) =
      verify_sound host p candidate.memory_id none (intent_context none) w {r = r} {w' = w'} h in
    let same : c ≡ candidate = ground arith in
    let result : out.record_ ≡ s =
      the_same (sym out.reads ∙ ap (λ x. get_memory_record x.memory_id w'.db) same ∙ read) in
    record {
      some_checker = nonempty;
      checks = out.checks;
      ran =
          subst
            (λ x.
              (supplied : Fields) × (context : Context) × (run_checkers p.checkers x supplied
                  context
                ≡ ok out.checks))
            same out.ran;
      honest = subst (λ x. Honest x out.checks r) same out.honest;
      settled =
          subst (λ x. Settled candidate r x) result
            (subst (λ x. Settled x r out.record_) same out.settled);
      uncertified = λ e. never r (sym out.settled.lane ∙ ap (λ x. x.lane) result ∙ e);
    }

-- A consolidation that returns has proposed a candidate from the run, and verified it in the store that
-- the proposal left. The pipeline has a checker, its checkers ran on the candidate, and the receipt that
-- the verification returned carries their results and passed exactly if all of them did. The record that
-- is returned is the candidate's, in the shadow lane after a passing receipt and in quarantine after any
-- other, and is not certified.
pub consolidate_run_lem :
    (host : Host) (p : Pipeline) (run_id : String) (w : World) (s : MemoryRecord) (w' : World)
    → consolidate_run host p run_id w ≡ (ok s, w')
    → (candidate : MemoryRecord) × (r : PromotionReceipt) × ((propose_memory host run_id "session"
          none none none w).0
        ≡ ok candidate)
      × (verify_memory host p candidate.memory_id none
            (propose_memory host run_id "session" none none none w).1
          ≡ (ok r, w'))
      × Consolidated p candidate r s
unfolding consolidate_run
consolidate_run_lem host p run_id w s w' h =
    elim (Result-cases (propose_memory host run_id "session" none none none w).0) [
      | inr (e, bad) ↦ absurd (ground arith)
      | inl (candidate, proposed) ↦
          elim (Result-cases (verify_memory host p candidate.memory_id none after).0) [
            | inr (e, bad) ↦ absurd (ground arith)
            | inl (r, verified) ↦
                let (_, _, _, _, stored) =
                  propose_memory_lem host run_id "session" none none none w candidate after
                    (ground arith) in
                (
                  candidate,
                  r,
                  proposed,
                  ground arith,
                  verified_candidate host p candidate after r
                      (verify_memory host p candidate.memory_id none after).1 s
                      (Stored-reads w after candidate stored) (ground arith) (ground arith),
                )
          ]
    ]
  where
    after : World
    after = (propose_memory host run_id "session" none none none w).1
