-- ===== src/Qualified/Decision/Eligible.antt =====
-- qualified/eligibility.py: when `decision` calls a memory eligible.
use observable_agent_workflo.Prelude.{
  ℕ, ◌≡◌, refl, sym, ap, subst, ◌↔◌, String, Bool, true, false, not, ◌&&◌, none, List, [], ◌∷◌,
  ◌++◌, is_empty, any, arith, if◌then◌else◌, eq_iff,
}
use observable_agent_workflo.Result.{
  Result, ok, err, Error, >>=-eq-ok, raise_if-eq-ok, ok_injective,
}
use observable_agent_workflo.Json.{Host, Value, obj}
use observable_agent_workflo.Storage.{Db}
use observable_agent_workflo.Checkers.Base.{Validation, get_or_none}
use observable_agent_workflo.Qualified.Wire.{digest}
use observable_agent_workflo.Qualified.Model.{Context, Qualification, is_tick}
use observable_agent_workflo.Qualified.Model.Dump.{dump_context, dump_qualification}
use observable_agent_workflo.Qualified.Native.{Companion}
use observable_agent_workflo.Qualified.Journal.State.{Block, State}
use observable_agent_workflo.Qualified.Journal.Replay.{Replayed}
use observable_agent_workflo.Qualified.Decision.{
  View, in_scope, in_validity, all_paid, is_withdrawn, blocks_use, block_reasons, reason_if, caught,
  authoritative, reasons_against, eligible, decision,
}

is_empty-append : {A : Type 0} (xs ys : List A) → is_empty (xs ++ ys) ≡ (is_empty xs && is_empty ys)
is_empty-append [] ys = refl
is_empty-append (x ∷ xs) ys = refl

-- no block on the input stands
abbrev pub is_unblocked : Qualification → (context_digest input : String) → State → Bool
is_unblocked q context_digest input s = not (
    any (blocks_use (get_or_none "artifact_digest" q.candidate) context_digest input q.valid_from)
      s.blocks)

block_reasons-is_empty :
    (artifact : Value) (d input : String) (since : ℕ) (bs : List Block)
    → is_empty (block_reasons artifact d input since bs)
      ≡ not (any (blocks_use artifact d input since) bs)
block_reasons-is_empty artifact d input since [] = refl
block_reasons-is_empty artifact d input since (b ∷ bs) =
    ground (arith, block_reasons-is_empty artifact d input since bs)

-- what the journal and the host's registry say
abbrev pub Permitted :
    (d : String) → Qualification → Context → (input : String) (now : ℕ) → State → Type 0
Permitted d q context input now s =
    (in_scope q context input ≡ true)
    × (context.expose ≡ true)
    × (in_validity q now ≡ true)
    × (all_paid s q ≡ true)
    × (is_withdrawn s context ≡ false)
    × (is_unblocked q d input s ≡ true)

reason_if-is_empty :
    (b : Bool) (reason : String) (rest : List String)
    → is_empty (reason_if b reason ++ rest) ≡ (not b && is_empty rest)
reason_if-is_empty true reason rest = refl
reason_if-is_empty false reason rest = refl

no_reasons :
    (scope expose valid paid withdrawn : Bool) (rest : List String)
    → (is_empty (
          reason_if (not scope) "receiver_context_or_input_mismatch"
          ++ reason_if (not expose) "host_exposure_not_permitted"
          ++ reason_if (not valid) "outside_validity"
          ++ reason_if (not paid) "unpaid_cost"
          ++ reason_if withdrawn "dependency_withdrawn"
          ++ rest)
        ≡ true)
      ↔ ((scope ≡ true)
          × (expose ≡ true)
          × (valid ≡ true)
          × (paid ≡ true)
          × (withdrawn ≡ false)
          × (is_empty rest ≡ true))
no_reasons scope expose valid paid withdrawn rest =
    let after_paid = reason_if withdrawn "dependency_withdrawn" ++ rest in
    let after_valid = reason_if (not paid) "unpaid_cost" ++ after_paid in
    let after_expose = reason_if (not valid) "outside_validity" ++ after_valid in
    let after_scope = reason_if (not expose) "host_exposure_not_permitted" ++ after_expose in
    ground (
      arith,
      reason_if-is_empty (not scope) "receiver_context_or_input_mismatch" after_scope,
      reason_if-is_empty (not expose) "host_exposure_not_permitted" after_expose,
      reason_if-is_empty (not valid) "outside_validity" after_valid,
      reason_if-is_empty (not paid) "unpaid_cost" after_paid,
      reason_if-is_empty withdrawn "dependency_withdrawn" rest,
    )

reasons_against_iff :
    (d : String) (q : Qualification) (context : Context) (input : String) (now : ℕ) (s : State)
    → (is_empty (reasons_against d q context input now s) ≡ true)
      ↔ Permitted d q context input now s
unfolding reasons_against
reasons_against_iff d q context input now s =
    let artifact = get_or_none "artifact_digest" q.candidate in
    subst
      (λ b. (is_empty (reasons_against d q context input now s) ≡ true) ↔ (
        (in_scope q context input ≡ true)
        × (context.expose ≡ true)
        × (in_validity q now ≡ true)
        × (all_paid s q ≡ true)
        × (is_withdrawn s context ≡ false)
        × (b ≡ true)))
      (block_reasons-is_empty artifact d input q.valid_from s.blocks)
      (no_reasons (in_scope q context input) context.expose (in_validity q now) (all_paid s q)
        (is_withdrawn s context) (block_reasons artifact d input q.valid_from s.blocks))

caught_iff :
    (m : Result (Unit {0})) (rs : List String)
    → caught m ≡ ok rs
    → (is_empty rs ≡ true) ↔ (m ≡ ok tt)
unfolding caught
caught_iff (ok tt) rs h = (λ e. refl, λ e. ap is_empty (sym (ok_injective h)))
caught_iff (err (Error.value_error m)) rs h = ground arith
caught_iff (err (Error.key_error k)) rs h = ground arith
caught_iff (err (Error.transition_error m)) rs h = absurd (ground arith)
caught_iff (err (Error.fail_closed_error m)) rs h = absurd (ground arith)
caught_iff (err (Error.not_found_error m)) rs h = absurd (ground arith)
caught_iff (err (Error.integrity_error m)) rs h = absurd (ground arith)
caught_iff (err (Error.index_error m)) rs h = absurd (ground arith)
caught_iff (err (Error.type_error m)) rs h = absurd (ground arith)
caught_iff (err (Error.schema_error m)) rs h = absurd (ground arith)

-- the parts of a view that `decision` returned
pub record Decided (host : Host) (q : Qualification) (context : Context) (input : String) (now : ℕ)
    (r : Replayed) (fresh : Result (Unit {0})) (view : View) : Type 0 where
  pub dated : is_tick now ≡ true
  pub context_bound : digest host (obj (dump_context context)) ≡ ok view.context_digest
  pub qualification_bound : digest host (obj (dump_qualification q)) ≡ ok view.qualification
  pub snapshot_bound : view.snapshot ≡ r.revision
  pub memory_bound : view.memory_id ≡ q.memory_id
  pub update_bound : view.update_id ≡ q.update_id
  pub workflow_bound : view.workflow_digest ≡ q.workflow_digest
  pub expiry_bound : view.expiry ≡ q.valid_until
  pub no_source : view.source_authentication ≡ none
  pub no_authority : view.execution_authority ≡ none
  pub verdict :
      (view.current_memory_eligibility ≡ eligible)
      ↔ (Permitted view.context_digest q context input now r.state × (fresh ≡ ok tt))

passes_iff :
    (b : Bool) → (◌≡◌ {A = String} (if b then eligible else "blocked") eligible) ↔ (b ≡ true)
passes_iff true = (λ h. refl, λ h. refl)
passes_iff false = ground (arith, eq_iff "blocked" eligible)

pub decision_lem :
    (host : Host) (validation : Validation) (alt : Companion) (db : Db) (q : Qualification)
    (context : Context) (input : String) (now : ℕ) (r : Replayed) {view : View}
    → decision host validation alt db q context input now r ≡ ok view
    → Decided host q context input now r (authoritative host validation alt db q now) view
unfolding decision
decision_lem host validation alt db q context input now r {view} h =
    let fresh = authoritative host validation alt db q now in
    let (dated, h1) = raise_if-eq-ok (not (is_tick now)) _ _ h in
    let (d, h2, named) = >>=-eq-ok (digest host (obj (dump_context context))) _ h1 in
    let (refused, h3, settled) = >>=-eq-ok (caught fresh) _ h2 in
    let (key, h4, keyed) = >>=-eq-ok (digest host (obj (dump_qualification q))) _ h3 in
    let made = ok_injective h4 in
    let reasons = reasons_against d q context input now r.state ++ refused in
    subst (Decided host q context input now r fresh) made (record {
      dated = ground arith;
      context_bound = named;
      qualification_bound = keyed;
      snapshot_bound = refl;
      memory_bound = refl;
      update_bound = refl;
      workflow_bound = refl;
      expiry_bound = refl;
      no_source = refl;
      no_authority = refl;
      verdict = ground (
        arith,
        passes_iff (is_empty reasons),
        is_empty-append (reasons_against d q context input now r.state) refused,
        reasons_against_iff d q context input now r.state,
        caught_iff fresh refused settled,
      );
    })
