-- ===== src/Qualified/Decision.antt =====
-- qualified/eligibility.py: `decision`, the reasons against exposing a qualification's memory. `now`
-- is a whole number; a negative one or another type, which the program refuses, has no counterpart.
pub mod Eligible
use text.Mathlib.Text.{find?}
use observable_agent_workflo.Prelude.{
  ℕ, String, ◌==◌, Bool, true, false, not, ◌&&◌, ◌||◌, Option, none, some, List, [], ◌∷◌, ◌++◌, cat,
  any, is_empty, str_mem, leb, ltb, if◌then◌else◌,
}
use observable_agent_workflo.Result.{
  Result, ok, err, Error, value_error, key_error, raise_if, ◌>>=◌, ◌>>◌,
}
use observable_agent_workflo.Json.{Host, Value, Fields, str, obj, value_eq}
use observable_agent_workflo.Core.Record.{MemoryRecord}
use observable_agent_workflo.Storage.{Db}
use observable_agent_workflo.Checkers.Base.{Validation, get_or_none}
use observable_agent_workflo.Qualified.Wire.{digest}
use observable_agent_workflo.Qualified.Model.{Context, Cost, Qualification, is_tick}
use observable_agent_workflo.Qualified.Model.Dump.{dump_context, dump_qualification, context_eq}
use observable_agent_workflo.Qualified.Native.{Companion}
use observable_agent_workflo.Qualified.Native.Reconstruct.{reconstruct}
use observable_agent_workflo.Qualified.Journal.State.{Block, Withdrawal, State}
use observable_agent_workflo.Qualified.Journal.Apply.{is_paid}
use observable_agent_workflo.Qualified.Journal.Replay.{Replayed}
use observable_agent_workflo.Qualified.Eligibility.{promotion}

-- the entries of the returned dict that are not the same in every call; `claim` is set later
pub record View : Type 0 where
  pub binding_checks : Bool
  pub structural_qualification : Option String
  pub current_memory_eligibility : String
  pub reasons : List String
  pub snapshot : String
  pub qualification : String
  pub memory_id : String
  pub update_id : String
  pub workflow_digest : String
  pub context_digest : String
  pub expiry : ℕ
  pub dependency_status : String
  pub source_authentication : Option String
  pub execution_authority : Option String
  pub claim : String

abbrev pub reason_if : Bool → String → List String
reason_if true reason = reason ∷ []
reason_if false reason = []

abbrev pub in_scope : Qualification → Context → (input : String) → Bool
in_scope q context input = context_eq q.context context && str_mem input context.inputs

abbrev pub in_validity : Qualification → (now : ℕ) → Bool
in_validity q now = leb q.valid_from now && ltb now q.valid_until

abbrev pub all_paid : State → Qualification → Bool
all_paid s q = not (any (λ (c : Cost). not (is_paid s.costs c)) q.costs)

abbrev pub is_withdrawn : State → Context → Bool
is_withdrawn s context =
    any (λ (w : Withdrawal). str_mem w.dependency context.dependencies) s.withdrawn

-- a block on the artifact, in the context, on the input, since the qualification is valid
abbrev pub blocks_use :
    (artifact : Value) (context_digest input : String) (since : ℕ) → Block → Bool
blocks_use artifact context_digest input since b =
    value_eq b.artifact artifact
    && b.context == context_digest
    && b.input == input
    && leb since b.time

abbrev pub block_reasons :
    (artifact : Value) (context_digest input : String) (since : ℕ) → List Block → List String
block_reasons artifact context_digest input since [] = []
block_reasons artifact context_digest input since (b ∷ bs) =
    let rest = block_reasons artifact context_digest input since bs in
    if blocks_use artifact context_digest input since b
    then cat "scoped_invalidation:" b.event ∷ rest
    else rest

-- `except (ValueError, KeyError)`: `str` of a KeyError quotes its key
unfoldable pub caught {ℓ} : {A : Type ℓ} → Result A → Result (List String)
caught (ok a) = ok []
caught (err (Error.value_error m)) = ok (m ∷ [])
caught (err (Error.key_error k)) = ok (cat "'" (cat k "'") ∷ [])
caught (err e) = err e

-- the promotion and the reconstruction are checked afresh
unfoldable pub authoritative :
    Host → Validation → Companion → Db → Qualification → (now : ℕ) → Result (Unit {0})
authoritative host validation alt db q now =
    promotion host validation db q >>= λ memory. reconstruct host alt q now

unfoldable pub reasons_against :
    (context_digest : String)
    → Qualification
    → Context
    → (input : String) (now : ℕ) → State
    → List String
reasons_against context_digest q context input now s =
    reason_if (not (in_scope q context input)) "receiver_context_or_input_mismatch"
    ++ reason_if (not context.expose) "host_exposure_not_permitted"
    ++ reason_if (not (in_validity q now)) "outside_validity"
    ++ reason_if (not (all_paid s q)) "unpaid_cost"
    ++ reason_if (is_withdrawn s context) "dependency_withdrawn"
    ++ block_reasons (get_or_none "artifact_digest" q.candidate) context_digest input q.valid_from
        s.blocks

abbrev mentions_withdrawn : String → Bool
mentions_withdrawn reason = elim (find? reason "withdrawn") [ none ↦ false | some i ↦ true ]

abbrev pub eligible : String
eligible = "eligible"

-- `decision`
unfoldable pub decision :
    Host
    → Validation
    → Companion
    → Db
    → Qualification
    → Context
    → (input : String) (now : ℕ) → Replayed
    → Result View
decision host validation alt db q context input now r = do
  raise_if (not (is_tick now)) (value_error "trusted integer time required")
  context_digest ← digest host (obj (dump_context context))
  refused ← caught (authoritative host validation alt db q now)
  qualification ← digest host (obj (dump_qualification q))
  let reasons = reasons_against context_digest q context input now r.state ++ refused
  let passes = is_empty reasons
  ok (record {
    binding_checks = passes;
    structural_qualification = if passes then some "native-ALT-source-replay" else none;
    current_memory_eligibility = if passes then eligible else "blocked";
    reasons = reasons;
    snapshot = r.revision;
    qualification = qualification;
    memory_id = q.memory_id;
    update_id = q.update_id;
    workflow_digest = q.workflow_digest;
    context_digest = context_digest;
    expiry = q.valid_until;
    dependency_status = if any mentions_withdrawn reasons then "withdrawn" else "current";
    source_authentication = none;
    execution_authority = none;
    claim = "";
  })
