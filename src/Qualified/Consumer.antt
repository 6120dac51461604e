-- ===== src/Qualified/Consumer.antt =====
-- qualified/checker.py: the consumer's check of a view, apart from the code that made the view.
pub mod Agreement
use observable_agent_workflo.Prelude.{
  ℕ, String, ◌==◌, Bool, true, false, not, ◌&&◌, Option, none, some, List, [], ◌∷◌, any, leb,
  nat_eq, str_mem, if◌then◌else◌,
}
use observable_agent_workflo.Prelude.Assoc.{lookup}
use observable_agent_workflo.Result.{
  Result, ok, err, value_error, key_error, raise_if, or_raise, ◌>>=◌, ◌>>◌,
}
use observable_agent_workflo.Json.{Host, Fields, obj, get}
use observable_agent_workflo.Storage.{Db}
use observable_agent_workflo.Checkers.Base.{Validation}
use observable_agent_workflo.Qualified.Wire.{digest}
use observable_agent_workflo.Qualified.Model.{Context, Cost, Qualification}
use observable_agent_workflo.Qualified.Model.Dump.{dump_context, context_eq}
use observable_agent_workflo.Qualified.Model.Decode.{decode_qualification}
use observable_agent_workflo.Qualified.Native.{Companion}
use observable_agent_workflo.Qualified.Native.Reconstruct.{reconstruct}
use observable_agent_workflo.Qualified.Journal.State.{Block, State}
use observable_agent_workflo.Qualified.Journal.Apply.{is_paid}
use observable_agent_workflo.Qualified.Journal.Replay.{Replayed, replay}
use observable_agent_workflo.Qualified.Journal.Store.{Table, entries}
use observable_agent_workflo.Qualified.Eligibility.{promotion}
use observable_agent_workflo.Qualified.Decision.{
  View, in_validity, all_paid, is_withdrawn, blocks_use, eligible,
}

abbrev is_none {ℓ} : {A : Type ℓ} → Option A → Bool
is_none none = true
is_none (some a) = false

-- the bindings of a view to the qualification that it names
unfoldable pub is_bound :
    View
    → (snapshot context_digest : String) → Qualification
    → Context
    → (input : String) (now : ℕ) → Bool
is_bound view snapshot context_digest q context input now =
    view.snapshot == snapshot
    && context_eq q.context context
    && context.expose
    && str_mem input context.inputs
    && in_validity q now
    && view.memory_id == q.memory_id
    && view.update_id == q.update_id
    && view.workflow_digest == q.workflow_digest
    && view.context_digest == context_digest
    && nat_eq view.expiry q.valid_until
    && is_none view.execution_authority
    && is_none view.source_authentication
    && view.current_memory_eligibility == eligible

-- the loop over the blocks, which reads the candidate's artifact at each
unfoldable pub check_blocks :
    Qualification → (context_digest input : String) → List Block → Result (Unit {0})
check_blocks q context_digest input [] = ok tt
check_blocks q context_digest input (b ∷ bs) = do
  artifact ← or_raise (get "artifact_digest" q.candidate) (key_error "artifact_digest")
  raise_if (blocks_use artifact context_digest input q.valid_from b)
      (value_error "scoped invalidation")
  check_blocks q context_digest input bs

-- `check_view`, on the state that the journal replays to
unfoldable pub check_against :
    Host
    → Validation
    → Companion
    → Db
    → Replayed
    → View
    → Context
    → (input : String) (now : ℕ) → Result (Unit {0})
check_against host validation alt db r view context input now = do
  recorded ←
      or_raise (lookup view.qualification r.state.qualifications) (key_error view.qualification)
  q ← decode_qualification host recorded
  context_digest ← digest host (obj (dump_context context))
  raise_if (not (is_bound view r.revision context_digest q context input now))
      (value_error "view bindings or scope rejected")
  raise_if (not (all_paid r.state q)) (value_error "unpaid view costs")
  raise_if (is_withdrawn r.state context) (value_error "withdrawn dependency")
  check_blocks q context_digest input r.state.blocks
  memory ← promotion host validation db q
  raise_if (not (view.claim == memory.claim)) (value_error "untrusted retriever content")
  reconstruct host alt q now

unfoldable pub check_view :
    Host
    → Validation
    → Companion
    → Db
    → Table
    → View
    → Context
    → (input : String) (now : ℕ) → Result (Unit {0})
check_view host validation alt db table view context input now = do
  old ← entries table
  r ← replay host alt old
  check_against host validation alt db r view context input now
