-- ===== src/Qualified/Journal/Replay.antt =====
-- qualified/store.py: `replay`, a fold over the entries of the journal.
use observable_agent_workflo.Prelude.{
  ℕ, String, ◌==◌, Bool, true, not, Option, none, some, List, [], ◌∷◌, ◌++◌, length, ltb,
  if◌then◌else◌,
}
use observable_agent_workflo.Prelude.Assoc.{lookup, has, insert}
use observable_agent_workflo.Result.{
  Result, ok, value_error, key_error, raise_if, or_raise, ◌>>=◌, ◌>>◌,
}
use observable_agent_workflo.Json.{Host, arr, obj}
use observable_agent_workflo.Qualified.Wire.{digest}
use observable_agent_workflo.Qualified.Model.{Entry}
use observable_agent_workflo.Qualified.Model.Dump.{each, dump_entry}
use observable_agent_workflo.Qualified.Model.Decode.{check_entry}
use observable_agent_workflo.Qualified.Lines.{sorted_set}
use observable_agent_workflo.Qualified.Native.{Companion}
use observable_agent_workflo.Qualified.Journal.State
use observable_agent_workflo.Qualified.Journal.State.{Intent, Outcome, State}
use observable_agent_workflo.Qualified.Journal.Settle.{apply}

-- the local variables of the loop
pub record Progress : Type 0 where
  pub state : State
  pub unique : List Entry
  pub ids : List (String × String)

abbrev pub begin : Progress
begin = record { state = State.start; unique = []; ids = [] }

-- `digest(unique)`
unfoldable pub revision_of : Host → List Entry → Result String
revision_of host unique = digest host (arr (each dump_entry unique))

-- an identifier that was seen before
abbrev pub repeated : Progress → (seen value : String) → Result Progress
repeated p seen value = do raise_if (not (seen == value)) (value_error "conflicting event id"); ok p

unfoldable pub accept : Host → Companion → Entry → (value : String) → Progress → Result Progress
accept host alt e value p = do
  parent ← revision_of host p.unique
  raise_if (not (e.previous == parent)) (value_error "missing parent or stale revision")
  s ← apply host alt e p.state
  ok (record { state = s; unique = p.unique ++ e ∷ []; ids = insert e.id value p.ids })

-- by what `ids` holds for the entry's identifier
unfoldable pub take_entry :
    Host
    → Companion
    → Entry
    → (value : String) → (seen : Option String) → Progress
    → Result Progress
take_entry host alt e value none p = accept host alt e value p
take_entry host alt e value (some seen) p = repeated p seen value

-- the body of the loop
unfoldable pub step : Host → Companion → Entry → Progress → Result Progress
step host alt given p = do
  e ← check_entry given
  value ← digest host (obj (dump_entry e))
  take_entry host alt e value (lookup e.id p.ids) p

unfoldable pub steps : Host → Companion → List Entry → Progress → Result Progress
steps host alt [] p = ok p
steps host alt (e ∷ es) p = do p' ← step host alt e p; steps host alt es p'

-- `identity not in state["checked"] or state["outcomes"][identity]["status"] != "received"`
unfoldable pub is_unresolved : State → String → Result Bool
is_unresolved s i =
    if has i s.checked
    then or_raise (lookup i s.outcomes) (key_error i) >>= (λ o. ok (not (o.status == "received")))
    else ok true

unfoldable pub unresolved_ids : State → List (String × Intent) → Result (List String)
unresolved_ids s [] = ok []
unresolved_ids s ((i, n) ∷ intents) = do
  open_ ← is_unresolved s i
  rest ← unresolved_ids s intents
  ok (if open_ then i ∷ rest else rest)

pub record Replayed : Type 0 where
  pub state : State
  pub revision : String
  pub unresolved : List String

unfoldable pub finish : Host → Progress → Result Replayed
finish host p = do
  revision ← revision_of host p.unique
  unresolved ← unresolved_ids p.state p.state.intents
  ok (record { state = p.state; revision = revision; unresolved = sorted_set unresolved })

abbrev pub event_limit : ℕ
event_limit = 256

unfoldable pub replay : Host → Companion → List Entry → Result Replayed
replay host alt entries = do
  raise_if (ltb event_limit (length entries)) (value_error "journal event limit")
  p ← steps host alt entries begin
  finish host p
