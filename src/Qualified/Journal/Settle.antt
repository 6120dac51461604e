-- ===== src/Qualified/Journal/Settle.antt =====
-- qualified/store.py: the branches of `replay` that judge an outcome and count a service, and the
-- choice of the branch.
use observable_agent_workflo.Prelude.{
  ℕ, String, ◌==◌, Bool, true, not, ◌&&◌, List, [], ◌∷◌, ◌++◌, str_mem, if◌then◌else◌,
}
use observable_agent_workflo.Prelude.Assoc.{lookup, insert}
use observable_agent_workflo.Result.{
  Result, ok, err, Error, value_error, key_error, raise_if, or_raise, ◌>>=◌, ◌>>◌,
}
use observable_agent_workflo.Json.{Host, Fields, str, obj, end, get, value_eq}
use observable_agent_workflo.Checkers.Base.{get_or_none}
use observable_agent_workflo.Qualified.Wire.{digest}
use observable_agent_workflo.Qualified.Model.{
  Cost, Operation, valid_operation, Entry, Kind, admit, exposure, intent, attempt, outcome, checked,
  reconciled, invalidate, allegation, withdraw, cost, correction,
}
use observable_agent_workflo.Qualified.Model.Dump.{dump_context}
use observable_agent_workflo.Qualified.Model.Decode.{
  decode_cost, decode_qualification, text, invalid,
}
use observable_agent_workflo.Qualified.Native
use observable_agent_workflo.Qualified.Native.{Companion}
use observable_agent_workflo.Qualified.Journal.State.{
  Block, Intent, Outcome, State, has_keys, text_of,
}
use observable_agent_workflo.Qualified.Journal.Apply.{
  bound, apply_cost, apply_admit, apply_withdraw, apply_invalidate, apply_allegation,
  apply_exposure, apply_intent, apply_attempt, apply_outcome,
}

-- `Operation(...)`, from the texts of the intent and the outcome
abbrev pub rebuilt :
    Companion → (context_digest input output status : String) (time : ℕ) → Cost → Operation
rebuilt alt context_digest input output status time c = record {
  implementation = alt.implementation;
  input = input;
  output = output;
  receiver = "local";
  context_digest = context_digest;
  time = time;
  split = "evaluation";
  complete = true;
  outcome = if status == "received" then "success" else "unknown";
  cost = c;
}

-- the operation that an intent and its outcome amount to
unfoldable pub operation_of :
    Host → Companion → (time : ℕ) → List (String × Fields) → Intent → Outcome → Result Operation
operation_of host alt time costs n o = do
  context_digest ← digest host (obj end)
  recorded ← or_raise (lookup n.cost costs) (key_error n.cost)
  c ← decode_cost host recorded
  input ← text n.input
  output ← text o.output
  let op = rebuilt alt context_digest input output o.status time c
  raise_if (not (valid_operation host op)) invalid
  ok op

-- the block that a received output leaves which is not the tool's
unfoldable pub negative_block : Host → Entry → State → Intent → Result Block
negative_block host e s n = do
  recorded ← or_raise (lookup n.qualification s.qualifications) (key_error n.qualification)
  q ← decode_qualification host recorded
  artifact ← or_raise (get "artifact_digest" q.candidate) (key_error "artifact_digest")
  context ← digest host (obj (dump_context q.context))
  ok (record {
    artifact = artifact;
    context = context;
    input = text_of n.input;
    reason = "checked-negative";
    time = e.time;
    event = e.id;
  })

abbrev unbound_check : Error
unbound_check = value_error "unbound outcome check"

-- what the check of an outcome adds to the blocks
unfoldable pub judged :
    Host → Entry → State → Intent → Outcome → (verdict : Bool) → Result (List Block)
judged host e s n o verdict =
    if o.status == "received" && not verdict
    then negative_block host e s n >>= (λ b. ok (b ∷ []))
    else ok []

unfoldable pub apply_checked : Host → Companion → Entry → State → Result State
unfolding bound
apply_checked host alt e s = do
  raise_if
      (not (
        has_keys ("intent" ∷ "checker" ∷ []) e.data_
        && value_eq (get_or_none "checker" e.data_) (str "normalize-checker-v1")))
      unbound_check
  i ← bound (get_or_none "intent" e.data_) s.outcomes unbound_check
  o ← or_raise (lookup i s.outcomes) (key_error i)
  n ← or_raise (lookup i s.intents) (key_error i)
  op ← operation_of host alt e.time s.costs n o
  let verdict = Native.checked alt op
  more ← judged host e s n o verdict
  ok (record s { checked = insert i verdict s.checked; blocks = s.blocks ++ more })

-- `if state["checked"][i] and i not in state["services"]`
abbrev pub serve : String → (verdict : Bool) → List String → List String
serve i verdict services =
    if verdict && not (str_mem i services) then services ++ i ∷ [] else services

unfoldable pub apply_reconciled : Entry → State → Result State
unfolding bound
apply_reconciled e s = do
  let refused = value_error "unchecked reconciliation"
  raise_if (not (has_keys ("intent" ∷ []) e.data_)) refused
  i ← bound (get_or_none "intent" e.data_) s.checked refused
  verdict ← or_raise (lookup i s.checked) (key_error i)
  ok (record s { services = serve i verdict s.services })

-- the branch of an event's kind
unfoldable pub apply_kind : Host → Companion → Kind → Entry → State → Result State
apply_kind host alt cost e s = apply_cost host e s
apply_kind host alt admit e s = apply_admit host e s
apply_kind host alt invalidate e s = apply_invalidate e s
apply_kind host alt withdraw e s = apply_withdraw e s
apply_kind host alt allegation e s = apply_allegation e s
apply_kind host alt exposure e s = apply_exposure e s
apply_kind host alt intent e s = apply_intent e s
apply_kind host alt attempt e s = apply_attempt e s
apply_kind host alt outcome e s = apply_outcome e s
apply_kind host alt checked e s = apply_checked host alt e s
apply_kind host alt reconciled e s = apply_reconciled e s
apply_kind host alt correction e s =
    err (value_error "unsupported_correction: append new evidence; original records remain")

abbrev pub apply : Host → Companion → Entry → State → Result State
apply host alt e s = apply_kind host alt e.kind e s
