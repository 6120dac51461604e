-- ===== src/Qualified/Model/Dump.antt =====
-- qualified/wire.py: `model_dump` of the models, and equality of two of them.
use observable_agent_workflo.Prelude.{ℕ, String, Bool, List, [], ◌∷◌}
use observable_agent_workflo.Prelude.Int.{pos}
use observable_agent_workflo.Json.{
  Value, Items, Fields, null, boolean, int, str, arr, obj, nil, cons, dict, strs, value_eq,
}
use observable_agent_workflo.Qualified.Model.{
  Cost, Context, Source, Qualification, Entry, Kind, admit, exposure, intent, attempt, outcome,
  checked, reconciled, invalidate, allegation, withdraw, cost, correction,
}

abbrev pub tick : ℕ → Value
tick n = int (pos n)

unfoldable pub dump_cost : Cost → Fields
dump_cost c = dict (
    ("id", str c.id)
    ∷ ("stage", str c.stage)
    ∷ ("unit", str c.unit)
    ∷ ("amount", str c.amount)
    ∷ [])

abbrev pub context_version : String
context_version = "oawm_receiver_v1"

unfoldable pub dump_context : Context → Fields
dump_context c = dict (
    ("version", str context_version)
    ∷ ("workspace", str c.workspace)
    ∷ ("receiver", str c.receiver)
    ∷ ("mission", str c.mission)
    ∷ ("task_family", str c.task_family)
    ∷ ("context", str c.context)
    ∷ ("inputs", strs c.inputs)
    ∷ ("protocol", str c.protocol)
    ∷ ("evaluator", str c.evaluator)
    ∷ ("tool_version", str c.tool_version)
    ∷ ("clock", str c.clock)
    ∷ ("dependencies", strs c.dependencies)
    ∷ ("checks", strs c.checks)
    ∷ ("restrictions", strs c.restrictions)
    ∷ ("expose", boolean c.expose)
    ∷ [])

unfoldable pub dump_source : Source → Fields
dump_source s = dict (
    ("event_id", str s.event_id)
    ∷ ("producer_digest", str s.producer_digest)
    ∷ ("raw", str s.raw)
    ∷ ("sha256", str s.sha256)
    ∷ [])

abbrev pub each {ℓ} : {A : Type ℓ} → (A → Fields) → List A → Items
each dump [] = nil
each dump (x ∷ xs) = cons (obj (dump x)) (each dump xs)

abbrev pub qualification_version : String
qualification_version = "oawm_qualification_v1"

unfoldable pub dump_qualification : Qualification → Fields
dump_qualification q = dict (
    ("version", str qualification_version)
    ∷ ("memory_id", str q.memory_id)
    ∷ ("update_id", str q.update_id)
    ∷ ("workflow_digest", str q.workflow_digest)
    ∷ ("context", obj (dump_context q.context))
    ∷ ("valid_from", tick q.valid_from)
    ∷ ("valid_until", tick q.valid_until)
    ∷ ("cutoff", tick q.cutoff)
    ∷ ("training", arr (each dump_source q.training))
    ∷ ("evaluation", arr (each dump_source q.evaluation))
    ∷ ("formation", obj q.formation)
    ∷ ("candidate", obj q.candidate)
    ∷ ("offer", obj q.offer)
    ∷ ("mapping", obj q.mapping)
    ∷ ("costs", arr (each dump_cost q.costs))
    ∷ ("source_authentication", null)
    ∷ ("execution_authority", null)
    ∷ [])

unfoldable pub kind_value : Kind → String
kind_value admit = "admit"
kind_value exposure = "exposure"
kind_value intent = "intent"
kind_value attempt = "attempt"
kind_value outcome = "outcome"
kind_value checked = "checked"
kind_value reconciled = "reconciled"
kind_value invalidate = "invalidate"
kind_value allegation = "allegation"
kind_value withdraw = "withdraw"
kind_value cost = "cost"
kind_value correction = "correction"

unfoldable pub dump_entry : Entry → Fields
dump_entry e = dict (
    ("version", str "oawm_lifecycle_v1")
    ∷ ("id", str e.id)
    ∷ ("previous", str e.previous)
    ∷ ("time", tick e.time)
    ∷ ("kind", str (kind_value e.kind))
    ∷ ("data", obj e.data_)
    ∷ [])

-- `a == b` of two contexts: their fields are equal
abbrev pub context_eq : Context → Context → Bool
context_eq a b = value_eq (obj (dump_context a)) (obj (dump_context b))
