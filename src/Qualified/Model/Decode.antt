-- ===== src/Qualified/Model/Decode.antt =====
-- qualified/wire.py: `model_validate` of the models, by the annotations of their classes: strict
-- types, no further keys, defaults for missing ones. A refusal is one error, whatever its reasons.
use observable_agent_workflo.Prelude.{
  ℕ, String, Bool, true, false, not, none, some, List, [], ◌∷◌, all, str_mem,
}
use observable_agent_workflo.Prelude.Int.{pos}
use observable_agent_workflo.Result.{
  Result, ok, err, Error, value_error, raise_if, or_raise, ◌>>=◌, ◌>>◌,
}
use observable_agent_workflo.Json.{
  Host, Value, Items, Fields, null, boolean, int, str, arr, obj, nil, cons, get, keys, strs,
  as_strs, value_eq,
}
use observable_agent_workflo.Qualified.Model.{
  Cost, valid_cost, Context, valid_context, Source, valid_source, Operation, valid_operation,
  Qualification, valid_qualification, Entry, valid_entry,
}
use observable_agent_workflo.Qualified.Model.Dump.{context_version, qualification_version}

abbrev pub invalid : Error
invalid = value_error "validation error"

-- `extra="forbid"`
abbrev closed : List String → Fields → Result (Unit {0})
closed names f = raise_if (not (all (λ k. str_mem k names) (keys f))) invalid

-- a field of each type, and one with a default
abbrev pub text : Value → Result String
text (str s) = ok s
text _ = err invalid

abbrev number : Value → Result ℕ
number (int (pos n)) = ok n
number _ = err invalid

abbrev flag : Value → Result Bool
flag (boolean b) = ok b
flag _ = err invalid

abbrev object : Value → Result Fields
object (obj f) = ok f
object _ = err invalid

abbrev items : Value → Result Items
items (arr xs) = ok xs
items _ = err invalid

abbrev pub texts : Value → Result (List String)
texts (arr xs) = or_raise (as_strs xs) invalid
texts _ = err invalid

abbrev required : String → Fields → Result Value
required name f = or_raise (get name f) invalid

abbrev default : String → Value → Fields → Value
default name v f = elim (get name f) [ none ↦ v | some w ↦ w ]

-- a field whose only value is its default
abbrev fixed : String → Value → Fields → Result (Unit {0})
fixed name v f = raise_if (not (value_eq (default name v f) v)) invalid

abbrev pub each {ℓ} : {A : Type ℓ} → (Fields → Result A) → Items → Result (List A)
each decode nil = ok []
each decode (cons v xs) = do f ← object v; a ← decode f; rest ← each decode xs; ok (a ∷ rest)

-- `Cost.model_validate`
unfoldable pub decode_cost : Host → Fields → Result Cost
decode_cost host f = do
  closed ("id" ∷ "stage" ∷ "unit" ∷ "amount" ∷ []) f
  id ← required "id" f >>= text
  stage ← required "stage" f >>= text
  unit ← text (default "unit" (str "work-unit") f)
  amount ← required "amount" f >>= text
  let c : Cost = record { id = id; stage = stage; unit = unit; amount = amount }
  raise_if (not (valid_cost host c)) invalid
  ok c

unfoldable pub decode_context : Fields → Result Context
decode_context f = do
  closed
      ("version" ∷ "workspace" ∷ "receiver" ∷ "mission" ∷ "task_family" ∷ "context" ∷ "inputs"
        ∷ "protocol" ∷ "evaluator" ∷ "tool_version" ∷ "clock" ∷ "dependencies" ∷ "checks"
        ∷ "restrictions" ∷ "expose" ∷ [])
      f
  fixed "version" (str context_version) f
  workspace ← required "workspace" f >>= text
  receiver ← required "receiver" f >>= text
  mission ← required "mission" f >>= text
  task_family ← required "task_family" f >>= text
  context ← required "context" f >>= text
  inputs ← required "inputs" f >>= texts
  protocol ← text (default "protocol" (str "normalize-protocol-v1") f)
  evaluator ← text (default "evaluator" (str "normalize-checker-v1") f)
  tool_version ← text (default "tool_version" (str "normalize-lines-v1") f)
  clock ← required "clock" f >>= text
  dependencies ← required "dependencies" f >>= texts
  checks ← required "checks" f >>= texts
  restrictions ← texts (default "restrictions" (strs ("local-only" ∷ [])) f)
  expose ← flag (default "expose" (boolean false) f)
  let c : Context = record {
    workspace = workspace;
    receiver = receiver;
    mission = mission;
    task_family = task_family;
    context = context;
    inputs = inputs;
    protocol = protocol;
    evaluator = evaluator;
    tool_version = tool_version;
    clock = clock;
    dependencies = dependencies;
    checks = checks;
    restrictions = restrictions;
    expose = expose;
  }
  raise_if (not (valid_context c)) invalid
  ok c

unfoldable pub decode_source : Fields → Result Source
decode_source f = do
  closed ("event_id" ∷ "producer_digest" ∷ "raw" ∷ "sha256" ∷ []) f
  event_id ← required "event_id" f >>= text
  producer_digest ← required "producer_digest" f >>= text
  raw ← required "raw" f >>= text
  sha256 ← required "sha256" f >>= text
  let s : Source = record {
    event_id = event_id;
    producer_digest = producer_digest;
    raw = raw;
    sha256 = sha256;
  }
  raise_if (not (valid_source s)) invalid
  ok s

unfoldable pub decode_operation : Host → Fields → Result Operation
unfolding decode_cost
decode_operation host f = do
  closed
      ("version" ∷ "tool" ∷ "implementation" ∷ "input" ∷ "output" ∷ "receiver" ∷ "context_digest"
        ∷ "time" ∷ "split" ∷ "complete" ∷ "outcome" ∷ "cost" ∷ [])
      f
  fixed "version" (str "oawm_normalize_v1") f
  fixed "tool" (str "normalize-lines-v1") f
  implementation ← required "implementation" f >>= text
  input ← required "input" f >>= text
  output ← required "output" f >>= text
  receiver ← required "receiver" f >>= text
  context_digest ← required "context_digest" f >>= text
  time ← required "time" f >>= number
  split ← required "split" f >>= text
  complete ← flag (default "complete" (boolean true) f)
  outcome ← required "outcome" f >>= text
  cost ← required "cost" f >>= object >>= decode_cost host
  let op : Operation = record {
    implementation = implementation;
    input = input;
    output = output;
    receiver = receiver;
    context_digest = context_digest;
    time = time;
    split = split;
    complete = complete;
    outcome = outcome;
    cost = cost;
  }
  raise_if (not (valid_operation host op)) invalid
  ok op

-- the fields of a qualification, each of its type
unfoldable pub read_qualification : Host → Fields → Result Qualification
unfolding decode_context decode_source decode_cost
read_qualification host f = do
  closed
      ("version" ∷ "memory_id" ∷ "update_id" ∷ "workflow_digest" ∷ "context" ∷ "valid_from"
        ∷ "valid_until" ∷ "cutoff" ∷ "training" ∷ "evaluation" ∷ "formation" ∷ "candidate" ∷ "offer"
        ∷ "mapping" ∷ "costs" ∷ "source_authentication" ∷ "execution_authority" ∷ [])
      f
  fixed "version" (str qualification_version) f
  fixed "source_authentication" null f
  fixed "execution_authority" null f
  memory_id ← required "memory_id" f >>= text
  update_id ← required "update_id" f >>= text
  workflow_digest ← required "workflow_digest" f >>= text
  context ← required "context" f >>= object >>= decode_context
  valid_from ← required "valid_from" f >>= number
  valid_until ← required "valid_until" f >>= number
  cutoff ← required "cutoff" f >>= number
  training ← required "training" f >>= items >>= each decode_source
  evaluation ← required "evaluation" f >>= items >>= each decode_source
  formation ← required "formation" f >>= object
  candidate ← required "candidate" f >>= object
  offer ← required "offer" f >>= object
  mapping ← required "mapping" f >>= object
  costs ← required "costs" f >>= items >>= each (decode_cost host)
  ok (record {
    memory_id = memory_id;
    update_id = update_id;
    workflow_digest = workflow_digest;
    context = context;
    valid_from = valid_from;
    valid_until = valid_until;
    cutoff = cutoff;
    training = training;
    evaluation = evaluation;
    formation = formation;
    candidate = candidate;
    offer = offer;
    mapping = mapping;
    costs = costs;
  })

-- `Qualification.model_validate`
unfoldable pub decode_qualification : Host → Fields → Result Qualification
unfolding read_qualification
decode_qualification host f = do
  q ← read_qualification host f
  raise_if (not (valid_qualification host q)) invalid
  ok q

-- `Entry.model_validate(entry.model_dump())` and `Entry.model_validate(dict(...))`
unfoldable pub check_entry : Entry → Result Entry
check_entry e = do raise_if (not (valid_entry e)) invalid; ok e
