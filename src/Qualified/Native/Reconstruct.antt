-- ===== src/Qualified/Native/Reconstruct.antt =====
-- qualified/native.py: `reconstruct`, which checks each source slot of a qualification against what
-- ALT's models hold. The program takes the first of a formation's library and of a trace's steps,
-- which raises IndexError if there is none.
use observable_agent_workflo.Prelude.{
  ℕ, String, ◌==◌, Bool, false, not, ◌&&◌, ◌||◌, List, [], ◌∷◌, ◌++◌, map, cat, any, is_empty,
  length, ltb, leb, nat_eq, strs_eq,
}
use observable_agent_workflo.Result.{
  Result, ok, Error, value_error, index_error, raise_if, ◌>>=◌, ◌>>◌,
}
use observable_agent_workflo.Json.{Host, Value, Fields, obj, str, dict, end, put, value_eq}
use observable_agent_workflo.Checkers.Base.{distinct, same_set}
use observable_agent_workflo.Qualified.Wire.{encoded, digest}
use observable_agent_workflo.Qualified.Model.{
  Cost, valid_cost, Context, Source, Operation, Qualification,
}
use observable_agent_workflo.Qualified.Model.Dump.{dump_cost, dump_context, dump_qualification}
use observable_agent_workflo.Qualified.Model.Decode.{decode_qualification, invalid}
use observable_agent_workflo.Qualified.Native.{
  Primitive, Formation, Step, Trace, Check, Offer, Companion, checked, alt_runtime, pinned,
  operation,
}

-- SLOT_MAP
abbrev pub slot_map : List (String × String)
slot_map =
    ("steps[0].primitive", "$.tool")
    ∷ ("steps[0].arguments[0]", "$.input")
    ∷ ("checked_artifact", "$.implementation")
    ∷ ("dependencies[0]", "$.implementation")
    ∷ ("input_digest", "$.input")
    ∷ ("check_results[0]", "$.input,$.output,$.outcome,$.complete")
    ∷ ("time", "$.time")
    ∷ ("split", "$.split")
    ∷ ("complete", "$.complete")
    ∷ ("outcome", "$.outcome")
    ∷ ("costs[0]", "$.cost.id")
    ∷ ("source_version", "$.version")
    ∷ ("original_receiver_evidence", "$.receiver,$.context_digest")
    ∷ []

abbrev put_slots : String → List (String × String) → Fields → Fields
put_slots id [] f = f
put_slots id ((slot, path) ∷ slots) f =
    put_slots id slots (put (cat id (cat ":" slot)) (str path) f)

unfoldable pub expected_mapping : List Source → Fields → Fields
expected_mapping [] f = f
expected_mapping (s ∷ ss) f = expected_mapping ss (put_slots s.event_id slot_map f)

abbrev pub is_one : String → List String → Bool
is_one s xs = strs_eq xs (s ∷ [])

-- the policy that the program registers
unfoldable pub supported_policy : Companion → Context → Bool
supported_policy alt c =
    c.tool_version == "normalize-lines-v1"
    && c.evaluator == "normalize-checker-v1"
    && c.protocol == "normalize-protocol-v1"
    && is_one alt.implementation c.dependencies
    && is_one "normalize-checker-v1" c.checks
    && is_one "local-only" c.restrictions

-- `xs[0]` of an empty list
abbrev no_first : Error
no_first = index_error "list index out of range"

abbrev is_library : Companion → List Primitive → Bool
is_library alt (p ∷ []) =
    p.implementation == alt.implementation && is_one "string" p.inputs && p.output == "string"
is_library alt _ = false

abbrev is_step : Operation → List Step → Bool
is_step op (s ∷ []) = s.primitive == "normalize-lines-v1" && (elim s.arguments [
  | [] ↦ false
  | a ∷ rest ↦
      is_empty rest
      && value_eq (obj a) (obj (dict (("kind", str "string") ∷ ("value", str op.input) ∷ [])))
])
is_step op _ = false

-- the tests of a training source's projection that come before its first step is read
abbrev is_begun : Companion → (cutoff : ℕ) → Source → Operation → Trace → Bool
is_begun alt cutoff source op t =
    op.split == "training"
    && leb op.time cutoff
    && checked alt op
    && t.episode == source.event_id
    && t.input_digest == alt.digest op.input

-- all of its tests
unfoldable pub is_projection : Companion → (cutoff : ℕ) → Source → Operation → Trace → Bool
is_projection alt cutoff source op t =
    is_begun alt cutoff source op t
    && is_step op t.steps
    && t.checked_artifact == alt.implementation
    && is_one alt.implementation t.dependencies
    && nat_eq t.time op.time
    && t.source_version == "oawm_normalize_v1"
    && t.split == "training"
    && t.outcome == op.outcome
    && value_eq (Value.boolean t.complete) (Value.boolean op.complete)
    && is_one "pass" t.check_results
    && is_one op.cost.id t.costs
    && is_one "bounded-text" t.guards
    && is_empty t.unresolved
    && not t.secret_taint

unfoldable pub check_training :
    Host → Companion → (cutoff : ℕ) → List Source → List Value → Result (Unit {0})
check_training host alt cutoff (s ∷ ss) (projected ∷ more) = do
  op ← operation host s
  t ← alt.trace projected
  raise_if (is_begun alt cutoff s op t && is_empty t.steps) no_first
  raise_if (not (is_projection alt cutoff s op t))
      (value_error "unsupported_projection: source slot mismatch or failed trace")
  check_training host alt cutoff ss more
check_training host alt cutoff _ _ = ok tt

-- the tests of an evaluation source
unfoldable pub is_evidence :
    Companion → Qualification → (context_digest : String) → Operation → Check → Bool
is_evidence alt q context_digest op c =
    op.split == "evaluation"
    && op.receiver == q.context.receiver
    && op.context_digest == context_digest
    && ltb q.cutoff op.time
    && checked alt op
    && c.input_digest == alt.digest op.input
    && nat_eq c.time op.time
    && any (λ i. i == op.input) q.context.inputs

unfoldable pub check_evaluation :
    Host → Companion → Qualification → List Source → List Value → Result (Unit {0})
check_evaluation host alt q (s ∷ ss) (projected ∷ more) = do
  op ← operation host s
  c ← alt.check projected
  context_digest ← digest host (obj (dump_context q.context))
  raise_if (not (is_evidence alt q context_digest op c))
      (value_error "receiver domain evidence mismatch")
  check_evaluation host alt q ss more
check_evaluation host alt q _ _ = ok tt

-- the costs of the sources' operations, then the formation's own, one for each identifier
unfoldable pub source_costs : Host → List Source → Fields → Result Fields
source_costs host [] f = ok f
source_costs host (s ∷ ss) f = do
  op ← operation host s
  source_costs host ss (put op.cost.id (obj (dump_cost op.cost)) f)

abbrev pub costs_by_id : List Cost → Fields → Fields
costs_by_id [] f = f
costs_by_id (c ∷ cs) f = costs_by_id cs (put c.id (obj (dump_cost c)) f)

abbrev pub cost_id : Cost → String
cost_id c = c.id

unfoldable pub check_costs : Host → Qualification → Formation → Offer → Result (Unit {0})
check_costs host q request offer = do
  of_sources ← source_costs host (q.training ++ q.evaluation) end
  let formed : Cost = record {
    id = request.cost_id;
    stage = "formation";
    unit = request.cost_unit;
    amount = request.cost;
  }
  raise_if (not (valid_cost host formed)) invalid
  let expected = put formed.id (obj (dump_cost formed)) of_sources
  let ids = map cost_id q.costs
  raise_if
      (not (distinct ids)
        || not (value_eq (obj (costs_by_id q.costs end)) (obj expected))
        || not (same_set offer.required_cost_ids ids))
      (value_error "cost obligations omitted or conflicting")

-- the fixed words of an offer, and the fields that repeat the receiver's context
unfoldable pub is_supported_offer : Offer → Bool
is_supported_offer o =
    is_one "sorted-unique-lines" o.postconditions
    && is_one "bounded-text" o.preconditions
    && o.evidence_basis == "source-replay"
    && o.quality == "exact"
    && o.estimand == "normalized-text"
    && o.valuation == "synthetic-work-v1"

unfoldable pub check_scope : Offer → Context → Result (Unit {0})
check_scope o c = do
  raise_if (not (o.receiver == c.receiver)) (value_error "receiver context mismatch: receiver")
  raise_if (not (o.mission == c.mission)) (value_error "receiver context mismatch: mission")
  raise_if (not (o.context == c.context)) (value_error "receiver context mismatch: context")
  raise_if (not (o.task_family == c.task_family))
      (value_error "receiver context mismatch: task_family")
  raise_if (not (o.protocol == c.protocol)) (value_error "receiver context mismatch: protocol")
  raise_if (not (o.evaluator == c.evaluator)) (value_error "receiver context mismatch: evaluator")
  raise_if (not (strs_eq o.dependencies c.dependencies))
      (value_error "receiver context mismatch: dependencies")
  raise_if (not (strs_eq o.restrictions c.restrictions))
      (value_error "receiver context mismatch: restrictions")

unfoldable pub check_schemas : Host → Companion → List (String × Fields) → Result (Unit {0})
check_schemas host alt [] = ok tt
check_schemas host alt ((name, value) ∷ more) = do
  schema ← pinned host alt (cat "alt-" (cat name ".schema.json"))
  alt.validate schema value
  check_schemas host alt more

abbrev pub event_id : Source → String
event_id s = s.event_id

-- `reconstruct`
unfoldable pub reconstruct : Host → Companion → Qualification → (now : ℕ) → Result (Unit {0})
reconstruct host alt given now = do
  _ ← encoded host (obj (dump_qualification given))
  q ← decode_qualification host (dump_qualification given)
  alt_runtime alt
  request ← alt.formation q.formation
  candidate ← alt.candidate q.candidate
  offer ← alt.offer q.offer
  raise_if (not (supported_policy alt q.context))
      (value_error "unsupported registered receiver policy")
  raise_if
      (not (
        nat_eq request.cutoff q.cutoff
        && request.scope == q.context.mission
        && nat_eq (length request.sources) (length q.training)))
      (value_error "projection scope mismatch")
  let mapped = value_eq (obj q.mapping) (obj (expected_mapping q.training end))
  raise_if (mapped && is_empty request.library) no_first
  raise_if (not (mapped && is_library alt request.library))
      (value_error "hidden unmapped field or implementation")
  check_training host alt q.cutoff q.training request.sources
  raise_if (not (distinct (map event_id (q.training ++ q.evaluation))))
      (value_error "training/evaluation identities overlap")
  raise_if (not (nat_eq offer.valid_from q.valid_from && nat_eq offer.valid_until q.valid_until))
      (value_error "validity binding mismatch")
  raise_if (not (is_supported_offer offer)) (value_error "unsupported semantic scope")
  check_scope offer q.context
  raise_if
      (not (
        strs_eq offer.inputs (map alt.digest q.context.inputs)
        && nat_eq (length offer.checks) (length q.evaluation)))
      (value_error "finite input evidence mismatch")
  check_evaluation host alt q q.evaluation offer.checks
  check_costs host q request offer
  check_schemas host alt
      (("formation", q.formation) ∷ ("candidate", q.candidate) ∷ ("offer", q.offer) ∷ [])
  alt.reconstruct request candidate
  alt.qualify request candidate offer now
