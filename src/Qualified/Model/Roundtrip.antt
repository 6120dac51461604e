-- ===== src/Qualified/Model/Roundtrip.antt =====
-- qualified/wire.py: a dumped model reads back as itself.
use observable_agent_workflo.Prelude.{
  ◌≡◌, refl, subst, not, true, Bool, List, [], ◌∷◌, String, all, arith,
}
use observable_agent_workflo.Result.{Result, ok, >>=-eq-ok, raise_if-eq-ok, ok_injective}
use observable_agent_workflo.Json.{Host, Fields, strs, value_eq}
use observable_agent_workflo.Qualified.Model.{
  Cost, valid_cost, Context, valid_context, Source, valid_source, Qualification,
  valid_qualification,
}
use observable_agent_workflo.Qualified.Model.Dump
use observable_agent_workflo.Qualified.Model.Dump.{
  dump_cost, dump_context, dump_source, dump_qualification,
}
use observable_agent_workflo.Qualified.Model.Decode.{
  decode_cost, decode_context, decode_source, read_qualification, decode_qualification, each, texts,
}

texts-strs : (ss : List String) → texts (strs ss) ≡ ok ss
texts-strs [] = refl
texts-strs (s ∷ ss) = ground (arith, texts-strs ss)

pub decode_cost-dump :
    (host : Host) (c : Cost) → valid_cost host c ≡ true → decode_cost host (dump_cost c) ≡ ok c
unfolding decode_cost dump_cost
decode_cost-dump host c h = rw h refl

decode_source-dump : (s : Source) → valid_source s ≡ true → decode_source (dump_source s) ≡ ok s
unfolding decode_source dump_source
decode_source-dump s h = rw h refl

pub decode_context-dump :
    (c : Context) → valid_context c ≡ true → decode_context (dump_context c) ≡ ok c
unfolding decode_context dump_context value_eq
decode_context-dump c h =
    rw
      (
        texts-strs c.inputs,
        texts-strs c.dependencies,
        texts-strs c.checks,
        texts-strs c.restrictions,
        h,
      )
      refl

each-dump :
    {A : Type 0} (valid : A → Bool) (dump : A → Fields) (decode : Fields → Result A)
    → ((a : A) → valid a ≡ true → decode (dump a) ≡ ok a)
    → (xs : List A) → all valid xs ≡ true
    → each decode (Dump.each dump xs) ≡ ok xs
each-dump valid dump decode one [] h = refl
each-dump valid dump decode one (x ∷ xs) h =
    ground (arith, one x, each-dump valid dump decode one xs)

valid_parts :
    (host : Host) (q : Qualification)
    → valid_qualification host q ≡ true
    → (valid_context q.context ≡ true)
      × (all valid_source q.training ≡ true)
      × (all valid_source q.evaluation ≡ true)
      × (all (valid_cost host) q.costs ≡ true)
unfolding valid_qualification
valid_parts host q h = ground arith

-- A qualification that satisfies its model's annotations and validators is what the validation of
-- its dump returns.
pub decode_qualification-dump :
    (host : Host) (q : Qualification)
    → valid_qualification host q ≡ true
    → decode_qualification host (dump_qualification q) ≡ ok q
unfolding decode_qualification read_qualification dump_qualification value_eq
decode_qualification-dump host q h =
    let (context, training, evaluation, costs) = valid_parts host q h in
    rw
      (
        decode_context-dump q.context context,
        each-dump valid_source dump_source decode_source decode_source-dump q.training training,
        each-dump valid_source dump_source decode_source decode_source-dump q.evaluation evaluation,
        each-dump (valid_cost host) dump_cost (decode_cost host) (decode_cost-dump host) q.costs
            costs,
        h,
      )
      refl

pub decode_qualification-valid :
    (host : Host) (f : Fields) {q : Qualification}
    → decode_qualification host f ≡ ok q
    → valid_qualification host q ≡ true
unfolding decode_qualification
decode_qualification-valid host f r =
    let (q, r1, fields) = >>=-eq-ok (read_qualification host f) _ r in
    let (valid, r2) = raise_if-eq-ok (not (valid_qualification host q)) _ (ok q) r1 in
    subst (λ x. valid_qualification host x ≡ true) (ok_injective r2) (ground arith)
