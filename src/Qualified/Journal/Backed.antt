-- ===== src/Qualified/Journal/Backed.antt =====
-- qualified/store.py: the invariant of what `replay` collects, and what setting a key of one of its
-- dicts leaves of it.
use observable_agent_workflo.Prelude.{
  ◌≡◌, refl, sym, ◌↔◌, String, ◌==◌, Bool, true, false, some, List, [], ◌∷◌, all, str_mem, arith,
  eq_iff, Bool-cases, inl, inr, subst,
}
use observable_agent_workflo.Prelude.Assoc.{lookup, has, insert, names, has-insert, lookup-insert}
use observable_agent_workflo.Result.{ok}
use observable_agent_workflo.Json.{Host, Fields, str, obj}
use observable_agent_workflo.Checkers.Base.{distinct}
use observable_agent_workflo.Qualified.Wire.{digest}
use observable_agent_workflo.Qualified.Model.{Cost, Qualification}
use observable_agent_workflo.Qualified.Model.Dump.{dump_qualification}
use observable_agent_workflo.Qualified.Model.Decode.{decode_qualification}
use observable_agent_workflo.Qualified.Lines.{normal_form}
use observable_agent_workflo.Qualified.Journal.Dicts.{
  distinct-insert, has-insert_grows, lookup-insert_fresh,
}
use observable_agent_workflo.Qualified.Journal.State.{
  Block, Withdrawal, Intent, Outcome, Exposure, State,
}

-- The verdict on an intent is whether its outcome was received and is the tool's output.
abbrev pub Explained : List (String × Intent) → List (String × Outcome) → String → Bool → Type 0
Explained intents outcomes i b =
    (n : Intent) × (o : Outcome) × (input : String) × (output : String) × (lookup i intents
      ≡ some n)
    × (lookup i outcomes ≡ some o)
    × (n.input ≡ str input)
    × (o.output ≡ str output)
    × ((b ≡ true) ↔ ((o.status ≡ "received") × (output ≡ normal_form input)))

abbrev pub is_recorded : List (String × Fields) → Cost → Bool
is_recorded costs c = has c.id costs

-- The data is a qualification with this digest, whose costs are recorded.
abbrev pub Admitted : Host → List (String × Fields) → String → Fields → Type 0
Admitted host costs k f =
    (q : Qualification) × (decode_qualification host f ≡ ok q)
    × (digest host (obj (dump_qualification q)) ≡ ok k)
    × (all (is_recorded costs) q.costs ≡ true)

pub record Backed (host : Host) (s : State) : Type 0 where
  pub attempts_bound : (i : String) → has i s.attempts ≡ true → has i s.intents ≡ true
  pub outcomes_bound : (i : String) → has i s.outcomes ≡ true → has i s.attempts ≡ true
  pub intents_bound :
      (i : String) (n : Intent)
      → lookup i s.intents ≡ some n
      → (has n.qualification s.qualifications ≡ true) × (has n.cost s.costs ≡ true)
  pub checked_explained :
      (i : String) (b : Bool) → lookup i s.checked ≡ some b → Explained s.intents s.outcomes i b
  pub services_checked : (i : String) → str_mem i s.services ≡ true → lookup i s.checked ≡ some true
  pub admitted :
      (k : String) (f : Fields) → lookup k s.qualifications ≡ some f → Admitted host s.costs k f
  pub keys_distinct : distinct (names s.qualifications) ≡ true

-- more costs keep an admission
all_recorded-insert :
    (k : String) (f : Fields) (costs : List (String × Fields)) (cs : List Cost)
    → all (is_recorded costs) cs ≡ true
    → all (is_recorded (insert k f costs)) cs ≡ true
all_recorded-insert k f costs [] h = refl
all_recorded-insert k f costs (c ∷ cs) h =
    ground (arith, has-insert_grows c.id k f costs, all_recorded-insert k f costs cs)

module _ {host : Host} {s : State} (h : Backed host s) where
  pub with_cost-Backed :
      (k : String) (f : Fields) → Backed host (record s { costs = insert k f s.costs })
  with_cost-Backed k f = record {
    attempts_bound = h.attempts_bound;
    outcomes_bound = h.outcomes_bound;
    intents_bound =
        λ i n e. let (q, c) = h.intents_bound i n e in (q, has-insert_grows n.cost k f s.costs c);
    checked_explained = h.checked_explained;
    services_checked = h.services_checked;
    keys_distinct = h.keys_distinct;
    admitted = λ j g e.
        let (q, decoded, named, paid) = h.admitted j g e in
        (q, decoded, named, all_recorded-insert k f s.costs q.costs paid);
  }

  pub with_qualification-Backed :
      (k : String) (f : Fields)
      → Admitted host s.costs k f
      → Backed host (record s { qualifications = insert k f s.qualifications })
  with_qualification-Backed k f a = record {
    attempts_bound = h.attempts_bound;
    outcomes_bound = h.outcomes_bound;
    intents_bound = λ i n e.
        let (q, c) = h.intents_bound i n e in
        (has-insert_grows n.qualification k f s.qualifications q, c);
    checked_explained = h.checked_explained;
    services_checked = h.services_checked;
    keys_distinct = distinct-insert k f s.qualifications h.keys_distinct;
    admitted = λ j g e. elim (Bool-cases (k == j)) [
      | inl here ↦
          let same_key : k ≡ j = (eq_iff k j).0 here in
          let same_data : f ≡ g = ground (arith, lookup-insert j k f s.qualifications) in
          subst (λ x. Admitted host s.costs x g) same_key
            (subst (Admitted host s.costs k) same_data a)
      | inr other ↦ h.admitted j g (ground (arith, lookup-insert j k f s.qualifications))
    ];
  }

  pub with_intent-Backed :
      (i : String) (n : Intent)
      → has i s.intents ≡ false
      → has n.qualification s.qualifications ≡ true
      → has n.cost s.costs ≡ true
      → Backed host (record s { intents = insert i n s.intents })
  with_intent-Backed i n fresh q c = record {
    attempts_bound = λ j e. has-insert_grows j i n s.intents (h.attempts_bound j e);
    outcomes_bound = h.outcomes_bound;
    intents_bound = λ j m e. ground (arith, lookup-insert j i n s.intents, h.intents_bound j m);
    checked_explained = λ j b e.
        let (m, o, input, output, at_m, at_o, read, wrote, verdict) = h.checked_explained j b e in
        (
          m,
          o,
          input,
          output,
          lookup-insert_fresh j i n s.intents fresh at_m,
          at_o,
          read,
          wrote,
          verdict,
        );
    services_checked = h.services_checked;
    keys_distinct = h.keys_distinct;
    admitted = h.admitted;
  }

  pub with_attempt-Backed :
      (i id : String)
      → has i s.intents ≡ true
      → Backed host (record s { attempts = insert i id s.attempts })
  with_attempt-Backed i id bound = record {
    attempts_bound =
        λ j e. ground (arith, has-insert j i id s.attempts, h.attempts_bound j, eq_iff i j);
    outcomes_bound = λ j e. has-insert_grows j i id s.attempts (h.outcomes_bound j e);
    intents_bound = h.intents_bound;
    checked_explained = h.checked_explained;
    services_checked = h.services_checked;
    keys_distinct = h.keys_distinct;
    admitted = h.admitted;
  }

  pub with_outcome-Backed :
      (i : String) (o : Outcome)
      → has i s.attempts ≡ true
      → has i s.outcomes ≡ false
      → Backed host (record s { outcomes = insert i o s.outcomes })
  with_outcome-Backed i o bound fresh = record {
    attempts_bound = h.attempts_bound;
    outcomes_bound =
        λ j e. ground (arith, has-insert j i o s.outcomes, h.outcomes_bound j, eq_iff i j);
    intents_bound = h.intents_bound;
    checked_explained = λ j b e.
        let (m, p, input, output, at_m, at_p, read, wrote, verdict) = h.checked_explained j b e in
        (
          m,
          p,
          input,
          output,
          at_m,
          lookup-insert_fresh j i o s.outcomes fresh at_p,
          read,
          wrote,
          verdict,
        );
    services_checked = h.services_checked;
    keys_distinct = h.keys_distinct;
    admitted = h.admitted;
  }

-- An intent has one verdict.
same_verdict :
    (intents : List (String × Intent)) (outcomes : List (String × Outcome)) (i : String)
    {b c : Bool}
    → Explained intents outcomes i b
    → Explained intents outcomes i c
    → b ≡ true
    → c ≡ true
same_verdict intents outcomes i (n, o, input, output, at_n, at_o, read, wrote, verdict)
      (n', o', input', output', at_n', at_o', read', wrote', verdict') h =
    ground arith

module _ {host : Host} {s : State} (h : Backed host s) where
  pub with_checked-Backed :
      (i : String) (b : Bool)
      → Explained s.intents s.outcomes i b
      → Backed host (record s { checked = insert i b s.checked })
  with_checked-Backed i b x = record {
    attempts_bound = h.attempts_bound;
    outcomes_bound = h.outcomes_bound;
    intents_bound = h.intents_bound;
    checked_explained = λ j c e. elim (Bool-cases (i == j)) [
      | inl here ↦
          let same_key : i ≡ j = (eq_iff i j).0 here in
          let same_data : b ≡ c = ground (arith, lookup-insert j i b s.checked) in
          subst (λ k. Explained s.intents s.outcomes k c) same_key
            (subst (Explained s.intents s.outcomes i) same_data x)
      | inr other ↦ h.checked_explained j c (ground (arith, lookup-insert j i b s.checked))
    ];
    services_checked = λ j m. elim (Bool-cases (i == j)) [
      | inl here ↦
          let same_key : i ≡ j = (eq_iff i j).0 here in
          let old : Explained s.intents s.outcomes i true =
            subst (λ k. Explained s.intents s.outcomes k true) (sym same_key)
              (h.checked_explained j true (h.services_checked j m)) in
          let verdict : b ≡ true =
            same_verdict s.intents s.outcomes i {b = true} {c = b} old x refl in
          ground (arith, lookup-insert j i b s.checked)
      | inr other ↦ ground (arith, lookup-insert j i b s.checked, h.services_checked j)
    ];
    keys_distinct = h.keys_distinct;
    admitted = h.admitted;
  }

  pub with_services-Backed :
      (services : List String)
      → ((i : String) → str_mem i services ≡ true → lookup i s.checked ≡ some true)
      → Backed host (record s { services = services })
  with_services-Backed services all_checked = record {
    attempts_bound = h.attempts_bound;
    outcomes_bound = h.outcomes_bound;
    intents_bound = h.intents_bound;
    checked_explained = h.checked_explained;
    services_checked = all_checked;
    keys_distinct = h.keys_distinct;
    admitted = h.admitted;
  }

  -- the lists that the invariant does not read
  pub with_rest-Backed :
      (blocks : List Block) (withdrawn : List Withdrawal) (exposures : List Exposure)
      (allegations : List Block)
      → Backed host (record s {
        blocks = blocks;
        withdrawn = withdrawn;
        exposures = exposures;
        allegations = allegations;
      })
  with_rest-Backed blocks withdrawn exposures allegations = record {
    attempts_bound = h.attempts_bound;
    outcomes_bound = h.outcomes_bound;
    intents_bound = h.intents_bound;
    checked_explained = h.checked_explained;
    services_checked = h.services_checked;
    keys_distinct = h.keys_distinct;
    admitted = h.admitted;
  }
