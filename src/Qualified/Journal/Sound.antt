-- ===== src/Qualified/Journal/Sound.antt =====
-- qualified/store.py: what a replayed journal's services stand for.
use observable_agent_workflo.Prelude.{
  ◌≡◌, refl, sym, ap, ◌∙◌, String, true, false, subst, none, some, List, [], ◌∷◌, str_mem, inl, inr,
  arith,
}
use observable_agent_workflo.Prelude.Assoc.{lookup, has, has-lookup, lookup-has, has-insert}
use observable_agent_workflo.Result.{ok, >>=-eq-ok, ok_injective}
use observable_agent_workflo.Json.{Host, Fields, str}
use observable_agent_workflo.Qualified.Model.{
  Entry, Kind, admit, exposure, intent, attempt, outcome, checked, reconciled, invalidate,
  allegation, withdraw, cost, correction,
}
use observable_agent_workflo.Qualified.Lines.{normal_form}
use observable_agent_workflo.Qualified.Native.{Companion}
use observable_agent_workflo.Qualified.Journal.State.{Intent, Outcome, State}
use observable_agent_workflo.Qualified.Journal.Settle.{apply_kind}
use observable_agent_workflo.Qualified.Journal.Replay.{
  Progress, begin, step, steps, Replayed, replay,
}
use observable_agent_workflo.Qualified.Journal.Steps.{Accepted, step_lem, finish_lem, replay_lem}
use observable_agent_workflo.Qualified.Journal.Backed.{Admitted, Backed}
use observable_agent_workflo.Qualified.Journal.Kept.{
  Follows, apply_cost-Follows, apply_admit-Follows, apply_withdraw-Follows,
  apply_invalidate-Follows, apply_allegation-Follows, apply_exposure-Follows, apply_intent-Follows,
  apply_attempt-Follows, apply_outcome-Follows,
}
use observable_agent_workflo.Qualified.Journal.Verdict.{
  apply_checked-Follows, apply_reconciled-Follows,
}

apply_kind-Follows :
    {host : Host} (alt : Companion) (k : Kind) (e : Entry) (s : State) {s' : State}
    → Backed host s
    → has e.id s.intents ≡ false
    → apply_kind host alt k e s ≡ ok s'
    → Follows host e s s'
unfolding apply_kind
apply_kind-Follows alt cost e s h fresh r = apply_cost-Follows e s h r
apply_kind-Follows alt admit e s h fresh r = apply_admit-Follows e s h r
apply_kind-Follows alt invalidate e s h fresh r = apply_invalidate-Follows e s h r
apply_kind-Follows alt withdraw e s h fresh r = apply_withdraw-Follows e s h r
apply_kind-Follows alt allegation e s h fresh r = apply_allegation-Follows e s h r
apply_kind-Follows alt exposure e s h fresh r = apply_exposure-Follows e s h r
apply_kind-Follows alt intent e s h fresh r = apply_intent-Follows e s h fresh r
apply_kind-Follows alt attempt e s h fresh r = apply_attempt-Follows e s h r
apply_kind-Follows alt outcome e s h fresh r = apply_outcome-Follows e s h r
apply_kind-Follows alt checked e s h fresh r = apply_checked-Follows alt e s h r
apply_kind-Follows alt reconciled e s h fresh r = apply_reconciled-Follows alt e s h r
apply_kind-Follows alt correction e s h fresh r = absurd (ground arith)

-- the invariant of the loop
pub record Tracked (host : Host) (p : Progress) : Type 0 where
  pub backed : Backed host p.state
  pub named : (i : String) → has i p.state.intents ≡ true → has i p.ids ≡ true

begin-Tracked : (host : Host) → Tracked host begin
begin-Tracked host = record {
  backed = record {
    attempts_bound = λ i m. m;
    outcomes_bound = λ i m. m;
    intents_bound = λ i n m. absurd (ground arith);
    checked_explained = λ i b m. absurd (ground arith);
    services_checked = λ i m. absurd (ground arith);
    admitted = λ k f m. absurd (ground arith);
    keys_distinct = refl;
  };
  named = λ i m. m;
}

unseen : {A : Type 0} (k : String) (d : List (String × A)) → lookup k d ≡ none → has k d ≡ false
unseen k [] h = refl
unseen k ((j, v) ∷ d) h = ground (arith, unseen k d)

accept-Tracked :
    {host : Host} (alt : Companion) (e : Entry) (value : String) (p : Progress) {p' : Progress}
    → Tracked host p
    → Accepted host alt e value p p'
    → Tracked host p'
accept-Tracked {host} alt e value p h (new, s, applied, same) =
    let fresh : has e.id p.state.intents ≡ false =
      ground (arith, h.named e.id, unseen e.id p.ids new) in
    let after : Follows host e p.state s =
      apply_kind-Follows alt e.kind e p.state h.backed fresh applied in
    rw same (record {
      backed = after.backed;
      named = λ i m. ground (arith, after.named i m, h.named i, has-insert i e.id value p.ids);
    })

pub steps-Tracked :
    {host : Host} (alt : Companion) (es : List Entry) (p : Progress) {p' : Progress}
    → Tracked host p
    → steps host alt es p ≡ ok p'
    → Tracked host p'
unfolding steps
steps-Tracked {host} alt [] p h r = subst (Tracked host) (ok_injective r) h
steps-Tracked {host} alt (e ∷ es) p h r =
    let (next, r1, stepped) = >>=-eq-ok (step host alt e p) _ r in
    let after : Tracked host next = elim (step_lem host alt e p stepped) [
      | inl (seen, same) ↦ subst (Tracked host) (sym same) h
      | inr (value, accepted) ↦ accept-Tracked alt e value p h accepted
    ] in
    steps-Tracked alt es next after r1

-- What a service of a state stands for: an intent on an admitted qualification and a recorded cost,
-- which was attempted, and whose received outcome is the tool's output on the intent's input.
abbrev pub Served : Host → State → String → Type 0
Served host s i =
    (n : Intent) × (o : Outcome) × (input : String) × (f : Fields) × (lookup i s.intents ≡ some n)
    × (lookup i s.outcomes ≡ some o)
    × (n.input ≡ str input)
    × (o.status ≡ "received")
    × (o.output ≡ str (normal_form input))
    × (has i s.attempts ≡ true)
    × (has n.cost s.costs ≡ true)
    × (lookup n.qualification s.qualifications ≡ some f)
    × Admitted host s.costs n.qualification f

Backed-Served :
    {host : Host} (s : State) (i : String)
    → Backed host s
    → str_mem i s.services ≡ true
    → Served host s i
Backed-Served s i h m =
    let (n, o, input, output, at_n, at_o, read, wrote, verdict) =
      h.checked_explained i true (h.services_checked i m) in
    let (received, same) = verdict.0 refl in
    let (known, paid) = h.intents_bound i n at_n in
    let (f, at_f) = lookup-has n.qualification s.qualifications known in
    (
      n,
      o,
      input,
      f,
      at_n,
      at_o,
      read,
      received,
      wrote ∙ ap str same,
      h.outcomes_bound i (has-lookup i s.outcomes at_o),
      paid,
      at_f,
      h.admitted n.qualification f at_f,
    )

-- the invariant of a journal that replays
pub replay-Backed :
    (host : Host) (alt : Companion) (es : List Entry) {r : Replayed}
    → replay host alt es ≡ ok r
    → Backed host r.state
replay-Backed host alt es r =
    let (short, p, stepped, finished) = replay_lem host alt es r in
    let tracked : Tracked host p = steps-Tracked alt es begin (begin-Tracked host) stepped in
    subst (Backed host) (sym (finish_lem host p finished).0) tracked.backed

-- Of a journal that replays, every service belongs to an intent that names an admitted qualification,
-- whose costs are all recorded, and a recorded cost. The use was attempted, its outcome was received,
-- and the output in the journal is what the registered tool computes from the intent's input.
pub replay_sound :
    (host : Host) (alt : Companion) (es : List Entry) {r : Replayed}
    → replay host alt es ≡ ok r
    → (i : String) → str_mem i r.state.services ≡ true
    → Served host r.state i
replay_sound host alt es {r} replayed i m =
    Backed-Served r.state i (replay-Backed host alt es replayed) m
