-- ===== src/Qualified/Journal/Steps.antt =====
-- qualified/store.py: what an entry, and a whole journal, did that `replay` did not refuse.
use observable_agent_workflo.Prelude.{
  ◌≡◌, refl, sym, ap, ◌∙◌, String, ◌==◌, true, false, not, ◌++◌, ◌⊎◌, subst, Option, none, some,
  List, [], ◌∷◌, inl, inr, length, ltb,
}
use observable_agent_workflo.Prelude.Assoc.{lookup, has, insert, has-lookup}
use observable_agent_workflo.Qualified.Lines.{sorted_set}
use observable_agent_workflo.Result.{ok, >>=-eq-ok, raise_if-eq-ok, ok_injective}
use observable_agent_workflo.Json.{Host, obj}
use observable_agent_workflo.Qualified.Wire.{digest}
use observable_agent_workflo.Qualified.Model.{Entry, valid_entry}
use observable_agent_workflo.Qualified.Model.Dump.{dump_entry}
use observable_agent_workflo.Qualified.Model.Decode.{check_entry, invalid}
use observable_agent_workflo.Qualified.Native.{Companion}
use observable_agent_workflo.Qualified.Journal.State.{State}
use observable_agent_workflo.Qualified.Journal.Settle.{apply}
use observable_agent_workflo.Qualified.Journal.Replay.{
  Progress, begin, accept, take_entry, step, steps, Replayed, revision_of, unresolved_ids, finish,
  replay, event_limit,
}

-- What an entry that was not refused did: nothing if its identifier was seen, and else one branch.
abbrev pub Accepted : Host → Companion → Entry → (value : String) → Progress → Progress → Type 0
Accepted host alt e value p p' =
    (lookup e.id p.ids ≡ none)
    × (s : State) × (apply host alt e p.state ≡ ok s)
    × (p' ≡ record { state = s; unique = p.unique ++ e ∷ []; ids = insert e.id value p.ids })

accept_lem :
    (host : Host) (alt : Companion) (e : Entry) (value : String) (p : Progress) {p' : Progress}
    → lookup e.id p.ids ≡ none
    → accept host alt e value p ≡ ok p'
    → Accepted host alt e value p p'
unfolding accept
accept_lem host alt e value p new r =
    let (parent, r1, _) = >>=-eq-ok (revision_of host p.unique) _ r in
    let (current, r2) = raise_if-eq-ok _ _ _ r1 in
    let (s, r3, applied) = >>=-eq-ok (apply host alt e p.state) _ r2 in
    (new, s, applied, ok_injective (sym r3))

check_entry_lem : (given : Entry) {e : Entry} → check_entry given ≡ ok e → given ≡ e
unfolding check_entry
check_entry_lem given r =
    let (valid, r1) = raise_if-eq-ok (not (valid_entry given)) invalid (ok given) r in
    ok_injective r1

abbrev pub Stepped : Host → Companion → Entry → (p p' : Progress) → Type 0
Stepped host alt e p p' =
    (has e.id p.ids ≡ true) × (p' ≡ p) ⊎ (value : String) × Accepted host alt e value p p'

take_entry_lem :
    (host : Host) (alt : Companion) (e : Entry) (value : String) (seen : Option String)
    (p : Progress) {p' : Progress}
    → lookup e.id p.ids ≡ seen
    → take_entry host alt e value seen p ≡ ok p'
    → Stepped host alt e p p'
unfolding take_entry
take_entry_lem host alt e value none p new r = inr (value, accept_lem host alt e value p new r)
take_entry_lem host alt e value (some seen) p found r =
    let (same, r1) = raise_if-eq-ok (not (seen == value)) _ (ok p) r in
    inl (has-lookup e.id p.ids found, ok_injective (sym r1))

pub step_lem :
    (host : Host) (alt : Companion) (given : Entry) (p : Progress) {p' : Progress}
    → step host alt given p ≡ ok p'
    → Stepped host alt given p p'
unfolding step
step_lem host alt given p {p'} r =
    let (e, r1, checked_) = >>=-eq-ok (check_entry given) _ r in
    let (value, r2, _) = >>=-eq-ok (digest host (obj (dump_entry e))) _ r1 in
    let same : given ≡ e = check_entry_lem given checked_ in
    subst (λ x. Stepped host alt x p p') (sym same)
      (take_entry_lem host alt e value (lookup e.id p.ids) p refl r2)

pub finish_lem :
    (host : Host) (p : Progress) {r : Replayed}
    → finish host p ≡ ok r
    → (r.state ≡ p.state) × (revision_of host p.unique ≡ ok r.revision)
unfolding finish
finish_lem host p {r} h =
    let (revision, h1, named) = >>=-eq-ok (revision_of host p.unique) _ h in
    let (unresolved, h2, _) = >>=-eq-ok (unresolved_ids p.state p.state.intents) _ h1 in
    let same : record { state = p.state; revision = revision; unresolved = sorted_set unresolved }
        ≡ r =
      ok_injective h2 in
    (ap (λ (x : Replayed). x.state) (sym same), named ∙ ap (λ (x : Replayed). ok x.revision) same)

pub replay_lem :
    (host : Host) (alt : Companion) (es : List Entry) {r : Replayed}
    → replay host alt es ≡ ok r
    → (ltb event_limit (length es) ≡ false)
      × (p : Progress) × (steps host alt es begin ≡ ok p)
      × (finish host p ≡ ok r)
unfolding replay
replay_lem host alt es r =
    let (short, r1) = raise_if-eq-ok (ltb event_limit (length es)) _ _ r in
    let (p, r2, stepped) = >>=-eq-ok (steps host alt es begin) (finish host) r1 in
    (short, p, stepped, r2)
