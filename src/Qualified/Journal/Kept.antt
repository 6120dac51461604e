-- ===== src/Qualified/Journal/Kept.antt =====
-- qualified/store.py: each branch of `replay` keeps the invariant, for an event whose identifier is new.
use observable_agent_workflo.Prelude.{
  ◌≡◌, refl, sym, ◌∙◌, String, ◌==◌, true, false, not, ◌||◌, List, [], ◌∷◌, all, any, arith,
  Option-cases, inl, inr, subst,
}
use observable_agent_workflo.Prelude.Assoc.{lookup, has, insert, has-lookup, has-insert}
use observable_agent_workflo.Result.{ok, Error, >>=-eq-ok, raise_if-eq-ok}
use observable_agent_workflo.Json.{Host, Fields, Value, str}
use observable_agent_workflo.Checkers.Base.{get_or_none}
use observable_agent_workflo.Qualified.Model.{Cost, Entry}
use observable_agent_workflo.Qualified.Model.Decode.{decode_cost}
use observable_agent_workflo.Qualified.Journal.State.{has_keys, Intent, State}
use observable_agent_workflo.Qualified.Journal.Apply.{
  bound, check_blocking, status_of, is_paid, apply_cost, apply_admit, apply_withdraw,
  apply_invalidate, apply_allegation, apply_exposure, apply_intent, apply_attempt, apply_outcome,
}
use observable_agent_workflo.Qualified.Journal.Backed.{
  is_recorded, Backed, with_cost-Backed, with_qualification-Backed, with_intent-Backed,
  with_attempt-Backed, with_outcome-Backed, with_rest-Backed,
}

-- a key that `bound` returns is in the dict
pub bound_lem :
    {A : Type 0} (v : Value) (d : List (String × A)) (e : Error) (k : String)
    → bound v d e ≡ ok k
    → has k d ≡ true
unfolding bound
bound_lem (str s) d e k h = ground arith
bound_lem Value.null d e k h = absurd (ground arith)
bound_lem (Value.boolean b) d e k h = absurd (ground arith)
bound_lem (Value.int n) d e k h = absurd (ground arith)
bound_lem (Value.float x) d e k h = absurd (ground arith)
bound_lem (Value.arr xs) d e k h = absurd (ground arith)
bound_lem (Value.obj f) d e k h = absurd (ground arith)

-- The state after an event is sound, and its intents are those before and at most the event's own.
pub record Follows (host : Host) (e : Entry) (s s' : State) : Type 0 where
  pub backed : Backed host s'
  pub named : (i : String) → has i s'.intents ≡ true → (e.id == i || has i s.intents) ≡ true

pub follows :
    {host : Host} (e : Entry) (s : State) {x s' : State}
    → ok x ≡ ok s'
    → Backed host x
    → ((i : String) → has i x.intents ≡ true → (e.id == i || has i s.intents) ≡ true)
    → Follows host e s s'
follows {host} e s {x} {s'} r h names =
    let same : x ≡ s' = ground arith in
    subst (Follows host e s) same (record { backed = h; named = names })

pub known_names :
    (e : Entry) (s : State) (i : String)
    → has i s.intents ≡ true
    → (e.id == i || has i s.intents) ≡ true
known_names e s i m = ground arith

new_names :
    (e : Entry) (s : State) (n : Intent) (i : String)
    → has i (insert e.id n s.intents) ≡ true
    → (e.id == i || has i s.intents) ≡ true
new_names e s n i m = sym (has-insert i e.id n s.intents) ∙ m

is_paid-recorded :
    (costs : List (String × Fields)) (c : Cost)
    → is_paid costs c ≡ true
    → is_recorded costs c ≡ true
is_paid-recorded costs c h = elim (Option-cases (lookup c.id costs)) [
  | inl missing ↦ absurd (ground arith)
  | inr (f, found) ↦ has-lookup c.id costs found
]

paid_recorded :
    (costs : List (String × Fields)) (cs : List Cost)
    → any (λ c. not (is_paid costs c)) cs ≡ false
    → all (is_recorded costs) cs ≡ true
paid_recorded costs [] h = refl
paid_recorded costs (c ∷ cs) h = ground (arith, is_paid-recorded costs c, paid_recorded costs cs)

module _ {host : Host} (e : Entry) (s : State) {s' : State} (h : Backed host s) where
  pub apply_cost-Follows : apply_cost host e s ≡ ok s' → Follows host e s s'
  unfolding apply_cost
  apply_cost-Follows r =
      let (c, r1, decoded) = >>=-eq-ok (decode_cost host e.data_) _ r in
      let (fresh, r2) = raise_if-eq-ok _ _ _ r1 in
      follows e s r2 (with_cost-Backed h c.id e.data_) (known_names e s)

  pub apply_admit-Follows : apply_admit host e s ≡ ok s' → Follows host e s s'
  unfolding apply_admit
  apply_admit-Follows r =
      let (q, r1, decoded) = >>=-eq-ok _ _ r in
      let (paid, r2) = raise_if-eq-ok _ _ _ r1 in
      let (key, r3, named) = >>=-eq-ok _ _ r2 in
      follows e s r3
        (with_qualification-Backed h key e.data_
          (q, decoded, named, paid_recorded s.costs q.costs paid))
        (known_names e s)

  pub apply_intent-Follows :
      has e.id s.intents ≡ false → apply_intent e s ≡ ok s' → Follows host e s s'
  unfolding apply_intent
  apply_intent-Follows fresh r =
      let (shaped, r1) = raise_if-eq-ok _ _ _ r in
      let (q, r2, known) = >>=-eq-ok _ _ r1 in
      let (c, r3, recorded) = >>=-eq-ok _ _ r2 in
      follows e s r3
        (with_intent-Backed h e.id _ fresh (bound_lem _ _ _ q known) (bound_lem _ _ _ c recorded))
        (new_names e s _)

  pub apply_attempt-Follows : apply_attempt e s ≡ ok s' → Follows host e s s'
  unfolding apply_attempt
  apply_attempt-Follows r =
      let (shaped, r1) = raise_if-eq-ok _ _ _ r in
      let (i, r2, known) = >>=-eq-ok _ _ r1 in
      let (fresh, r3) = raise_if-eq-ok _ _ _ r2 in
      follows e s r3 (with_attempt-Backed h i e.id (bound_lem _ _ _ i known)) (known_names e s)

  pub apply_outcome-Follows : apply_outcome e s ≡ ok s' → Follows host e s s'
  unfolding apply_outcome
  apply_outcome-Follows r =
      let (shaped, r1) = raise_if-eq-ok _ _ _ r in
      let (i, r2, known) = >>=-eq-ok _ _ r1 in
      let (fresh, r3) = raise_if-eq-ok _ _ _ r2 in
      let (status, r4, in_range) = >>=-eq-ok (status_of (get_or_none "status" e.data_)) _ r3 in
      follows e s r4 (with_outcome-Backed h i _ (bound_lem _ _ _ i known) fresh) (known_names e s)

  -- the branches that leave the dicts of the invariant alone
  pub apply_withdraw-Follows : apply_withdraw e s ≡ ok s' → Follows host e s s'
  unfolding apply_withdraw
  apply_withdraw-Follows r =
      let (u, r1, shaped) = >>=-eq-ok (check_blocking _ e.data_) _ r in
      follows e s r1 (with_rest-Backed h s.blocks _ s.exposures s.allegations) (known_names e s)

  pub apply_invalidate-Follows : apply_invalidate e s ≡ ok s' → Follows host e s s'
  unfolding apply_invalidate
  apply_invalidate-Follows r =
      let (u, r1, shaped) = >>=-eq-ok (check_blocking _ e.data_) _ r in
      follows e s r1 (with_rest-Backed h _ s.withdrawn s.exposures s.allegations) (known_names e s)

  pub apply_allegation-Follows : apply_allegation e s ≡ ok s' → Follows host e s s'
  unfolding apply_allegation
  apply_allegation-Follows r =
      let (u, r1, shaped) = >>=-eq-ok (check_blocking _ e.data_) _ r in
      follows e s r1 (with_rest-Backed h s.blocks s.withdrawn s.exposures _) (known_names e s)

  pub apply_exposure-Follows : apply_exposure e s ≡ ok s' → Follows host e s s'
  unfolding apply_exposure
  apply_exposure-Follows r =
      let (shaped, r1) =
        raise_if-eq-ok (not (has_keys ("qualification" ∷ "input" ∷ []) e.data_)) _ _ r in
      let (q, r2, known) =
        >>=-eq-ok (bound (get_or_none "qualification" e.data_) s.qualifications _) _ r1 in
      follows e s r2 (with_rest-Backed h s.blocks s.withdrawn _ s.allegations) (known_names e s)
