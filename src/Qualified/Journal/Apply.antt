-- ===== src/Qualified/Journal/Apply.antt =====
-- qualified/store.py: the branches of `replay`, one for each kind of event.
use observable_agent_workflo.Prelude.{
  String, Bool, true, false, not, ◌||◌, Option, none, some, List, [], ◌∷◌, ◌++◌, any,
}
use observable_agent_workflo.Prelude.Assoc.{lookup, has, insert}
use observable_agent_workflo.Result.{Result, ok, Error, value_error, raise_if, ◌>>=◌, ◌>>◌}
use observable_agent_workflo.Json.{Host, Value, Fields, obj, value_eq}
use observable_agent_workflo.Checkers.Base.{get_or_none, all_strs}
use observable_agent_workflo.Qualified.Wire.{digest}
use observable_agent_workflo.Qualified.Model.{Cost, Entry}
use observable_agent_workflo.Qualified.Model.Dump.{dump_cost, dump_qualification}
use observable_agent_workflo.Qualified.Model.Decode.{decode_cost, decode_qualification}
use observable_agent_workflo.Qualified.Journal.State.{
  Block, Withdrawal, Intent, Outcome, Exposure, State, has_keys, key_in, text_of,
}

-- `state["costs"].get(c.id) == c.model_dump()`
abbrev pub is_paid : List (String × Fields) → Cost → Bool
is_paid costs c = elim (lookup c.id costs) [
  | none ↦ false
  | some kept ↦ value_eq (obj kept) (obj (dump_cost c))
]

-- a cost that is recorded already with other data
abbrev conflicts : Fields → Option Fields → Bool
conflicts given none = false
conflicts given (some old) = not (value_eq (obj old) (obj given))

unfoldable pub apply_cost : Host → Entry → State → Result State
apply_cost host e s = do
  c ← decode_cost host e.data_
  raise_if (conflicts e.data_ (lookup c.id s.costs)) (value_error "conflicting physical cost")
  ok (record s { costs = insert c.id e.data_ s.costs })

unfoldable pub apply_admit : Host → Entry → State → Result State
apply_admit host e s = do
  q ← decode_qualification host e.data_
  raise_if (any (λ c. not (is_paid s.costs c)) q.costs)
      (value_error "unpaid qualification obligations")
  key ← digest host (obj (dump_qualification q))
  ok (record s { qualifications = insert key e.data_ s.qualifications })

abbrev the_text : String → Fields → String
the_text name f = text_of (get_or_none name f)

abbrev pub block_of : Entry → Block
block_of e = record {
  artifact = get_or_none "artifact" e.data_;
  context = the_text "context" e.data_;
  input = the_text "input" e.data_;
  reason = the_text "reason" e.data_;
  time = e.time;
  event = e.id;
}

-- the keys and texts of the data of an event that blocks
unfoldable pub check_blocking : List String → Fields → Result (Unit {0})
check_blocking required data_ =
    raise_if (not (has_keys required data_) || not (all_strs data_))
      (value_error "invalid blocking event")

abbrev pub blocking_keys : List String
blocking_keys = "artifact" ∷ "context" ∷ "input" ∷ "reason" ∷ []

unfoldable pub apply_withdraw : Entry → State → Result State
apply_withdraw e s = do
  check_blocking ("dependency" ∷ "reason" ∷ []) e.data_
  let w : Withdrawal = record {
    dependency = the_text "dependency" e.data_;
    reason = the_text "reason" e.data_;
    time = e.time;
    event = e.id;
  }
  ok (record s { withdrawn = s.withdrawn ++ w ∷ [] })

unfoldable pub apply_invalidate : Entry → State → Result State
apply_invalidate e s = do
  check_blocking blocking_keys e.data_
  ok (record s { blocks = s.blocks ++ block_of e ∷ [] })

unfoldable pub apply_allegation : Entry → State → Result State
apply_allegation e s = do
  check_blocking blocking_keys e.data_
  ok (record s { allegations = s.allegations ++ block_of e ∷ [] })

-- the text of a value that must be a key of the dict
unfoldable pub bound {ℓ} : {A : Type ℓ} → Value → List (String × A) → Error → Result String
bound v d e = do found ← key_in v d; raise_if (not found) e; ok (text_of v)

unfoldable pub apply_exposure : Entry → State → Result State
unfolding bound
apply_exposure e s = do
  raise_if (not (has_keys ("qualification" ∷ "input" ∷ []) e.data_))
      (value_error "unbound exposure")
  q ← bound (get_or_none "qualification" e.data_) s.qualifications (value_error "unbound exposure")
  let x : Exposure = record { qualification = q; input = get_or_none "input" e.data_ }
  ok (record s { exposures = s.exposures ++ x ∷ [] })

abbrev pub unbound_intent : Error
unbound_intent = value_error "unbound use intent or cost"

unfoldable pub apply_intent : Entry → State → Result State
unfolding bound
apply_intent e s = do
  raise_if
      (not (has_keys ("qualification" ∷ "input" ∷ "action" ∷ "cost" ∷ "snapshot" ∷ []) e.data_))
      unbound_intent
  q ← bound (get_or_none "qualification" e.data_) s.qualifications unbound_intent
  c ← bound (get_or_none "cost" e.data_) s.costs unbound_intent
  let n : Intent = record {
    qualification = q;
    input = get_or_none "input" e.data_;
    action = get_or_none "action" e.data_;
    cost = c;
    snapshot = get_or_none "snapshot" e.data_;
  }
  ok (record s { intents = insert e.id n s.intents })

abbrev pub bad_attempt : Error
bad_attempt = value_error "missing or repeated attempt"

unfoldable pub apply_attempt : Entry → State → Result State
unfolding bound
apply_attempt e s = do
  raise_if (not (has_keys ("intent" ∷ []) e.data_)) bad_attempt
  i ← bound (get_or_none "intent" e.data_) s.intents bad_attempt
  raise_if (has i s.attempts) bad_attempt
  ok (record s { attempts = insert i e.id s.attempts })

abbrev pub unbound_outcome : Error
unbound_outcome = value_error "unbound outcome"

-- `data["status"] in {...}`
unfoldable pub status_of : Value → Result String
status_of v = do
  known ← key_in v (("received", true) ∷ ("timeout", true) ∷ ("unknown", true) ∷ [])
  raise_if (not known) unbound_outcome
  ok (text_of v)

unfoldable pub apply_outcome : Entry → State → Result State
unfolding bound status_of
apply_outcome e s = do
  raise_if (not (has_keys ("intent" ∷ "output" ∷ "status" ∷ []) e.data_)) unbound_outcome
  i ← bound (get_or_none "intent" e.data_) s.attempts unbound_outcome
  raise_if (has i s.outcomes) unbound_outcome
  status ← status_of (get_or_none "status" e.data_)
  let o : Outcome = record { output = get_or_none "output" e.data_; status = status }
  ok (record s { outcomes = insert i o s.outcomes })
