-- ===== src/Qualified/Runtime.antt =====
-- qualified/runtime.py: `ReceiverRuntime`, its registry of receivers, admission, retrieval, exposure to
-- a language model, and the recording of other events. A method gives the journal's table back.
pub mod Views
pub mod Retrieve
pub mod Exposed
use observable_agent_workflo.Prelude.{
  ℕ, String, ◌==◌, Bool, true, false, not, ◌&&◌, ◌||◌, Option, none, some, List, [], ◌∷◌, ◌++◌, map,
  cat, length, ltb, leb, prefix, if◌then◌else◌,
}
use observable_agent_workflo.Prelude.Assoc.{lookup, has, insert}
use observable_agent_workflo.Result.{
  Result, ok, err, Error, value_error, raise_if, or_raise, ◌>>=◌, ◌>>◌,
}
use observable_agent_workflo.Json.{Host, Fields, obj}
use observable_agent_workflo.Storage.{Db}
use observable_agent_workflo.Checkers.Base.{Validation, distinct}
use observable_agent_workflo.Qualified.Wire.{digest}
use observable_agent_workflo.Qualified.Model.{
  Context, Cost, Qualification, Entry, Kind, valid_context, cost, admit, invalidate, withdraw,
  allegation, correction,
}
use observable_agent_workflo.Qualified.Model.Dump.{dump_cost, dump_qualification, context_eq}
use observable_agent_workflo.Qualified.Model.Decode.{invalid}
use observable_agent_workflo.Qualified.Native.{Companion}
use observable_agent_workflo.Qualified.Native.Reconstruct.{reconstruct}
use observable_agent_workflo.Qualified.Journal.Replay.{Replayed, replay}
use observable_agent_workflo.Qualified.Journal.Store.{Table, entries, append, event}
use observable_agent_workflo.Qualified.Eligibility.{promotion}
use observable_agent_workflo.Qualified.Decision.{View, decision, eligible}

-- `self.profiles`
abbrev pub Profiles : Type 0
Profiles = List (String × Context)

abbrev receiver_of : Context → String
receiver_of c = c.receiver

abbrev register_all : List Context → Profiles → Result Profiles
register_all [] registered = ok registered
register_all (c ∷ cs) registered = do
  raise_if (not (valid_context c)) invalid
  register_all cs (insert c.receiver c registered)

-- `__init__`
unfoldable pub registry : List Context → Result Profiles
registry profiles = do
  raise_if (ltb 8 (length profiles) || not (distinct (map receiver_of profiles)))
      (value_error "receiver registry limit or duplicate")
  register_all profiles []

abbrev pub is_eligible : View → Bool
is_eligible view = view.current_memory_eligibility == eligible

-- what the methods share: the host, the companions and the legacy tables
pub record Site : Type 0 where
  pub host : Host
  pub validation : Validation
  pub alt : Companion
  pub db : Db

-- `"cost-" + digest(cost)[:24]`
abbrev pub tagged : String → String → String
tagged tag value = cat tag (prefix 24 value)

-- a cost that the journal does not have yet gets an event
unfoldable pub cost_event :
    Site → (now : ℕ) → (old batch : List Entry) → Cost → (known : Bool) → Result (List Entry)
cost_event site now old batch c true = ok batch
cost_event site now old batch c false = do
  value ← digest site.host (obj (dump_cost c))
  e ← event site.host site.alt cost (tagged "cost-" value) (dump_cost c) now (old ++ batch)
  ok (batch ++ e ∷ [])

unfoldable pub cost_events :
    Site → (now : ℕ) → (old : List Entry) → List Cost → (batch : List Entry) → Result (List Entry)
cost_events site now old [] batch = ok batch
cost_events site now old (c ∷ cs) batch = do
  r ← replay site.host site.alt (old ++ batch)
  more ← cost_event site now old batch c (has c.id r.state.costs)
  cost_events site now old cs more

-- every input of the context must be eligible
unfoldable pub check_inputs :
    Site → Qualification → Context → (inputs : List String) (now : ℕ) → Replayed → Result (Unit {0})
check_inputs site q context [] now r = ok tt
check_inputs site q context (input ∷ inputs) now r = do
  view ← decision site.host site.validation site.alt site.db q context input now r
  raise_if (not (is_eligible view))
      (value_error "admission blocked; fresh scoped evidence required")
  check_inputs site q context inputs now r

abbrev registered : Profiles → Qualification → Bool
registered profiles q = elim (lookup q.context.receiver profiles) [
  | none ↦ false
  | some context ↦ context_eq context q.context
]

-- a qualification that is admitted already changes nothing
unfoldable pub append_admission :
    Site
    → Qualification
    → (key : String) → (known : Bool) → (now : ℕ) → (old batch : List Entry) → (expected : String)
    → Table
    → Result (String × Table)
append_admission site q key true now old batch expected table = ok (expected, table)
append_admission site q key false now old batch expected table = do
  e ← event site.host site.alt admit (tagged "admit-" key) (dump_qualification q) now (old ++ batch)
  append site.host site.alt (batch ++ e ∷ []) expected table

-- `admit`, with the revision that it returns
unfoldable pub admit_qualification :
    Site
    → Profiles
    → Qualification
    → (now : ℕ) (expected : String) → Table
    → Result (String × Table)
admit_qualification site profiles q now expected table = do
  raise_if (not (registered profiles q)) (value_error "unregistered receiver context")
  old ← entries table
  current ← replay site.host site.alt old
  raise_if (not (current.revision == expected)) (value_error "stale expected revision")
  memory ← promotion site.host site.validation site.db q
  reconstruct site.host site.alt q now
  batch ← cost_events site now old q.costs []
  r ← replay site.host site.alt (old ++ batch)
  check_inputs site q q.context q.context.inputs now r
  key ← digest site.host (obj (dump_qualification q))
  append_admission site q key (has key r.state.qualifications) now old batch expected table

-- the kinds that `record` takes
abbrev pub recordable : Kind → Bool
recordable invalidate = true
recordable withdraw = true
recordable allegation = true
recordable cost = true
recordable correction = true
recordable _ = false

unfoldable pub record_event :
    Site
    → Kind
    → (identity : String) (data_ : Fields) (now : ℕ) (expected : String) → Table
    → Result (String × Table)
record_event site kind identity data_ now expected table = do
  raise_if (not (recordable kind))
      (value_error "use checked runtime APIs for admission and outcomes")
  old ← entries table
  e ← event site.host site.alt kind identity data_ now old
  append site.host site.alt (e ∷ []) expected table
