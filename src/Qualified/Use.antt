-- ===== src/Qualified/Use.antt =====
-- qualified/runtime.py: `use`, a local use of the registered tool in two transactions. The first
-- reserves the use in the journal, and stands here. The second runs the tool and records its outcome.
pub mod Served
pub mod Gated
pub mod Performed
pub mod Effect
pub mod Once
use observable_agent_workflo.Prelude.{
  ℕ, String, ◌==◌, Bool, true, false, not, ◌&&◌, ◌||◌, Option, none, some, List, [], ◌∷◌, ◌++◌, cat,
  any, str_mem, starts_with, if◌then◌else◌,
}
use observable_agent_workflo.Prelude.Assoc.{lookup, has}
use observable_agent_workflo.Result.{
  Result, ok, err, Error, value_error, key_error, raise_if, or_raise, ◌>>=◌, ◌>>◌,
}
use observable_agent_workflo.Json.{Host, Value, Fields, str, obj, dict, get, value_eq, digest_json}
use observable_agent_workflo.Core.Receipt.{ActionIntent, CheckerResult}
use observable_agent_workflo.Storage.{Db}
use observable_agent_workflo.Gate.{ensure_allowed}
use observable_agent_workflo.Kernel.Tools.{
  Adapter, ToolCall, ToolResult, dump_intent, get_receipts, invoke_tool,
}
use observable_agent_workflo.Kernel.Audit.{verify_receipt}
use observable_agent_workflo.Qualified.Wire.{digest}
use observable_agent_workflo.Qualified.Model.{
  Context, Cost, Qualification, Entry, Kind, intent, attempt, outcome, checked, reconciled, cost,
}
use observable_agent_workflo.Qualified.Model.Dump.{dump_cost}
use observable_agent_workflo.Qualified.Model.Decode.{decode_qualification}
use observable_agent_workflo.Qualified.Journal.State.{Intent, State}
use observable_agent_workflo.Qualified.Journal.Apply.{is_paid}
use observable_agent_workflo.Qualified.Journal.Replay.{Replayed, replay}
use observable_agent_workflo.Qualified.Journal.Store.{Table, entries, append, event}
use observable_agent_workflo.Qualified.Decision.{View, decision}
use observable_agent_workflo.Qualified.Runtime.{Site, Profiles, is_eligible, tagged}

-- the kernel's profile and tools
pub record Tools : Type 0 where
  pub strict : Bool
  pub adapter : Adapter

-- the arguments of a call of `use`
pub record Request : Type 0 where
  pub qualification : String
  pub input : String
  pub identity : String
  pub now : ℕ
  pub expected : String
  pub intent : ActionIntent
  pub receipts : List String
  pub cost : Cost

abbrev pub args : Request → Fields
args u = dict (("text", str u.input) ∷ [])

unfoldable pub verify_all : Host → Db → List String → Result (Unit {0})
verify_all host db [] = ok tt
verify_all host db (id ∷ ids) = do
  verdict ← verify_receipt host id db
  raise_if (not verdict.passed) (value_error "action receipt integrity failed")
  verify_all host db ids

-- what is checked before anything is written
unfoldable pub check_request : Site → Tools → Request → Result (Unit {0})
check_request site tools u = do
  raise_if
      (not (
        tools.strict
        && u.intent.tool_name == "normalize-lines-v1"
        && u.intent.effect_class == "local-external"
        && u.cost.stage == "use"))
      (value_error "strict registered local use required")
  wanted ← digest_json site.host (obj (args u))
  raise_if (not (u.intent.args_digest == wanted)) (value_error "action arguments mismatch")
  gate ← get_receipts u.receipts site.db
  verify_all site.host site.db u.receipts
  ensure_allowed site.host tools.strict true gate (some u.intent) ""

abbrev pub use_data : Request → Fields
use_data u = dict (
    ("qualification", str u.qualification)
    ∷ ("input", str u.input)
    ∷ ("action", obj (dump_intent u.intent))
    ∷ ("cost", str u.cost.id)
    ∷ ("snapshot", str u.expected)
    ∷ [])

-- what the second transaction knows of the first
pub record Held : Type 0 where
  pub q : Qualification
  pub context : Context
  pub revision : String

pub data Reservation : Type 0 where
  duplicate : (service : Bool) → Reservation
  reserved : Held → Reservation

-- the same use again: the recorded intent must be the same
abbrev pub same_use : Request → State → Intent → Bool
same_use u s n =
    n.qualification == u.qualification
    && value_eq n.input (str u.input)
    && value_eq n.action (obj (dump_intent u.intent))
    && n.cost == u.cost.id
    && is_paid s.costs u.cost

unfoldable pub repeat_use : Request → State → Intent → Result Reservation
repeat_use u s n = do
  raise_if (not (same_use u s n)) (value_error "conflicting use identity")
  ok (duplicate (str_mem u.identity s.services))

-- an unresolved intent on the same qualification and input
abbrev pending_on : Request → List (String × Intent) → String → Bool
pending_on u intents id = elim (lookup id intents) [
  | none ↦ false
  | some n ↦ n.qualification == u.qualification && value_eq n.input (str u.input)
]

abbrev pub use_refused : Error
use_refused = value_error "use eligibility changed"

unfoldable pub first_use :
    Site → Profiles → Request → List Entry → Replayed → Table → Result (Held × Table)
first_use site profiles u old r table = do
  raise_if (any (pending_on u r.state.intents) r.unresolved)
      (value_error "unresolved prior effect; host reconciliation required")
  recorded ← or_raise (lookup u.qualification r.state.qualifications) (key_error u.qualification)
  q ← decode_qualification site.host recorded
  context ← or_raise (lookup q.context.receiver profiles) use_refused
  view ← decision site.host site.validation site.alt site.db q context u.input u.now r
  raise_if (not (is_eligible view)) use_refused
  value ← digest site.host (obj (dump_cost u.cost))
  paid ← event site.host site.alt cost (tagged "use-cost-" value) (dump_cost u.cost) u.now old
  meant ← event site.host site.alt intent u.identity (use_data u) u.now (old ++ paid ∷ [])
  (revision, table') ← append site.host site.alt (paid ∷ meant ∷ []) u.expected table
  ok (record { q = q; context = context; revision = revision }, table')

-- the first transaction, by what the state holds for the identity
unfoldable pub reserve_as :
    Site
    → Profiles
    → Request
    → List Entry
    → Replayed
    → Option Intent
    → Table
    → Result (Reservation × Table)
reserve_as site profiles u old r (some n) table =
    repeat_use u r.state n >>= λ found. ok (found, table)
reserve_as site profiles u old r none table =
    first_use site profiles u old r table >>= λ made. ok (reserved made.0, made.1)

unfoldable pub reserve : Site → Profiles → Request → Table → Result (Reservation × Table)
reserve site profiles u table = do
  old ← entries table
  r ← replay site.host site.alt old
  raise_if (not (r.revision == u.expected)) (value_error "stale expected revision")
  reserve_as site profiles u old r (lookup u.identity r.state.intents) table
