-- ===== src/Qualified/Use/Effect.antt =====
-- qualified/runtime.py: the second transaction of `use`, in which the tool runs, and `use` as a whole.
use observable_agent_workflo.Prelude.{
  String, ◌==◌, Bool, true, not, Option, none, some, List, [], ◌∷◌, ◌++◌, cat, str_mem, starts_with,
  if◌then◌else◌,
}
use observable_agent_workflo.Result.{Result, ok, err, value_error, raise_if, ◌>>=◌, ◌>>◌}
use observable_agent_workflo.Json.{Value, Fields, str, dict, get}
use observable_agent_workflo.Storage.{Db}
use observable_agent_workflo.Kernel.Tools.{ToolResult, invoke_tool}
use observable_agent_workflo.Qualified.Model.{
  Context, Qualification, Entry, Kind, attempt, outcome, checked, reconciled,
}
use observable_agent_workflo.Qualified.Journal.Replay.{replay}
use observable_agent_workflo.Qualified.Journal.Store.{Table, entries, append, event}
use observable_agent_workflo.Qualified.Decision.{decision}
use observable_agent_workflo.Qualified.Runtime.{Site, Profiles, is_eligible}
use observable_agent_workflo.Qualified.Use.{
  duplicate, reserved, Tools, Request, args, check_request, Reservation, reserve,
}

-- `outcome.output.get("text", "") if outcome.ok else ""`
abbrev pub output_text : ToolResult → Value
output_text o =
    if o.is_ok then elim (get "text" o.output) [ none ↦ str "" | some v ↦ v ] else str ""

abbrev pub status_of : ToolResult → String
status_of o =
    if o.is_ok
    then "received"
    else if starts_with o.error "TimeoutError:"
    then "timeout"
    else "unknown"

abbrev by_intent : Request → List (String × Value) → Fields
by_intent u more = dict (("intent", str u.identity) ∷ more)

-- an event about the intent of a use, behind the batch so far
abbrev pub on_intent :
    Site → Request → Kind → (suffix : String) → List (String × Value) → List Entry → Result Entry
on_intent site u kind suffix more before =
    event site.host site.alt kind (cat u.identity suffix) (by_intent u more) u.now before

-- the events behind the attempt, once the tool has run
unfoldable pub use_events :
    Site → Request → ToolResult → (old : List Entry) → (tried : Entry) → Result (List Entry)
use_events site u o old tried = do
  ended ←
      on_intent site u outcome "-outcome"
        (("output", output_text o) ∷ ("status", str (status_of o)) ∷ []) (old ++ tried ∷ [])
  judged ←
      on_intent site u checked "-check" (("checker", str "normalize-checker-v1") ∷ [])
        (old ++ tried ∷ ended ∷ [])
  closed ← on_intent site u reconciled "-reconcile" [] (old ++ tried ∷ ended ∷ judged ∷ [])
  ok (tried ∷ ended ∷ judged ∷ closed ∷ [])

pub record Used : Type 0 where
  pub status : String
  pub service : Bool
  pub snapshot : Option String

-- the end of the second transaction: the events of the outcome, and what their replay says
unfoldable pub record_outcome :
    Site
    → Request
    → (revision : String) → (old : List Entry) → (tried : Entry) → ToolResult
    → Table
    → Result (Used × Table)
record_outcome site u revision old tried o table = do
  batch ← use_events site u o old tried
  (snapshot, table') ← append site.host site.alt batch revision table
  final ← replay site.host site.alt (old ++ batch)
  ok (
    record {
      status = "checked";
      service = str_mem u.identity final.state.services;
      snapshot = some snapshot;
    },
    table',
  )

-- the second transaction
unfoldable pub perform :
    Site
    → Tools
    → Request
    → Qualification
    → Context
    → (revision : String) → Table
    → Result (Used × Table)
perform site tools u q context revision table = do
  old ← entries table
  r ← replay site.host site.alt old
  let changed = value_error "use fence changed; reconcile unresolved intent"
  raise_if (not (r.revision == revision)) changed
  view ← decision site.host site.validation site.alt site.db q context u.input u.now r
  raise_if (not (is_eligible view)) changed
  tried ← on_intent site u attempt "-attempt" [] old
  o ←
      invoke_tool site.host tools.strict tools.adapter
        (record { name = u.intent.tool_name; arguments = args u; external_effect = true }) u.intent
        u.receipts site.db
  record_outcome site u revision old tried o table

-- `with self.store.transaction()`: an exception rolls the table back
unfoldable pub transact : {A : Type 0} → Table → Result (A × Table) → Result A × Table
transact table (err e) = (err e, table)
transact table (ok (a, table')) = (ok a, table')

-- `use`. Between its transactions others may write the database and the journal. A use that fails
-- after the reservation leaves it standing.
unfoldable pub after_reservation :
    Site
    → Tools
    → Request
    → (between : Db × Table → Db × Table) → Reservation
    → Table
    → Result Used × Table
unfolding transact
after_reservation site tools u between (duplicate service) table =
    (ok (record { status = "duplicate"; service = service; snapshot = none }), table)
after_reservation site tools u between (reserved held) table =
    let (db, met) = between (site.db, table) in
    transact met (perform (record site { db = db }) tools u held.q held.context held.revision met)

unfoldable pub resume :
    Site
    → Tools
    → Request
    → (between : Db × Table → Db × Table) → Result Reservation × Table
    → Result Used × Table
resume site tools u between (err e, table) = (err e, table)
resume site tools u between (ok found, table) = after_reservation site tools u between found table

unfoldable pub use_qualification :
    Site
    → Profiles
    → Tools
    → Request
    → (between : Db × Table → Db × Table) → Table
    → Result Used × Table
use_qualification site profiles tools u between table =
    resume site tools u between
      (transact table (check_request site tools u >> reserve site profiles u table))
