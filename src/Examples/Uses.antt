-- ===== src/Examples/Uses.antt =====
-- The journal of the receiver: the qualification is admitted, shown, and used once.
use observable_agent_workflo.Prelude.{some, String, true, false, none, [], ◌∷◌, map}
use observable_agent_workflo.Result.{Result}
use observable_agent_workflo.Json.{Value, strs, end, Fields, str, obj, dict}
use observable_agent_workflo.Kernel.Tools.{Outcome, returned}
use observable_agent_workflo.Storage.{Db}
use observable_agent_workflo.Core.Receipt.{CheckerResult}
use observable_agent_workflo.Checkers.Base.{Context}
use observable_agent_workflo.Checkers.InputSet.{input_set}
use observable_agent_workflo.Promotion.{checker_context}
use observable_agent_workflo.Promotion.Evidence.{collect_event_digests}
use observable_agent_workflo.Qualified.Wire.{digest}
use observable_agent_workflo.Qualified.Model.{Entry, cost}
use observable_agent_workflo.Qualified.Model.Dump.{dump_cost, dump_qualification}
use observable_agent_workflo.Qualified.Journal.Replay.{Replayed, replay, revision_of}
use observable_agent_workflo.Qualified.Journal.Store.{Table, row_entry, append}
use observable_agent_workflo.Qualified.Journal.State.{start, Intent}
use observable_agent_workflo.Prelude.Assoc.{lookup}
use observable_agent_workflo.Qualified.Runtime.{Profiles, admit_qualification}
use observable_agent_workflo.Qualified.Runtime.Retrieve.{Retrieved, retrieve}
use observable_agent_workflo.Qualified.Use.{Tools, Request}
use observable_agent_workflo.Qualified.Use.Effect.{Used, use_qualification}
use observable_agent_workflo.Examples.Hosted.{value_of}
use observable_agent_workflo.Examples.Receiver.{
  memory, host, context, qualification, intent, receipt,
}
use observable_agent_workflo.Examples.Companion.{site}

abbrev pub profiles : Profiles
profiles = ("recv", context) ∷ []

abbrev pub admitted : Result (String × Table)
admitted = admit_qualification site profiles qualification 20 (value_of "" (revision_of host [])) []

abbrev pub opened : String × Table
opened = value_of ("", []) admitted

abbrev pub retrieved : Result Retrieved
retrieved = retrieve site profiles "recv" "b\na" 20 "workflow" 8 opened.1

-- the registered function, at the session's input
abbrev normalizer : Fields → Fields → Outcome
normalizer arguments tool_context = returned (dict (("text", str "a\nb") ∷ []))

abbrev pub tools : Tools
tools = record {
  strict = true;
  adapter = record { tools = ("normalize-lines-v1", normalizer) ∷ []; gate_token = "token" };
}

abbrev pub request : Request
request = record {
  qualification = value_of "" (digest host (obj (dump_qualification qualification)));
  input = "b\na";
  identity = "use-1";
  now = 20;
  expected = opened.0;
  intent = intent;
  receipts = receipt.receipt_id ∷ [];
  cost = record { id = "u1"; stage = "use"; unit = "work-unit"; amount = "1" };
}

-- nobody writes between the two transactions
abbrev pub quiet : Db × Table → Db × Table
quiet p = p

abbrev pub used : Result Used × Table
used = use_qualification site profiles tools request quiet opened.1

abbrev pub left : Result Replayed
left = replay host site.alt (map row_entry used.1)

-- a cost that is recorded behind the admission
abbrev pub extra : Entry
extra = record {
  id = "extra";
  previous = opened.0;
  time = 30;
  kind = cost;
  data_ = dump_cost (record { id = "x1"; stage = "use"; unit = "work-unit"; amount = "1" });
}

abbrev pub appended : Result (String × Table)
appended = append host site.alt (extra ∷ []) opened.0 opened.1

abbrev pub blank_retrieved : Retrieved
blank_retrieved = record { views = []; excluded = []; snapshot = "" }

abbrev pub blank_used : Used
blank_used = record { status = ""; service = false; snapshot = none }

abbrev pub blank_replayed : Replayed
blank_replayed = record { state = start; revision = ""; unresolved = [] }

-- evidence on the memory's sources, and the input-set check of it in a verification
abbrev pub evidence : Fields
evidence = dict (
    ("input_event_ids", strs memory.source_event_ids)
    ∷ ("input_event_digests", obj (collect_event_digests memory site.db).0)
    ∷ [])

abbrev pub no_context : Context
no_context = record { action_intent = none; entries = end }

abbrev pub input_checked : Result CheckerResult
input_checked =
    (input_set host).verify memory evidence
      (checker_context no_context (collect_event_digests memory site.db))

abbrev pub blank_check : CheckerResult
blank_check = record {
  schema_version = "";
  checker_name = "";
  passed = false;
  reason = "";
  evidence_refs = [];
  metrics = end;
}

abbrev pub blank_intent : Intent
blank_intent = record {
  qualification = "";
  input = Value.null;
  action = Value.null;
  cost = "";
  snapshot = Value.null;
}

abbrev pub intent_of : Result Replayed → Intent
intent_of r = elim (lookup "use-1" (value_of blank_replayed r).state.intents) [
  | none ↦ blank_intent
  | some n ↦ n
]

-- a use whose tool is not registered: its outcome is unknown
abbrev idle : Tools
idle = record { strict = true; adapter = record { tools = []; gate_token = "token" } }

abbrev pub failed : Result Used × Table
failed = use_qualification site profiles idle request quiet opened.1

abbrev pub open_ : Result Replayed
open_ = replay host site.alt (map row_entry failed.1)

-- a second use of the same input
abbrev pub second : Request
second = record request { identity = "use-2"; expected = (value_of blank_replayed open_).revision }
