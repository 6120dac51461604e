-- ===== src/Examples/Session.antt =====
-- A session on the concrete host: an event is observed, a memory proposed, verified and promoted.
use observable_agent_workflo.Prelude.{true, false, none, some, List, [], ◌∷◌}
use observable_agent_workflo.Result.{Result, ok}
use observable_agent_workflo.Json.{int, str, dict, end}
use observable_agent_workflo.Core.Lane.{Lane, MemoryOperation}
use observable_agent_workflo.Core.Record.{MemoryRecord}
use observable_agent_workflo.Core.Receipt.{
  Profile, PromotionReceipt, passed, ActionIntent, create_intent,
}
use observable_agent_workflo.Storage.{World, upsert_memory_record}
use observable_agent_workflo.Checkers.Base.{Context}
use observable_agent_workflo.Checkers.InputSet.{input_set}
use observable_agent_workflo.Checkers.Manifest.{candidate_digest}
use observable_agent_workflo.Checkers.Boundary.{deterministic_boundary}
use observable_agent_workflo.Checkers.Caps.{resource_caps}
use observable_agent_workflo.Promotion.{Pipeline, verify, promote}
use observable_agent_workflo.Kernel.{observe, retrieve}
use observable_agent_workflo.Kernel.Propose.{propose_memory}
use observable_agent_workflo.Prelude.Int.{pos}
use observable_agent_workflo.Storage.Search.{RetrievedMemory, search_memory}
use observable_agent_workflo.Kernel.Run.{Complete, LlmResult, run}
use observable_agent_workflo.Kernel.Change.{correct_memory, contradict, retire, supersede}
use observable_agent_workflo.Kernel.Tools.{ToolCall, ToolResult, Adapter, returned}
use observable_agent_workflo.Kernel.Audit.{AuditRow, audit_receipts}
use observable_agent_workflo.Kernel.Consolidate.{consolidate_run}
use observable_agent_workflo.Examples.Hosted.{host, start, value_of}

abbrev pub blank_record : MemoryRecord
blank_record = record {
  schema_version = "1.1";
  memory_id = "";
  update_id = "";
  lane = Lane.raw;
  claim = "";
  source_event_ids = [];
  evidence_refs = [];
  supersedes = [];
  contradicts = [];
  workflow_contract_id = none;
  receipt_id = none;
  status_reason = "";
  metadata = end;
  created_at = "";
  updated_at = "";
}

abbrev pub blank_receipt : PromotionReceipt
blank_receipt = record {
  schema_version = "1.1";
  receipt_id = "";
  verification_id = "";
  receipt_digest = "";
  candidate_id = "";
  candidate_update_id = "";
  bound_action_id = none;
  profile = Profile.strict;
  checks = [];
  result = passed;
  evidence_refs = [];
  created_at = "";
}

abbrev pub pipeline : Pipeline
pipeline = record {
  checkers =
      input_set host ∷ candidate_digest host ∷ deterministic_boundary ∷ resource_caps 128 ∷ [];
  profile = Profile.strict;
}

-- an action that the run in the session takes
abbrev blank_intent : ActionIntent
blank_intent = record {
  schema_version = "1.1";
  action_id = "";
  tool_name = "";
  effect_class = "";
  args_digest = "";
  required_contract_id = none;
  required_receipt_id = none;
  resource_caps = end;
}

abbrev pub intent_made : Result ActionIntent
intent_made =
    create_intent host "kernel.run" "external" (dict (("task", str "build") ∷ [])) none none
      (dict (("max_steps", int (pos 2)) ∷ []))

abbrev pub intent : ActionIntent
intent = value_of blank_intent intent_made

abbrev pub context : Context
context = record { action_intent = some intent; entries = end }

abbrev pub observed : World
observed = (observe host "task" (dict (("text", str "build") ∷ [])) (some "r1") [] true start).1

abbrev pub proposed : Result MemoryRecord × World
proposed = propose_memory host "r1" "session" none none none observed

abbrev pub proposal : MemoryRecord
proposal = value_of blank_record proposed.0

abbrev pub verified : Result PromotionReceipt × World
verified = verify host pipeline proposal.memory_id none context proposed.1

abbrev pub receipt : PromotionReceipt
receipt = value_of blank_receipt verified.0

abbrev pub promoted : Result MemoryRecord × World
promoted = promote host proposal.memory_id verified.1

abbrev pub complete : Complete
complete messages tools model =
    ok (record { content = "done"; model = none; usage = end; raw = end })

abbrev pub blank_result : LlmResult
blank_result = record { content = ""; model = none; usage = end; raw = end }

abbrev pub ran : Result LlmResult × World
ran =
    run host true complete "build" none true none (some "r2") (receipt.receipt_id ∷ [])
      (some intent) promoted.1

abbrev pub retrieved : Result (List RetrievedMemory) × World
retrieved = retrieve host "build" "admissible" 5 none promoted.1

abbrev pub corrected : Result MemoryRecord × World
corrected = correct_memory host proposal.memory_id "a better way" none [] promoted.1

abbrev pub contradicted : Result MemoryRecord × World
contradicted = contradict host proposal.memory_id "it fails" [] "a run failed" promoted.1

abbrev pub retired : Result MemoryRecord × World
retired = retire host proposal.memory_id "obsolete" promoted.1

abbrev pub revived : Result PromotionReceipt × World
revived = verify host pipeline proposal.memory_id none context retired.1

-- a second memory, which takes the place of the first
abbrev pub followed : Result MemoryRecord × World
followed =
    propose_memory host "r2" "session" none none none
      (observe host "task" (dict (("text", str "test") ∷ [])) (some "r2") [] true promoted.1).1

abbrev pub follower : MemoryRecord
follower = value_of blank_record followed.0

abbrev pub follower_verified : Result PromotionReceipt × World
follower_verified = verify host pipeline follower.memory_id none context followed.1

abbrev pub replaced : Result MemoryRecord × World
replaced =
    supersede host proposal.memory_id follower.memory_id
      (value_of blank_receipt follower_verified.0).receipt_id
      (promote host follower.memory_id follower_verified.1).1

abbrev pub call : ToolCall
call = record {
  name = "kernel.run";
  arguments = dict (("task", str "build") ∷ []);
  external_effect = true;
}

abbrev pub adapter : Adapter
adapter = record {
  tools = ("kernel.run", λ arguments context. returned arguments) ∷ [];
  gate_token = "token";
}

abbrev pub blank_tool_result : ToolResult
blank_tool_result = record { call_name = ""; is_ok = false; output = end; error = "" }

abbrev pub written : Result MemoryRecord × World
written = upsert_memory_record host proposal MemoryOperation.write "again" none none promoted.1

abbrev pub rows : Result (List AuditRow)
rows = audit_receipts host true pipeline.checkers promoted.1.db

abbrev pub searched : Result (List RetrievedMemory)
searched = search_memory host "build" (Lane.certified ∷ []) 5 promoted.1.db

abbrev pub consolidated : Result MemoryRecord × World
consolidated = consolidate_run host pipeline "r1" observed
