-- ===== src/Examples/Gates.antt =====
-- The theorems about the gate, retrieval and receipts, at the session's run and receipt.
use observable_agent_workflo.Prelude.{◌≡◌, ◌↔◌, true, none, some, List, [], ◌∷◌, All}
use observable_agent_workflo.Result.{Result, ok}
use observable_agent_workflo.Json.{Fields, dict}
use observable_agent_workflo.Core.Lane.{Lane, certified}
use observable_agent_workflo.Core.Receipt.{
  ActionIntent, CheckerResult, EvidenceManifest, PromotionReceipt,
}
use observable_agent_workflo.Core.Transitions.{admissible_lanes_for_mode}
use observable_agent_workflo.Storage.{list_receipts}
use observable_agent_workflo.Storage.Search.{RetrievedMemory, search_memory}
use observable_agent_workflo.Storage.Search.Lanes.{Shows, search_memory-Shows}
use observable_agent_workflo.Gate.{ensure_allowed}
use observable_agent_workflo.Gate.Sound.{Permits, ensure_allowed_iff}
use observable_agent_workflo.Receipts.{verify_receipt}
use observable_agent_workflo.Receipts.Integrity.{Attests, verify_receipt_iff}
use observable_agent_workflo.Kernel.Tools.{
  ToolResult, Outcome, find_tool, run_tool, get_receipts, invoke_tool,
}
use observable_agent_workflo.Kernel.Run.{messages}
use observable_agent_workflo.Kernel.{memory_ids}
use observable_agent_workflo.Kernel.Logged.{Logged}
use observable_agent_workflo.Core.Event.{StoredEvent}
use observable_agent_workflo.Core.Lane.{MemoryOperation}
use observable_agent_workflo.Kernel.Exposure.{IsCertified, asked, run_sound, retrieve-Shows}
use observable_agent_workflo.Kernel.Admission.{Admitted, tool_context, invoke_tool_iff}
use observable_agent_workflo.Kernel.Attested.{RowsSound, audit_receipts_sound}
use observable_agent_workflo.Examples.Hosted.{host, value_of, host-MatchesRows}
use observable_agent_workflo.Examples.Session.{
  pipeline, intent, proposal, receipt, promoted, complete, ran, retrieved, blank_result, call,
  adapter, rows, blank_tool_result,
}
use observable_agent_workflo.Examples.Steps.{
  promoted-IsConsistent, ran_is, retrieved_is, rows_is, searched_is,
}

ensure_allowed_iff_example :
    (ensure_allowed host true true (receipt ∷ []) (some intent) "" ≡ ok tt)
    ↔ ((i : ActionIntent) × (some intent ≡ some i) × Permits host i (receipt ∷ []))
ensure_allowed_iff_example = ensure_allowed_iff host (receipt ∷ []) (some intent) ""

run_sound_example :
    ((ms : List RetrievedMemory) × All
        (IsCertified (asked host "build" (some "r2") promoted.1).db)
        ms
      × (complete (messages ms "build") none none ≡ ok (value_of blank_result ran.0)))
    × (true ≡ true
        → (i : ActionIntent) × (some intent ≡ some i)
          × (rs : List PromotionReceipt) × (get_receipts (receipt.receipt_id ∷ []) promoted.1.db
              ≡ ok rs)
          × Permits host i rs)
run_sound_example =
    run_sound host complete "build" none true none (some "r2") (receipt.receipt_id ∷ [])
      (some intent) promoted.1 host-MatchesRows promoted-IsConsistent (value_of blank_result ran.0)
      ran.1 ran_is

retrieve-Shows_example :
    (lanes : List Lane) × (e : StoredEvent) × (admissible_lanes_for_mode "admissible" ≡ ok lanes)
    × All (Shows promoted.1.db lanes) (value_of [] retrieved.0)
    × Logged MemoryOperation.read
        (memory_ids (value_of [] retrieved.0))
        promoted.1.events
        retrieved.1.events
        e
retrieve-Shows_example =
    retrieve-Shows host "build" "admissible" 5 none promoted.1 host-MatchesRows
      promoted-IsConsistent (value_of [] retrieved.0) retrieved.1 retrieved_is

abbrev found : Result (List RetrievedMemory)
found = search_memory host "build" (certified ∷ []) 5 promoted.1.db

search_memory-Shows_example : All (Shows promoted.1.db (certified ∷ [])) (value_of [] found)
search_memory-Shows_example =
    search_memory-Shows host "build" (certified ∷ []) 5 promoted.1.db host-MatchesRows
      promoted-IsConsistent (value_of [] found) searched_is

abbrev invoked : ToolResult
invoked =
    value_of blank_tool_result
      (invoke_tool host true adapter call intent (receipt.receipt_id ∷ []) promoted.1.db)

invoke_tool_iff_example :
    (invoke_tool host true adapter call intent (receipt.receipt_id ∷ []) promoted.1.db ≡ ok invoked)
    ↔ (Admitted host call intent (receipt.receipt_id ∷ []) promoted.1.db
        × (invoked
            ≡ run_tool call (find_tool call.name adapter.tools) (tool_context adapter call intent)))
invoke_tool_iff_example =
    invoke_tool_iff host adapter call intent (receipt.receipt_id ∷ []) promoted.1.db invoked

abbrev echo : Fields → Fields → Outcome
echo arguments context = Outcome.returned arguments

abbrev manifest : EvidenceManifest
manifest = record {
  schema_version = "1.1";
  manifest_id = "evm_1";
  candidate_id = proposal.memory_id;
  candidate_update_id = proposal.update_id;
  input_event_ids = [];
  input_event_digests = dict [];
  candidate_digest = "";
  replay_digest = "";
  declared_tools = [];
  resource_caps = dict [];
  created_at = "";
}

verify_receipt_iff_example :
    ((v : CheckerResult) × (verify_receipt host receipt manifest (some proposal) ≡ ok v)
      × (v.passed ≡ true))
    ↔ Attests host receipt manifest proposal
verify_receipt_iff_example = verify_receipt_iff host receipt manifest proposal

audit_receipts_sound_example :
    RowsSound host promoted.1.db true pipeline.checkers
      (list_receipts none promoted.1.db)
      (value_of [] rows)
audit_receipts_sound_example =
    audit_receipts_sound host true pipeline.checkers promoted.1.db (value_of [] rows) rows_is
