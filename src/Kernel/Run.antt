-- ===== src/Kernel/Run.antt =====
-- `run` of runtime/kernel.py. The language model is behind ports/llm.py: a parameter.
use observable_agent_workflo.Prelude.{
  String, ◌==◌, Bool, true, false, not, Option, none, some, List, [], ◌∷◌, cat, join, map,
}
use observable_agent_workflo.Result.{
  Result, ok, fail_closed_error, raise_if, ◌>>=◌ as ◌>>=ᵣ◌, ◌>>◌ as ◌>>ᵣ◌,
}
use observable_agent_workflo.Exec.{lift, pure, reads, ◌>>=◌, ◌>>◌}
use observable_agent_workflo.Json.{Host, Items, Fields, str, obj, dict, opt_str, digest_json}
use observable_agent_workflo.Core.Lane.{MemoryOperation}
use observable_agent_workflo.Core.Receipt.{ActionIntent}
use observable_agent_workflo.Storage.{World, Action}
use observable_agent_workflo.Storage.Search.{RetrievedMemory}
use observable_agent_workflo.Gate.{ensure_allowed}
use observable_agent_workflo.Kernel.{
  actual_run_id, observe, record_memory_operation, retrieve, memory_ids,
}
use observable_agent_workflo.Kernel.Tools.{get_receipts}

pub record LlmMessage : Type 0 where
  pub role : String
  pub content : String

pub record LlmResult : Type 0 where
  pub content : String
  pub model : Option String
  pub usage : Fields
  pub raw : Fields

-- `LLMProvider.complete`
abbrev pub Complete : Type 0
Complete = List LlmMessage → (tools : Option Items) → (model : Option String) → Result LlmResult

-- an intent for a run names the tool "kernel.run" and binds the task
unfoldable pub check_run_intent :
    Host → (task : String) (external_effects : Bool) → Option ActionIntent → Result (Unit {0})
check_run_intent host task false intent = ok tt
check_run_intent host task true none = ok tt
check_run_intent host task true (some intent) =
    raise_if (not (intent.tool_name == "kernel.run"))
      (fail_closed_error "kernel.run action intent must use tool_name='kernel.run'")
    >>ᵣ digest_json host (obj (dict (("task", str task) ∷ [])))
    >>=ᵣ λ digest.
        raise_if (not (intent.args_digest == digest))
          (fail_closed_error "kernel.run task does not match action intent digest")

-- the messages: the memories that were retrieved, one to a line, and the task
unfoldable pub messages : List RetrievedMemory → (task : String) → List LlmMessage
messages memories task =
    record {
      role = "system";
      content =
          "You are connected to observable workflow memory. Use only certified memories provided in the context.";
    }
    ∷ record {
      role = "user";
      content = cat "Certified memory:\n" (
          cat (join "\n" (map (λ (m : RetrievedMemory). cat "- " m.claim) memories))
            (cat "\n\nTask:\n" task));
    }
    ∷ []

-- the run itself, once the gate has let it through
unfoldable pub run_task :
    Host
    → Complete
    → (task : String) → Option Items
    → (model run_id : Option String) → Action LlmResult
run_task host complete task tools model run_id = do
  run ← actual_run_id host run_id
  observe host "task" (dict (("task", str task) ∷ [])) (some run) [] true
  memories ← retrieve host task "admissible" 5 (some run)
  record_memory_operation host MemoryOperation.use_ run (memory_ids memories)
      (dict (("task", str task) ∷ ("mode", str "admissible") ∷ []))
  result ← lift (complete (messages memories task) tools model)
  observe host "llm_result"
      (dict (
        ("task", str task)
        ∷ ("content", str result.content)
        ∷ ("model", opt_str result.model)
        ∷ []))
      (some run) [] true
  pure result

unfoldable pub run :
    Host
    → (strict : Bool) → Complete
    → (task : String) → Option Items
    → (external_effects : Bool) → (model run_id : Option String) → (receipt_ids : List String)
    → Option ActionIntent
    → Action LlmResult
run host strict complete task tools external_effects model run_id receipt_ids intent = do
  lift (check_run_intent host task external_effects intent)
  receipts ← reads (λ (w : World). get_receipts receipt_ids w.db)
  lift (
      ensure_allowed host strict external_effects receipts intent
        "kernel.run external_effects=True requires an explicit gate receipt")
  run_task host complete task tools model run_id
