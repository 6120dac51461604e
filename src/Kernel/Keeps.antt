-- ===== src/Kernel/Keeps.antt =====
-- The methods of the kernel keep the store consistent, whether they return or raise.
use observable_agent_workflo.Prelude.{ℕ, String, Bool, Option, List}
use observable_agent_workflo.Exec.{Keeps, keeps_rules}
use observable_agent_workflo.Json.{Host, Items, Fields}
use observable_agent_workflo.Core.Lane.{MemoryOperation}
use observable_agent_workflo.Core.Record.{MemoryRecord, Draft}
use observable_agent_workflo.Core.Receipt.{ActionIntent}
use observable_agent_workflo.Core.Event.{StoredEvent}
use observable_agent_workflo.Storage.{now_utc, uuid4, upsert_memory_record}
use observable_agent_workflo.Storage.Invariant.{
  IsConsistent, Holds, now_utc-Keeps, uuid4-Keeps, upsert_memory_record-Keeps, append_event-Keeps,
}
use observable_agent_workflo.Kernel.{
  new_memory, record_event, actual_run_id, new_run_id, index_raw, observe, record_memory_operation,
  retrieve,
}
use observable_agent_workflo.Kernel.Change.{correct_memory, retire, contradict, supersede}
use observable_agent_workflo.Kernel.Propose.{propose, propose_memory}
use observable_agent_workflo.Kernel.Run.{Complete, run_task, run}

module _ (host : Host) where
  now-Keeps : Keeps (Holds host) (now_utc host)
  now-Keeps = now_utc-Keeps (IsConsistent host) host

  uuid-Keeps : Keeps (Holds host) (uuid4 host)
  uuid-Keeps = uuid4-Keeps (IsConsistent host) host

  new_memory-Keeps : (d : Draft) → Keeps (Holds host) (new_memory host d)
  unfolding new_memory
  new_memory-Keeps d = search (keeps_rules, now-Keeps) depth 12

  record_event-Keeps :
      (kind : String) (payload : Fields) (run_id : String) (parents : List String)
      → Keeps (Holds host) (record_event host kind payload run_id parents)
  unfolding record_event
  record_event-Keeps kind payload run_id parents =
      search (keeps_rules, now-Keeps, uuid-Keeps, append_event-Keeps host) depth 12

  new_run_id-Keeps : Keeps (Holds host) (new_run_id host)
  new_run_id-Keeps = search (keeps_rules, uuid-Keeps)

  pub actual_run_id-Keeps : (id : Option String) → Keeps (Holds host) (actual_run_id host id)
  unfolding actual_run_id
  actual_run_id-Keeps Option.none = new_run_id-Keeps
  actual_run_id-Keeps (Option.some id) = search (keeps_rules, new_run_id-Keeps)

  index_raw-Keeps :
      (kind : String) (payload : Fields) (run_id : String) (e : StoredEvent)
      → Keeps (Holds host) (index_raw host kind payload run_id e)
  unfolding index_raw
  index_raw-Keeps kind payload run_id e =
      search (keeps_rules, new_memory-Keeps, upsert_memory_record-Keeps host) depth 12

  pub observe-Keeps :
      (kind : String) (payload : Fields) (run_id : Option String) (parents : List String)
      (index_as_raw : Bool)
      → Keeps (Holds host) (observe host kind payload run_id parents index_as_raw)
  unfolding observe
  observe-Keeps kind payload run_id parents index_as_raw =
      search (keeps_rules, actual_run_id-Keeps, record_event-Keeps, index_raw-Keeps) depth 12

  record_memory_operation-Keeps :
      (op : MemoryOperation) (run_id : String) (ids : List String) (details : Fields)
      → Keeps (Holds host) (record_memory_operation host op run_id ids details)
  unfolding record_memory_operation
  record_memory_operation-Keeps op run_id ids details = search (keeps_rules, observe-Keeps) depth 12

  stored-Keeps :
      (r : MemoryRecord) (op : MemoryOperation) (reason : String) (receipt event : Option String)
      → Keeps (Holds host) (upsert_memory_record host r op reason receipt event)
  stored-Keeps = upsert_memory_record-Keeps host

  ruleset kernel_rules =
      (keeps_rules, now-Keeps, new_memory-Keeps, stored-Keeps, record_memory_operation-Keeps)

  pub retrieve-Keeps :
      (query mode : String) (limit : ℕ) (run_id : Option String)
      → Keeps (Holds host) (retrieve host query mode limit run_id)
  unfolding retrieve
  retrieve-Keeps query mode limit run_id = search kernel_rules depth 12

  pub correct_memory-Keeps :
      (id claim : String) (run_id : Option String) (sources : List String)
      → Keeps (Holds host) (correct_memory host id claim run_id sources)
  unfolding correct_memory
  correct_memory-Keeps id claim run_id sources = search kernel_rules depth 16

  pub retire-Keeps : (id reason : String) → Keeps (Holds host) (retire host id reason)
  unfolding retire
  retire-Keeps id reason = search kernel_rules depth 20

  pub contradict-Keeps :
      (id claim : String) (sources : List String) (reason : String)
      → Keeps (Holds host) (contradict host id claim sources reason)
  unfolding contradict
  contradict-Keeps id claim sources reason = search kernel_rules depth 16

  pub supersede-Keeps :
      (old_id new_id receipt_id : String)
      → Keeps (Holds host) (supersede host old_id new_id receipt_id)
  unfolding supersede
  supersede-Keeps old_id new_id receipt_id = search kernel_rules depth 24

  propose-Keeps :
      (events : List StoredEvent) (scope : String) → Keeps (Holds host) (propose host events scope)
  unfolding propose
  propose-Keeps events scope = search kernel_rules depth 12

  pub propose_memory-Keeps :
      (run_id scope : String) (tools : Option (List String)) (caps : Option Fields)
      (signature : Option String)
      → Keeps (Holds host) (propose_memory host run_id scope tools caps signature)
  unfolding propose_memory
  propose_memory-Keeps run_id scope tools caps signature =
      search (kernel_rules, propose-Keeps) depth 16

  run_task-Keeps :
      (complete : Complete) (task : String) (tools : Option Items) (model run_id : Option String)
      → Keeps (Holds host) (run_task host complete task tools model run_id)
  unfolding run_task
  run_task-Keeps complete task tools model run_id =
      search (kernel_rules, actual_run_id-Keeps, observe-Keeps, retrieve-Keeps) depth 24

  -- A run keeps the store consistent, whether the gate refuses it, the model fails or it returns.
  pub run-Keeps :
      (strict : Bool) (complete : Complete) (task : String) (tools : Option Items)
      (external_effects : Bool) (model run_id : Option String) (receipts : List String)
      (intent : Option ActionIntent)
      → Keeps
          (Holds host)
          (run host strict complete task tools external_effects model run_id receipts intent)
  unfolding run
  run-Keeps strict complete task tools external_effects model run_id receipts intent =
      search (keeps_rules, run_task-Keeps) depth 12
