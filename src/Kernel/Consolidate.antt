-- ===== src/Kernel/Consolidate.antt =====
-- runtime/self_improvement.py: `SelfImprovementLoop`, and `verify` of runtime/kernel.py.
pub mod Settles
use observable_agent_workflo.Prelude.{String, Option, none}
use observable_agent_workflo.Exec.{pure, reads, ◌>>=◌, ◌>>◌}
use observable_agent_workflo.Json.{Host, end}
use observable_agent_workflo.Core.Record.{MemoryRecord}
use observable_agent_workflo.Core.Receipt.{ActionIntent, PromotionReceipt}
use observable_agent_workflo.Storage.{World, Action, get_memory_record}
use observable_agent_workflo.Checkers.Base.{Context}
use observable_agent_workflo.Promotion.{Pipeline, verify}
use observable_agent_workflo.Kernel.Propose.{propose_memory}

abbrev pub intent_context : Option ActionIntent → Context
intent_context intent = record { action_intent = intent; entries = end }

-- `AgentKernel.verify`: the pipeline builds the evidence
unfoldable pub verify_memory :
    Host → Pipeline → (candidate_id : String) → Option ActionIntent → Action PromotionReceipt
verify_memory host pipeline candidate_id intent =
    verify host pipeline candidate_id none (intent_context intent)

unfoldable pub consolidate_run : Host → Pipeline → (run_id : String) → Action MemoryRecord
consolidate_run host pipeline run_id = do
  candidate ← propose_memory host run_id "session" none none none
  verify_memory host pipeline candidate.memory_id none
  reads (λ (w : World). get_memory_record candidate.memory_id w.db)
