-- ===== src/Examples/Lifecycle.antt =====
-- The theorems about a memory's life, at the session's memory.
use observable_agent_workflo.Prelude.{◌≡◌, refl, false, none, some, [], ◌∷◌, is_empty}
use observable_agent_workflo.Result.{ok, err, fail_closed_error}
use observable_agent_workflo.Core.Lane.{Lane, candidate, contradiction, superseded, tombstone}
use observable_agent_workflo.Core.Record.{MemoryRecord}
use observable_agent_workflo.Core.Receipt.{PromotionReceipt}
use observable_agent_workflo.Core.Transitions.Reach.{◌⟶*◌}
use observable_agent_workflo.Storage.{World, empty, get_memory_record, list_events}
use observable_agent_workflo.Storage.Tables.{find_record}
use observable_agent_workflo.Promotion.{promote}
use observable_agent_workflo.Promotion.Sound.{Warrants, Promoted, promote_sound, promote_refused}
use observable_agent_workflo.Promotion.Verified.{Outcome, verify_sound, verify_leaves_tombstone}
use observable_agent_workflo.Kernel.Changed.{Stored}
use observable_agent_workflo.Kernel.Propose.{event_ids, proposal_metadata}
use observable_agent_workflo.Kernel.Drafted.{
  Beside, correct_memory_lem, contradict_lem, propose_memory_lem,
}
use observable_agent_workflo.Kernel.Ended.{Supersedes, retire_lem, supersede_lem}
use observable_agent_workflo.Kernel.Propose.{propose, propose_memory}
use observable_agent_workflo.Kernel.Consolidate.{verify_memory}
use observable_agent_workflo.Kernel.Consolidate.Settles.{Consolidated, consolidate_run_lem}
use observable_agent_workflo.Examples.Hosted.{host, start, value_of}
use observable_agent_workflo.Examples.Session.{
  consolidated, blank_record, blank_receipt, pipeline, context, observed, proposed, proposal,
  verified, receipt, promoted, corrected, contradicted, retired, revived, replaced, follower,
  follower_verified,
}
use observable_agent_workflo.Examples.Steps.{
  consolidated_is, proposed_is, verified_is, promoted_is, corrected_is, contradicted_is, retired_is,
  revived_is, replaced_is, retired_found,
}

verify_sound_example :
    (is_empty pipeline.checkers ≡ false)
    × ((c : MemoryRecord) × (get_memory_record proposal.memory_id proposed.1.db ≡ ok c)
        × Outcome host pipeline c receipt verified.1)
verify_sound_example =
    verify_sound host pipeline proposal.memory_id none context proposed.1 verified_is

promote_sound_example :
    (c : MemoryRecord) × (get_memory_record proposal.memory_id verified.1.db ≡ ok c)
    × ((r : PromotionReceipt) × Warrants verified.1 proposal.memory_id c r
        × Promoted c r (value_of blank_record promoted.0))
promote_sound_example = promote_sound host proposal.memory_id verified.1 promoted_is

-- a store with a memory and no receipt
abbrev unverified : World
unverified = record start { db = record empty { memory_records = blank_record ∷ [] } }

unverified_found : get_memory_record "" unverified.db ≡ ok blank_record
unfolding get_memory_record find_record
unverified_found = refl

unwarranted : (r : PromotionReceipt) → ¬ Warrants unverified "" blank_record r
unwarranted r h = h.stored

promote_refused_example : promote host "" unverified ≡ (
  err (fail_closed_error "promotion requires a passing receipt for this candidate update"),
  unverified,
)
promote_refused_example =
    promote_refused host "" unverified blank_record unverified_found unwarranted

verify_leaves_tombstone_example :
    (s : MemoryRecord) × (get_memory_record (value_of blank_record retired.0).memory_id revived.1.db
      ≡ ok s)
    × ¬ ((value_of blank_record retired.0).lane ⟶* s.lane)
verify_leaves_tombstone_example =
    verify_leaves_tombstone host pipeline proposal.memory_id none context retired.1
      (value_of blank_record retired.0) retired_found.0 retired_found.1 revived_is

correct_memory_lem_example :
    ((value_of blank_record corrected.0).lane ≡ candidate)
    × ((value_of blank_record corrected.0).supersedes ≡ proposal.memory_id ∷ [])
    × Beside proposal.memory_id [] promoted.1 corrected.1 (value_of blank_record corrected.0)
correct_memory_lem_example =
    correct_memory_lem host proposal.memory_id "a better way" none [] promoted.1
      (value_of blank_record corrected.0) corrected.1 corrected_is

contradict_lem_example :
    ((value_of blank_record contradicted.0).lane ≡ contradiction)
    × ((value_of blank_record contradicted.0).contradicts ≡ proposal.memory_id ∷ [])
    × Beside proposal.memory_id [] promoted.1 contradicted.1 (value_of blank_record contradicted.0)
contradict_lem_example =
    contradict_lem host proposal.memory_id "it fails" [] "a run failed" promoted.1
      (value_of blank_record contradicted.0) contradicted.1 contradicted_is

propose_memory_lem_example :
    (is_empty (list_events (some "r1") none observed.db) ≡ false)
    × (proposal.lane ≡ candidate)
    × (proposal.source_event_ids ≡ event_ids (list_events (some "r1") none observed.db))
    × ((given : MemoryRecord) × ((propose host
            (list_events (some "r1") none observed.db)
            "session"
            observed).0
          ≡ ok given)
        × (proposal.metadata
            ≡ proposal_metadata host "r1" "session" none none none
                (list_events (some "r1") none observed.db)
                given.metadata))
    × Stored observed proposed.1 proposal
propose_memory_lem_example =
    propose_memory_lem host "r1" "session" none none none observed proposal proposed.1 proposed_is

retire_lem_example :
    ((value_of blank_record retired.0).lane ≡ tombstone)
    × ((c : MemoryRecord) × (get_memory_record proposal.memory_id promoted.1.db ≡ ok c)
        × ((value_of blank_record retired.0).update_id ≡ c.update_id)
        × ((value_of blank_record retired.0).memory_id ≡ c.memory_id))
    × Stored promoted.1 retired.1 (value_of blank_record retired.0)
    × ((l : Lane) → (value_of blank_record retired.0).lane ⟶* l → l ≡ tombstone)
retire_lem_example =
    retire_lem host proposal.memory_id "obsolete" promoted.1 (value_of blank_record retired.0)
      retired.1 retired_is

abbrev both_certified : World
both_certified = (promote host follower.memory_id follower_verified.1).1

supersede_lem_example :
    (old : MemoryRecord) × Supersedes both_certified proposal.memory_id follower.memory_id
      (value_of blank_receipt follower_verified.0).receipt_id
      old
    × ((value_of blank_record replaced.0).lane ≡ superseded)
    × ((value_of blank_record replaced.0).memory_id ≡ old.memory_id)
    × ((value_of blank_record replaced.0).update_id ≡ old.update_id)
    × Stored both_certified replaced.1 (value_of blank_record replaced.0)
supersede_lem_example =
    supersede_lem host proposal.memory_id follower.memory_id
      (value_of blank_receipt follower_verified.0).receipt_id both_certified
      (value_of blank_record replaced.0) replaced.1 replaced_is

consolidate_run_lem_example :
    (c : MemoryRecord) × (r : PromotionReceipt) × ((propose_memory host "r1" "session" none none
        none observed).0
      ≡ ok c)
    × (verify_memory host pipeline c.memory_id none
          (propose_memory host "r1" "session" none none none observed).1
        ≡ (ok r, consolidated.1))
    × Consolidated pipeline c r (value_of blank_record consolidated.0)
consolidate_run_lem_example =
    consolidate_run_lem host pipeline "r1" observed (value_of blank_record consolidated.0)
      consolidated.1 consolidated_is
