-- ===== src/Warranted/Operating.antt =====
-- The operations of the kernel, and what they leave of the warrants.
use observable_agent_workflo.Prelude.{
  ℕ, String, ◌≡◌, ◌≢◌, sym, ◌∙◌, Bool, Option, some, none, List, [], ◌∷◌, cat, is_empty, arith,
}
use observable_agent_workflo.Result.{fail_closed_error}
use observable_agent_workflo.Exec.{
  Keeps, keeps_rules, Keeps-known, Keeps-bind, Keeps-lift, Keeps-reads, Keeps-gets, Keeps-guard,
  lift, pure, ◌>>=◌, ◌>>◌,
}
use observable_agent_workflo.Json.{Host, Items, Fields, str, dict}
use observable_agent_workflo.Core.Lane.{
  certified, raw, candidate, contradiction, tombstone, superseded, MemoryOperation,
}
use observable_agent_workflo.Core.Record.{MemoryRecord, Draft, moved}
use observable_agent_workflo.Core.Event.{StoredEvent}
use observable_agent_workflo.Core.Receipt.{ActionIntent}
use observable_agent_workflo.Core.Transitions.{assert_transition_allowed}
use observable_agent_workflo.Storage.{World, list_events, now_utc, upsert_memory_record}
use observable_agent_workflo.Promotion.Events.{run_id_or}
use observable_agent_workflo.Kernel.{
  new_memory, record_event, actual_run_id, index_raw, observe, record_memory_operation, retrieve,
}
use observable_agent_workflo.Kernel.Changed.{
  record_event-Same, actual_run_id-Same, record_memory_operation-Same, new_memory-Same,
  new_memory_lem,
}
use observable_agent_workflo.Kernel.Drafted.{propose-Same, propose_lem}
use observable_agent_workflo.Kernel.Change.{correct_memory, retire, contradict, supersede}
use observable_agent_workflo.Kernel.Propose.{propose, propose_memory, proposal_metadata}
use observable_agent_workflo.Kernel.Run.{Complete, run_task, run}
use observable_agent_workflo.Warranted.Base.{IsWarranted}
use observable_agent_workflo.Warranted.Writes.{IsWarranted-Persists}
use observable_agent_workflo.Warranted.Promoting.{moved_write-P, now-P}

not_raw : raw ≢ certified
not_raw h = ground arith

not_candidate : candidate ≢ certified
not_candidate h = ground arith

not_contradiction : contradiction ≢ certified
not_contradiction h = ground arith

not_tombstone : tombstone ≢ certified
not_tombstone h = ground arith

not_superseded : superseded ≢ certified
not_superseded h = ground arith

module _ (host : Host) where
  -- A new record that is not certified may be stored.
  drafted_write :
      (d : Draft) (op : MemoryOperation) (reason : String) (event : Option String)
      → d.lane ≢ certified
      → Keeps IsWarranted
          (new_memory host d >>= λ r. upsert_memory_record host r op reason none event)
  drafted_write d op reason event other =
      Keeps-known (λ r. r.lane ≡ d.lane) (new_memory host d)
        (λ r. upsert_memory_record host r op reason none event)
        (λ w r e. let (lane, _, _, _, _, _) = new_memory_lem host d w e in lane)
        ((IsWarranted-Persists host).frame _ _ (λ v. new_memory-Same host v d))
        (λ r same.
          (IsWarranted-Persists host).write r op reason none event (λ e. other (sym same ∙ e)))

  index_raw-W :
      (kind : String) (payload : Fields) (run_id : String) (e : StoredEvent)
      → Keeps IsWarranted (index_raw host kind payload run_id e)
  unfolding index_raw
  index_raw-W kind payload run_id e = drafted_write _ _ _ _ not_raw

  actual_run_id-W : (id : Option String) → Keeps IsWarranted (actual_run_id host id)
  actual_run_id-W id = (IsWarranted-Persists host).frame _ _ (λ v. actual_run_id-Same host v id)

  record_event-W :
      (kind : String) (payload : Fields) (run_id : String) (parents : List String)
      → Keeps IsWarranted (record_event host kind payload run_id parents)
  record_event-W kind payload run_id parents =
      (IsWarranted-Persists host).frame _ _
        (λ v. record_event-Same host v kind payload run_id parents)

  pub observe-W :
      (kind : String) (payload : Fields) (run_id : Option String) (parents : List String)
      (index_as_raw : Bool)
      → Keeps IsWarranted (observe host kind payload run_id parents index_as_raw)
  unfolding observe
  observe-W kind payload run_id parents index_as_raw =
      search (keeps_rules, actual_run_id-W, record_event-W, index_raw-W) depth 12

  record-W :
      (op : MemoryOperation) (run_id : String) (ids : List String) (details : Fields)
      → Keeps IsWarranted (record_memory_operation host op run_id ids details)
  record-W op run_id ids details =
      (IsWarranted-Persists host).frame _ _
        (λ v. record_memory_operation-Same host v op run_id ids details)

  pub retrieve-W :
      (query mode : String) (limit : ℕ) (run_id : Option String)
      → Keeps IsWarranted (retrieve host query mode limit run_id)
  unfolding retrieve
  retrieve-W query mode limit run_id = search (keeps_rules, record-W) depth 12

  pub correct_memory-W :
      (id claim : String) (run_id : Option String) (sources : List String)
      → Keeps IsWarranted (correct_memory host id claim run_id sources)
  unfolding correct_memory
  correct_memory-W id claim run_id sources =
      Keeps-bind _ _ (Keeps-reads _)
        λ original. Keeps-bind _ _ (record-W _ _ _ _) λ event. drafted_write _ _ _ _ not_candidate

  pub contradict-W :
      (id claim : String) (sources : List String) (reason : String)
      → Keeps IsWarranted (contradict host id claim sources reason)
  unfolding contradict
  contradict-W id claim sources reason =
      Keeps-bind _ _ (Keeps-reads _) λ original.
        Keeps-bind _ _ (record-W _ _ _ _) λ event. drafted_write _ _ _ _ not_contradiction

  logged-W :
      (op : MemoryOperation) (run_id : String) (ids : List String) (details : Fields)
      (t : MemoryRecord)
      → Keeps IsWarranted (record_memory_operation host op run_id ids details >> pure t)
  logged-W op run_id ids details t = search (keeps_rules, record-W)

  now : Keeps IsWarranted (now_utc host)
  now = now-P host IsWarranted (IsWarranted-Persists host)

  pub retire-W : (id reason : String) → Keeps IsWarranted (retire host id reason)
  unfolding retire
  retire-W id reason = Keeps-bind _ _ (Keeps-reads _) λ c.
      Keeps-bind _ _ (Keeps-lift (assert_transition_allowed c.lane tombstone)) λ _.
        Keeps-bind _ _ now λ time.
          moved_write-P host IsWarranted (IsWarranted-Persists host) c tombstone
            MemoryOperation.delete reason none (λ s. s.receipt_id) time
            (λ s t.
              record_memory_operation host MemoryOperation.delete
                (run_id_or host "retire" c.metadata) (id ∷ []) (dict (("reason", str reason) ∷ []))
              >> pure t)
            not_tombstone (λ s t. logged-W _ _ _ _ t)

  superseding-W :
      (old_id new_id receipt_id : String) (old new : MemoryRecord) (time : String)
      → Keeps IsWarranted (do
        s ← lift (moved old superseded (cat "superseded by " new_id) (some receipt_id) time)
        t ←
            upsert_memory_record host s MemoryOperation.replace
              (cat "superseded by " new_id)
              (some receipt_id)
              none
        record_memory_operation host MemoryOperation.replace
            (run_id_or host "supersede" new.metadata)
            (old_id ∷ new_id ∷ [])
            (dict (("receipt_id", str receipt_id) ∷ []))
        pure t)
  superseding-W old_id new_id receipt_id old new time =
      moved_write-P host IsWarranted (IsWarranted-Persists host) old superseded
        MemoryOperation.replace (cat "superseded by " new_id) (some receipt_id)
        (λ _. some receipt_id) time _ not_superseded (λ s t. logged-W _ _ _ _ t)

  pub supersede-W :
      (old_id new_id receipt_id : String)
      → Keeps IsWarranted (supersede host old_id new_id receipt_id)
  unfolding supersede
  supersede-W old_id new_id receipt_id =
      search (keeps_rules, now, superseding-W old_id new_id receipt_id) depth 24

  abbrev redrafted :
      (run_id scope : String) (tools : Option (List String)) (caps : Option Fields)
      (signature : Option String)
      → List StoredEvent
      → MemoryRecord
      → Draft
  redrafted run_id scope tools caps signature events p = record {
    lane = p.lane;
    claim = p.claim;
    source_event_ids = p.source_event_ids;
    metadata = proposal_metadata host run_id scope tools caps signature events p.metadata;
    evidence_refs = p.evidence_refs;
    supersedes = p.supersedes;
    contradicts = p.contradicts;
  }

  pub propose_memory-W :
      (run_id scope : String) (tools : Option (List String)) (caps : Option Fields)
      (signature : Option String)
      → Keeps IsWarranted (propose_memory host run_id scope tools caps signature)
  unfolding propose_memory
  propose_memory-W run_id scope tools caps signature =
      Keeps-bind _ _ (Keeps-gets (λ (w : World). list_events (some run_id) none w.db)) λ events.
        Keeps-bind _ _
          (Keeps-guard (is_empty events)
            (fail_closed_error (cat "cannot propose memory without observable events: " run_id)))
          λ _.
            Keeps-known (λ p. p.lane ≡ candidate) (propose host events scope)
              (λ p. new_memory host (redrafted run_id scope tools caps signature events p) >>= λ r.
                upsert_memory_record host r MemoryOperation.write (cat "proposed from run " run_id)
                  none none)
              (λ w p e. let (lane, _) = propose_lem host events scope w e in lane)
              ((IsWarranted-Persists host).frame _ _ (λ v. propose-Same host v events scope))
              (λ p same.
                drafted_write (redrafted run_id scope tools caps signature events p)
                  MemoryOperation.write (cat "proposed from run " run_id) none
                  (λ e. not_candidate (sym same ∙ e)))

  run_task-W :
      (complete : Complete) (task : String) (tools : Option Items) (model run_id : Option String)
      → Keeps IsWarranted (run_task host complete task tools model run_id)
  unfolding run_task
  run_task-W complete task tools model run_id =
      search (keeps_rules, actual_run_id-W, observe-W, retrieve-W, record-W) depth 24

  pub run-W :
      (strict : Bool) (complete : Complete) (task : String) (tools : Option Items)
      (external_effects : Bool) (model run_id : Option String) (receipts : List String)
      (intent : Option ActionIntent)
      → Keeps IsWarranted
          (run host strict complete task tools external_effects model run_id receipts intent)
  unfolding run
  run-W strict complete task tools external_effects model run_id receipts intent =
      search (keeps_rules, run_task-W) depth 12
