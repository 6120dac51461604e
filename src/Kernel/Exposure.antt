-- ===== src/Kernel/Exposure.antt =====
-- What reaches an agent, or its language model, through retrieval.
use observable_agent_workflo.Prelude.{
  ℕ, String, ◌≡◌, ◌∙◌, Bool, true, Option, some, List, [], ◌∷◌, arith, map, All, All-mono, Elem,
  inl, inr,
}
use observable_agent_workflo.Result.{Result, ok, err, Result-cases}
use observable_agent_workflo.Json.{Host, Items, Fields, str, strs, dict}
use observable_agent_workflo.Core.Lane.{Lane, lane_value, certified, MemoryOperation}
use observable_agent_workflo.Core.Event.{StoredEvent}
use observable_agent_workflo.Core.Record.{MemoryRecord}
use observable_agent_workflo.Core.Receipt.{ActionIntent, PromotionReceipt}
use observable_agent_workflo.Core.Transitions.{admissible_lanes_for_mode}
use observable_agent_workflo.Storage.{Db, World}
use observable_agent_workflo.Storage.Invariant.{IsConsistent}
use observable_agent_workflo.Storage.Search.{RetrievedMemory, search_memory}
use observable_agent_workflo.Storage.Search.Lanes.{MatchesRows, Shows, search_memory-Shows}
use observable_agent_workflo.Gate.Sound.{Permits, ensure_allowed_iff}
use observable_agent_workflo.Kernel.{
  actual_run_id, observe, retrieve, memory_ids, text_or, record_memory_operation,
}
use observable_agent_workflo.Kernel.Logged.{Logged, record_memory_operation_lem}
use observable_agent_workflo.Kernel.Keeps.{actual_run_id-Keeps, observe-Keeps}
use observable_agent_workflo.Kernel.Tools.{get_receipts}
use observable_agent_workflo.Kernel.Run.{Complete, LlmResult, messages, run_task, run}

-- A memory that a retrieval returns stands for a stored record that is certified.
pub record IsCertified (db : Db) (m : RetrievedMemory) : Type 0 where
  pub source : MemoryRecord
  pub stored : Elem source db.memory_records
  pub certified_ : source.lane ≡ certified
  pub same_lane : m.lane ≡ certified
  pub same_id : m.memory_id ≡ source.memory_id
  pub same_claim : m.claim ≡ source.claim

Shows-IsCertified : (db : Db) (m : RetrievedMemory) → Shows db (certified ∷ []) m → IsCertified db m
Shows-IsCertified db m s =
    let lane = only s.in_lane in
    record {
      source = s.source;
      stored = s.stored;
      certified_ = lane;
      same_lane = s.same_lane ∙ lane;
      same_id = s.same_id;
      same_claim = s.same_claim;
    }
  where
    only : {l : Lane} → Elem l (certified ∷ []) → l ≡ certified
    only (inl e) = e
    only (inr none_) = absurd none_

-- A retrieval that returns gives what the search found before it was logged.
retrieve_lem :
    (host : Host) (query mode : String) (limit : ℕ) (run_id : Option String) (w : World)
    {ms : List RetrievedMemory} {w' : World}
    → retrieve host query mode limit run_id w ≡ (ok ms, w')
    → (lanes : List Lane) × (admissible_lanes_for_mode mode ≡ ok lanes)
      × (search_memory host query lanes limit w.db ≡ ok ms)
unfolding retrieve
retrieve_lem host query mode limit run_id w h =
    elim (Result-cases (admissible_lanes_for_mode mode)) [
      | inr (e, bad) ↦ absurd (ground arith)
      | inl (lanes, known) ↦ (lanes, known, ground arith)
    ]

-- a retrieval that returns has logged what it found
retrieve_log :
    (host : Host) (query mode : String) (limit : ℕ) (run_id : Option String) (w : World)
    (ms : List RetrievedMemory) (w' : World)
    → retrieve host query mode limit run_id w ≡ (ok ms, w')
    → (e : StoredEvent) × Logged MemoryOperation.read (memory_ids ms) w.events w'.events e
unfolding retrieve
retrieve_log host query mode limit run_id w ms w' h =
    let (lanes, known, found) = retrieve_lem host query mode limit run_id w {ms = ms} {w' = w'} h in
    let details : Fields = dict (
      ("query", str query)
      ∷ ("mode", str mode)
      ∷ ("lane_filter", strs (map lane_value lanes))
      ∷ []) in
    let logging =
      record_memory_operation host MemoryOperation.read (text_or run_id "retrieval") (memory_ids ms)
        details w in
    elim (Result-cases logging.0) [
      | inr (e, bad) ↦ absurd (ground arith)
      | inl (e, good) ↦ (
        e,
        record_memory_operation_lem host MemoryOperation.read (text_or run_id "retrieval")
            (memory_ids ms) details w e w' (ground arith),
      )
    ]

-- Let the store be consistent, and let MATCH return rows of the index. A retrieval that returns was
-- asked for a known mode, and what it shows are stored memories in the lanes of that mode. It has
-- appended one event to the log, a read that names just these memories in their order.
pub retrieve-Shows :
    (host : Host) (query mode : String) (limit : ℕ) (run_id : Option String) (w : World)
    → MatchesRows host
    → IsConsistent host w.db
    → (ms : List RetrievedMemory) (w' : World)
    → retrieve host query mode limit run_id w ≡ (ok ms, w')
    → (lanes : List Lane) × (e : StoredEvent) × (admissible_lanes_for_mode mode ≡ ok lanes)
      × All (Shows w.db lanes) ms
      × Logged MemoryOperation.read (memory_ids ms) w.events w'.events e
retrieve-Shows host query mode limit run_id w matches inv ms w' h =
    let (lanes, known, found) = retrieve_lem host query mode limit run_id w {ms = ms} {w' = w'} h in
    let (e, logged) = retrieve_log host query mode limit run_id w ms w' h in
    (lanes, e, known, search_memory-Shows host query lanes limit w.db matches inv ms found, logged)

pub retrieve-IsCertified :
    (host : Host) (query : String) (limit : ℕ) (run_id : Option String) (w : World)
    → MatchesRows host
    → IsConsistent host w.db
    → (ms : List RetrievedMemory) (w' : World)
    → retrieve host query "admissible" limit run_id w ≡ (ok ms, w')
    → All (IsCertified w.db) ms
unfolding admissible_lanes_for_mode
retrieve-IsCertified host query limit run_id w matches inv ms w' h =
    let (lanes, known, found) =
      retrieve_lem host query "admissible" limit run_id w {ms = ms} {w' = w'} h in
    let one : certified ∷ [] ≡ lanes = ground arith in
    All-mono _ _ ms (Shows-IsCertified w.db)
      (search_memory-Shows host query (certified ∷ []) limit w.db matches inv ms (rw one found))

abbrev ask : Host → (task : String) → Result String → World → World
ask host task (err e) w = w
ask host task (ok id) w =
    (observe host "task" (dict (("task", str task) ∷ [])) (some id) [] true w).1

-- The world in which a run retrieves its memories: the task has been observed.
abbrev pub asked : Host → (task : String) → Option String → World → World
asked host task run_id w = let (r, named) = actual_run_id host run_id w in ask host task r named

ask-IsConsistent :
    (host : Host) (task : String) (r : Result String) (w : World)
    → IsConsistent host w.db
    → IsConsistent host (ask host task r w).db
ask-IsConsistent host task (err e) w inv = inv
ask-IsConsistent host task (ok id) w inv =
    (observe-Keeps host "task" (dict (("task", str task) ∷ [])) (some id) [] true).at w inv

asked-IsConsistent :
    (host : Host) (task : String) (run_id : Option String) (w : World)
    → IsConsistent host w.db
    → IsConsistent host (asked host task run_id w).db
asked-IsConsistent host task run_id w inv =
    ask-IsConsistent host task _ _ ((actual_run_id-Keeps host run_id).at w inv)

run_task_lem :
    (host : Host) (complete : Complete) (task : String) (tools : Option Items)
    (model run_id : Option String) (w : World) (result : LlmResult) (w' : World)
    → run_task host complete task tools model run_id w ≡ (ok result, w')
    → (id : String) × (ms : List RetrievedMemory) × (retrieve host task "admissible" 5
          (some id)
          (asked host task run_id w)
        ≡ (ok ms, (retrieve host task "admissible" 5 (some id) (asked host task run_id w)).1))
      × (complete (messages ms task) tools model ≡ ok result)
unfolding run_task
run_task_lem host complete task tools model run_id w result w' h =
    elim (Result-cases (actual_run_id host run_id w).0) [
      | inr (e, bad) ↦ absurd (ground arith)
      | inl (id, good) ↦
          elim (Result-cases
            (retrieve host task "admissible" 5 (some id) (asked host task run_id w)).0) [
              | inr (e, bad) ↦ absurd (ground arith)
              | inl (ms, found) ↦ (id, ms, ground arith, ground arith)
            ]
    ]

-- Let the store be consistent, and let MATCH return rows of the index. A run under the strict profile
-- that returns has put before the model certified memories only: what its retrieval showed of stored,
-- certified records, once the task was observed. Its result is the model's answer to the messages made
-- of those memories and the task. If it has external effects, the gate let it through, for an intent
-- that the given receipts of the store permit.
pub run_sound :
    (host : Host) (complete : Complete) (task : String) (tools : Option Items) (external : Bool)
    (model run_id : Option String) (ids : List String) (intent : Option ActionIntent) (w : World)
    → MatchesRows host
    → IsConsistent host w.db
    → (result : LlmResult) (w' : World)
    → run host true complete task tools external model run_id ids intent w ≡ (ok result, w')
    → ((ms : List RetrievedMemory) × All (IsCertified (asked host task run_id w).db) ms
        × (complete (messages ms task) tools model ≡ ok result))
      × (external ≡ true
          → (i : ActionIntent) × (intent ≡ some i)
            × (rs : List PromotionReceipt) × (get_receipts ids w.db ≡ ok rs)
            × Permits host i rs)
unfolding run
run_sound host complete task tools external model run_id ids intent w matches inv result w' h =
    let (id, ms, found, said) =
      run_task_lem host complete task tools model run_id w result w' (ground arith) in
    (
      (
        ms,
        retrieve-IsCertified host task 5 (some id) (asked host task run_id w) matches
            (asked-IsConsistent host task run_id w inv) ms _ found,
        said,
      ),
      λ e. elim (Result-cases (get_receipts ids w.db)) [
        | inr (x, bad) ↦ absurd (ground arith)
        | inl (rs, read) ↦
            let (i, same, permits) =
              (ensure_allowed_iff host rs intent
                  "kernel.run external_effects=True requires an explicit gate receipt").0
                (ground arith) in
            (i, same, rs, read, permits)
      ],
    )
