-- ===== src/Kernel/Propose.antt =====
-- `propose_memory` of runtime/kernel.py and the default proposer, adapters/deterministic_proposer.py.
use Prim.Native.Nat.{Ordering}
use Prim.Native.String.{compare}
use observable_agent_workflo.Prelude.{
  String, Option, none, some, List, [], ◌∷◌, ◌+◌, cat, length, min, max, map, is_empty, join,
}
use observable_agent_workflo.Prelude.Int.{pos}
use observable_agent_workflo.Result.{fail_closed_error, value_error}
use observable_agent_workflo.Exec.{gets, guard, ◌>>=◌, ◌>>◌}
use observable_agent_workflo.Json.{
  Host, Value, Fields, str, obj, arr, nil, int, strs, dict, get, put, print_int,
}
use observable_agent_workflo.Core.Lane.{Lane, MemoryOperation}
use observable_agent_workflo.Core.Record.{MemoryRecord}
use observable_agent_workflo.Core.Event.{StoredEvent}
use observable_agent_workflo.Storage.{World, Action, list_events, upsert_memory_record}
use observable_agent_workflo.Checkers.Base.{str_each}
use observable_agent_workflo.Kernel.{new_memory, text_or}
use observable_agent_workflo.Kernel.Change.{signature_of, step_caps}

-- a text into a sorted list without repetition
unfoldable pub insert_unique : String → List String → List String
insert_unique s [] = s ∷ []
insert_unique s (t ∷ ts) = elim (compare s t) [
  | Ordering.lt ↦ s ∷ t ∷ ts
  | Ordering.eq ↦ t ∷ ts
  | Ordering.gt ↦ t ∷ insert_unique s ts
]

-- `sorted({…})`
unfoldable pub sorted_set : List String → List String
sorted_set [] = []
sorted_set (s ∷ ss) = insert_unique s (sorted_set ss)

abbrev pub event_ids : List StoredEvent → List String
event_ids = map (λ (e : StoredEvent). e.event_id)

abbrev pub kinds : List StoredEvent → List String
kinds = map (λ (e : StoredEvent). e.kind)

-- `DeterministicWorkflowProposer.propose`
unfoldable pub propose : Host → List StoredEvent → (scope : String) → Action MemoryRecord
propose host events scope = do
  guard (is_empty events) (value_error "cannot propose memory without observable events")
  new_memory host (record {
    lane = Lane.candidate;
    claim = cat "Workflow candidate from " (
        cat (print_int (pos (length events)))
          (cat " observable event(s): " (join ", " (sorted_set (kinds events)))));
    source_event_ids = event_ids events;
    metadata = dict (
        ("scope", str scope)
        ∷ ("steps", strs (kinds events))
        ∷ ("tools", arr nil)
        ∷ (
          "resource_caps",
          obj (dict (("max_steps", int (pos (max 1 (min 32 (length events + 1))))) ∷ [])),
        )
        ∷ ("input_event_ids", strs (event_ids events))
        ∷ []);
    evidence_refs = [];
    supersedes = [];
    contradicts = [];
  })

-- `metadata.setdefault(key, value)`
abbrev set_default : String → Value → Fields → Fields
set_default key v f = elim (get key f) [ none ↦ put key v f | some _ ↦ f ]

-- the tools that the caller names, or those of the proposal as texts
abbrev chosen_tools : Host → Option (List String) → Fields → Value
chosen_tools host (some tools) metadata = strs tools
chosen_tools host none metadata = elim (get "tools" metadata) [
  | none ↦ strs []
  | some v ↦ elim v [ arr xs ↦ strs (str_each host xs) | _ ↦ strs [] ]
]

-- the caps that the caller gives, or those of the proposal, or two steps for each event
abbrev chosen_caps : Option Fields → List StoredEvent → Fields → Value
chosen_caps (some caps) events metadata = obj caps
chosen_caps none events metadata = elim (get "resource_caps" metadata) [
  | none ↦ obj (step_caps events)
  | some v ↦ elim v [ obj caps ↦ obj caps | _ ↦ obj (step_caps events) ]
]

unfoldable pub proposal_metadata :
    Host
    → (run_id scope : String) → Option (List String)
    → (caps : Option Fields) → (signature : Option String) → List StoredEvent
    → Fields
    → Fields
proposal_metadata host run_id scope tools caps signature events proposed =
    let scoped =
      set_default "run_id" (str run_id) (set_default "proposal_scope" (str scope) proposed) in
    let signed =
      put "interface_signature" (str (text_or signature (signature_of host scoped))) scoped in
    let tooled = put "tools" (chosen_tools host tools signed) signed in
    put "resource_caps" (chosen_caps caps events tooled) tooled

unfoldable pub propose_memory :
    Host
    → (run_id scope : String) → Option (List String)
    → (caps : Option Fields) → (signature : Option String) → Action MemoryRecord
propose_memory host run_id scope tools caps signature = do
  events ← gets (λ (w : World). list_events (some run_id) none w.db)
  guard (is_empty events)
      (fail_closed_error (cat "cannot propose memory without observable events: " run_id))
  proposed ← propose host events scope
  candidate ← new_memory host (record {
    lane = proposed.lane;
    claim = proposed.claim;
    source_event_ids = proposed.source_event_ids;
    metadata = proposal_metadata host run_id scope tools caps signature events proposed.metadata;
    evidence_refs = proposed.evidence_refs;
    supersedes = proposed.supersedes;
    contradicts = proposed.contradicts;
  })
  upsert_memory_record host candidate MemoryOperation.write (cat "proposed from run " run_id) none
      none
