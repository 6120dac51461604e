-- ===== src/Kernel/Logged.antt =====
-- runtime/kernel.py: what `record_memory_operation` puts into the log.
use observable_agent_workflo.Prelude.{
  ℕ, String, ◌≡◌, refl, ◌∙◌, Option, none, some, List, [], ◌∷◌, ◌++◌, arith, inl, inr, cat, false,
}
use observable_agent_workflo.Result.{ok, Result-cases}
use observable_agent_workflo.Json.{Host, Fields, strs, get}
use observable_agent_workflo.Core.Lane.{MemoryOperation, operation_value}
use observable_agent_workflo.Core.Event.{Event, StoredEvent, create as create_event}
use observable_agent_workflo.Storage.Tables.{insert_event}
use observable_agent_workflo.Storage.{World, now_utc, uuid4, transaction, append_event}
use observable_agent_workflo.Kernel.{
  record_event, actual_run_id, observe, memory_refs, record_memory_operation,
}

append_event_lem :
    (host : Host) (e : Event) (w : World) (s : StoredEvent) (v : World)
    → append_event host e w ≡ (ok s, v)
    → (v.events ≡ w.events ++ s ∷ []) × (s.kind ≡ e.kind) × (s.payload ≡ e.payload)
unfolding append_event now_utc transaction insert_event
append_event_lem host e w s v h = ground arith

create_event_lem :
    (host : Host) (time nonce kind : String) (payload : Fields) (run : String)
    (parents : List String) {e : Event}
    → create_event host time nonce kind payload run parents ≡ ok e
    → (e.kind ≡ kind) × (e.payload ≡ payload)
unfolding create_event
create_event_lem host time nonce kind payload run parents h = ground arith

record_event_lem :
    (host : Host) (kind : String) (payload : Fields) (run : String) (parents : List String)
    (w : World) (s : StoredEvent) (v : World)
    → record_event host kind payload run parents w ≡ (ok s, v)
    → (v.events ≡ w.events ++ s ∷ []) × (s.kind ≡ kind) × (s.payload ≡ payload)
unfolding record_event now_utc uuid4
record_event_lem host kind payload run parents w s v h =
    elim (Result-cases
      (create_event host (host.now w.clock) (host.uuid w.fresh) kind payload run parents)) [
        | inr (e, bad) ↦ absurd (ground arith)
        | inl (e, made) ↦
            let (kind_, payload_) = create_event_lem host _ _ kind payload run parents made in
            let (events, k, p) =
              append_event_lem host e (record w { clock = ℕ.suc w.clock; fresh = ℕ.suc w.fresh }) s
                v (ground arith) in
            (events, k ∙ kind_, p ∙ payload_)
      ]

actual_run_id_events :
    (host : Host) (id : Option String) (w : World) → (actual_run_id host id w).1.events ≡ w.events
unfolding actual_run_id uuid4
actual_run_id_events host none w = refl
actual_run_id_events host (some id) w = ground arith

observe_lem :
    (host : Host) (kind : String) (payload : Fields) (run : Option String) (w : World)
    (s : StoredEvent) (v : World)
    → observe host kind payload run [] false w ≡ (ok s, v)
    → (v.events ≡ w.events ++ s ∷ []) × (s.kind ≡ kind) × (s.payload ≡ payload)
unfolding observe
observe_lem host kind payload run w s v h = elim (Result-cases (actual_run_id host run w).0) [
  | inr (e, bad) ↦ absurd (ground arith)
  | inl (id, named) ↦
      elim (Result-cases (record_event host kind payload id [] (actual_run_id host run w).1).0) [
        | inr (e, bad) ↦ absurd (ground arith)
        | inl (q, done) ↦
            let (events, k, p) =
              record_event_lem host kind payload id [] (actual_run_id host run w).1 s v
                (ground arith) in
            (rw (events, actual_run_id_events host run w) refl, k, p)
      ]
]

-- what the log of an operation on memories has when it returns
pub record Logged (op : MemoryOperation) (ids : List String) (before after : List StoredEvent)
    (e : StoredEvent) : Type 0 where
  pub appended : after ≡ before ++ e ∷ []
  pub kind : e.kind ≡ cat "memory_" (operation_value op)
  pub names : get "memory_ids" e.payload ≡ some (strs ids)

pub record_memory_operation_lem :
    (host : Host) (op : MemoryOperation) (run : String) (ids : List String) (details : Fields)
    (w : World) (s : StoredEvent) (v : World)
    → record_memory_operation host op run ids details w ≡ (ok s, v)
    → Logged op ids w.events v.events s
unfolding record_memory_operation
record_memory_operation_lem host op run ids details w s v h =
    elim (Result-cases (memory_refs host ids w.db)) [
      | inr (e, bad) ↦ absurd (ground arith)
      | inl (refs, found) ↦
          let (events, k, p) = observe_lem host _ _ (some run) w s v (rw found at h) in
          record { appended = events; kind = k; names = rw p refl }
    ]
