-- ===== src/Qualified/Journal/Appended.antt =====
-- qualified/store.py: `append` extends the journal that a replay reads.
use observable_agent_workflo.Prelude.{
  ◌≡◌, sym, ap, ◌∙◌, subst, String, ◌==◌, false, not, List, ◌++◌, map, length, length-append, ltb,
  arith, ℕ, ◌≤◌, eq_iff,
}
use observable_agent_workflo.Result.{ok, >>=-eq-ok, raise_if-eq-ok, ok_injective}
use observable_agent_workflo.Json.{Host}
use observable_agent_workflo.Qualified.Wire.{byte_limit}
use observable_agent_workflo.Qualified.Model.{Entry}
use observable_agent_workflo.Qualified.Native.{Companion}
use observable_agent_workflo.Qualified.Journal.Replay.{
  Progress, begin, steps, Replayed, finish, replay, event_limit,
}
use observable_agent_workflo.Qualified.Journal.Steps.{replay_lem}
use observable_agent_workflo.Qualified.Journal.Store.{
  Table, row_entry, total_length, entries, insert_batch, append,
}
use observable_agent_workflo.Qualified.Journal.Inserted.{
  Knows, steps-append, table_known, Added, insert_batch-Added,
}

pub entries_lem :
    (table : Table) {old : List Entry} → entries table ≡ ok old → map row_entry table ≡ old
unfolding entries
entries_lem table r =
    let (small, r1) = raise_if-eq-ok (ltb byte_limit (total_length table)) _ _ r in
    let (few, r2) = raise_if-eq-ok _ _ (ok (map row_entry table)) r1 in ok_injective r2

replay_intro :
    (host : Host) (alt : Companion) (es : List Entry) (p : Progress) {r : Replayed}
    → ltb event_limit (length es) ≡ false
    → steps host alt es begin ≡ ok p
    → finish host p ≡ ok r
    → replay host alt es ≡ ok r
unfolding replay
replay_intro host alt es p short stepped finished = rw (short, stepped) finished

short_append :
    (limit : ℕ) (old added batch : List Entry)
    → ltb limit (length (old ++ batch)) ≡ false
    → length added ≤ length batch
    → ltb limit (length (old ++ added)) ≡ false
short_append limit old added batch h k =
    ground (arith, length-append old added, length-append old batch)

-- a batch that replays after the stored entries leaves a table that replays to the same
batch_replays :
    (host : Host) (alt : Companion) (batch : List Entry) (table : Table) {after : Replayed}
    {table' : Table}
    → replay host alt (map row_entry table ++ batch) ≡ ok after
    → insert_batch host batch table ≡ ok table'
    → (added : List Entry) × (map row_entry table' ≡ map row_entry table ++ added)
      × (length added ≤ length batch)
      × (replay host alt (map row_entry table') ≡ ok after)
unfolding Added
batch_replays host alt batch table {after} r t =
    let old = map row_entry table in
    let (short, p2, stepped, finished) = replay_lem host alt (old ++ batch) r in
    let (p1, stepped2, stepped1) =
      >>=-eq-ok (steps host alt old begin) (steps host alt batch)
        (sym (steps-append host alt old batch begin) ∙ stepped) in
    let known : Knows p1 table = table_known host alt table begin stepped1 in
    let (added, same, ran, few) = insert_batch-Added host alt batch p1 table known stepped2 t in
    let whole : steps host alt (old ++ added) begin ≡ ok p2 =
      steps-append host alt old added begin ∙ (rw stepped1 ran) in
    let replays : replay host alt (old ++ added) ≡ ok after =
      replay_intro host alt (old ++ added) p2 (short_append event_limit old added batch short few)
        whole finished in
    (added, same, few, subst (λ es. replay host alt es ≡ ok after) (sym same) replays)

-- A batch that `append` takes was expected at the revision of the stored journal, which replays. The
-- table's entries afterwards are those before, unchanged and in their order, with new ones behind
-- them, no more than the batch has. They replay to the same state as the old entries followed by the
-- batch, and `append` returns the revision of that replay.
pub append_refines :
    (host : Host) (alt : Companion) (batch : List Entry) (expected : String) (table : Table)
    {rev : String} {table' : Table}
    → append host alt batch expected table ≡ ok (rev, table')
    → (before : Replayed) × (after : Replayed) × (added : List Entry) × (replay host alt
          (map row_entry table)
        ≡ ok before)
      × (before.revision ≡ expected)
      × (map row_entry table' ≡ map row_entry table ++ added)
      × (length added ≤ length batch)
      × (replay host alt (map row_entry table') ≡ ok after)
      × (replay host alt (map row_entry table ++ batch) ≡ ok after)
      × (after.revision ≡ rev)
unfolding append
append_refines host alt batch expected table {rev} {table'} r =
    let (old, r1, opened) = >>=-eq-ok (entries table) _ r in
    let (before, r2, replayed) = >>=-eq-ok (replay host alt old) _ r1 in
    let (current, r3) = raise_if-eq-ok (not (before.revision == expected)) _ _ r2 in
    let (after, r4, extended) = >>=-eq-ok (replay host alt (old ++ batch)) _ r3 in
    let (grown, r5, inserted) = >>=-eq-ok (insert_batch host batch table) _ r4 in
    let same : map row_entry table ≡ old = entries_lem table opened in
    let both : (after.revision, grown) ≡ (rev, table') = ok_injective r5 in
    let whole : replay host alt (map row_entry table ++ batch) ≡ ok after =
      subst (λ es. replay host alt (es ++ batch) ≡ ok after) (sym same) extended in
    let (added, behind, few, again) =
      batch_replays host alt batch table whole
        (subst (λ t. insert_batch host batch table ≡ ok t) (ap (λ x. x.1) both) inserted) in
    (
      before,
      after,
      added,
      subst (λ es. replay host alt es ≡ ok before) (sym same) replayed,
      (eq_iff before.revision expected).0 (ground arith),
      behind,
      few,
      again,
      whole,
      ap (λ x. x.0) both,
    )
