-- ===== src/Qualified/Journal/Store.antt =====
-- qualified/store.py: the table `receiver_events`, and the batches that are appended to it. A row keeps
-- the text of its entry beside the entry that reading the text gives.
use Prim.Native.String.{count}
use observable_agent_workflo.Prelude.{
  ℕ, ◌+◌, String, ◌==◌, Bool, not, List, [], ◌∷◌, ◌++◌, map, any, length, take, ltb, if◌then◌else◌,
}
use observable_agent_workflo.Result.{Result, ok, value_error, raise_if, ◌>>=◌, ◌>>◌}
use observable_agent_workflo.Json.{Host, Fields, obj}
use observable_agent_workflo.Qualified.Wire.{encoded, byte_limit}
use observable_agent_workflo.Qualified.Model.{Entry, Kind}
use observable_agent_workflo.Qualified.Model.Dump.{dump_entry}
use observable_agent_workflo.Qualified.Model.Decode.{check_entry}
use observable_agent_workflo.Qualified.Native.{Companion}
use observable_agent_workflo.Qualified.Journal.Replay.{replay, event_limit}

-- in the order of `seq`
pub record Row : Type 0 where
  pub entry : Entry
  pub raw_json : String

abbrev pub Table : Type 0
Table = List Row

abbrev pub row_entry : Row → Entry
row_entry row = row.entry

-- `SUM(length(raw_json))`, by characters
abbrev pub total_length : Table → ℕ
total_length [] = 0
total_length (row ∷ rows) = count row.raw_json + total_length rows

unfoldable pub entries : Table → Result (List Entry)
entries table = do
  raise_if (ltb byte_limit (total_length table)) (value_error "journal byte limit")
  raise_if (ltb event_limit (length (take (event_limit + 1) table)))
      (value_error "journal event limit")
  ok (map row_entry table)

-- `SELECT raw_json FROM receiver_events WHERE id=?`
abbrev pub stored : String → Table → Bool
stored id table = any (λ (row : Row). row.entry.id == id) table

-- an identifier that is stored already is passed over
unfoldable pub insert_entry : Host → Entry → Table → Result Table
insert_entry host e table =
    if stored e.id table
    then ok table
    else encoded host (obj (dump_entry e)) >>= λ raw.
        ok (table ++ record { entry = e; raw_json = raw } ∷ [])

-- the loop over the batch
unfoldable pub insert_batch : Host → List Entry → Table → Result Table
insert_batch host [] table = ok table
insert_batch host (e ∷ es) table = do
  table' ← insert_entry host e table
  insert_batch host es table'

-- `append`: the new revision, and the table after the transaction
unfoldable pub append :
    Host → Companion → List Entry → (expected : String) → Table → Result (String × Table)
append host alt batch expected table = do
  old ← entries table
  current ← replay host alt old
  raise_if (not (current.revision == expected)) (value_error "stale expected revision")
  result ← replay host alt (old ++ batch)
  table' ← insert_batch host batch table
  ok (result.revision, table')

-- `event`
unfoldable pub event :
    Host
    → Companion
    → Kind
    → (identity : String) (data_ : Fields) (time : ℕ) → List Entry
    → Result Entry
event host alt kind identity data_ time old = do
  r ← replay host alt old
  check_entry
      (record { id = identity; previous = r.revision; time = time; kind = kind; data_ = data_ })
