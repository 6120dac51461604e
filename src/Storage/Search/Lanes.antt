-- ===== src/Storage/Search/Lanes.antt =====
-- A search shows stored memories of the lanes that it was asked for, and no others.
use observable_agent_workflo.Prelude.{
  ℕ, String, ◌==◌, ◌≡◌, refl, ap, Bool, true, some, List, [], ◌∷◌, arith, eq_iff, Elem, All,
  All-take, All-Elem, Bool-cases, Option-cases, inl, inr, select, is_empty, strip, sym, ◌∙◌,
  if◌then◌else◌,
}
use observable_agent_workflo.Result.{ok, Result-cases}
use observable_agent_workflo.Json.{Host, FtsRow, Float}
use observable_agent_workflo.Core.Lane.{Lane, lane_value}
use observable_agent_workflo.Core.Record.{MemoryRecord}
use observable_agent_workflo.Storage.{Db, find_record}
use observable_agent_workflo.Storage.Invariant.{IsConsistent, Mirrors}
use observable_agent_workflo.Storage.Search.{
  RetrievedMemory, row_to_retrieved, rows_to_retrieved, in_lanes, join_records, search_like,
  search_rows, search_memory, unscored, to_fts_query,
}

-- MATCH returns rows of the table.
abbrev pub MatchesRows : Host → Type 0
MatchesRows host =
    (query : String) (fs : List FtsRow) (rows : List (FtsRow × Float))
    → host.fts_match query fs ≡ some rows
    → All (λ (row : FtsRow × Float). Elem row.0 fs) rows

-- A result of a search shows a record of the table that is in one of the lanes.
pub record Shows (db : Db) (lanes : List Lane) (m : RetrievedMemory) : Type 0 where
  pub source : MemoryRecord
  pub stored : Elem source db.memory_records
  pub in_lane : Elem source.lane lanes
  pub same_id : m.memory_id ≡ source.memory_id
  pub same_update : m.update_id ≡ some source.update_id
  pub same_lane : m.lane ≡ source.lane
  pub same_claim : m.claim ≡ source.claim

-- the lane of a name
from_name : String → Lane
from_name s =
    if s == "raw"
    then Lane.raw
    else if s == "candidate"
    then Lane.candidate
    else if s == "shadow"
    then Lane.shadow
    else if s == "certified"
    then Lane.certified
    else if s == "superseded"
    then Lane.superseded
    else if s == "quarantine"
    then Lane.quarantine
    else if s == "tombstone"
    then Lane.tombstone
    else Lane.contradiction

from_name-lane_value : (l : Lane) → from_name (lane_value l) ≡ l
unfolding from_name
from_name-lane_value Lane.raw = refl
from_name-lane_value Lane.candidate = refl
from_name-lane_value Lane.shadow = refl
from_name-lane_value Lane.certified = refl
from_name-lane_value Lane.superseded = refl
from_name-lane_value Lane.quarantine = refl
from_name-lane_value Lane.tombstone = refl
from_name-lane_value Lane.contradiction = refl

lane_value_injective : (a b : Lane) → lane_value a ≡ lane_value b → a ≡ b
lane_value_injective a b h = sym (from_name-lane_value a) ∙ ap from_name h ∙ from_name-lane_value b

in_lanes-Elem : (l : Lane) (ls : List Lane) → in_lanes (lane_value l) ls ≡ true → Elem l ls
in_lanes-Elem l [] h = ground arith
in_lanes-Elem l (k ∷ ls) h = elim (Bool-cases (lane_value k == lane_value l)) [
  | inl here ↦ inl (lane_value_injective l k (sym ((eq_iff (lane_value k) (lane_value l)).0 here)))
  | inr there ↦ inr (in_lanes-Elem l ls (ground arith))
]

find_record-Elem :
    (id : String) (rs : List MemoryRecord) {r : MemoryRecord}
    → find_record id rs ≡ some r
    → Elem r rs
unfolding find_record
find_record-Elem id [] h = ground arith
find_record-Elem id (s ∷ rs) h = elim (Bool-cases (s.memory_id == id)) [
  | inl here ↦ inl (ground arith)
  | inr there ↦ inr (find_record-Elem id rs (ground arith))
]

-- A row of the join: a record of the table that is in one of the lanes.
abbrev pub Admits : Db → List Lane → MemoryRecord × Float → Type 0
Admits db lanes row = Elem row.0 db.memory_records × Elem (row.0.lane) lanes

All-select :
    (db : Db) (lanes : List Lane) (p : MemoryRecord → Bool) (rs : List MemoryRecord)
    → ((r : MemoryRecord) → p r ≡ true → in_lanes (lane_value r.lane) lanes ≡ true)
    → ((r : MemoryRecord) → Elem r rs → Elem r db.memory_records)
    → All (λ r. Elem r db.memory_records × Elem r.lane lanes) (select p rs)
All-select db lanes p [] f inside = tt
All-select db lanes p (r ∷ rs) f inside =
    let rest = All-select db lanes p rs f (λ s m. inside s (inr m)) in
    elim (Bool-cases (p r)) [
      | inl holds ↦ rw holds ((inside r (inl refl), in_lanes-Elem r.lane lanes (f r holds)), rest)
      | inr outside ↦ rw outside rest
    ]

unscored-Admits :
    (db : Db) (lanes : List Lane) (rs : List MemoryRecord)
    → All (λ r. Elem r db.memory_records × Elem r.lane lanes) rs
    → All (Admits db lanes) (unscored rs)
unscored-Admits db lanes [] h = tt
unscored-Admits db lanes (r ∷ rs) (a, h) = (a, unscored-Admits db lanes rs h)

search_like-Admits :
    (host : Host) (query : String) (lanes : List Lane) (limit : ℕ) (db : Db)
    → All (Admits db lanes) (search_like host query lanes limit db)
unfolding search_like
search_like-Admits host query lanes limit db =
    unscored-Admits db lanes _ (
      All-take _ limit _ (All-select db lanes _ db.memory_records (λ r h. ground arith) (λ r m. m)))

join_records_cons :
    (db : Db) (lanes : List Lane) (f : FtsRow) (score : Float) (r : MemoryRecord)
    (rows : List (FtsRow × Float))
    → find_record f.memory_id db.memory_records ≡ some r
    → Admits db lanes (r, score)
    → All (Admits db lanes) (join_records db.memory_records rows)
    → All (Admits db lanes) (join_records db.memory_records ((f, score) ∷ rows))
unfolding join_records
join_records_cons db lanes f score r rows found a rest =
    let joined : join_records db.memory_records ((f, score) ∷ rows)
        ≡ (r, score) ∷ join_records db.memory_records rows =
      ground arith in
    rw joined (a, rest)

-- A row of the index that is in one of the lanes is joined with a record in one of them.
join_records-Admits :
    (db : Db) (lanes : List Lane) (rows : List (FtsRow × Float))
    → All (Mirrors db.memory_records) db.memory_fts
    → All (λ (row : FtsRow × Float). Elem row.0 db.memory_fts) rows
    → All (Admits db lanes) (
        join_records db.memory_records
          (select (λ (row : FtsRow × Float). in_lanes row.0.lane lanes) rows))
unfolding join_records
join_records-Admits db lanes [] mirrored h = tt
join_records-Admits db lanes ((f, score) ∷ rows) mirrored (m, h) =
    let rest = join_records-Admits db lanes rows mirrored h in
    let (r, found, lane) = All-Elem (Mirrors db.memory_records) f db.memory_fts mirrored m in
    elim (Bool-cases (in_lanes f.lane lanes)) [
      | inr outside ↦ rw outside rest
      | inl holds ↦ rw holds (
          join_records_cons db lanes f score r _ found
            (
              find_record-Elem f.memory_id db.memory_records found,
              in_lanes-Elem r.lane lanes (ap (λ l. in_lanes l lanes) (sym lane) ∙ holds),
            )
            rest)
    ]

search_rows-Admits :
    (host : Host) (query : String) (lanes : List Lane) (limit : ℕ) (db : Db)
    → MatchesRows host
    → All (Mirrors db.memory_records) db.memory_fts
    → All (Admits db lanes) (search_rows host query lanes limit db)
unfolding search_rows
search_rows-Admits host query lanes limit db matches mirrored =
    elim (Bool-cases (strip query == "")) [
      | inl blank ↦ rw blank (
          unscored-Admits db lanes _
            (All-take _ limit _ (All-select db lanes _ db.memory_records (λ r h. h) (λ r m. m))))
      | inr asked ↦
          rw asked (elim (Option-cases (host.fts_match (to_fts_query host query) db.memory_fts)) [
            | inl failed ↦ rw failed (search_like-Admits host query lanes limit db)
            | inr (rows, found) ↦ rw found (
                All-take _ limit _
                  (join_records-Admits db lanes rows mirrored (matches _ _ rows found)))
          ])
    ]

row_to_retrieved-Shows :
    (host : Host) (db : Db) (lanes : List Lane) (row : MemoryRecord × Float)
    → Admits db lanes row
    → (m : RetrievedMemory) → row_to_retrieved host row ≡ ok m
    → Shows db lanes m
unfolding row_to_retrieved
row_to_retrieved-Shows host db lanes (r, score) a m good = record {
  source = r;
  stored = a.0;
  in_lane = a.1;
  same_id = ground arith;
  same_update = ground arith;
  same_lane = ground arith;
  same_claim = ground arith;
}

rows_to_retrieved-Shows :
    (host : Host) (db : Db) (lanes : List Lane) (rows : List (MemoryRecord × Float))
    → All (Admits db lanes) rows
    → (ms : List RetrievedMemory) → rows_to_retrieved host rows ≡ ok ms
    → All (Shows db lanes) ms
unfolding rows_to_retrieved
rows_to_retrieved-Shows host db lanes [] h ms e = rw (← the_list e) tt
  where
    the_list : {A : Type 0} {xs ys : List A} → ok xs ≡ ok ys → xs ≡ ys
    the_list e = ground arith
rows_to_retrieved-Shows host db lanes ((r, score) ∷ rows) (a, h) ms e =
    elim (Result-cases (row_to_retrieved host (r, score))) [
      | inr (x, bad) ↦ absurd (ground arith)
      | inl (m, good) ↦ elim (Result-cases (rows_to_retrieved host rows)) [
        | inr (x, bad) ↦ absurd (ground arith)
        | inl (ns, rest) ↦
            let same : m ∷ ns ≡ ms = ground arith in
            rw (← same) (
              row_to_retrieved-Shows host db lanes (r, score) a m good,
              rows_to_retrieved-Shows host db lanes rows h ns rest,
            )
      ]
    ]

-- In a consistent store every result of a search shows a stored record whose own lane is one of the
-- lanes that were asked for, and that lane is the one that the result names; provided that MATCH
-- returns rows of the index.
pub search_memory-Shows :
    (host : Host) (query : String) (lanes : List Lane) (limit : ℕ) (db : Db)
    → MatchesRows host
    → IsConsistent host db
    → (ms : List RetrievedMemory) → search_memory host query lanes limit db ≡ ok ms
    → All (Shows db lanes) ms
unfolding search_memory
search_memory-Shows host query lanes limit db matches inv ms h =
    elim (Bool-cases (is_empty lanes)) [
      | inl none_ ↦ let same : [] ≡ ms = ground arith in rw (← same) tt
      | inr some_ ↦
          rows_to_retrieved-Shows host db lanes (search_rows host query lanes limit db)
            (search_rows-Admits host query lanes limit db matches inv.mirrored) ms (ground arith)
    ]
