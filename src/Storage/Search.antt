-- ===== src/Storage/Search.antt =====
-- `search_memory` of adapters/sqlite_storage.py and adapters/fts_retriever.py. The full-text index
-- (MATCH, bm25) and LIKE are SQLite's: the host supplies them. The lane filter, the join with the
-- records and the limit are the query's own.
pub mod Lanes
use Prim.Native.Char.{Char, code}
use observable_agent_workflo.Prelude.{
  ℕ, zero, suc, String, ◌==◌, Bool, true, false, ◌&&◌, not, Option, none, some, List, [], ◌∷◌, cat,
  take, select, map, is_empty, if◌then◌else◌, nat_eq, strip, join, str_mem,
}
use observable_agent_workflo.Prelude.Int.{ℤ, pos, negsuc}
use observable_agent_workflo.Result.{Result, ok, err, ◌>>=◌}
use observable_agent_workflo.Json.{Host, FtsRow, Float}
use observable_agent_workflo.Core.Lane.{Lane, lane_value}
use observable_agent_workflo.Core.Record.{MemoryRecord, content_digest}
use observable_agent_workflo.Storage.{Db, find_record}

pub record RetrievedMemory : Type 0 where
  pub memory_id : String
  pub update_id : Option String
  pub content_digest : Option String
  pub lane : Lane
  pub claim : String
  pub score : Float
  pub workflow_contract_id : Option String
  pub receipt_id : Option String
  pub source_event_ids : List String

abbrev drop_minus : String → String
drop_minus String.[] = ""
drop_minus (String.◌∷◌ c s) = if nat_eq (code c) b'-' then s else String.◌∷◌ c s

-- `-raw_score if raw_score < 0 else raw_score`
abbrev magnitude : Float → Float
magnitude x = elim x.num [
  | pos n ↦ x
  | negsuc n ↦ record x { num = pos (suc n); repr = drop_minus x.repr }
]

unfoldable pub row_to_retrieved : Host → MemoryRecord × Float → Result RetrievedMemory
row_to_retrieved host (r, score) = do
  digest ← content_digest host r
  ok (record {
    memory_id = r.memory_id;
    update_id = some r.update_id;
    content_digest = some digest;
    lane = r.lane;
    claim = r.claim;
    score = magnitude score;
    workflow_contract_id = r.workflow_contract_id;
    receipt_id = r.receipt_id;
    source_event_ids = r.source_event_ids;
  })

unfoldable pub rows_to_retrieved :
    Host → List (MemoryRecord × Float) → Result (List RetrievedMemory)
rows_to_retrieved host [] = ok []
rows_to_retrieved host (row ∷ rows) = do
  m ← row_to_retrieved host row
  ms ← rows_to_retrieved host rows
  ok (m ∷ ms)

-- the maximal runs of the characters of `[\w\-]`; `token` holds the run before the rest
tokens_from : Host → String → String → List String
tokens_from host token String.[] = if token == "" then [] else token ∷ []
tokens_from host token (String.◌∷◌ c s) =
    let longer = tokens_from host (cat token (String.◌∷◌ c String.[])) s in
    let next = tokens_from host "" s in
    if host.is_word c then longer else if token == "" then next else token ∷ next

-- `token.replace('"', '""')`
abbrev double_quotes : String → String
double_quotes String.[] = ""
double_quotes (String.◌∷◌ c s) =
    if nat_eq (code c) b'"' then cat "\"\"" (double_quotes s) else String.◌∷◌ c (double_quotes s)

abbrev quoted : String → String
quoted token = cat "\"" (cat (double_quotes token) "\"")

unfoldable pub to_fts_query : Host → String → String
unfolding tokens_from
to_fts_query host query =
    let tokens = tokens_from host "" query in
    if is_empty tokens then "\"\"" else join " " (map quoted (take 16 tokens))

-- `lane IN (…)`
abbrev pub in_lanes : String → List Lane → Bool
in_lanes lane lanes = str_mem lane (map lane_value lanes)

-- `JOIN memory_records m ON m.memory_id = memory_fts.memory_id`
unfoldable pub join_records :
    List MemoryRecord → List (FtsRow × Float) → List (MemoryRecord × Float)
join_records records [] = []
join_records records ((f, score) ∷ rows) =
    let rest = join_records records rows in
    elim (find_record f.memory_id records) [ none ↦ rest | some r ↦ (r, score) ∷ rest ]

abbrev zero_score : Float
zero_score = record { finite = true; num = pos 0; den = 1; repr = "0.0" }

abbrev pub unscored : List MemoryRecord → List (MemoryRecord × Float)
unscored [] = []
unscored (r ∷ rs) = (r, zero_score) ∷ unscored rs

unfoldable pub search_like :
    Host → (query : String) (lanes : List Lane) (limit : ℕ) → Db → List (MemoryRecord × Float)
search_like host query lanes limit db =
    let pattern_ = cat "%" (cat query "%") in
    unscored (
      take limit (
        select
          (λ (r : MemoryRecord). in_lanes (lane_value r.lane) lanes && host.like r.claim pattern_)
          db.memory_records))

-- the rows that the statement returns, before they become results
unfoldable pub search_rows :
    Host → (query : String) (lanes : List Lane) (limit : ℕ) → Db → List (MemoryRecord × Float)
search_rows host query lanes limit db =
    if strip query == ""
    then unscored (
        take limit
          (select (λ (r : MemoryRecord). in_lanes (lane_value r.lane) lanes) db.memory_records))
    else elim (host.fts_match (to_fts_query host query) db.memory_fts) [
      | none ↦ search_like host query lanes limit db
      | some rows ↦ take limit (
          join_records db.memory_records
            (select (λ (row : FtsRow × Float). in_lanes row.0.lane lanes) rows))
    ]

unfoldable pub search_memory :
    Host → (query : String) (lanes : List Lane) (limit : ℕ) → Db → Result (List RetrievedMemory)
search_memory host query lanes limit db =
    if is_empty lanes then ok [] else rows_to_retrieved host (search_rows host query lanes limit db)
