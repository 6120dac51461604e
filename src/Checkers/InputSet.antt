-- ===== src/Checkers/InputSet.antt =====
-- `InputSetChecker`: the evidence names the candidate's source events, with the stored digests.
pub mod Exact
use observable_agent_workflo.Prelude.{
  String, Bool, true, false, not, ◌&&◌, ◌||◌, Option, none, some, List, [], ◌∷◌, cat, select,
  is_empty, if◌then◌else◌, strs_eq,
}
use observable_agent_workflo.Result.{Result, ok}
use observable_agent_workflo.Json.{Host, Value, Items, Fields, arr, obj, strs, get, keys, value_eq}
use observable_agent_workflo.Core.Record.{MemoryRecord}
use observable_agent_workflo.Core.Receipt.{CheckerResult, accept, reject}
use observable_agent_workflo.Checkers.Base.{
  Checker, Context, truthy, get_or_none, distinct, same_set, str_each, all_strs,
}

abbrev name : String
name = "input-set"

abbrev refuse : String → CheckerResult
refuse = reject name

-- the events whose digests differ; both dicts have them all here
abbrev pub mismatched : Fields → Fields → List String → List String
mismatched input actual =
    select (λ id. not (value_eq (get_or_none id input) (get_or_none id actual)))

-- the digests of the evidence against those of the store
unfoldable pub compare_digests : Host → List String → Fields → Fields → CheckerResult
compare_digests host expected input actual =
    if not (all_strs actual)
    then refuse "authoritative event digests must map event ids to digest strings"
    else if not (same_set (keys actual) expected)
    then refuse "authoritative digest ids must exactly match candidate source_event_ids"
    else if not (is_empty (mismatched input actual expected))
    then refuse (
        cat "InputSet digest mismatch for source events: "
          (host.repr (strs (mismatched input actual expected))))
    else accept name

unfoldable pub check_actual : Host → List String → Fields → Value → CheckerResult
check_actual host expected input (obj actual) = compare_digests host expected input actual
check_actual host expected input _ = refuse "missing authoritative event digest context"

unfoldable pub check_digests : Host → List String → Value → (actual : Value) → CheckerResult
check_digests host expected (obj input) actual =
    if not (all_strs input)
    then refuse "input_event_digests must map event ids to digest strings"
    else if not (same_set (keys input) expected)
    then refuse "InputSet digest ids must exactly match candidate source_event_ids"
    else check_actual host expected input actual
check_digests host expected _ actual = refuse "missing input_event_digests evidence"

unfoldable pub check_ids :
    Host → List String → Value → (missing digests actual : Value) → CheckerResult
check_ids host expected (arr ids) missing digests actual =
    if not (strs_eq (str_each host ids) expected)
    then refuse "InputSet event ids must exactly match candidate source_event_ids"
    else if truthy missing
    then refuse (cat "source events are not available in storage: " (host.repr missing))
    else check_digests host expected digests actual
check_ids host expected _ missing digests actual = refuse "missing input_event_ids evidence"

unfoldable pub input_set : Host → Checker
input_set host = record {
  checker_name = name;
  verify = λ r evidence context.
      if not (distinct r.source_event_ids)
      then ok (refuse "candidate source_event_ids must be unique")
      else ok (
          check_ids host r.source_event_ids (get_or_none "input_event_ids" evidence)
            (get_or_none "missing_source_event_ids" context.entries)
            (get_or_none "input_event_digests" evidence)
            (get_or_none "actual_event_digests" context.entries));
}
