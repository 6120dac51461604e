-- ===== src/Checkers/Caps.antt =====
-- `ResourceCapChecker`: one set of resource caps, with a bounded number of steps.
pub mod Bounds
use observable_agent_workflo.Prelude.{
  ℕ, String, Bool, true, false, not, ◌||◌, Option, none, some, cat, if◌then◌else◌, ltb,
}
use observable_agent_workflo.Prelude.Int.{ℤ, pos, negsuc, ltb_ℤ}
use observable_agent_workflo.Result.{ok}
use observable_agent_workflo.Json.{Value, Fields, obj, boolean, int, end, get, value_eq, decimal}
use observable_agent_workflo.Core.Receipt.{CheckerResult, ActionIntent, accept, reject}
use observable_agent_workflo.Checkers.Base.{Checker, Context, get_or_none, differs}

abbrev pub name : String
name = "resource-caps"

-- `f.get(k, {})`
abbrev pub get_or_dict : String → Fields → Value
get_or_dict k f = elim (get k f) [ none ↦ obj end | some v ↦ v ]

-- `not isinstance(v, int) or v < 1 or v > limit`; a `bool` is an `int`
unfoldable pub out_of_range : ℕ → Value → Bool
out_of_range limit (int n) = ltb_ℤ n (pos 1) || ltb_ℤ (pos limit) n
out_of_range limit (boolean true) = ltb limit 1
out_of_range limit _ = true

abbrev pub intent_differs : Option ActionIntent → Fields → Bool
intent_differs none caps = false
intent_differs (some i) caps = not (value_eq (obj i.resource_caps) (obj caps))

abbrev pub max_steps_of : Fields → Value
max_steps_of caps = elim (get "max_steps" caps) [ none ↦ int (pos 32) | some v ↦ v ]

unfoldable pub check_caps : ℕ → Fields → (evidence_caps : Value) → Context → CheckerResult
check_caps max_steps caps evidence_caps context =
    if not (value_eq evidence_caps (obj caps))
    then reject name "evidence resource_caps must match candidate metadata"
    else if intent_differs context.action_intent caps
    then reject name "action intent resource_caps must match candidate metadata"
    else if differs (get_or_none "workflow_contract_resource_caps" context.entries) (obj caps)
    then reject name "workflow contract resource_caps must match candidate metadata"
    else if differs (get_or_none "tool_resource_caps" context.entries) (obj caps)
    then reject name "tool runtime resource_caps must match candidate metadata"
    else if out_of_range max_steps (max_steps_of caps)
    then reject name (cat "max_steps must be between 1 and " (decimal max_steps))
    else accept name

unfoldable pub verify_caps : ℕ → Value → (evidence_caps : Value) → Context → CheckerResult
verify_caps max_steps (obj caps) evidence_caps context =
    check_caps max_steps caps evidence_caps context
verify_caps max_steps _ evidence_caps context =
    reject name "candidate metadata resource_caps must be an object"

unfoldable pub resource_caps : ℕ → Checker
resource_caps max_steps = record {
  checker_name = name;
  verify = λ r evidence context. ok (
      verify_caps max_steps (get_or_dict "resource_caps" r.metadata)
        (get_or_dict "resource_caps" evidence) context);
}
