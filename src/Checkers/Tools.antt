-- ===== src/Checkers/Tools.antt =====
-- `DeclaredToolsChecker`: the tools that a candidate declares, and no others.
use observable_agent_workflo.Prelude.{
  String, Bool, false, not, Option, none, some, List, [], ◌∷◌, cat, is_empty, if◌then◌else◌,
  str_mem,
}
use observable_agent_workflo.Result.{ok}
use observable_agent_workflo.Json.{
  Host, Value, Items, Fields, arr, obj, str, nil, cons, strs, get, as_strs, value_eq, py_str,
}
use observable_agent_workflo.Core.Receipt.{CheckerResult, ActionIntent, accept, reject}
use observable_agent_workflo.Checkers.Base.{Checker, Context, get_or_none, differs}

abbrev name : String
name = "declared-tools"

-- `f.get(k, [])`
abbrev pub get_or_list : String → Fields → Value
get_or_list k f = elim (get k f) [ none ↦ arr nil | some v ↦ v ]

-- a value that is one of the declared texts
abbrev pub declares : List String → Value → Bool
declares tools (str s) = str_mem s tools
declares tools _ = false

-- the names of the invocations, those that are objects, that are not declared
abbrev pub undeclared : Host → List String → Items → List String
undeclared host tools nil = []
undeclared host tools (cons (obj f) xs) =
    let rest = undeclared host tools xs in
    let tool = get_or_none "tool_name" f in
    if declares tools tool then rest else py_str host tool ∷ rest
undeclared host tools (cons _ xs) = undeclared host tools xs

unfoldable pub check_invocations : Host → List String → Value → CheckerResult
check_invocations host tools (arr invocations) =
    if is_empty (undeclared host tools invocations)
    then accept name
    else reject name (
        cat "tool invocations are not declared by candidate: "
          (host.repr (strs (undeclared host tools invocations))))
check_invocations host tools _ = reject name "tool_invocations context must be a list"

abbrev pub intent_undeclared : Option ActionIntent → List String → Bool
intent_undeclared none tools = false
intent_undeclared (some i) tools = not (str_mem i.tool_name tools)

abbrev intent_tool : Option ActionIntent → String
intent_tool none = ""
intent_tool (some i) = i.tool_name

unfoldable pub check_tools :
    Host → Option (List String) → (evidence : Fields) → Context → CheckerResult
unfolding check_invocations
check_tools host none evidence context =
    reject name "candidate metadata tools must be a list of strings"
check_tools host (some tools) evidence context =
    if not (value_eq (get_or_none "declared_tools" evidence) (strs tools))
    then reject name "evidence declared_tools must match candidate metadata tools"
    else if intent_undeclared context.action_intent tools
    then reject name (
        cat "action intent tool is not declared by candidate: " (intent_tool context.action_intent))
    else if differs (get_or_none "workflow_contract_tools" context.entries) (strs tools)
    then reject name "workflow contract tools must match candidate metadata tools"
    else check_invocations host tools (get_or_list "tool_invocations" context.entries)

-- a list of texts, or nothing
abbrev pub tools_of : Value → Option (List String)
tools_of (arr xs) = as_strs xs
tools_of _ = none

unfoldable pub declared_tools : Host → Checker
declared_tools host = record {
  checker_name = name;
  verify = λ r evidence context.
      ok (check_tools host (tools_of (get_or_list "tools" r.metadata)) evidence context);
}
