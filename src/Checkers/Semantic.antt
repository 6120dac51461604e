-- ===== src/Checkers/Semantic.antt =====
-- adapters/semantic_checkers.py: checkers of explicit evidence records.
use observable_agent_workflo.Prelude.{
  ℕ, suc, String, ◌==◌, Bool, true, false, not, Option, none, some, List, [], ◌∷◌, cat, is_empty,
  if◌then◌else◌, select,
}
use observable_agent_workflo.Result.{Result, ok, ◌>>=◌}
use observable_agent_workflo.Json.{
  Host, Value, Items, Fields, null, boolean, arr, obj, str, nil, cons, strs, dict, get, decimal,
  py_str, digest_json,
}
use observable_agent_workflo.Core.Receipt.{CheckerResult, accept, reject, reject_with}
use observable_agent_workflo.Checkers.Base.{Checker, Context, get_or_none}
use observable_agent_workflo.Checkers.Tools.{declares, get_or_list, tools_of}

-- the evidence's entry, also if it is `None`, and else the context's
unfoldable pub evidence_or_context : Fields → Context → String → Value
evidence_or_context evidence context key = elim (get key evidence) [
  | some v ↦ v
  | none ↦ get_or_none key context.entries
]

abbrev is_true : Value → Bool
is_true (boolean true) = true
is_true _ = false

unfoldable pub replay_success : Checker
unfolding evidence_or_context
replay_success = record {
  checker_name = "replay-success";
  verify = λ r evidence context. ok (
      if is_true (evidence_or_context evidence context "replay_success")
      then accept "replay-success"
      else reject "replay-success" "replay_success must be explicitly true");
}

abbrev trace : String
trace = "tool-trace"

abbrev numbered : ℕ → String → String
numbered i what = cat "tool invocation " (cat (decimal i) what)

-- the `args_digest` of an invocation against its arguments; `none` lets the loop go on
unfoldable pub check_arguments :
    Host → ℕ → (args_digest arguments : Value) → Result (Option CheckerResult)
check_arguments host i null arguments = ok none
check_arguments host i (str expected) (obj arguments) = do
  observed ← digest_json host (obj arguments)
  ok (
      if observed == expected
      then none
      else some (
          reject_with trace (numbered i " args_digest mismatch")
            (dict (("expected", str expected) ∷ ("observed", str observed) ∷ []))))
check_arguments host i args_digest arguments =
    ok (some (reject trace (numbered i " needs arguments with args_digest")))

unfoldable pub check_invocation : Host → List String → ℕ → Value → Result (Option CheckerResult)
check_invocation host tools i (obj f) =
    let tool = get_or_none "tool_name" f in
    let arguments =
      check_arguments host i (get_or_none "args_digest" f) (get_or_none "arguments" f) in
    if declares tools tool
    then arguments
    else ok (some (reject trace (cat (numbered i " is undeclared: ") (py_str host tool))))
check_invocation host tools i v = ok (some (reject trace (numbered i " must be an object")))

abbrev or_continue : Option CheckerResult → Result CheckerResult → Result CheckerResult
or_continue none rest = rest
or_continue (some c) rest = ok c

-- the loop: the first invocation at fault decides
unfoldable pub check_trace : Host → List String → ℕ → Items → Result CheckerResult
check_trace host tools i nil = ok (accept trace)
check_trace host tools i (cons v xs) = do
  let rest = check_trace host tools (suc i) xs
  fault ← check_invocation host tools i v
  or_continue fault rest

unfoldable pub verify_trace : Host → Option (List String) → Value → Result CheckerResult
verify_trace host none invocations =
    ok (reject trace "candidate metadata tools must be a list of strings")
verify_trace host (some tools) (arr (cons v xs)) = check_trace host tools 0 (cons v xs)
verify_trace host (some tools) _ =
    ok (reject trace "tool_invocations evidence must be a non-empty list")

unfoldable pub tool_trace : Host → Checker
tool_trace host = record {
  checker_name = trace;
  verify = λ r evidence context.
      verify_trace host (tools_of (get_or_list "tools" r.metadata))
        (evidence_or_context evidence context "tool_invocations");
}

-- the required invariants that are not explicitly true
abbrev pub missing : List String → Fields → List String
missing required results = select (λ i. not (is_true (get_or_none i results))) required

unfoldable pub verify_invariants : Host → List String → Value → CheckerResult
verify_invariants host required (obj results) =
    if is_empty (missing required results)
    then accept "domain-invariant"
    else reject "domain-invariant"
        (cat "required invariants did not pass: " (host.repr (strs (missing required results))))
verify_invariants host required _ =
    reject "domain-invariant" "invariant_results must be an object mapping labels to booleans"

unfoldable pub domain_invariant : Host → (required_invariants : List String) → Checker
domain_invariant host required = record {
  checker_name = "domain-invariant";
  verify = λ r evidence context.
      ok (
        verify_invariants host required (evidence_or_context evidence context "invariant_results"));
}
