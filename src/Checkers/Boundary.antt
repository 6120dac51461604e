-- ===== src/Checkers/Boundary.antt =====
-- `DeterministicBoundaryChecker`: no float in what a decision rests on.
pub mod Floats
use observable_agent_workflo.Prelude.{
  ℕ, suc, String, Bool, List, [], ◌∷◌, ◌++◌, cat, is_empty, if◌then◌else◌,
}
use observable_agent_workflo.Result.{ok}
use observable_agent_workflo.Json.{
  Value, Items, Fields, null, boolean, int, float, str, arr, obj, nil, cons, end, field, strs, dict,
  decimal,
}
use observable_agent_workflo.Core.Receipt.{CheckerResult, accept, reject_with}
use observable_agent_workflo.Checkers.Base.{Checker}

-- `_find_float_paths`
unfoldable mutual
  pub find_float_paths : Value → String → List String
  find_float_paths (float x) path = (if x.finite then path else cat path " (non-finite)") ∷ []
  find_float_paths (obj f) path = find_in_fields f path
  find_float_paths (arr xs) path = find_in_items xs path 0
  find_float_paths null path = []
  find_float_paths (boolean b) path = []
  find_float_paths (int n) path = []
  find_float_paths (str s) path = []

  pub find_in_fields : Fields → String → List String
  find_in_fields end path = []
  find_in_fields (field k v f) path =
      find_float_paths v (cat path (cat "." k)) ++ find_in_fields f path

  pub find_in_items : Items → String → ℕ → List String
  find_in_items nil path i = []
  find_in_items (cons v xs) path i =
      find_float_paths v (cat path (cat "[" (cat (decimal i) "]"))) ++ find_in_items xs path (suc i)

unfoldable pub float_paths : (metadata evidence : Fields) → List String
float_paths metadata evidence =
    find_float_paths (obj metadata) "candidate.metadata"
    ++ find_float_paths (obj evidence) "evidence"

unfoldable pub deterministic_boundary : Checker
deterministic_boundary = record {
  checker_name = "deterministic-boundary";
  verify = λ r evidence context.
      let paths = float_paths r.metadata evidence in
      ok (
        if is_empty paths
        then accept "deterministic-boundary"
        else reject_with "deterministic-boundary" "decision-critical evidence contains float values"
            (dict (("float_paths", strs paths) ∷ [])));
}
