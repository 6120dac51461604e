-- ===== src/Checkers/Base.antt =====
-- ports/checker.py, and what the checkers share. `evidence` is a JSON object.
use observable_agent_workflo.Prelude.{
  String, ◌==◌, Bool, true, false, not, ◌&&◌, Option, none, some, List, [], ◌∷◌, all, str_mem,
  nat_eq,
}
use observable_agent_workflo.Prelude.Int.{pos_part, neg_part}
use observable_agent_workflo.Result.{Result, ok, ◌>>=◌}
use observable_agent_workflo.Json.{
  Host, Value, Items, Fields, null, boolean, int, float, str, arr, obj, nil, cons, end, field,
  py_str, get, value_eq,
}
use observable_agent_workflo.Core.Record.{MemoryRecord}
use observable_agent_workflo.Core.Receipt.{CheckerResult, ActionIntent, EvidenceManifest}

-- The context of a verification: the action intent, if there is one, and the other entries. (That a
-- caller hands the intent over as a mapping is not modelled: the kernel passes the model.)
pub record Context : Type 0 where
  pub action_intent : Option ActionIntent
  pub entries : Fields

-- What pydantic does with a dict: it validates it into the model, or gives the first error.
pub record Validation : Type 0 where
  pub manifest : Fields → Result EvidenceManifest
  -- jsonschema's message for a rule that the value at a path breaks
  pub message : (path rule : String) → String

pub record Checker : Type 0 where
  pub checker_name : String
  pub verify : MemoryRecord → (evidence : Fields) → Context → Result CheckerResult

-- `bool(v)`
abbrev pub truthy : Value → Bool
truthy null = false
truthy (boolean b) = b
truthy (int n) = not (nat_eq (pos_part n) 0 && nat_eq (neg_part n) 0)
truthy (float x) = not (x.finite && nat_eq (pos_part x.num) 0 && nat_eq (neg_part x.num) 0)
truthy (str s) = not (s == "")
truthy (arr nil) = false
truthy (arr (cons v xs)) = true
truthy (obj end) = false
truthy (obj (field k v f)) = true

-- `f.get(k)`
abbrev pub get_or_none : String → Fields → Value
get_or_none k f = elim (get k f) [ none ↦ null | some v ↦ v ]

-- `len(xs) == len(set(xs))`
abbrev pub distinct : List String → Bool
distinct [] = true
distinct (x ∷ xs) = not (str_mem x xs) && distinct xs

-- `set(xs) == set(ys)`
abbrev pub same_set : List String → List String → Bool
same_set xs ys = all (λ x. str_mem x ys) xs && all (λ y. str_mem y xs) ys

abbrev pub str_each : Host → Items → List String
str_each host nil = []
str_each host (cons v xs) = py_str host v ∷ str_each host xs

-- every value of the dict is a text
abbrev pub all_strs : Fields → Bool
all_strs end = true
all_strs (field k (str s) f) = all_strs f
all_strs (field k _ f) = false

-- `is not None and != other`
abbrev pub differs : Value → Value → Bool
differs null other = false
differs v other = not (value_eq v other)

-- every checker runs, in order
unfoldable pub run_checkers :
    List Checker → MemoryRecord → Fields → Context → Result (List CheckerResult)
run_checkers [] r evidence context = ok []
run_checkers (c ∷ cs) r evidence context = do
  result ← c.verify r evidence context
  results ← run_checkers cs r evidence context
  ok (result ∷ results)
