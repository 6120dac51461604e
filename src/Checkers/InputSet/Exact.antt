-- ===== src/Checkers/InputSet/Exact.antt =====
-- What an accepted input set guarantees.
use observable_agent_workflo.Prelude.{
  String, ◌≡◌, refl, true, false, List, [], ◌∷◌, arith, strs_eq, All, is_empty,
}
use observable_agent_workflo.Json.{Host, Value, Items, Fields, arr, obj, keys, value_eq}
use observable_agent_workflo.Checkers.Base.{truthy, get_or_none, same_set, str_each}
use observable_agent_workflo.Checkers.InputSet.{
  mismatched, compare_digests, check_actual, check_digests, check_ids,
}

none_mismatched :
    (input actual : Fields) (ids : List String)
    → is_empty (mismatched input actual ids) ≡ true
    → All (λ id. value_eq (get_or_none id input) (get_or_none id actual) ≡ true) ids
none_mismatched input actual [] h = tt
none_mismatched input actual (id ∷ ids) h = ground (arith, none_mismatched input actual ids)

-- An input set is accepted only if the evidence lists exactly the source events in their order, none
-- of them is missing in the store, both sides have digests for just these events, and each event's
-- digest in the evidence is the stored one.
pub check_ids_accepts :
    (host : Host) (expected : List String) (ids : Items) (missing : Value) (input actual : Fields)
    → (check_ids host expected (arr ids) missing (obj input) (obj actual)).passed ≡ true
    → (strs_eq (str_each host ids) expected ≡ true)
      × (truthy missing ≡ false)
      × (same_set (keys input) expected ≡ true)
      × (same_set (keys actual) expected ≡ true)
      × All (λ id. value_eq (get_or_none id input) (get_or_none id actual) ≡ true) expected
unfolding check_ids check_digests check_actual compare_digests
check_ids_accepts host expected ids missing input actual h = (
  ground arith,
  ground arith,
  ground arith,
  ground arith,
  none_mismatched input actual expected (ground arith),
)

-- Evidence or context of another shape is refused: the identifiers must be a list, and both sets of
-- digests objects.
pub check_ids_shape :
    (host : Host) (expected : List String) (ids missing input actual : Value)
    → (check_ids host expected ids missing input actual).passed ≡ true
    → (xs : Items) × (f : Fields) × (g : Fields) × (ids ≡ arr xs)
      × (input ≡ obj f)
      × (actual ≡ obj g)
unfolding check_ids check_digests check_actual
check_ids_shape host expected (arr xs) missing (obj f) (obj g) h = (xs, f, g, refl, refl, refl)
check_ids_shape host expected (arr xs) missing (obj f) _ h = absurd (ground arith)
check_ids_shape host expected (arr xs) missing _ actual h = absurd (ground arith)
check_ids_shape host expected _ missing input actual h = absurd (ground arith)
