-- ===== src/Qualified/Wire.antt =====
-- qualified/wire.py: the bounded reading and writing of JSON. `json`'s parser is the host's; `len` of a
-- text is its bytes in UTF-8.
pub mod Limits
use Prim.Native.String.{len}
use observable_agent_workflo.Prelude.{
  ℕ, zero, suc, ◌+◌, String, Bool, true, false, ◌||◌, Option, none, some, List, [], ◌∷◌, ltb, cat,
  if◌then◌else◌,
}
use observable_agent_workflo.Result.{
  Result, ok, err, Error, value_error, raise_if, or_raise, ◌>>=◌, ◌>>◌,
}
use observable_agent_workflo.Json.{
  Host, Value, Items, Fields, arr, obj, nil, cons, end, field, float, contains, dumps, sort_keys,
}

abbrev pub byte_limit : ℕ
byte_limit = 2_000_000

-- the hook `pairs`: an object's keys are distinct
abbrev repeats_key : Fields → Bool
repeats_key end = false
repeats_key (field k v f) = contains k f || repeats_key f

-- the hooks of `json.loads`, in the order in which a document's parts end
unfoldable mutual
  pub check_hooks : Value → Result (Unit {0})
  check_hooks (float x) = err (value_error (cat "noninteger JSON number: " x.repr))
  check_hooks (arr xs) = check_items xs
  check_hooks (obj f) = do
    check_fields f
    raise_if (repeats_key f) (value_error "duplicate JSON key")
  check_hooks v = ok tt

  pub check_items : Items → Result (Unit {0})
  check_items nil = ok tt
  check_items (cons x xs) = do check_hooks x; check_items xs

  pub check_fields : Fields → Result (Unit {0})
  check_fields end = ok tt
  check_fields (field k v f) = do check_hooks v; check_fields f

-- `pending.extend(...)`: `pending` is a stack whose top is the end of the Python list
abbrev pub push_items : Items → (depth : ℕ) → List (Value × ℕ) → List (Value × ℕ)
push_items nil depth pending = pending
push_items (cons x xs) depth pending = push_items xs depth ((x, depth) ∷ pending)

abbrev pub push_fields : Fields → (depth : ℕ) → List (Value × ℕ) → List (Value × ℕ)
push_fields end depth pending = pending
push_fields (field k v f) depth pending = push_fields f depth ((v, depth) ∷ pending)

abbrev pub push : Value → (depth : ℕ) → List (Value × ℕ) → List (Value × ℕ)
push (arr xs) depth pending = push_items xs depth pending
push (obj f) depth pending = push_fields f depth pending
push _ depth pending = pending

abbrev pub visit_limit : ℕ
visit_limit = 50_000

-- the loop over `pending`; `none` means that the fuel ran out
unfoldable pub traverse :
    (fuel visits : ℕ) (pending : List (Value × ℕ)) → Option (Result (Unit {0}))
traverse fuel visits [] = some (ok tt)
traverse zero visits (entry ∷ pending) = none
traverse (suc fuel) visits ((item, depth) ∷ pending) =
    let rest = traverse fuel (visits + 1) (push item (depth + 1) pending) in
    if ltb 24 depth || ltb visit_limit (visits + 1)
    then some (err (value_error "traversal limit"))
    else rest

-- The loop raises at the visit after the limit, so that this fuel is enough.
unfoldable pub check_size : Value → Result (Unit {0})
unfolding traverse
check_size v = elim (traverse (visit_limit + 1) 0 ((v, 0) ∷ [])) [
  | none ↦ err (value_error "traversal limit")
  | some result ↦ result
]

-- `loads`
unfoldable pub loads : Host → String → Result Value
loads host raw = do
  raise_if (ltb byte_limit (len raw)) (value_error "byte limit")
  value ← or_raise (host.json_loads raw) (value_error "invalid JSON")
  check_hooks value
  check_size value
  ok value

-- `encoded` of a dumped model: the text is read back for its limits
unfoldable pub encoded : Host → Value → Result String
encoded host v = let raw = dumps (sort_keys v) in loads host raw >>= λ _. ok raw

abbrev pub sha : Host → String → String
sha host raw = host.sha256_hex raw

-- `digest`
unfoldable pub digest : Host → Value → Result String
digest host v = do raw ← encoded host v; ok (sha host raw)
