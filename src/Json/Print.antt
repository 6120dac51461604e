-- ===== src/Json/Print.antt =====
-- core/canonical.py: normalization, printing with sorted keys, and the digest of the text.
-- SHA-256 is `hashlib`'s: a parameter.
mod Digits
use Prim.Native.Char.{Char, code}
use Prim.Native.String.{◌++◌, compare, slice}
use Prim.Native.Nat.{Ordering}
use observable_agent_workflo.Prelude.{
  ℕ, zero, suc, ◌+◌, ◌/◌, ◌%◌, String, true, false, ltb, nat_eq, if◌then◌else◌,
}
use observable_agent_workflo.Prelude.Int.{ℤ, pos, negsuc}
use observable_agent_workflo.Result.{Result, ok, err, value_error, ◌>>=◌}
use observable_agent_workflo.Json.Supply.{Host}
use observable_agent_workflo.Json.Data.{
  Value, Items, Fields, null, boolean, int, float, str, arr, obj, nil, cons, end, field,
}

-- Non-finite floats are refused. Models, enums and dates are dumped to values before.
unfoldable mutual
  pub normalize_for_json : Value → Result Value
  normalize_for_json null = ok null
  normalize_for_json (boolean b) = ok (boolean b)
  normalize_for_json (int n) = ok (int n)
  normalize_for_json (float x) =
      if x.finite
      then ok (float x)
      else err (value_error "non-finite floats are not canonical JSON")
  normalize_for_json (str s) = ok (str s)
  normalize_for_json (arr xs) = do ys ← normalize_items xs; ok (arr ys)
  normalize_for_json (obj f) = do g ← normalize_fields f; ok (obj g)

  pub normalize_items : Items → Result Items
  normalize_items nil = ok nil
  normalize_items (cons x xs) = do y ← normalize_for_json x; ys ← normalize_items xs; ok (cons y ys)

  pub normalize_fields : Fields → Result Fields
  normalize_fields end = ok end
  normalize_fields (field k v f) = do
    w ← normalize_for_json v
    g ← normalize_fields f
    ok (field k w g)

-- `sort_keys=True`: a stable insertion sort by the keys
abbrev pub insert_field : String → Value → Fields → Fields
insert_field k v end = field k v end
insert_field k v (field j w f) = elim (compare j k) [
  | Ordering.gt ↦ field k v (field j w f)
  | _ ↦ field j w (insert_field k v f)
]

unfoldable mutual
  pub sort_keys : Value → Value
  sort_keys (arr xs) = arr (sort_items xs)
  sort_keys (obj f) = obj (sort_fields f)
  sort_keys v = v

  pub sort_items : Items → Items
  sort_items nil = nil
  sort_items (cons x xs) = cons (sort_keys x) (sort_items xs)

  pub sort_fields : Fields → Fields
  sort_fields end = end
  sort_fields (field k v f) = insert_field k (sort_keys v) (sort_fields f)

digit : ℕ → String
digit d = slice "0123456789abcdef" d (d + 1)

-- The decimal digits of n before `rest`. A number has at most as many digits as its value plus one.
decimal_onto : ℕ → ℕ → String → String
decimal_onto zero n rest = rest
decimal_onto (suc fuel) n rest =
    let more = decimal_onto fuel (n / 10) (digit (n % 10) ++ rest) in
    if ltb n 10 then digit n ++ rest else more

unfoldable pub decimal : ℕ → String
unfolding decimal_onto digit
decimal n = decimal_onto (suc n) n ""

unfoldable pub print_int : ℤ → String
unfolding decimal
print_int (pos n) = decimal n
print_int (negsuc n) = "-" ++ decimal (suc n)

-- `ensure_ascii=False`: only the quote, the backslash and the control characters are escaped.
escape : Char → String
unfolding digit
escape c =
    let n = code c in
    if nat_eq n 34
    then "\\\""
    else if nat_eq n 92
    then "\\\\"
    else if nat_eq n 8
    then "\\b"
    else if nat_eq n 9
    then "\\t"
    else if nat_eq n 10
    then "\\n"
    else if nat_eq n 12
    then "\\f"
    else if nat_eq n 13
    then "\\r"
    else if ltb n 32
    then "\\u00" ++ digit (n / 16) ++ digit (n % 16)
    else String.◌∷◌ c String.[]

escape_all : String → String
escape_all String.[] = ""
escape_all (String.◌∷◌ c s) = escape c ++ escape_all s

unfoldable pub quote : String → String
unfolding escape escape_all
quote s = "\"" ++ escape_all s ++ "\""

-- `separators=(",", ":")`
unfoldable mutual
  pub dumps : Value → String
  dumps null = "null"
  dumps (boolean true) = "true"
  dumps (boolean false) = "false"
  dumps (int n) = print_int n
  dumps (float x) = x.repr
  dumps (str s) = quote s
  dumps (arr xs) = "[" ++ dumps_items xs ++ "]"
  dumps (obj f) = "{" ++ dumps_fields f ++ "}"

  pub dumps_items : Items → String
  dumps_items nil = ""
  dumps_items (cons x nil) = dumps x
  dumps_items (cons x (cons y ys)) = dumps x ++ "," ++ dumps_items (cons y ys)

  pub dumps_fields : Fields → String
  dumps_fields end = ""
  dumps_fields (field k v end) = quote k ++ ":" ++ dumps v
  dumps_fields (field k v (field j w f)) =
      quote k ++ ":" ++ dumps v ++ "," ++ dumps_fields (field j w f)

unfoldable pub canonical_json : Value → Result String
unfolding normalize_for_json
canonical_json v = do n ← normalize_for_json v; ok (dumps (sort_keys n))

unfoldable pub digest_json : Host → Value → Result String
digest_json host v = do text ← canonical_json v; ok (host.sha256_hex text)

-- `str(v)`: of a container it is the host's `repr`.
unfoldable pub py_str : Host → Value → String
unfolding print_int
py_str host null = "None"
py_str host (boolean true) = "True"
py_str host (boolean false) = "False"
py_str host (int n) = print_int n
py_str host (float x) = x.repr
py_str host (str s) = s
py_str host v = host.repr v
