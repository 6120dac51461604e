-- ===== src/Qualified/Lines.antt =====
-- qualified/native.py: the registered tool, which sorts the distinct lines of a text, and Python's
-- `splitlines`, `split("\n")` and `sorted(set(...))`.
pub mod Order
pub mod Sorted
pub mod Joined
use Prim.Native.Char.{Char, code}
use Prim.Native.Nat.{Ordering}
use Prim.Native.String.{compare, count}
use observable_agent_workflo.Prelude.{
  ℕ, String, Bool, true, false, ◌&&◌, ◌||◌, List, [], ◌∷◌, ltb, leb, nat_eq, if◌then◌else◌, join,
}
use observable_agent_workflo.Result.{Result, ok, err, value_error}

abbrev pub is_lf : Char → Bool
is_lf c = nat_eq (code c) 10

-- what ends a line for `splitlines`
abbrev pub is_break : Char → Bool
is_break c =
    let n = code c in
    (leb 10 n && leb n 13)
    || (leb 28 n && leb n 30)
    || nat_eq n 0x85
    || nat_eq n 0x2028
    || nat_eq n 0x2029

abbrev begins_lf : String → Bool
begins_lf String.[] = false
begins_lf (String.◌∷◌ c s) = is_lf c

-- one more character in front of the first line
abbrev pub onto_first : Char → List String → List String
onto_first c [] = String.◌∷◌ c String.[] ∷ []
onto_first c (l ∷ ls) = String.◌∷◌ c l ∷ ls

-- `text.splitlines()`: the two characters CR LF end one line
unfoldable pub splitlines : String → List String
splitlines String.[] = []
splitlines (String.◌∷◌ c s) =
    let rest = splitlines s in
    if nat_eq (code c) 13 && begins_lf s
    then rest
    else if is_break c
    then "" ∷ rest
    else onto_first c rest

-- `text.split("\n")`
unfoldable pub split_lf : String → List String
split_lf String.[] = "" ∷ []
split_lf (String.◌∷◌ c s) =
    let rest = split_lf s in if is_lf c then "" ∷ rest else onto_first c rest

-- `a < b` of texts
abbrev pub str_lt : String → String → Bool
str_lt a b = elim (compare a b) [ Ordering.lt ↦ true | _ ↦ false ]

abbrev pub insert_line : String → List String → List String
insert_line x [] = x ∷ []
insert_line x (y ∷ ys) = elim (compare x y) [
  | Ordering.lt ↦ x ∷ y ∷ ys
  | Ordering.eq ↦ y ∷ ys
  | Ordering.gt ↦ y ∷ insert_line x ys
]

-- `sorted(set(xs))`
unfoldable pub sorted_set : List String → List String
sorted_set [] = []
sorted_set (x ∷ xs) = insert_line x (sorted_set xs)

-- `all(a < b for a, b in zip(lines, lines[1:]))`
unfoldable pub ascending : List String → Bool
ascending [] = true
ascending (x ∷ []) = true
ascending (x ∷ y ∷ ys) = str_lt x y && ascending (y ∷ ys)

-- what `normalize` returns for a text
unfoldable pub normal_form : String → String
normal_form text = join "\n" (sorted_set (splitlines text))

unfoldable pub normalize : String → Result String
normalize text =
    if ltb 4096 (count text)
    then err (value_error "bounded text required")
    else ok (normal_form text)
