-- ===== src/Prelude/Text.antt =====
-- Python's `str` where the program looks inside one: prefixes, slices, membership, joins.
use Prim.Native.Nat.{ℕ, zero, suc}
use Prim.Native.Char.{Char, code}
use Prim.Native.String.{String, ◌++◌}
use mathlib.Core.Bool.{Bool, true, false, ◌||◌, ◌&&◌}
use mathlib.Core.List.{List, [], ◌∷◌}
use text.Mathlib.Text.{◌==◌}
use observable_agent_workflo.Prelude.Tests.{if◌then◌else◌, leb, nat_eq}

-- `s[:n]`, by characters
unfoldable pub prefix : ℕ → String → String
prefix zero s = String.[]
prefix (suc n) String.[] = String.[]
prefix (suc n) (String.◌∷◌ c s) = String.◌∷◌ c (prefix n s)

-- `a + b`, for the files where `++` joins lists
abbrev pub cat : String → String → String
cat a b = a ++ b

-- `s in xs`
abbrev pub str_mem : String → List String → Bool
str_mem s [] = false
str_mem s (x ∷ xs) = x == s || str_mem s xs

abbrev pub strs_eq : List String → List String → Bool
strs_eq [] [] = true
strs_eq [] (y ∷ ys) = false
strs_eq (x ∷ xs) [] = false
strs_eq (x ∷ xs) (y ∷ ys) = x == y && strs_eq xs ys

-- `sep.join(xs)`
abbrev pub join : String → List String → String
join sep [] = ""
join sep (x ∷ []) = x
join sep (x ∷ y ∷ xs) = x ++ sep ++ join sep (y ∷ xs)

-- `str.isspace` of one character
pub is_space : Char → Bool
is_space c =
    let n = code c in
    (leb 9 n && leb n 13)
    || (leb 28 n && leb n 32)
    || nat_eq n 0x85
    || nat_eq n 0xa0
    || nat_eq n 0x1680
    || (leb 0x2000 n && leb n 0x200a)
    || nat_eq n 0x2028
    || nat_eq n 0x2029
    || nat_eq n 0x202f
    || nat_eq n 0x205f
    || nat_eq n 0x3000

pub lstrip : String → String
unfolding is_space
lstrip String.[] = ""
lstrip (String.◌∷◌ c s) = if is_space c then lstrip s else String.◌∷◌ c s

-- a text without the spaces at its end
pub rstrip : String → String
unfolding is_space
rstrip String.[] = ""
rstrip (String.◌∷◌ c s) =
    let rest = rstrip s in if rest == "" && is_space c then "" else String.◌∷◌ c rest

-- `s.strip()`
unfoldable pub strip : String → String
unfolding lstrip rstrip
strip s = rstrip (lstrip s)
