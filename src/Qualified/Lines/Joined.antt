-- ===== src/Qualified/Lines/Joined.antt =====
-- qualified/native.py: `"\n".join` and `split("\n")` are inverse, and what `splitlines` returns.
use Prim.Native.Char.{Char}
use Prim.Native.String.{◌++◌}
use Prim.Native.String.append
use Prim.Native.String.compare
use text.Mathlib.TextEquality.{codes_equal}
use observable_agent_workflo.Prelude.{
  ◌≡◌, refl, ap, ◌∙◌, String, ◌==◌, Bool, true, false, not, ◌&&◌, List, [], ◌∷◌, all, arith, join,
  Bool-cases, inl, inr, is_empty,
}
use observable_agent_workflo.Qualified.Lines.{is_lf, onto_first, splitlines, split_lf}

abbrev lf : Char
lf = "\n"

abbrev pub lacks_lf : String → Bool
lacks_lf String.[] = true
lacks_lf (String.◌∷◌ c s) = not (is_lf c) && lacks_lf s

lf_lem : (c : Char) → is_lf c ≡ true → c ≡ lf
lf_lem c h = codes_equal c lf (ground arith)

join-onto_first :
    (c : Char) (l : String) (ls : List String)
    → join "\n" (onto_first c (l ∷ ls)) ≡ String.◌∷◌ c (join "\n" (l ∷ ls))
join-onto_first c l [] = refl
join-onto_first c l (m ∷ ls) = append.cons c l _

join-empty_first :
    (l : String) (ls : List String) → join "\n" ("" ∷ l ∷ ls) ≡ String.◌∷◌ lf (join "\n" (l ∷ ls))
join-empty_first l ls =
    let rest = join "\n" (l ∷ ls) in
    append.nil ("\n" ++ rest) ∙ append.cons lf "" rest ∙ ap (String.◌∷◌ lf) (append.nil rest)

split_lf-cons : (s : String) → (l : String) × (ls : List String) × (split_lf s ≡ l ∷ ls)
unfolding split_lf
split_lf-cons String.[] = ("", [], refl)
split_lf-cons (String.◌∷◌ c s) = elim (Bool-cases (is_lf c)) [
  | inl here ↦ ("", split_lf s, rw here refl)
  | inr other ↦ let (l, ls, e) = split_lf-cons s in (String.◌∷◌ c l, ls, rw (other, e) refl)
]

pub join-split_lf : (s : String) → join "\n" (split_lf s) ≡ s
unfolding split_lf
join-split_lf String.[] = refl
join-split_lf (String.◌∷◌ c s) =
    let (l, ls, e) = split_lf-cons s in
    let ih : join "\n" (l ∷ ls) ≡ s = rw (← e) (join-split_lf s) in
    elim (Bool-cases (is_lf c)) [
      | inl here ↦ rw (here, e, join-empty_first l ls, ih, lf_lem c here) refl
      | inr other ↦ rw (other, e, join-onto_first c l ls, ih) refl
    ]

split_lf-line : (l : String) → lacks_lf l ≡ true → split_lf l ≡ l ∷ []
unfolding split_lf
split_lf-line String.[] h = refl
split_lf-line (String.◌∷◌ c l) h = ground (arith, split_lf-line l)

split_lf-append : (l t : String) → lacks_lf l ≡ true → split_lf (l ++ ("\n" ++ t)) ≡ l ∷ split_lf t
unfolding split_lf
split_lf-append String.[] t h = rw (append.nil ("\n" ++ t), append.cons lf "" t, append.nil t) refl
split_lf-append (String.◌∷◌ c l) t h =
    rw (append.cons c l ("\n" ++ t)) (ground (arith, split_lf-append l t))

pub split_lf-join :
    (l : String) (ls : List String)
    → all lacks_lf (l ∷ ls) ≡ true
    → split_lf (join "\n" (l ∷ ls)) ≡ l ∷ ls
split_lf-join l [] h = split_lf-line l (ground arith)
split_lf-join l (m ∷ ls) h =
    split_lf-append l (join "\n" (m ∷ ls)) (ground arith)
    ∙ ap (λ xs. l ∷ xs) (split_lf-join m ls (ground arith))

onto_first-lacks_lf :
    (c : Char) (ls : List String)
    → is_lf c ≡ false
    → all lacks_lf ls ≡ true
    → all lacks_lf (onto_first c ls) ≡ true
onto_first-lacks_lf c [] h k = ground arith
onto_first-lacks_lf c (l ∷ ls) h k = ground arith

pub splitlines-lacks_lf : (s : String) → all lacks_lf (splitlines s) ≡ true
unfolding splitlines
splitlines-lacks_lf String.[] = refl
splitlines-lacks_lf (String.◌∷◌ c s) =
    ground (arith, splitlines-lacks_lf s, onto_first-lacks_lf c (splitlines s))

onto_first-nonempty : (c : Char) (ls : List String) → is_empty (onto_first c ls) ≡ false
onto_first-nonempty c [] = refl
onto_first-nonempty c (l ∷ ls) = refl

splitlines-nonempty : (c : Char) (s : String) → is_empty (splitlines (String.◌∷◌ c s)) ≡ false
unfolding splitlines
splitlines-nonempty c String.[] = ground arith
splitlines-nonempty c (String.◌∷◌ d s) =
    ground (arith, splitlines-nonempty d s, onto_first-nonempty c (splitlines (String.◌∷◌ d s)))

pub splitlines-is_empty : (s : String) → is_empty (splitlines s) ≡ (s == "")
unfolding splitlines
splitlines-is_empty String.[] = refl
splitlines-is_empty (String.◌∷◌ c s) = ground (arith, splitlines-nonempty c s, compare.cons-nil c s)
