-- ===== src/Qualified/Native/Checked.antt =====
-- qualified/native.py: `checked` looks at the output alone, and accepts what `normalize` returns.
use text.Mathlib.TextPositions.{compare_refl}
use observable_agent_workflo.Prelude.{
  ◌≡◌, refl, sym, ap, ◌∙◌, ◌↔◌, String, ◌==◌, Bool, true, ◌&&◌, inl, inr, List, [], ◌∷◌, all,
  str_mem, eq_iff, eq_refl, arith, Bool-cases, join, is_empty,
}
use observable_agent_workflo.Checkers.Base.{distinct, same_set}
use observable_agent_workflo.Qualified.Model.{Operation}
use observable_agent_workflo.Qualified.Lines.{
  str_lt, splitlines, split_lf, sorted_set, ascending, normal_form,
}
use observable_agent_workflo.Qualified.Lines.Sorted.{
  Within, all-str_mem, head_below, str_mem-sorted_set, sorted_set-is_empty, sorted_set-ascending,
  ascending_unique,
}
use observable_agent_workflo.Qualified.Lines.Joined.{
  lacks_lf, join-split_lf, split_lf-join, splitlines-lacks_lf, splitlines-is_empty,
}
use observable_agent_workflo.Qualified.Native.{Companion, output_lines, checked}

-- `all` over the members is a statement about each
all_of_mem :
    (p : String → Bool) (xs : List String)
    → ((z : String) → str_mem z xs ≡ true → p z ≡ true)
    → all p xs ≡ true
all_of_mem p [] h = refl
all_of_mem p (x ∷ xs) h =
    ground (arith, h x, eq_refl x, all_of_mem p xs (λ z m. h z (ground arith)))

same_set_iff : (xs ys : List String) → (same_set xs ys ≡ true) ↔ (Within xs ys × Within ys xs)
same_set_iff xs ys = (
  λ h. (
    λ z m. all-str_mem (λ x. str_mem x ys) xs z (ground arith) m,
    λ z m. all-str_mem (λ y. str_mem y xs) ys z (ground arith) m,
  ),
  λ (there, back).
      ground
        (arith, all_of_mem (λ x. str_mem x ys) xs there, all_of_mem (λ y. str_mem y xs) ys back),
)

ascending-distinct : (xs : List String) → ascending xs ≡ true → distinct xs ≡ true
unfolding ascending
ascending-distinct [] h = refl
ascending-distinct (x ∷ []) h = refl
ascending-distinct (x ∷ y ∷ xs) h = ground (
  arith,
  all-str_mem (str_lt x) (y ∷ xs) x (head_below x (y ∷ xs) h),
  compare_refl x,
  ascending-distinct (y ∷ xs),
)

lines_iff :
    (lines expected : List String)
    → ((distinct lines && same_set lines expected && ascending lines) ≡ true)
      ↔ (lines ≡ sorted_set expected)
lines_iff lines expected = (
  λ h.
      let (there, back) = (same_set_iff lines expected).0 (ground arith) in
      ascending_unique lines (sorted_set expected) (ground arith) (sorted_set-ascending expected)
        (λ z m. str_mem-sorted_set z expected ∙ there z m)
        (λ z m. back z (sym (str_mem-sorted_set z expected) ∙ m)),
  λ e.
      let sorted : ascending lines ≡ true = rw e (sorted_set-ascending expected) in
      let same : same_set lines expected ≡ true = (same_set_iff lines expected).1 (
        (λ z m. sym (str_mem-sorted_set z expected) ∙ (rw (← e) m)),
        (λ z m. rw e (str_mem-sorted_set z expected ∙ m)),
      ) in
      ground (arith, ascending-distinct lines),
)

join-output_lines : (input output : String) → join "\n" (output_lines input output) ≡ output
join-output_lines input output = ground (arith, eq_iff output "", join-split_lf output)

sorted_set-lacks_lf : (text : String) → all lacks_lf (sorted_set (splitlines text)) ≡ true
sorted_set-lacks_lf text = all_of_mem lacks_lf (sorted_set (splitlines text)) λ z m.
    all-str_mem lacks_lf (splitlines text) z (splitlines-lacks_lf text)
      (sym (str_mem-sorted_set z (splitlines text)) ∙ m)

output_lines-join :
    (input : String) (lines : List String)
    → all lacks_lf lines ≡ true
    → is_empty lines ≡ (input == "")
    → output_lines input (join "\n" lines) ≡ lines
unfolding split_lf
output_lines-join input [] h e = ground arith
output_lines-join input (l ∷ ls) h e = elim (Bool-cases (join "\n" (l ∷ ls) == "")) [
  | inl empty ↦
      let single : l ∷ ls ≡ "" ∷ [] =
        sym (split_lf-join l ls h) ∙ ap split_lf ((eq_iff (join "\n" (l ∷ ls)) "").0 empty) in
      rw (empty, ← e) (sym single)
  | inr there ↦ rw there (split_lf-join l ls h)
]

output_lines_iff :
    (input output : String)
    → (output_lines input output ≡ sorted_set (splitlines input)) ↔ (output ≡ normal_form input)
unfolding normal_form
output_lines_iff input output = (
  λ e. sym (join-output_lines input output) ∙ ap (join "\n") e,
  λ e.
      ap (output_lines input) e
      ∙ output_lines-join input (sorted_set (splitlines input)) (sorted_set-lacks_lf input)
          (sorted_set-is_empty (splitlines input) ∙ splitlines-is_empty input),
)

-- `checked` accepts an operation exactly if it names the installed implementation, is complete, claims
-- success, and its output is what `normalize` computes from its input: it tells the registered tool's
-- output from any other text, without running the tool.
pub checked_iff :
    (alt : Companion) (op : Operation)
    → (checked alt op ≡ true) ↔ (
        (op.implementation ≡ alt.implementation)
        × (op.complete ≡ true)
        × (op.outcome ≡ "success")
        × (op.output ≡ normal_form op.input))
unfolding checked
checked_iff alt op = ground (
  arith,
  eq_iff op.implementation alt.implementation,
  eq_iff op.outcome "success",
  lines_iff (output_lines op.input op.output) (splitlines op.input),
  output_lines_iff op.input op.output,
)
