-- ===== src/Qualified/Lines/Sorted.antt =====
-- qualified/native.py: `sorted(set(xs))` is the one ascending list with the members of `xs`.
use text.Mathlib.TextEquality.{path_by_compare}
use text.Mathlib.TextPositions.{compare_refl}
use observable_agent_workflo.Prelude.{
  ◌≡◌, refl, sym, subst, String, ◌==◌, Bool, true, false, ◌&&◌, ◌||◌, List, [], ◌∷◌, all, is_empty,
  str_mem, eq_iff, eq_refl, arith,
}
use observable_agent_workflo.Qualified.Lines.{str_lt, insert_line, sorted_set, ascending}
use observable_agent_workflo.Qualified.Lines.Order.{compare_flip, str_lt_trans}

-- every member of the first is one of the second
abbrev pub Within : List String → List String → Type 0
Within xs ys = (z : String) → str_mem z xs ≡ true → str_mem z ys ≡ true

pub all-str_mem :
    (p : String → Bool) (xs : List String) (z : String)
    → all p xs ≡ true
    → str_mem z xs ≡ true
    → p z ≡ true
all-str_mem p [] z h m = absurd (ground arith)
all-str_mem p (x ∷ xs) z h m = ground (arith, eq_iff x z, all-str_mem p xs z)

str_mem-insert :
    (z x : String) (ys : List String) → str_mem z (insert_line x ys) ≡ (x == z || str_mem z ys)
str_mem-insert z x [] = refl
str_mem-insert z x (y ∷ ys) = ground (arith, path_by_compare x y, str_mem-insert z x ys)

pub str_mem-sorted_set : (z : String) (xs : List String) → str_mem z (sorted_set xs) ≡ str_mem z xs
unfolding sorted_set
str_mem-sorted_set z [] = refl
str_mem-sorted_set z (x ∷ xs) =
    ground (arith, str_mem-insert z x (sorted_set xs), str_mem-sorted_set z xs)

insert-nonempty : (x : String) (ys : List String) → is_empty (insert_line x ys) ≡ false
insert-nonempty x [] = refl
insert-nonempty x (y ∷ ys) = ground arith

pub sorted_set-is_empty : (xs : List String) → is_empty (sorted_set xs) ≡ is_empty xs
unfolding sorted_set
sorted_set-is_empty [] = refl
sorted_set-is_empty (x ∷ xs) = insert-nonempty x (sorted_set xs)

-- the head is below the rest
pub head_below :
    (x : String) (xs : List String) → ascending (x ∷ xs) ≡ true → all (str_lt x) xs ≡ true
unfolding ascending
head_below x [] h = refl
head_below x (y ∷ []) h = ground arith
head_below x (y ∷ z ∷ xs) h = ground (arith, head_below x (z ∷ xs), str_lt_trans x y z)

abbrev first_below : String → List String → Bool
first_below x [] = true
first_below x (y ∷ ys) = str_lt x y

ascending-cons :
    (x : String) (ys : List String) → ascending (x ∷ ys) ≡ (first_below x ys && ascending ys)
unfolding ascending
ascending-cons x [] = refl
ascending-cons x (y ∷ ys) = refl

first_below-insert :
    (w x : String) (ys : List String)
    → str_lt w x ≡ true
    → first_below w ys ≡ true
    → first_below w (insert_line x ys) ≡ true
first_below-insert w x [] h k = h
first_below-insert w x (y ∷ ys) h k = ground arith

insert-ascending :
    (x : String) (ys : List String) → ascending ys ≡ true → ascending (insert_line x ys) ≡ true
unfolding ascending
insert-ascending x [] h = refl
insert-ascending x (y ∷ ys) h = ground (
  arith,
  ascending-cons y ys,
  ascending-cons y (insert_line x ys),
  compare_flip x y,
  first_below-insert y x ys,
  insert-ascending x ys,
)

pub sorted_set-ascending : (xs : List String) → ascending (sorted_set xs) ≡ true
unfolding sorted_set ascending
sorted_set-ascending [] = refl
sorted_set-ascending (x ∷ xs) = insert-ascending x (sorted_set xs) (sorted_set-ascending xs)

same_head :
    (x y : String) (xs ys : List String)
    → all (str_lt x) xs ≡ true
    → all (str_lt y) ys ≡ true
    → str_mem x (y ∷ ys) ≡ true
    → str_mem y (x ∷ xs) ≡ true
    → x ≡ y
same_head x y xs ys above_x above_y h k = ground (
  arith,
  eq_iff y x,
  eq_iff x y,
  all-str_mem (str_lt y) ys x,
  all-str_mem (str_lt x) xs y,
  str_lt_trans x y x,
  compare_refl x,
)

Within-tail :
    (x : String) (xs ys : List String)
    → all (str_lt x) xs ≡ true
    → Within (x ∷ xs) (x ∷ ys)
    → Within xs ys
Within-tail x xs ys above inside z m =
    ground (arith, inside z, eq_iff x z, all-str_mem (str_lt x) xs z, compare_refl x)

ascending_unique_cons :
    (x y : String) (xs ys : List String)
    → x ≡ y
    → ascending (x ∷ xs) ≡ true
    → ascending (y ∷ ys) ≡ true
    → Within (x ∷ xs) (y ∷ ys)
    → Within (y ∷ ys) (x ∷ xs)
    → (Within xs ys → Within ys xs → xs ≡ ys)
    → x ∷ xs ≡ y ∷ ys
ascending_unique_cons x y xs ys e h k there back ih =
    let tails : xs ≡ ys =
      ih
        (Within-tail x xs ys (head_below x xs h)
          (subst (λ w. Within (x ∷ xs) (w ∷ ys)) (sym e) there))
        (Within-tail y ys xs (head_below y ys k) (subst (λ w. Within (y ∷ ys) (w ∷ xs)) e back)) in
    rw (e, tails) refl

-- Two ascending lists with the same members are equal.
pub ascending_unique :
    (xs ys : List String)
    → ascending xs ≡ true
    → ascending ys ≡ true
    → Within xs ys
    → Within ys xs
    → xs ≡ ys
ascending_unique [] [] h k there back = refl
ascending_unique [] (y ∷ ys) h k there back = absurd (ground (arith, back y, eq_refl y))
ascending_unique (x ∷ xs) [] h k there back = absurd (ground (arith, there x, eq_refl x))
ascending_unique (x ∷ xs) (y ∷ ys) h k there back =
    ascending_unique_cons x y xs ys
      (same_head x y xs ys (head_below x xs h) (head_below y ys k)
        (there x (ground (arith, eq_refl x))) (back y (ground (arith, eq_refl y))))
      h k there back
      (ascending_unique xs ys (ground (arith, ascending-cons x xs))
        (ground (arith, ascending-cons y ys)))
