-- ===== src/Prelude/Lists.antt =====
-- Lists measured by native numbers, Boolean quantifiers and filters, and predicates by recursion.
use Prim.Native.Nat.{ℕ, zero, suc, ◌+◌}
use mathlib.Core.Path.{◌≡◌, refl, sym, subst}
use mathlib.Core.Logic.{◌⊎◌, inl, inr}
use mathlib.Core.Bool.{Bool, true, false, ◌&&◌, ◌||◌}
use mathlib.Core.List.{List, [], ◌∷◌, ◌++◌}
use mathlib.Core.Option.{Option, none, some}
use native.Mathlib.Omega.{arith}
use observable_agent_workflo.Prelude.Tests.{if◌then◌else◌}

module _ {ℓ} {A : Type ℓ} where
  abbrev pub length : List A → ℕ
  length [] = 0
  length (x ∷ xs) = suc (length xs)

  abbrev pub take : ℕ → List A → List A
  take zero xs = []
  take (suc n) [] = []
  take (suc n) (x ∷ xs) = x ∷ take n xs

  abbrev pub is_empty : List A → Bool
  is_empty [] = true
  is_empty (x ∷ xs) = false

  -- Python's `all` and `any` over a comprehension.
  abbrev pub all : (A → Bool) → List A → Bool
  all p [] = true
  all p (x ∷ xs) = p x && all p xs

  abbrev pub any : (A → Bool) → List A → Bool
  any p [] = false
  any p (x ∷ xs) = p x || any p xs

  -- A comprehension with a condition.
  abbrev pub select : (A → Bool) → List A → List A
  select p [] = []
  select p (x ∷ xs) = let rest = select p xs in if p x then x ∷ rest else rest

  -- `next((x for x in xs if p x), None)`
  abbrev pub first : (A → Bool) → List A → Option A
  first p [] = none
  first p (x ∷ xs) = if p x then some x else first p xs

  abbrev pub last : List A → Option A
  last [] = none
  last (x ∷ []) = some x
  last (x ∷ y ∷ xs) = last (y ∷ xs)

  pub length-append : (xs ys : List A) → length (xs ++ ys) ≡ length xs + length ys
  length-append [] ys = omega arith
  length-append (x ∷ xs) ys = omega (arith, length-append xs ys)

module _ {ℓ κ} {A : Type ℓ} where
  -- A predicate by recursion computes to tuples, which the tactics read and build.
  abbrev pub All : (A → Type κ) → List A → Type κ
  All P [] = Unit
  All P (x ∷ xs) = P x × All P xs

  pub All-append : (P : A → Type κ) (xs ys : List A) → All P xs → All P ys → All P (xs ++ ys)
  All-append P [] ys hx hy = hy
  All-append P (x ∷ xs) ys hx hy = (hx.0, All-append P xs ys hx.1 hy)

  pub All-mono : (P Q : A → Type κ) (xs : List A) → ((x : A) → P x → Q x) → All P xs → All Q xs
  All-mono P Q [] f h = tt
  All-mono P Q (x ∷ xs) f h = (f x h.0, All-mono P Q xs f h.1)

  pub All-take : (P : A → Type κ) (n : ℕ) (xs : List A) → All P xs → All P (take n xs)
  All-take P zero xs h = tt
  All-take P (suc n) [] h = tt
  All-take P (suc n) (x ∷ xs) h = (h.0, All-take P n xs h.1)

module _ {A : Type 0} where
  -- membership with its place kept
  abbrev pub Elem : A → List A → Type 0
  Elem x [] = ⊥
  Elem x (y ∷ ys) = (x ≡ y) ⊎ Elem x ys

  pub Elem-append_left : (x : A) (ys zs : List A) → Elem x ys → Elem x (ys ++ zs)
  Elem-append_left x [] zs h = absurd h
  Elem-append_left x (y ∷ ys) zs (inl e) = inl e
  Elem-append_left x (y ∷ ys) zs (inr h) = inr (Elem-append_left x ys zs h)

  pub Elem-append_last : (x : A) (ys : List A) → Elem x (ys ++ x ∷ [])
  Elem-append_last x [] = inl refl
  Elem-append_last x (y ∷ ys) = inr (Elem-append_last x ys)

  Elem-select_cons :
      (p : A → Bool) (x y : A) (ys : List A)
      → (Elem x (select p ys) → Elem x ys × (p x ≡ true))
      → Elem x (select p (y ∷ ys))
      → Elem x (y ∷ ys) × (p x ≡ true)
  Elem-select_cons p x y ys ih h = ground arith

  pub Elem-select :
      (p : A → Bool) (x : A) (ys : List A) → Elem x (select p ys) → Elem x ys × (p x ≡ true)
  Elem-select p x [] h = absurd h
  Elem-select p x (y ∷ ys) h = Elem-select_cons p x y ys (Elem-select p x ys) h

  pub All-Elem : (P : A → Type 0) (x : A) (xs : List A) → All P xs → Elem x xs → P x
  All-Elem P x [] h m = absurd m
  All-Elem P x (y ∷ ys) h (inl e) = subst P (sym e) h.0
  All-Elem P x (y ∷ ys) h (inr m) = All-Elem P x ys h.1 m
