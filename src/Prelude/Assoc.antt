-- ===== src/Prelude/Assoc.antt =====
-- A dict with string keys, in insertion order, as a list of pairs with distinct keys.
use mathlib.Core.Path.{◌≡◌, refl}
use mathlib.Core.Logic.{inl, inr}
use mathlib.Core.Bool.{Bool, true, false, ◌||◌}
use mathlib.Core.List.{List, [], ◌∷◌}
use mathlib.Core.Option.{Option, none, some}
use Prim.Native.String.{String}
use native.Mathlib.Omega.{arith}
use text.Mathlib.Text.{◌==◌}
use text.Mathlib.TextEquality.{eq_iff}
use observable_agent_workflo.Prelude.Tests.{if◌then◌else◌, Bool-cases}

module _ {ℓ} {A : Type ℓ} where
  -- `d.get(k)`
  abbrev pub lookup : String → List (String × A) → Option A
  lookup k [] = none
  lookup k ((j, v) ∷ d) = if j == k then some v else lookup k d

  -- `k in d`
  abbrev pub has : String → List (String × A) → Bool
  has k [] = false
  has k ((j, v) ∷ d) = j == k || has k d

  -- `d[k] = v`
  abbrev pub insert : String → A → List (String × A) → List (String × A)
  insert k v [] = (k, v) ∷ []
  insert k v ((j, w) ∷ d) = if j == k then (j, v) ∷ d else (j, w) ∷ insert k v d

  abbrev pub names : List (String × A) → List String
  names [] = []
  names ((j, v) ∷ d) = j ∷ names d

  abbrev pub values : List (String × A) → List A
  values [] = []
  values ((j, v) ∷ d) = v ∷ values d

  pub has-lookup :
      (k : String) (d : List (String × A)) {v : A} → lookup k d ≡ some v → has k d ≡ true
  has-lookup k [] h = absurd (ground arith)
  has-lookup k ((j, w) ∷ d) {v} h = ground (arith, has-lookup k d {v = v})

  pub lookup-has :
      (k : String) (d : List (String × A)) → has k d ≡ true → (v : A) × (lookup k d ≡ some v)
  lookup-has k [] h = absurd (ground arith)
  lookup-has k ((j, w) ∷ d) h = elim (Bool-cases (j == k)) [
    | inl here ↦ (w, rw here refl)
    | inr there ↦ let (v, found) = lookup-has k d (ground arith) in (v, rw there found)
  ]

  pub has-insert :
      (j k : String) (v : A) (d : List (String × A)) → has j (insert k v d) ≡ (k == j || has j d)
  has-insert j k v [] = refl
  has-insert j k v ((i, w) ∷ d) = ground (arith, eq_iff i k, has-insert j k v d)

  pub lookup-insert :
      (j k : String) (v : A) (d : List (String × A))
      → lookup j (insert k v d) ≡ (if k == j then some v else lookup j d)
  lookup-insert j k v [] = refl
  lookup-insert j k v ((i, w) ∷ d) =
      ground (arith, eq_iff i k, eq_iff k j, eq_iff i j, lookup-insert j k v d)
