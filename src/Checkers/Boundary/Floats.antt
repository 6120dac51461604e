-- ===== src/Checkers/Boundary/Floats.antt =====
-- The search for floats misses none, at any depth.
use observable_agent_workflo.Prelude.{
  ℕ, suc, String, ◌≡◌, ◌↔◌, ◌⊎◌, refl, false, ◌&&◌, List, [], ◌∷◌, ◌++◌, arith, is_empty, inl, inr,
}
use observable_agent_workflo.Json.{
  Float, Value, Items, Fields, null, boolean, int, float, str, arr, obj, nil, cons, end, field,
}
use observable_agent_workflo.Checkers.Boundary.{
  find_float_paths, find_in_fields, find_in_items, float_paths,
}

-- A float that stands somewhere in a value.
mutual
  pub data Occurs (x : Float) : Value → Type 0 where
    here : Occurs x (float x)
    in_arr : {xs : Items} → OccursItem x xs → Occurs x (arr xs)
    in_obj : {f : Fields} → OccursField x f → Occurs x (obj f)

  pub data OccursItem (x : Float) : Items → Type 0 where
    at_item : {v : Value} {xs : Items} → Occurs x v → OccursItem x (cons v xs)
    later_item : {v : Value} {xs : Items} → OccursItem x xs → OccursItem x (cons v xs)

  pub data OccursField (x : Float) : Fields → Type 0 where
    at_field : {k : String} {v : Value} {f : Fields} → Occurs x v → OccursField x (field k v f)
    later_field :
        {k : String} {v : Value} {f : Fields} → OccursField x f → OccursField x (field k v f)

is_empty-append : (xs ys : List String) → is_empty (xs ++ ys) ≡ (is_empty xs && is_empty ys)
is_empty-append [] ys = refl
is_empty-append (x ∷ xs) ys = refl

-- what is found at the head or in the rest is found in the whole
joined :
    (xs ys : List String)
    → (is_empty xs ≡ false) ⊎ (is_empty ys ≡ false)
    → is_empty (xs ++ ys) ≡ false
joined xs ys h = rw is_empty-append (ground arith)

mutual
  unfolding find_float_paths

  found :
      (x : Float) (v : Value)
      → Occurs x v
      → (path : String) → is_empty (find_float_paths v path) ≡ false
  found x (float y) h path = refl
  found x (arr xs) (in_arr h) path = found_item x xs h path 0
  found x (obj f) (in_obj h) path = found_field x f h path
  found x null h path = elim h [ ]
  found x (boolean b) h path = elim h [ ]
  found x (int n) h path = elim h [ ]
  found x (str s) h path = elim h [ ]

  found_item :
      (x : Float) (xs : Items)
      → OccursItem x xs
      → (path : String) (i : ℕ) → is_empty (find_in_items xs path i) ≡ false
  found_item x nil h path i = elim h [ ]
  found_item x (cons v xs) (at_item h) path i = joined _ _ (inl (found x v h _))
  found_item x (cons v xs) (later_item h) path i =
      joined (find_float_paths v _) _ (inr (found_item x xs h path (suc i)))

  found_field :
      (x : Float) (f : Fields)
      → OccursField x f
      → (path : String) → is_empty (find_in_fields f path) ≡ false
  found_field x end h path = elim h [ ]
  found_field x (field k v f) (at_field h) path = joined _ _ (inl (found x v h _))
  found_field x (field k v f) (later_field h) path =
      joined (find_float_paths v _) _ (inr (found_field x f h path))

split :
    (xs ys : List String)
    → is_empty (xs ++ ys) ≡ false
    → (is_empty xs ≡ false) ⊎ (is_empty ys ≡ false)
split [] ys h = inr h
split (x ∷ xs) ys h = inl refl

abbrev Found : Value → Type 0
Found v = (x : Float) × Occurs x v

head_or_later_item :
    {v : Value} {xs : Items}
    → ((x : Float) × Occurs x v) ⊎ ((x : Float) × OccursItem x xs)
    → (x : Float) × OccursItem x (cons v xs)
head_or_later_item (inl (x, h)) = (x, at_item h)
head_or_later_item (inr (x, h)) = (x, later_item h)

head_or_later_field :
    {k : String} {v : Value} {f : Fields}
    → ((x : Float) × Occurs x v) ⊎ ((x : Float) × OccursField x f)
    → (x : Float) × OccursField x (field k v f)
head_or_later_field (inl (x, h)) = (x, at_field h)
head_or_later_field (inr (x, h)) = (x, later_field h)

either {ℓ} : {A B C D : Type ℓ} → A ⊎ B → (A → C) → (B → D) → C ⊎ D
either (inl a) f g = inl (f a)
either (inr b) f g = inr (g b)

mutual
  unfolding find_float_paths

  real :
      (v : Value) (path : String)
      → is_empty (find_float_paths v path) ≡ false
      → (x : Float) × Occurs x v
  real (float x) path h = (x, here)
  real (arr xs) path h = let (x, o) = real_item xs path 0 h in (x, in_arr o)
  real (obj f) path h = let (x, o) = real_field f path h in (x, in_obj o)
  real null path h = absurd (ground arith)
  real (boolean b) path h = absurd (ground arith)
  real (int n) path h = absurd (ground arith)
  real (str s) path h = absurd (ground arith)

  real_item :
      (xs : Items) (path : String) (i : ℕ)
      → is_empty (find_in_items xs path i) ≡ false
      → (x : Float) × OccursItem x xs
  real_item nil path i h = absurd (ground arith)
  real_item (cons v xs) path i h =
      head_or_later_item (either (split _ _ h) (real v _) (real_item xs path (suc i)))

  real_field :
      (f : Fields) (path : String)
      → is_empty (find_in_fields f path) ≡ false
      → (x : Float) × OccursField x f
  real_field end path h = absurd (ground arith)
  real_field (field k v f) path h =
      head_or_later_field (either (split _ _ h) (real v _) (real_field f path))

-- The checker reports a float exactly when one stands in the candidate's metadata or in the
-- evidence, at any depth.
pub float_paths_iff :
    (metadata evidence : Fields)
    → (is_empty (float_paths metadata evidence) ≡ false)
      ↔ (((x : Float) × Occurs x (obj metadata)) ⊎ ((x : Float) × Occurs x (obj evidence)))
unfolding float_paths
float_paths_iff metadata evidence = (
  (λ h. either (split _ _ h) (real (obj metadata) _) (real (obj evidence) _)),
  (λ h.
      joined (find_float_paths (obj metadata) "candidate.metadata")
        (find_float_paths (obj evidence) "evidence")
        (either h (λ o. found o.0 (obj metadata) o.1 "candidate.metadata")
          (λ o. found o.0 (obj evidence) o.1 "evidence"))),
)
