-- ===== src/Qualified/Journal/Dicts.antt =====
-- qualified/store.py: the dicts of a replay's state, after a key is set.
use observable_agent_workflo.Prelude.{
  ◌≡◌, refl, ap, String, ◌==◌, true, false, ◌||◌, some, List, [], ◌∷◌, str_mem, arith, eq_iff,
  eq_refl, Elem, inl, inr,
}
use observable_agent_workflo.Prelude.Assoc.{
  lookup, has, insert, names, has-lookup, has-insert, lookup-insert,
}
use observable_agent_workflo.Checkers.Base.{distinct}

module _ {A : Type 0} where
  str_mem-names-insert :
      (j k : String) (v : A) (d : List (String × A))
      → str_mem j (names (insert k v d)) ≡ (k == j || str_mem j (names d))
  str_mem-names-insert j k v [] = refl
  str_mem-names-insert j k v ((i, w) ∷ d) = ground (arith, eq_iff i k, str_mem-names-insert j k v d)

  pub distinct-insert :
      (k : String) (v : A) (d : List (String × A))
      → distinct (names d) ≡ true
      → distinct (names (insert k v d)) ≡ true
  distinct-insert k v [] h = refl
  distinct-insert k v ((i, w) ∷ d) h =
      ground (arith, eq_iff i k, eq_iff k i, str_mem-names-insert i k v d, distinct-insert k v d)

  pub Elem-str_mem :
      (k : String) (v : A) (d : List (String × A)) → Elem (k, v) d → str_mem k (names d) ≡ true
  Elem-str_mem k v [] m = absurd m
  Elem-str_mem k v ((i, w) ∷ d) (inl e) =
      let same : k ≡ i = ap (λ x. x.0) e in ground (arith, eq_refl k)
  Elem-str_mem k v ((i, w) ∷ d) (inr m) = ground (arith, Elem-str_mem k v d m)

  pub Elem-lookup :
      (k : String) (v : A) (d : List (String × A))
      → distinct (names d) ≡ true
      → Elem (k, v) d
      → lookup k d ≡ some v
  Elem-lookup k v [] h m = absurd m
  Elem-lookup k v ((i, w) ∷ d) h (inl e) =
      let same_key : k ≡ i = ap (λ x. x.0) e in
      let same_value : v ≡ w = ap (λ x. x.1) e in ground (arith, eq_refl k)
  Elem-lookup k v ((i, w) ∷ d) h (inr m) =
      ground (arith, Elem-str_mem k v d m, eq_iff i k, Elem-lookup k v d)

  pub has-insert_grows :
      (j k : String) (w : A) (d : List (String × A)) → has j d ≡ true → has j (insert k w d) ≡ true
  has-insert_grows j k w d h = ground (arith, has-insert j k w d)

  -- a new key changes no other
  pub lookup-insert_fresh :
      (j k : String) (w : A) (d : List (String × A)) {v : A}
      → has k d ≡ false
      → lookup j d ≡ some v
      → lookup j (insert k w d) ≡ some v
  lookup-insert_fresh j k w d {v} fresh h =
      ground (arith, lookup-insert j k w d, has-lookup j d {v = v}, eq_iff k j)
