-- ===== src/Qualified/Wire/Limits.antt =====
-- qualified/wire.py: what the bounded traversal of `loads` accepts, and that it ends.
use observable_agent_workflo.Prelude.{
  ℕ, zero, suc, ◌+◌, ◌≤◌, max, ◌≡◌, ◌↔◌, Bool, ◌&&◌, Option, some, List, [], ◌∷◌, ltb, leb, ◌||◌,
  if◌then◌else◌, arith,
}
use observable_agent_workflo.Result.{Result, ok, err, value_error}
use observable_agent_workflo.Json.{Value, Items, Fields, arr, obj, nil, cons, end, field}
use observable_agent_workflo.Qualified.Wire.{push_items, push_fields, push, traverse, visit_limit}

-- the number of values in a document, and the depth of its deepest one
unfoldable mutual
  pub nodes : Value → ℕ
  nodes (arr xs) = 1 + nodes_items xs
  nodes (obj f) = 1 + nodes_fields f
  nodes v = 1

  nodes_items : Items → ℕ
  nodes_items nil = 0
  nodes_items (cons x xs) = nodes x + nodes_items xs

  nodes_fields : Fields → ℕ
  nodes_fields end = 0
  nodes_fields (field k v f) = nodes v + nodes_fields f

unfoldable mutual
  pub height : Value → ℕ
  height (arr xs) = height_items xs
  height (obj f) = height_fields f
  height v = 0

  height_items : Items → ℕ
  height_items nil = 0
  height_items (cons x xs) = max (1 + height x) (height_items xs)

  height_fields : Fields → ℕ
  height_fields end = 0
  height_fields (field k v f) = max (1 + height v) (height_fields f)

-- the same of what is still pending
abbrev total : List (Value × ℕ) → ℕ
total [] = 0
total ((v, d) ∷ pending) = nodes v + total pending

abbrev reach : List (Value × ℕ) → ℕ
reach [] = 0
reach ((v, d) ∷ pending) = max (d + height v) (reach pending)

total-push_items :
    (xs : Items) (d : ℕ) (pending : List (Value × ℕ))
    → total (push_items xs d pending) ≡ nodes_items xs + total pending
unfolding nodes
total-push_items nil d pending = omega arith
total-push_items (cons x xs) d pending = omega (arith, total-push_items xs d ((x, d) ∷ pending))

total-push_fields :
    (f : Fields) (d : ℕ) (pending : List (Value × ℕ))
    → total (push_fields f d pending) ≡ nodes_fields f + total pending
unfolding nodes
total-push_fields end d pending = omega arith
total-push_fields (field k v f) d pending = omega (arith, total-push_fields f d ((v, d) ∷ pending))

reach-push_items :
    (xs : Items) (d : ℕ) (pending : List (Value × ℕ))
    → max d (reach (push_items xs (d + 1) pending)) ≡ max (d + height_items xs) (reach pending)
unfolding height
reach-push_items nil d pending = omega arith
reach-push_items (cons x xs) d pending = omega (arith, reach-push_items xs d ((x, d + 1) ∷ pending))

reach-push_fields :
    (f : Fields) (d : ℕ) (pending : List (Value × ℕ))
    → max d (reach (push_fields f (d + 1) pending)) ≡ max (d + height_fields f) (reach pending)
unfolding height
reach-push_fields end d pending = omega arith
reach-push_fields (field k v f) d pending =
    omega (arith, reach-push_fields f d ((v, d + 1) ∷ pending))

total-push :
    (v : Value) (d : ℕ) (pending : List (Value × ℕ))
    → 1 + total (push v d pending) ≡ total ((v, d) ∷ pending)
unfolding nodes
total-push (arr xs) d pending = omega (arith, total-push_items xs d pending)
total-push (obj f) d pending = omega (arith, total-push_fields f d pending)
total-push Value.null d pending = omega arith
total-push (Value.boolean b) d pending = omega arith
total-push (Value.int n) d pending = omega arith
total-push (Value.float x) d pending = omega arith
total-push (Value.str s) d pending = omega arith

reach-push :
    (v : Value) (d : ℕ) (pending : List (Value × ℕ))
    → max d (reach (push v (d + 1) pending)) ≡ reach ((v, d) ∷ pending)
unfolding height
reach-push (arr xs) d pending = reach-push_items xs d pending
reach-push (obj f) d pending = reach-push_fields f d pending
reach-push Value.null d pending = omega arith
reach-push (Value.boolean b) d pending = omega arith
reach-push (Value.int n) d pending = omega arith
reach-push (Value.float x) d pending = omega arith
reach-push (Value.str s) d pending = omega arith

abbrev verdict : Bool → Result (Unit {0})
verdict b = if b then ok tt else err (value_error "traversal limit")

-- one round of the loop, on the numbers alone
round_verdict :
    (limit visits depth t t' r r' : ℕ) (rest : Option (Result (Unit {0})))
    → 1 + t' ≡ t
    → max depth r' ≡ r
    → (visits + 1 ≤ limit → rest ≡ some (verdict (leb (visits + 1 + t') limit && leb r' 24)))
    → (if ltb 24 depth || ltb limit (visits + 1)
        then some (err (value_error "traversal limit"))
        else rest)
      ≡ some (verdict (leb (visits + t) limit && leb r 24))
round_verdict limit visits depth t t' r r' rest counted deep later = ground arith

traverse-eq :
    (fuel visits : ℕ) (pending : List (Value × ℕ))
    → visits ≤ visit_limit
    → visit_limit + 1 ≤ fuel + visits
    → traverse fuel visits pending
      ≡ some (verdict (leb (visits + total pending) visit_limit && leb (reach pending) 24))
unfolding traverse
traverse-eq fuel visits [] low enough = ground arith
traverse-eq zero visits (entry ∷ pending) low enough = absurd (omega arith)
traverse-eq (suc fuel) visits ((item, depth) ∷ pending) low enough =
    let more = push item (depth + 1) pending in
    round_verdict visit_limit visits depth (total ((item, depth) ∷ pending)) (total more)
      (reach ((item, depth) ∷ pending)) (reach more) (traverse fuel (visits + 1) more)
      (total-push item (depth + 1) pending) (reach-push item depth pending)
      λ h. traverse-eq fuel (visits + 1) more h (omega arith)

-- The traversal of a document ends within its fuel. It returns exactly if the document has at most
-- 50000 values, none of which stands deeper than 24.
pub traverse_ends :
    (v : Value)
    → (r : Result Unit) × (traverse (visit_limit + 1) 0 ((v, 0) ∷ []) ≡ some r)
      × ((r ≡ ok tt) ↔ ((nodes v ≤ visit_limit) × (height v ≤ 24)))
traverse_ends v = (
  verdict (leb (0 + total ((v, 0) ∷ [])) visit_limit && leb (reach ((v, 0) ∷ [])) 24),
  traverse-eq (visit_limit + 1) 0 ((v, 0) ∷ []) (omega arith) (omega arith),
  ground arith,
)
