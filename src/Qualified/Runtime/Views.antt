-- ===== src/Qualified/Runtime/Views.antt =====
-- qualified/runtime.py: the order of the views, and one view for each memory.
use Prim.Native.Nat.{Ordering, compare as compare_ℕ}
use Prim.Native.String.{compare}
use text.Mathlib.Text.{find?}
use mathlib.Core.List.{reverse}
use observable_agent_workflo.Prelude.{
  ℕ, String, Bool, true, false, none, some, List, [], ◌∷◌, take, if◌then◌else◌,
}
use observable_agent_workflo.Prelude.Assoc.{insert, values}
use observable_agent_workflo.Json.{Host}
use observable_agent_workflo.Qualified.Decision.{View}

-- `query.casefold() in claim.casefold()`
abbrev mentions : Host → (query : String) → View → Bool
mentions host query view = elim (find? (host.casefold view.claim) (host.casefold query)) [
  | none ↦ false
  | some i ↦ true
]

-- the keys of two views compare: a match first, then the identifier, then the later expiry
abbrev after_id : Ordering → ℕ → ℕ → Bool
after_id Ordering.lt a b = false
after_id Ordering.gt a b = true
after_id Ordering.eq a b = elim (compare_ℕ a b) [ Ordering.lt ↦ true | _ ↦ false ]

unfoldable pub comes_after : Host → (query : String) → View → View → Bool
comes_after host query a b =
    if mentions host query a
    then if mentions host query b
      then after_id (compare a.memory_id b.memory_id) a.expiry b.expiry
      else false
    else if mentions host query b
    then true
    else after_id (compare a.memory_id b.memory_id) a.expiry b.expiry

abbrev pub insert_view : Host → (query : String) → View → List View → List View
insert_view host query v [] = v ∷ []
insert_view host query v (w ∷ ws) =
    if comes_after host query v w then w ∷ insert_view host query v ws else v ∷ w ∷ ws

-- `views.sort(...)`, which is stable
unfoldable pub sort_views : Host → (query : String) → List View → List View
sort_views host query [] = []
sort_views host query (v ∷ vs) = insert_view host query v (sort_views host query vs)

-- `{v["memory_id"]: v for v in views}`
unfoldable pub by_memory : List View → List (String × View) → List (String × View)
by_memory [] d = d
by_memory (v ∷ vs) d = by_memory vs (insert v.memory_id v d)

-- the dict is built from the end of the list, and read from its end
unfoldable pub distinct_views : List View → List View
distinct_views views = reverse (values (by_memory (reverse views) []))

unfoldable pub rank : Host → (query : String) (limit : ℕ) → List View → List View
rank host query limit views = take limit (distinct_views (sort_views host query views))
