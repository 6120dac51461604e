-- ===== src/Qualified/Runtime/Exposed.antt =====
-- qualified/runtime.py: ranking shows only views that were considered, and each belongs to an eligible
-- candidate of the journal.
use mathlib.Core.List.{reverse, reverse-append}
use observable_agent_workflo.Prelude.{
  ℕ, ◌≡◌, refl, sym, ap, ◌∙◌, subst, String, ◌==◌, true, List, [], ◌∷◌, All, All-append, All-take,
  Elem, inl, inr, Bool-cases, All-mono, false≢true, not, leb, ◌&&◌, some, if◌then◌else◌, arith,
}
use observable_agent_workflo.Prelude.Assoc.{lookup, insert, values}
use observable_agent_workflo.Result.{
  ok, or_raise, >>=-eq-ok, raise_if-eq-ok, or_raise-eq-ok, ok_injective,
}
use observable_agent_workflo.Json.{Host, Fields}
use observable_agent_workflo.Core.Record.{MemoryRecord}
use observable_agent_workflo.Qualified.Model.{Context, Qualification, Entry}
use observable_agent_workflo.Qualified.Model.Decode.{decode_qualification}
use observable_agent_workflo.Qualified.Journal.Replay.{Replayed, replay}
use observable_agent_workflo.Qualified.Journal.Store.{Table, entries}
use observable_agent_workflo.Qualified.Eligibility.{promotion}
use observable_agent_workflo.Qualified.Decision.{View, decision}
use observable_agent_workflo.Qualified.Runtime.{Site, Profiles, is_eligible}
use observable_agent_workflo.Qualified.Runtime.Views.{
  comes_after, insert_view, sort_views, by_memory, distinct_views, rank,
}
use observable_agent_workflo.Qualified.Runtime.Retrieve.{
  Retrieved, with_claim, marked, place, consider, retrieve,
}

module _ (P : View → Type 0) where
  insert_view-All :
      (host : Host) (query : String) (v : View) (vs : List View)
      → P v
      → All P vs
      → All P (insert_view host query v vs)
  insert_view-All host query v [] h k = (h, tt)
  insert_view-All host query v (w ∷ ws) h k = elim (Bool-cases (comes_after host query v w)) [
    | inl after ↦ rw after (k.0, insert_view-All host query v ws h k.1)
    | inr before ↦ rw before (h, k)
  ]

  sort_views-All :
      (host : Host) (query : String) (vs : List View) → All P vs → All P (sort_views host query vs)
  unfolding sort_views
  sort_views-All host query [] h = tt
  sort_views-All host query (v ∷ vs) h =
      insert_view-All host query v (sort_views host query vs) h.0 (sort_views-All host query vs h.1)

  reverse-All : (vs : List View) → All P vs → All P (reverse vs)
  reverse-All [] h = tt
  reverse-All (v ∷ vs) h =
      subst (All P) (sym (reverse-append (v ∷ []) vs))
        (All-append P (reverse vs) (v ∷ []) (reverse-All vs h.1) (h.0, tt))

  values-insert-All :
      (k : String) (v : View) (d : List (String × View))
      → P v
      → All P (values d)
      → All P (values (insert k v d))
  values-insert-All k v [] h g = (h, tt)
  values-insert-All k v ((j, w) ∷ d) h g = elim (Bool-cases (j == k)) [
    | inl here ↦ rw here (h, g.1)
    | inr other ↦ rw other (g.0, values-insert-All k v d h g.1)
  ]

  by_memory-All :
      (vs : List View) (d : List (String × View))
      → All P vs
      → All P (values d)
      → All P (values (by_memory vs d))
  unfolding by_memory
  by_memory-All [] d h g = g
  by_memory-All (v ∷ vs) d h g =
      by_memory-All vs (insert v.memory_id v d) h.1 (values-insert-All v.memory_id v d h.0 g)

  pub rank-All :
      (host : Host) (query : String) (limit : ℕ) (vs : List View)
      → All P vs
      → All P (rank host query limit vs)
  unfolding rank distinct_views
  rank-All host query limit vs h =
      let sorted = sort_views host query vs in
      let kept =
        by_memory-All (reverse sorted) [] (reverse-All sorted (sort_views-All host query vs h))
          tt in
      All-take P limit (distinct_views sorted)
        (reverse-All (values (by_memory (reverse sorted) [])) kept)

-- A view that is shown: the decision on a candidate of the journal, with its memory's claim.
abbrev pub Shown :
    Site → Context → (input : String) (now : ℕ) → Replayed → List (String × Fields) → View → Type 0
Shown site context input now r candidates v =
    (key : String) × (raw : Fields) × (q : Qualification) × (view : View) × (memory : MemoryRecord)
    × Elem (key, raw) candidates
    × (decode_qualification site.host raw ≡ ok q)
    × (decision site.host site.validation site.alt site.db q context input now r ≡ ok view)
    × (is_eligible view ≡ true)
    × (promotion site.host site.validation site.db q ≡ ok memory)
    × (v ≡ record view { claim = memory.claim })

Shown-more :
    (site : Site) (context : Context) (input : String) (now : ℕ) (r : Replayed)
    (c : String × Fields) (cs : List (String × Fields)) (v : View)
    → Shown site context input now r cs v
    → Shown site context input now r (c ∷ cs) v
Shown-more site context input now r c cs v
      (key, raw, q, view, memory, m, decoded, decided, passes, current, same) =
    (key, raw, q, view, memory, inr m, decoded, decided, passes, current, same)

with_claim_lem :
    (site : Site) (q : Qualification) (view : View) {v : View}
    → with_claim site q view ≡ ok v
    → (memory : MemoryRecord) × (promotion site.host site.validation site.db q ≡ ok memory)
      × (v ≡ record view { claim = memory.claim })
unfolding with_claim
with_claim_lem site q view r =
    let (memory, r1, current) = >>=-eq-ok (promotion site.host site.validation site.db q) _ r in
    (memory, current, ok_injective (sym r1))

-- what the branch of a candidate that is not eligible returns is not eligible
marked_lem :
    (site : Site) (q : Qualification) (view : View) {v : View}
    → marked site q view ≡ ok v
    → is_eligible v ≡ true
    → (is_eligible view ≡ true)
      × (memory : MemoryRecord) × (promotion site.host site.validation site.db q ≡ ok memory)
      × (v ≡ record view { claim = memory.claim })
unfolding marked
marked_lem site q view {v} r passes = elim (Bool-cases (is_eligible view)) [
  | inl good ↦
      let (memory, current, same) =
        with_claim_lem site q view
          (subst (λ b. (if b then with_claim site q view else ok view) ≡ ok v) good r) in
      (good, memory, current, same)
  | inr bad ↦
      let same : view ≡ v =
        ok_injective (subst (λ b. (if b then with_claim site q view else ok view) ≡ ok v) bad r) in
      absurd (false≢true (sym bad ∙ ap is_eligible same ∙ passes))
]

place-All :
    (P : View → Type 0) (v : View) (rest : List View × List View)
    → All P rest.0
    → (is_eligible v ≡ true → P v)
    → All P (place v rest).0
place-All P v rest h shows = elim (Bool-cases (is_eligible v)) [
  | inl good ↦ rw good (shows good, h)
  | inr bad ↦ rw bad h
]

pub consider-Shown :
    (site : Site) (context : Context) (input : String) (now : ℕ) (r : Replayed)
    (cs : List (String × Fields)) {placed : List View × List View}
    → consider site context input now r cs ≡ ok placed
    → All (Shown site context input now r cs) placed.0
unfolding consider
consider-Shown site context input now r [] h =
    subst (λ (p : List View × List View). All (Shown site context input now r []) p.0)
      (ok_injective h) tt
consider-Shown site context input now r ((key, raw) ∷ cs) h =
    let all = (key, raw) ∷ cs in
    let (q, h1, decoded) = >>=-eq-ok (decode_qualification site.host raw) _ h in
    let (view, h2, decided) =
      >>=-eq-ok (decision site.host site.validation site.alt site.db q context input now r) _ h1 in
    let (v, h3, made) = >>=-eq-ok (marked site q view) _ h2 in
    let (rest, h4, later) = >>=-eq-ok (consider site context input now r cs) _ h3 in
    let shown =
      All-mono (Shown site context input now r cs) (Shown site context input now r all) rest.0
        (Shown-more site context input now r (key, raw) cs)
        (consider-Shown site context input now r cs later) in
    subst (λ (p : List View × List View). All (Shown site context input now r all) p.0)
      (ok_injective h4)
      (place-All (Shown site context input now r all) v rest shown λ passes.
        let (good, memory, current, same) = marked_lem site q view made passes in
        (key, raw, q, view, memory, inl refl, decoded, decided, good, current, same))

pub retrieve_lem :
    (site : Site) (profiles : Profiles) (receiver input : String) (now : ℕ) (query : String)
    (limit : ℕ) (table : Table) {result : Retrieved}
    → retrieve site profiles receiver input now query limit table ≡ ok result
    → (context : Context) × (old : List Entry) × (r : Replayed) × (placed : List View × List View)
      × (lookup receiver profiles ≡ some context)
      × (entries table ≡ ok old)
      × (replay site.host site.alt old ≡ ok r)
      × (consider site context input now r r.state.qualifications ≡ ok placed)
      × (result.views ≡ rank site.host query limit placed.0)
      × (result.snapshot ≡ r.revision)
      × ((leb 1 limit && leb limit 32) ≡ true)
unfolding retrieve
retrieve_lem site profiles receiver input now query limit table h =
    let (bounded, h1) = raise_if-eq-ok (not (leb 1 limit && leb limit 32)) _ _ h in
    let (context, h2, registered) = >>=-eq-ok (or_raise (lookup receiver profiles) _) _ h1 in
    let (old, h3, opened) = >>=-eq-ok (entries table) _ h2 in
    let (r, h4, replayed) = >>=-eq-ok (replay site.host site.alt old) _ h3 in
    let (placed, h5, considered) =
      >>=-eq-ok (consider site context input now r r.state.qualifications) _ h4 in
    let same = ok_injective (sym h5) in
    (
      context,
      old,
      r,
      placed,
      or_raise-eq-ok _ _ registered,
      opened,
      replayed,
      considered,
      ap (λ (x : Retrieved). x.views) same,
      ap (λ (x : Retrieved). x.snapshot) same,
      ground arith,
    )
