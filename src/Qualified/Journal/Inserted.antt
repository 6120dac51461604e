-- ===== src/Qualified/Journal/Inserted.antt =====
-- qualified/store.py: the insertions of `append`, against the steps of a replay of the same entries.
use observable_agent_workflo.Prelude.{
  ◌≡◌, refl, sym, ap, ◌∙◌, subst, String, ◌==◌, Bool, true, false, ◌||◌, none, List, [], ◌∷◌, ◌++◌,
  map, length, inl, inr, arith, if◌then◌else◌, ◌≤◌, eq_iff,
}
use observable_agent_workflo.Prelude.Assoc.{lookup, has, insert, has-insert}
use observable_agent_workflo.Result.{Result, ok, ◌>>=◌, >>=-eq-ok, ok_injective, Result-cases}
use observable_agent_workflo.Json.{Host, obj}
use observable_agent_workflo.Qualified.Wire.{encoded}
use observable_agent_workflo.Qualified.Model.{Entry}
use observable_agent_workflo.Qualified.Model.Dump.{dump_entry}
use observable_agent_workflo.Qualified.Native.{Companion}
use observable_agent_workflo.Qualified.Journal.Replay.{Progress, step, steps}
use observable_agent_workflo.Qualified.Journal.Steps.{Accepted, step_lem}
use observable_agent_workflo.Qualified.Journal.Store.{
  Row, Table, row_entry, stored, insert_entry, insert_batch,
}

-- The identifiers that the loop knows are the table's.
abbrev pub Knows : Progress → Table → Type 0
Knows p table = (i : String) → has i p.ids ≡ stored i table

stored-append :
    (i : String) (table : Table) (row : Row)
    → stored i (table ++ row ∷ []) ≡ (row.entry.id == i || stored i table)
stored-append i [] row = ground arith
stored-append i (r ∷ table) row = ground (arith, stored-append i table row)

pub steps-append :
    (host : Host) (alt : Companion) (xs ys : List Entry) (p : Progress)
    → steps host alt (xs ++ ys) p ≡ (steps host alt xs p >>= steps host alt ys)
unfolding steps
steps-append host alt [] ys p = refl
steps-append host alt (x ∷ xs) ys p = elim (Result-cases (step host alt x p)) [
  | inl (q, e) ↦ rw e (steps-append host alt xs ys q)
  | inr (raised, e) ↦ rw e refl
]

unseen : {A : Type 0} (k : String) (d : List (String × A)) → lookup k d ≡ none → has k d ≡ false
unseen k [] h = refl
unseen k ((j, v) ∷ d) h = ground (arith, unseen k d)

or-false : (b : Bool) → (b || false) ≡ b
or-false true = refl
or-false false = refl

-- what the loop knows after the table's entries
pub table_known :
    (host : Host) (alt : Companion) (table : Table) (p : Progress) {p' : Progress}
    → steps host alt (map row_entry table) p ≡ ok p'
    → (i : String) → has i p'.ids ≡ (has i p.ids || stored i table)
unfolding steps
table_known host alt [] p r i =
    ap (λ (q : Progress). has i q.ids) (sym (ok_injective r)) ∙ sym (or-false (has i p.ids))
table_known host alt (row ∷ table) p r i =
    let (q, r1, stepped) = >>=-eq-ok (step host alt row.entry p) _ r in
    let later = table_known host alt table q r1 i in
    elim (step_lem host alt row.entry p stepped) [
      | inl (seen, same) ↦
          let here : has i q.ids ≡ has i p.ids = ap (λ (x : Progress). has i x.ids) same in
          ground (arith, eq_iff row.entry.id i)
      | inr (value, accepted) ↦
          let (new, s, applied, same) = accepted in
          let here : has i q.ids ≡ has i (insert row.entry.id value p.ids) =
            ap (λ (x : Progress). has i x.ids) same in
          ground (arith, has-insert i row.entry.id value p.ids)
    ]

-- what a batch adds to the table takes the loop as far as the batch
unfoldable pub Added : Host → Companion → List Entry → Progress → Progress → Table → Table → Type 0
Added host alt batch p p' table table' =
    (added : List Entry) × (map row_entry table' ≡ map row_entry table ++ added)
    × (steps host alt added p ≡ ok p')
    × (length added ≤ length batch)

insert_new :
    (host : Host) (e : Entry) (table : Table) {table' : Table}
    → stored e.id table ≡ false
    → insert_entry host e table ≡ ok table'
    → (raw : String) × (table' ≡ table ++ record { entry = e; raw_json = raw } ∷ [])
unfolding insert_entry
insert_new host e table {table'} fresh r =
    let written : Result Table = encoded host (obj (dump_entry e)) >>= λ raw.
    ok (table ++ record { entry = e; raw_json = raw } ∷ []) in
    let r1 : written ≡ ok table' =
      subst (λ b. (if b then ok table else written) ≡ ok table') fresh r in
    let (raw, r2, _) = >>=-eq-ok (encoded host (obj (dump_entry e))) _ r1 in
    (raw, ok_injective (sym r2))

insert_stored :
    (host : Host) (e : Entry) (table : Table) {table' : Table}
    → stored e.id table ≡ true
    → insert_entry host e table ≡ ok table'
    → table' ≡ table
unfolding insert_entry
insert_stored host e table here r = ground arith

append-cons :
    (xs : Table) (row : Row) (es : List Entry)
    → map row_entry (xs ++ row ∷ []) ++ es ≡ map row_entry xs ++ row.entry ∷ es
append-cons [] row es = refl
append-cons (x ∷ xs) row es = ap (λ rest. x.entry ∷ rest) (append-cons xs row es)

append-nil : (es : List Entry) → es ++ [] ≡ es
append-nil [] = refl
append-nil (e ∷ es) = ap (λ rest. e ∷ rest) (append-nil es)

skip-Added :
    (host : Host) (alt : Companion) (e : Entry) (es : List Entry) (p p' : Progress)
    (table table' : Table)
    → Added host alt es p p' table table'
    → Added host alt (e ∷ es) p p' table table'
unfolding Added
skip-Added host alt e es p p' table table' (added, same, ran, short) =
    (added, same, ran, omega arith)

grow-Added :
    (host : Host) (alt : Companion) (es : List Entry) (p q p' : Progress) (row : Row)
    (table table' : Table)
    → step host alt row.entry p ≡ ok q
    → Added host alt es q p' (table ++ row ∷ []) table'
    → Added host alt (row.entry ∷ es) p p' table table'
unfolding Added steps
grow-Added host alt es p q p' row table table' stepped (added, same, ran, short) =
    (row.entry ∷ added, same ∙ append-cons table row added, rw stepped ran, omega arith)

grown-Knows :
    (host : Host) (alt : Companion) (e : Entry) (value raw : String) (p q : Progress)
    (table : Table)
    → Knows p table
    → Accepted host alt e value p q
    → Knows q (table ++ record { entry = e; raw_json = raw } ∷ [])
grown-Knows host alt e value raw p q table known (new, s, applied, same) i =
    let here : has i q.ids ≡ has i (insert e.id value p.ids) =
      ap (λ (x : Progress). has i x.ids) same in
    ground (
      arith,
      has-insert i e.id value p.ids,
      known i,
      stored-append i table (record { entry = e; raw_json = raw }),
    )

pub insert_batch-Added :
    (host : Host) (alt : Companion) (batch : List Entry) (p : Progress) (table : Table)
    {p' : Progress} {table' : Table}
    → Knows p table
    → steps host alt batch p ≡ ok p'
    → insert_batch host batch table ≡ ok table'
    → Added host alt batch p p' table table'
unfolding steps insert_batch Added
insert_batch-Added host alt [] p table known r t = (
  [],
  ap (map row_entry) (sym (ok_injective t)) ∙ sym (append-nil (map row_entry table)),
  r,
  omega arith,
)
insert_batch-Added host alt (e ∷ es) p table {p'} {table'} known r t =
    let (q, r1, stepped) = >>=-eq-ok (step host alt e p) _ r in
    let (grown, t1, inserted) = >>=-eq-ok (insert_entry host e table) _ t in
    elim (step_lem host alt e p stepped) [
      | inl (seen, same) ↦
          let kept : grown ≡ table =
            insert_stored host e table (sym (known e.id) ∙ seen) inserted in
          skip-Added host alt e es p p' table table' (
            insert_batch-Added host alt es p table known
              (subst (λ x. steps host alt es x ≡ ok p') same r1)
              (subst (λ x. insert_batch host es x ≡ ok table') kept t1))
      | inr (value, accepted) ↦
          let fresh : stored e.id table ≡ false = sym (known e.id) ∙ unseen e.id p.ids accepted.0 in
          let (raw, added) = insert_new host e table fresh inserted in
          grow-Added host alt es p q p' (record { entry = e; raw_json = raw }) table table' stepped
            (insert_batch-Added host alt es q _
              (grown-Knows host alt e value raw p q table known accepted) r1
              (subst (λ x. insert_batch host es x ≡ ok table') added t1))
    ]
