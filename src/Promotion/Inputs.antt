-- ===== src/Promotion/Inputs.antt =====
-- The input-set checker in a verification, whose context holds what the store says of the source
-- events: adapters/jsonschema_checker.py with `_collect_event_digests` of runtime/promotion.py.
use observable_agent_workflo.Prelude.{
  String, ◌≡◌, refl, true, false, none, some, List, [], ◌∷◌, arith, eq_iff, eq_refl, strs_eq, All,
  inl, inr, subst, Option-cases, sym,
}
use observable_agent_workflo.Result.{ok}
use observable_agent_workflo.Json.{
  Host, Value, Items, Fields, null, boolean, int, float, str, arr, obj, end, strs, get, put, keys,
  value_eq,
}
use observable_agent_workflo.Json.Laws.{get-put}
use observable_agent_workflo.Core.Record.{MemoryRecord}
use observable_agent_workflo.Core.Receipt.{CheckerResult}
use observable_agent_workflo.Core.Event.{StoredEvent}
use observable_agent_workflo.Storage.{Db, find_event}
use observable_agent_workflo.Checkers.Base.{
  Context, truthy, get_or_none, distinct, same_set, str_each,
}
use observable_agent_workflo.Checkers.InputSet.{input_set, check_ids}
use observable_agent_workflo.Checkers.InputSet.Exact.{check_ids_accepts, check_ids_shape}
use observable_agent_workflo.Promotion.{checker_context}
use observable_agent_workflo.Promotion.Evidence.{collect_from, collect_event_digests}

found_first :
    (id : String) (ids : List String) (digests : Fields) (db : Db) (e : StoredEvent)
    → find_event id db.events ≡ some e
    → collect_from (id ∷ ids) digests db
      ≡ collect_from ids (put id (str e.payload_digest) digests) db
unfolding collect_from
found_first id ids digests db e found = ground arith

missing_first :
    (id : String) (ids : List String) (digests : Fields) (db : Db)
    → find_event id db.events ≡ none
    → collect_from (id ∷ ids) digests db
      ≡ ((collect_from ids digests db).0, id ∷ (collect_from ids digests db).1)
unfolding collect_from
missing_first id ids digests db missing = ground arith

collect_from-nil : (digests : Fields) (db : Db) → collect_from [] digests db ≡ (digests, [])
unfolding collect_from
collect_from-nil digests db = refl

-- a digest that is collected already stays
collect_from-keeps :
    (ids : List String) (digests : Fields) (db : Db) (j : String) (e : StoredEvent)
    → find_event j db.events ≡ some e
    → get j digests ≡ some (str e.payload_digest)
    → get j (collect_from ids digests db).0 ≡ some (str e.payload_digest)
collect_from-keeps [] digests db j e found had = rw (collect_from-nil digests db) had
collect_from-keeps (id ∷ ids) digests db j e found had =
    elim (Option-cases (find_event id db.events)) [
      | inl missing ↦
          rw (missing_first id ids digests db missing)
            (collect_from-keeps ids digests db j e found had)
      | inr (d, here) ↦
          let kept =
            collect_from-keeps ids (put id (str d.payload_digest) digests) db j e found
              (ground (arith, get-put j id (str d.payload_digest) digests, eq_iff id j)) in
          rw (found_first id ids digests db d here) kept
    ]

-- the stored event of an identifier, with its digest in the dict
abbrev pub Recorded : Db → Fields → String → Type 0
Recorded db digests id =
    (e : StoredEvent) × (find_event id db.events ≡ some e)
    × (get id digests ≡ some (str e.payload_digest))

collect_from-Recorded :
    (ids : List String) (digests : Fields) (db : Db)
    → (collect_from ids digests db).1 ≡ []
    → All (Recorded db (collect_from ids digests db).0) ids
collect_from-Recorded [] digests db h = tt
collect_from-Recorded (id ∷ ids) digests db h = elim (Option-cases (find_event id db.events)) [
  | inl missing ↦ absurd (ground (arith, missing_first id ids digests db missing))
  | inr (e, here) ↦
      let more = put id (str e.payload_digest) digests in
      let same = found_first id ids digests db e here in
      let kept =
        collect_from-keeps ids more db id e here
          (ground (arith, get-put id id (str e.payload_digest) digests, eq_refl id)) in
      let rest = collect_from-Recorded ids more db (rw same at h) in
      subst (λ (x : Fields × List String). All (Recorded db x.0) (id ∷ ids)) (sym same)
        ((e, here, kept), rest)
]

strs_empty : (ss : List String) → truthy (strs ss) ≡ false → ss ≡ []
strs_empty [] h = refl
strs_empty (s ∷ ss) h = absurd (ground arith)

text_equal : (v : Value) (s : String) → value_eq v (str s) ≡ true → v ≡ str s
unfolding value_eq
text_equal (str a) s h = ground (arith, eq_iff a s)
text_equal null s h = absurd (ground arith)
text_equal (boolean b) s h = absurd (ground arith)
text_equal (int n) s h = absurd (ground arith)
text_equal (float x) s h = absurd (ground arith)
text_equal (arr xs) s h = absurd (ground arith)
text_equal (obj f) s h = absurd (ground arith)

present : (k : String) (f : Fields) (s : String) → get_or_none k f ≡ str s → get k f ≡ some (str s)
present k f s h = elim (Option-cases (get k f)) [
  | inl missing ↦ absurd (ground arith)
  | inr (v, there) ↦ ground arith
]

given-Recorded :
    (db : Db) (given stored : Fields) (ids : List String)
    → All (Recorded db stored) ids
    → All (λ id. value_eq (get_or_none id given) (get_or_none id stored) ≡ true) ids
    → All (Recorded db given) ids
given-Recorded db given stored [] known agreed = tt
given-Recorded db given stored (id ∷ ids) ((e, found, named), known) (agreed, more) =
    let there : get_or_none id stored ≡ str e.payload_digest = ground arith in
    let equal : get_or_none id given ≡ str e.payload_digest =
      text_equal (get_or_none id given) e.payload_digest (rw there at agreed) in
    (
      (e, found, present id given e.payload_digest equal),
      given-Recorded db given stored ids known more,
    )

-- what the context of a verification holds under the checker's two keys
context_missing :
    (context : Context) (digests : Fields) (missing : List String)
    → get_or_none "missing_source_event_ids" (checker_context context (digests, missing)).entries
      ≡ strs missing
context_missing context digests missing = ground (
  arith,
  get-put "missing_source_event_ids" "missing_source_event_ids" (strs missing)
      (put "actual_event_digests" (obj digests) context.entries),
)

context_digests :
    (context : Context) (digests : Fields) (missing : List String)
    → get_or_none "actual_event_digests" (checker_context context (digests, missing)).entries
      ≡ obj digests
context_digests context digests missing = ground (
  arith,
  get-put "actual_event_digests" "missing_source_event_ids" (strs missing)
      (put "actual_event_digests" (obj digests) context.entries),
  get-put "actual_event_digests" "actual_event_digests" (obj digests) context.entries,
)

-- an accepted set, with the store's side in its shape
accepted_lem :
    (host : Host) (expected : List String) (listed claimed : Value) (missing : List String)
    (stored : Fields)
    → (check_ids host expected listed (strs missing) claimed (obj stored)).passed ≡ true
    → (ids : Items) × (given : Fields) × (listed ≡ arr ids)
      × (claimed ≡ obj given)
      × (missing ≡ [])
      × (strs_eq (str_each host ids) expected ≡ true)
      × (same_set (keys given) expected ≡ true)
      × All (λ id. value_eq (get_or_none id given) (get_or_none id stored) ≡ true) expected
accepted_lem host expected listed claimed missing stored h =
    let (ids, given, known, lists, claims, _) =
      check_ids_shape host expected listed (strs missing) claimed (obj stored) h in
    let (order, complete, just, _, agreed) =
      check_ids_accepts host expected ids (strs missing) given stored (rw (lists, claims) at h) in
    (ids, given, lists, claims, strs_empty missing complete, order, just, agreed)

-- A verification's input-set check that passes has found every source event of the candidate in the
-- store: the sources are distinct, the evidence lists them in their order, and its digests are for
-- just these events, each the payload digest of the stored event.
pub input_set_sound :
    (host : Host) (r : MemoryRecord) (evidence : Fields) (context : Context) (db : Db)
    {c : CheckerResult}
    → (input_set host).verify r evidence (checker_context context (collect_event_digests r db))
      ≡ ok c
    → c.passed ≡ true
    → (ids : Items) × (given : Fields) × (get_or_none "input_event_ids" evidence ≡ arr ids)
      × (get_or_none "input_event_digests" evidence ≡ obj given)
      × (distinct r.source_event_ids ≡ true)
      × (strs_eq (str_each host ids) r.source_event_ids ≡ true)
      × (same_set (keys given) r.source_event_ids ≡ true)
      × All (Recorded db given) r.source_event_ids
unfolding input_set collect_event_digests
input_set_sound host r evidence context db {c} h passes =
    let (stored, missing) = collect_event_digests r db in
    let entries = (checker_context context (collect_event_digests r db)).entries in
    let listed = get_or_none "input_event_ids" evidence in
    let claimed = get_or_none "input_event_digests" evidence in
    let accepted : (check_ids host r.source_event_ids listed
          (get_or_none "missing_source_event_ids" entries) claimed
          (get_or_none "actual_event_digests" entries)).passed
        ≡ true =
      ground arith in
    let (ids, given, lists, claims, complete, order, just, agreed) =
      accepted_lem host r.source_event_ids listed claimed missing stored (
        rw (context_missing context stored missing, context_digests context stored missing) at
          accepted) in
    (
      ids,
      given,
      lists,
      claims,
      ground arith,
      order,
      just,
      given-Recorded db given stored r.source_event_ids
          (collect_from-Recorded r.source_event_ids end db complete) agreed,
    )
