-- ===== src/Qualified/Use/Once.antt =====
-- qualified/runtime.py: a use that may have run before does not run again.
use observable_agent_workflo.Prelude.{
  String, ◌≡◌, ◌⊎◌, refl, Bool, true, none, some, List, [], ◌∷◌, any, Elem, str_mem, arith, inl,
  inr, ◌==◌, Bool-cases, eq_iff,
}
use observable_agent_workflo.Prelude.Assoc.{lookup}
use observable_agent_workflo.Result.{Error, ok, err, value_error, ◌>>◌, Result-cases}
use observable_agent_workflo.Json.{str, obj, value_eq}
use observable_agent_workflo.Kernel.Tools.{dump_intent}
use observable_agent_workflo.Qualified.Journal.Apply.{is_paid}
use observable_agent_workflo.Storage.{Db}
use observable_agent_workflo.Qualified.Model.{Entry}
use observable_agent_workflo.Qualified.Journal.State.{Intent}
use observable_agent_workflo.Qualified.Journal.Replay.{Replayed, replay}
use observable_agent_workflo.Qualified.Journal.Store.{Table, entries}
use observable_agent_workflo.Qualified.Runtime.{Site, Profiles}
use observable_agent_workflo.Qualified.Use.{
  Tools, Request, check_request, duplicate, pending_on, repeat_use, same_use, first_use, reserve_as,
  reserve,
}
use observable_agent_workflo.Qualified.Use.Effect.{
  Used, transact, after_reservation, resume, use_qualification,
}

abbrev pub answered : Bool → Used
answered service = record { status = "duplicate"; service = service; snapshot = none }

-- how a use ends whose first transaction ends like this
raised :
    (site : Site) (profiles : Profiles) (tools : Tools) (u : Request)
    (between : Db × Table → Db × Table) (table : Table) (e : Error)
    → (check_request site tools u >> reserve site profiles u table) ≡ err e
    → use_qualification site profiles tools u between table ≡ (err e, table)
unfolding use_qualification resume transact
raised site profiles tools u between table e h = rw h refl

repeated :
    (site : Site) (profiles : Profiles) (tools : Tools) (u : Request)
    (between : Db × Table → Db × Table) (table : Table) (b : Bool)
    → (check_request site tools u >> reserve site profiles u table) ≡ ok (duplicate b, table)
    → use_qualification site profiles tools u between table ≡ (ok (answered b), table)
unfolding use_qualification resume transact after_reservation
repeated site profiles tools u between table b h = rw h refl

-- the first transaction of a use whose identity is recorded
reserve_known :
    (site : Site) (profiles : Profiles) (u : Request) (table : Table) (old : List Entry)
    (r : Replayed) (n : Intent)
    → entries table ≡ ok old
    → replay site.host site.alt old ≡ ok r
    → lookup u.identity r.state.intents ≡ some n
    → ((e : Error) × (reserve site profiles u table ≡ err e))
      ⊎ ((same_use u r.state n ≡ true)
          × (reserve site profiles u table
              ≡ ok (duplicate (str_mem u.identity r.state.services), table)))
unfolding reserve reserve_as repeat_use
reserve_known site profiles u table old r n opened replayed known =
    elim (Bool-cases (r.revision == u.expected)) [
      | inr stale ↦ inl (value_error "stale expected revision", rw (opened, replayed, stale) refl)
      | inl fresh_ ↦ elim (Bool-cases (same_use u r.state n)) [
        | inr other ↦ inl (
          value_error "conflicting use identity",
          rw (opened, replayed, fresh_, known, other) refl,
        )
        | inl same ↦ inr (same, rw (opened, replayed, fresh_, known, same) refl)
      ]
    ]

-- the recorded intent is for what is asked for now
abbrev pub Meant : Request → Replayed → Intent → Type 0
Meant u r n =
    (n.qualification ≡ u.qualification)
    × (value_eq n.input (str u.input) ≡ true)
    × (value_eq n.action (obj (dump_intent u.intent)) ≡ true)
    × (n.cost ≡ u.cost.id)
    × (is_paid r.state.costs u.cost ≡ true)

same_use-Meant :
    (u : Request) (r : Replayed) (n : Intent) → same_use u r.state n ≡ true → Meant u r n
same_use-Meant u r n h =
    ground (arith, eq_iff n.qualification u.qualification, eq_iff n.cost u.cost.id)

-- A use whose identity has an intent in the journal writes nothing and does not reach the tool: it
-- raises, or it was asked for with the recorded qualification, input, action and cost, and answers that
-- it is a duplicate, with what the journal says of its service.
pub use_repeated :
    (site : Site) (profiles : Profiles) (tools : Tools) (u : Request)
    (between : Db × Table → Db × Table) (table : Table) (old : List Entry) (r : Replayed)
    (n : Intent)
    → entries table ≡ ok old
    → replay site.host site.alt old ≡ ok r
    → lookup u.identity r.state.intents ≡ some n
    → ((e : Error) × (use_qualification site profiles tools u between table ≡ (err e, table)))
      ⊎ (Meant u r n
          × (use_qualification site profiles tools u between table
              ≡ (ok (answered (str_mem u.identity r.state.services)), table)))
use_repeated site profiles tools u between table old r n opened replayed known =
    elim (Result-cases (check_request site tools u)) [
      | inr (e, bad) ↦ inl (e, raised site profiles tools u between table e (rw bad refl))
      | inl (done, good) ↦
          elim (reserve_known site profiles u table old r n opened replayed known) [
            | inl (e, refused) ↦
                inl (e, raised site profiles tools u between table e (rw good refused))
            | inr (same, found) ↦ inr (
              same_use-Meant u r n same,
              repeated site profiles tools u between table _ (rw good found),
            )
          ]
    ]

any-Elem :
    {A : Type 0} (p : A → Bool) (x : A) (xs : List A) → Elem x xs → p x ≡ true → any p xs ≡ true
any-Elem p x [] m h = absurd m
any-Elem p x (y ∷ ys) (inl e) h = ground arith
any-Elem p x (y ∷ ys) (inr m) h = ground (arith, any-Elem p x ys m)

-- the first transaction of a new use, while another one is unresolved
reserve_pending :
    (site : Site) (profiles : Profiles) (u : Request) (table : Table) (old : List Entry)
    (r : Replayed)
    → entries table ≡ ok old
    → replay site.host site.alt old ≡ ok r
    → lookup u.identity r.state.intents ≡ none
    → any (pending_on u r.state.intents) r.unresolved ≡ true
    → (e : Error) × (reserve site profiles u table ≡ err e)
unfolding reserve reserve_as first_use
reserve_pending site profiles u table old r opened replayed new pending =
    elim (Bool-cases (r.revision == u.expected)) [
      | inr stale ↦ (value_error "stale expected revision", rw (opened, replayed, stale) refl)
      | inl fresh_ ↦ (
        value_error "unresolved prior effect; host reconciliation required",
        rw (opened, replayed, fresh_, new, pending) refl,
      )
    ]

-- While an intent on the same qualification and input is unresolved, a use under a new identity raises
-- and writes nothing.
pub use_unresolved :
    (site : Site) (profiles : Profiles) (tools : Tools) (u : Request)
    (between : Db × Table → Db × Table) (table : Table) (old : List Entry) (r : Replayed)
    (i : String) (n : Intent)
    → entries table ≡ ok old
    → replay site.host site.alt old ≡ ok r
    → lookup u.identity r.state.intents ≡ none
    → Elem i r.unresolved
    → lookup i r.state.intents ≡ some n
    → n.qualification ≡ u.qualification
    → value_eq n.input (str u.input) ≡ true
    → (e : Error) × (use_qualification site profiles tools u between table ≡ (err e, table))
use_unresolved site profiles tools u between table old r i n opened replayed new open_ meant same_q
      same_i =
    elim (Result-cases (check_request site tools u)) [
      | inr (e, bad) ↦ (e, raised site profiles tools u between table e (rw bad refl))
      | inl (done, good) ↦
          let (e, refused) = reserve_pending site profiles u table old r opened replayed new (
            any-Elem (pending_on u r.state.intents) i r.unresolved open_
              (ground (arith, eq_iff n.qualification u.qualification))) in
          (e, raised site profiles tools u between table e (rw good refused))
    ]
