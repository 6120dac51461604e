-- ===== src/Qualified/Use/Served.antt =====
-- qualified/runtime.py: what a use that returned has checked, and what its journal says.
use observable_agent_workflo.Prelude.{
  ◌≡◌, refl, sym, ap, ◌∙◌, subst, ◌==◌, Bool, true, not, Option, none, some, List, map, str_mem,
  arith,
}
use observable_agent_workflo.Prelude.Assoc.{lookup}
use observable_agent_workflo.Result.{Result, ok, err, >>=-eq-ok, raise_if-eq-ok, ok_injective}
use observable_agent_workflo.Core.Receipt.{PromotionReceipt}
use observable_agent_workflo.Storage.{Db}
use observable_agent_workflo.Gate.Sound.{Permits}
use observable_agent_workflo.Kernel.Tools.{get_receipts}
use observable_agent_workflo.Qualified.Model.{Entry}
use observable_agent_workflo.Qualified.Journal.State.{Intent}
use observable_agent_workflo.Qualified.Journal.Replay.{Replayed, replay}
use observable_agent_workflo.Qualified.Journal.Store.{Table, row_entry, entries}
use observable_agent_workflo.Qualified.Journal.Sound.{Served, replay_sound}
use observable_agent_workflo.Qualified.Journal.Appended.{entries_lem}
use observable_agent_workflo.Qualified.Runtime.{Site, Profiles}
use observable_agent_workflo.Qualified.Use.{
  Tools, Request, check_request, Reservation, duplicate, reserved, repeat_use, same_use, first_use,
  reserve_as, reserve,
}
use observable_agent_workflo.Qualified.Use.Effect.{
  Used, perform, transact, after_reservation, resume, use_qualification,
}
use observable_agent_workflo.Qualified.Use.Gated.{check_request_lem}
use observable_agent_workflo.Qualified.Use.Performed.{Accounted, perform_sound}

reserve_as_lem :
    (site : Site) (profiles : Profiles) (u : Request) (old : List Entry) (r : Replayed)
    (n : Option Intent) (table : Table) {b : Bool} {table' : Table}
    → reserve_as site profiles u old r n table ≡ ok (duplicate b, table')
    → (str_mem u.identity r.state.services ≡ b) × (table ≡ table')
unfolding reserve_as repeat_use
reserve_as_lem site profiles u old r (some n) table h =
    let (found, h1, repeated) = >>=-eq-ok (repeat_use u r.state n) _ h in
    let (same, h2) = raise_if-eq-ok (not (same_use u r.state n)) _ _ repeated in ground arith
reserve_as_lem site profiles u old r none table h =
    let (made, h1, first) = >>=-eq-ok (first_use site profiles u old r table) _ h in
    absurd (ground arith)

-- a duplicate leaves the table, and answers by its services
reserve_duplicate :
    (site : Site) (profiles : Profiles) (u : Request) (table : Table) {b : Bool} {table' : Table}
    → reserve site profiles u table ≡ ok (duplicate b, table')
    → Accounted site u (record { status = "duplicate"; service = b; snapshot = none }) table'
unfolding reserve
reserve_duplicate site profiles u table {b} {table'} h claimed =
    let (old, h1, opened) = >>=-eq-ok (entries table) _ h in
    let (r, h2, replayed) = >>=-eq-ok (replay site.host site.alt old) _ h1 in
    let (current, h3) = raise_if-eq-ok (not (r.revision == u.expected)) _ _ h2 in
    let (counted, kept) =
      reserve_as_lem site profiles u old r (lookup u.identity r.state.intents) table h3 in
    let here : replay site.host site.alt (map row_entry table') ≡ ok r =
      subst (λ es. replay site.host site.alt es ≡ ok r)
        (sym (entries_lem table opened) ∙ ap (map row_entry) kept) replayed in
    (
      r,
      here,
      replay_sound site.host site.alt (map row_entry table') here u.identity (counted ∙ claimed),
    )

transact_lem :
    {A : Type 0} (table : Table) (m : Result (A × Table)) {a : A} {table' : Table}
    → transact table m ≡ (ok a, table')
    → m ≡ ok (a, table')
unfolding transact
transact_lem table (err e) h = absurd (ground arith)
transact_lem table (ok (a, t)) h = ground arith

-- the end of a use, from what its first transaction found
found_sound :
    (site : Site) (profiles : Profiles) (tools : Tools) (u : Request)
    (between : Db × Table → Db × Table) (table : Table) (found : Reservation) (t : Table)
    {used : Used} {table' : Table}
    → reserve site profiles u table ≡ ok (found, t)
    → after_reservation site tools u between found t ≡ (ok used, table')
    → Accounted site u used table'
unfolding after_reservation
found_sound site profiles tools u between table (duplicate b) t {used} {table'} r h =
    let same_used : record { status = "duplicate"; service = b; snapshot = none } ≡ used =
      ok_injective (ap (λ x. x.0) h) in
    let same_table : t ≡ table' = ap (λ x. x.1) h in
    subst (λ x. Accounted site u x table') same_used
      (subst
        (λ x. Accounted site u (record { status = "duplicate"; service = b; snapshot = none }) x)
        same_table (reserve_duplicate site profiles u table r))
found_sound site profiles tools u between table (reserved held) t r h =
    let (db, met) = between (site.db, t) in
    let done = perform (record site { db = db }) tools u held.q held.context held.revision met in
    let (_, _, _, _, _, _, _, _, _, _, accounted) =
      perform_sound (record site { db = db }) tools u held.q held.context held.revision met
        (transact_lem met done h) in
    accounted

split_use :
    (site : Site) (profiles : Profiles) (tools : Tools) (u : Request)
    (between : Db × Table → Db × Table) (table : Table) (first : Result (Reservation × Table))
    {used : Used} {table' : Table}
    → resume site tools u between (transact table first) ≡ (ok used, table')
    → (found : Reservation) × (t : Table) × (first ≡ ok (found, t))
      × (after_reservation site tools u between found t ≡ (ok used, table'))
unfolding resume transact
split_use site profiles tools u between table (err e) h = absurd (ground arith)
split_use site profiles tools u between table (ok (found, t)) h = (found, t, refl, h)

-- a use that returns: what the gate found, and what backs its answer
use_qualification-Accounted :
    (site : Site) (profiles : Profiles) (tools : Tools) (u : Request)
    (between : Db × Table → Db × Table) (table : Table) {used : Used} {table' : Table}
    → use_qualification site profiles tools u between table ≡ (ok used, table')
    → (rs : List PromotionReceipt) × (get_receipts u.receipts site.db ≡ ok rs)
      × Permits site.host u.intent rs
      × Accounted site u used table'
unfolding use_qualification
use_qualification-Accounted site profiles tools u between table h =
    let (found, t, started, ended) = split_use site profiles tools u between table _ h in
    let (unit, reserved_, allowed) =
      >>=-eq-ok (check_request site tools u) (λ _. reserve site profiles u table) started in
    let (rs, got, permits) = check_request_lem site tools u allowed in
    (rs, got, permits, found_sound site profiles tools u between table found t reserved_ ended)

-- If a use returns and answers that the service was given, be it a first use or a repeated one and
-- whatever others wrote between its two transactions, the given receipts exist and permit the intent
-- at the time of the call, and the journal that it leaves replays and backs the service: an admitted qualification, a recorded cost, an attempt, and a received output
-- which is the registered tool's on the intent's input.
pub use_sound :
    (site : Site) (profiles : Profiles) (tools : Tools) (u : Request)
    (between : Db × Table → Db × Table) (table : Table) {used : Used} {table' : Table}
    → use_qualification site profiles tools u between table ≡ (ok used, table')
    → used.service ≡ true
    → (rs : List PromotionReceipt) × (r : Replayed) × (get_receipts u.receipts site.db ≡ ok rs)
      × Permits site.host u.intent rs
      × (replay site.host site.alt (map row_entry table') ≡ ok r)
      × Served site.host r.state u.identity
use_sound site profiles tools u between table h service =
    let (rs, got, permits, accounted) =
      use_qualification-Accounted site profiles tools u between table h in
    let (r, replays, served) = accounted service in (rs, r, got, permits, replays, served)
