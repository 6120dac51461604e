-- ===== src/Qualified/Use/Performed.antt =====
-- qualified/runtime.py: the second transaction of a use, behind its fence.
use observable_agent_workflo.Prelude.{
  ◌≡◌, refl, sym, ap, ◌∙◌, subst, String, ◌==◌, Bool, true, false, not, List, [], ◌++◌, map,
  str_mem, eq_iff, arith,
}
use observable_agent_workflo.Result.{ok, >>=-eq-ok, raise_if-eq-ok, ok_injective}
use observable_agent_workflo.Kernel.Tools.{ToolResult, invoke_tool}
use observable_agent_workflo.Qualified.Model.{Context, Qualification, Entry, attempt}
use observable_agent_workflo.Qualified.Journal.Replay.{Replayed, replay}
use observable_agent_workflo.Qualified.Journal.Store.{Table, row_entry, entries, append}
use observable_agent_workflo.Qualified.Journal.Sound.{Served, replay_sound}
use observable_agent_workflo.Qualified.Journal.Appended.{entries_lem, append_refines}
use observable_agent_workflo.Qualified.Decision.{View, decision}
use observable_agent_workflo.Qualified.Runtime.{Site, is_eligible}
use observable_agent_workflo.Qualified.Use.{Tools, Request, args}
use observable_agent_workflo.Qualified.Use.Effect.{
  use_events, on_intent, Used, record_outcome, perform,
}

-- If the service is claimed, the journal says what it stands for.
abbrev pub Accounted : Site → Request → Used → Table → Type 0
Accounted site u used table =
    used.service ≡ true
    → (r : Replayed) × (replay site.host site.alt (map row_entry table) ≡ ok r)
      × Served site.host r.state u.identity

-- what the second transaction found at its fence, and did
abbrev pub Fenced :
    Site
    → Tools
    → Request
    → Qualification
    → Context
    → (revision : String) → Table
    → Used
    → Table
    → Type 0
Fenced site tools u q context revision table used table' =
    (r : Replayed) × (view : View) × (o : ToolResult) × (added : List Entry) × (replay site.host
        site.alt (map row_entry table)
      ≡ ok r)
    × (r.revision ≡ revision)
    × (decision site.host site.validation site.alt site.db q context u.input u.now r ≡ ok view)
    × (is_eligible view ≡ true)
    × (invoke_tool site.host tools.strict tools.adapter
          (record { name = u.intent.tool_name; arguments = args u; external_effect = true })
          u.intent u.receipts site.db
        ≡ ok o)
    × (map row_entry table' ≡ map row_entry table ++ added)
    × Accounted site u used table'

not-not : (b : Bool) → not b ≡ false → b ≡ true
not-not true h = refl
not-not false h = absurd (ground arith)

record_outcome_sound :
    (site : Site) (u : Request) (revision : String) (old : List Entry) (tried : Entry)
    (o : ToolResult) (table : Table) {used : Used} {table' : Table}
    → entries table ≡ ok old
    → record_outcome site u revision old tried o table ≡ ok (used, table')
    → (added : List Entry) × (map row_entry table' ≡ map row_entry table ++ added)
      × Accounted site u used table'
unfolding record_outcome
record_outcome_sound site u revision old tried o table {used} {table'} opened h =
    let (batch, h1, _) = >>=-eq-ok (use_events site u o old tried) _ h in
    let (appended, h2, written) = >>=-eq-ok (append site.host site.alt batch revision table) _ h1 in
    let (final, h3, replayed) = >>=-eq-ok (replay site.host site.alt (old ++ batch)) _ h2 in
    let both = ok_injective h3 in
    let (before, after, added, _, _, grown, _, again, whole, _) =
      append_refines site.host site.alt batch revision table {rev = appended.0}
        {table' = appended.1} written in
    let same_table : appended.1 ≡ table' = ap (λ x. x.1) both in
    let same_end : after ≡ final = ok_injective (
      sym whole
      ∙ subst (λ es. replay site.host site.alt (es ++ batch) ≡ ok final)
          (sym (entries_lem table opened)) replayed) in
    (
      added,
      subst (λ t. map row_entry t ≡ map row_entry table ++ added) same_table grown,
      λ claimed.
          let again' : replay site.host site.alt (map row_entry table') ≡ ok after =
            subst (λ t. replay site.host site.alt (map row_entry t) ≡ ok after) same_table again in
          let counted : str_mem u.identity after.state.services ≡ true =
            ap (λ (x : Replayed). str_mem u.identity x.state.services) same_end
            ∙ ap (λ (x : Used × Table). x.0.service) both
            ∙ claimed in
          (
            after,
            again',
            replay_sound site.host site.alt (map row_entry table') again' u.identity counted,
          ),
    )

-- The second transaction returns only if the journal still has the reserved revision, the memory is
-- still eligible, and the tool returned. The journal keeps its entries and gets new ones; if the
-- service is claimed, the new journal replays to a state in which it is backed.
pub perform_sound :
    (site : Site) (tools : Tools) (u : Request) (q : Qualification) (context : Context)
    (revision : String) (table : Table) {used : Used} {table' : Table}
    → perform site tools u q context revision table ≡ ok (used, table')
    → Fenced site tools u q context revision table used table'
unfolding perform
perform_sound site tools u q context revision table {used} {table'} h =
    let (old, h1, opened) = >>=-eq-ok (entries table) _ h in
    let (r, h2, replayed) = >>=-eq-ok (replay site.host site.alt old) _ h1 in
    let (fenced, h3) = raise_if-eq-ok (not (r.revision == revision)) _ _ h2 in
    let (view, h4, decided) =
      >>=-eq-ok (decision site.host site.validation site.alt site.db q context u.input u.now r) _
        h3 in
    let (passes, h5) = raise_if-eq-ok (not (is_eligible view)) _ _ h4 in
    let (tried, h6, _) = >>=-eq-ok (on_intent site u attempt "-attempt" [] old) _ h5 in
    let (o, h7, invoked) =
      >>=-eq-ok
        (invoke_tool site.host tools.strict tools.adapter
          (record { name = u.intent.tool_name; arguments = args u; external_effect = true })
          u.intent u.receipts site.db)
        _ h6 in
    let (added, grown, accounted) =
      record_outcome_sound site u revision old tried o table opened h7 in
    (
      r,
      view,
      o,
      added,
      subst (λ es. replay site.host site.alt es ≡ ok r) (sym (entries_lem table opened)) replayed,
      (eq_iff r.revision revision).0 (ground (arith, fenced)),
      decided,
      not-not (is_eligible view) passes,
      invoked,
      grown,
      accounted,
    )
