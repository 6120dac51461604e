-- ===== src/Qualified/Consumer/Agreement.antt =====
-- qualified/checker.py and qualified/runtime.py: the consumer's check accepts what retrieval shows.
use observable_agent_workflo.Prelude.{
  ℕ, ◌≡◌, refl, sym, ◌∙◌, subst, String, Bool, true, false, some, List, [], ◌∷◌, any, All, All-mono,
  eq_iff, eq_refl, nat_eq_iff, arith,
}
use observable_agent_workflo.Prelude.Assoc.{lookup}
use observable_agent_workflo.Result.{Result, ok, >>=-eq-ok, ok_injective}
use observable_agent_workflo.Json.{Host, Value, Fields, obj, get}
use observable_agent_workflo.Core.Record.{MemoryRecord}
use observable_agent_workflo.Qualified.Wire.{encoded, digest}
use observable_agent_workflo.Qualified.Model.{Context, Qualification, valid_qualification}
use observable_agent_workflo.Qualified.Model.Dump.{dump_context, dump_qualification}
use observable_agent_workflo.Qualified.Model.Decode.{decode_qualification}
use observable_agent_workflo.Qualified.Model.Roundtrip.{
  decode_qualification-dump, decode_qualification-valid,
}
use observable_agent_workflo.Qualified.Native.{Companion, alt_runtime}
use observable_agent_workflo.Qualified.Native.Reconstruct.{reconstruct}
use observable_agent_workflo.Qualified.Journal.State.{Block}
use observable_agent_workflo.Qualified.Journal.Replay.{Replayed}
use observable_agent_workflo.Qualified.Journal.Store.{Table}
use observable_agent_workflo.Qualified.Journal.Backed.{Backed}
use observable_agent_workflo.Qualified.Journal.Dicts.{Elem-lookup}
use observable_agent_workflo.Qualified.Journal.Sound.{replay-Backed}
use observable_agent_workflo.Qualified.Eligibility.{promotion}
use observable_agent_workflo.Qualified.Decision.{
  View, all_paid, is_withdrawn, blocks_use, authoritative, eligible,
}
use observable_agent_workflo.Qualified.Decision.Eligible.{Permitted, Decided, decision_lem}
use observable_agent_workflo.Qualified.Consumer.{is_bound, check_blocks, check_against, check_view}
use observable_agent_workflo.Qualified.Runtime.{Site, Profiles, is_eligible}
use observable_agent_workflo.Qualified.Runtime.Retrieve.{Retrieved, retrieve}
use observable_agent_workflo.Qualified.Runtime.Exposed.{
  Shown, rank-All, consider-Shown, retrieve_lem,
}

-- ALT's Candidate has the field `artifact_digest`.
abbrev pub NamesArtifact : Companion → Type 0
NamesArtifact alt =
    (f c : Fields) → alt.candidate f ≡ ok c → (v : Value) × (get "artifact_digest" f ≡ some v)

any-cons :
    {A : Type 0} (p : A → Bool) (x : A) (xs : List A)
    → any p (x ∷ xs) ≡ false
    → (p x ≡ false) × (any p xs ≡ false)
any-cons p x xs h = ground arith

check_blocks_lem :
    (q : Qualification) (d input : String) (artifact : Value) (bs : List Block)
    → get "artifact_digest" q.candidate ≡ some artifact
    → any (blocks_use artifact d input q.valid_from) bs ≡ false
    → check_blocks q d input bs ≡ ok tt
unfolding check_blocks
check_blocks_lem q d input artifact [] named h = refl
check_blocks_lem q d input artifact (b ∷ bs) named h =
    let (here, later) = any-cons (blocks_use artifact d input q.valid_from) b bs h in
    rw (named, here) (check_blocks_lem q d input artifact bs named later)

-- a qualification that is reconstructed names its artifact
reconstruct_named :
    (host : Host) (alt : Companion) (q : Qualification) (now : ℕ)
    → NamesArtifact alt
    → valid_qualification host q ≡ true
    → reconstruct host alt q now ≡ ok tt
    → (v : Value) × (get "artifact_digest" q.candidate ≡ some v)
unfolding reconstruct
reconstruct_named host alt q now names valid r =
    let (raw, r1, _) = >>=-eq-ok (encoded host (obj (dump_qualification q))) _ r in
    let (q', r2, decoded) = >>=-eq-ok (decode_qualification host (dump_qualification q)) _ r1 in
    let (u, r3, installed) = >>=-eq-ok (alt_runtime alt) _ r2 in
    let (request, r4, formed) = >>=-eq-ok (alt.formation q'.formation) _ r3 in
    let (candidate, r5, found) = >>=-eq-ok (alt.candidate q'.candidate) _ r4 in
    let same : q' ≡ q = ok_injective (sym decoded ∙ decode_qualification-dump host q valid) in
    subst (λ (x : Qualification). (v : Value) × (get "artifact_digest" x.candidate ≡ some v)) same
      (names q'.candidate candidate found)

authoritative_lem :
    (site : Site) (q : Qualification) (now : ℕ)
    → authoritative site.host site.validation site.alt site.db q now ≡ ok tt
    → reconstruct site.host site.alt q now ≡ ok tt
unfolding authoritative
authoritative_lem site q now r =
    let (memory, r1, current) = >>=-eq-ok (promotion site.host site.validation site.db q) _ r in r1

-- the consumer's tests, from the parts of an eligible decision
is_bound_lem :
    (host : Host) (q : Qualification) (context : Context) (input : String) (now : ℕ) (r : Replayed)
    (fresh : Result (Unit {0})) (view : View) (claim d : String)
    → Decided host q context input now r fresh view
    → digest host (obj (dump_context context)) ≡ ok d
    → is_eligible view ≡ true
    → Permitted view.context_digest q context input now r.state
    → is_bound (record view { claim = claim }) r.revision d q context input now ≡ true
unfolding is_bound
is_bound_lem host q context input now r fresh view claim d h named passes
      (scope, open_, valid, paid, standing, unblocked) =
    let same_d : view.context_digest ≡ d = ok_injective (sym h.context_bound ∙ named) in
    rw
      (
        h.snapshot_bound, h.memory_bound, h.update_bound, h.workflow_bound, h.expiry_bound,
        h.no_source, h.no_authority, same_d,
      )
      (ground (
        arith,
        eq_refl r.revision,
        eq_refl q.memory_id,
        eq_refl q.update_id,
        eq_refl q.workflow_digest,
        eq_refl d,
        nat_eq_iff q.valid_until q.valid_until,
      ))

check_against_intro :
    (site : Site) (r : Replayed) (v : View) (context : Context) (input : String) (now : ℕ)
    (raw : Fields) (q : Qualification) (d : String) (memory : MemoryRecord)
    → lookup v.qualification r.state.qualifications ≡ some raw
    → decode_qualification site.host raw ≡ ok q
    → digest site.host (obj (dump_context context)) ≡ ok d
    → is_bound v r.revision d q context input now ≡ true
    → all_paid r.state q ≡ true
    → is_withdrawn r.state context ≡ false
    → check_blocks q d input r.state.blocks ≡ ok tt
    → promotion site.host site.validation site.db q ≡ ok memory
    → v.claim ≡ memory.claim
    → reconstruct site.host site.alt q now ≡ ok tt
    → check_against site.host site.validation site.alt site.db r v context input now ≡ ok tt
unfolding check_against
check_against_intro site r v context input now raw q d memory found decoded named bound_ paid
      standing unblocked current claim rebuilt =
    rw
      (
        found,
        decoded,
        named,
        bound_,
        paid,
        standing,
        unblocked,
        current,
        claim,
        eq_refl memory.claim,
      )
      rebuilt

Shown-accepted :
    (site : Site) (context : Context) (input : String) (now : ℕ) (r : Replayed) (v : View)
    → NamesArtifact site.alt
    → Backed site.host r.state
    → Shown site context input now r r.state.qualifications v
    → check_against site.host site.validation site.alt site.db r v context input now ≡ ok tt
Shown-accepted site context input now r v names h
      (key, raw, q, view, memory, m, decoded, decided, passes, current, same) =
    let d = decision_lem site.host site.validation site.alt site.db q context input now r decided in
    let (permitted, fresh) =
      d.verdict.0 ((eq_iff view.current_memory_eligibility eligible).0 passes) in
    let at_key : lookup key r.state.qualifications ≡ some raw =
      Elem-lookup key raw r.state.qualifications h.keys_distinct m in
    let (q', decoded', named, paid) = h.admitted key raw at_key in
    let same_q : q' ≡ q = ok_injective (sym decoded' ∙ decoded) in
    let same_key : key ≡ view.qualification = ok_injective (
      sym (subst (λ x. digest site.host (obj (dump_qualification x)) ≡ ok key) same_q named)
      ∙ d.qualification_bound) in
    let found : lookup view.qualification r.state.qualifications ≡ some raw =
      subst (λ k. lookup k r.state.qualifications ≡ some raw) same_key at_key in
    let rebuilt = authoritative_lem site q now fresh in
    let (artifact, has_artifact) =
      reconstruct_named site.host site.alt q now names
        (decode_qualification-valid site.host raw decoded) rebuilt in
    let unblocked =
      check_blocks_lem q view.context_digest input artifact r.state.blocks has_artifact
        (ground (arith, permitted)) in
    subst
      (λ x. check_against site.host site.validation site.alt site.db r x context input now ≡ ok tt)
      (sym same)
      (check_against_intro site r (record view { claim = memory.claim }) context input now raw q
        view.context_digest memory found decoded d.context_bound
        (is_bound_lem site.host q context input now r _ view memory.claim view.context_digest d
          d.context_bound passes permitted)
        permitted.3 permitted.4 unblocked current refl rebuilt)

-- If retrieval returns, each view that it shows passes the consumer's own check of the same store, for
-- the registered context, the input and the time, given that ALT's candidates name their artifact.
pub retrieve_accepted :
    (site : Site) (profiles : Profiles) (receiver input : String) (now : ℕ) (query : String)
    (limit : ℕ) (table : Table) {result : Retrieved}
    → NamesArtifact site.alt
    → retrieve site profiles receiver input now query limit table ≡ ok result
    → (context : Context) × (lookup receiver profiles ≡ some context)
      × All
          (λ v.
            check_view site.host site.validation site.alt site.db table v context input now ≡ ok tt)
          result.views
unfolding check_view
retrieve_accepted site profiles receiver input now query limit table names h =
    let (context, old, r, placed, registered, opened, replayed, considered, ranked, _, _) =
      retrieve_lem site profiles receiver input now query limit table h in
    let Accepted = λ (v : View).
      check_against site.host site.validation site.alt site.db r v context input now ≡ ok tt in
    let accepted : All Accepted placed.0 =
      All-mono (Shown site context input now r r.state.qualifications) Accepted placed.0
        (λ v.
          Shown-accepted site context input now r v names
            (replay-Backed site.host site.alt old replayed))
        (consider-Shown site context input now r r.state.qualifications considered) in
    (
      context,
      registered,
      rw (opened, replayed, ranked) (rank-All Accepted site.host query limit placed.0 accepted),
    )
