-- ===== src/Examples/Services.antt =====
-- The theorems on the qualified memory, at the receiver's session.
use observable_agent_workflo.Prelude.{
  strs_eq, ◌≡◌, true, some, List, [], ◌∷◌, map, ◌++◌, length, ◌≤◌, ◌↔◌, str_mem, ◌+◌, All,
  Option-cases, inl, inr, arith,
}
use observable_agent_workflo.Prelude.Assoc.{lookup}
use observable_agent_workflo.Result.{Result, ok}
use observable_agent_workflo.Json.{Fields, Items, arr, keys, Value, obj, get}
use observable_agent_workflo.Core.Receipt.{PromotionReceipt}
use observable_agent_workflo.Kernel.Tools.{get_receipts}
use observable_agent_workflo.Gate.Sound.{Permits}
use observable_agent_workflo.Qualified.Wire.{traverse, visit_limit}
use observable_agent_workflo.Qualified.Wire.Limits.{traverse_ends, nodes, height}
use observable_agent_workflo.Qualified.Model.{Operation, Context, Entry}
use observable_agent_workflo.Qualified.Model.Dump.{dump_qualification}
use observable_agent_workflo.Qualified.Lines.{normal_form}
use observable_agent_workflo.Qualified.Native.{checked}
use observable_agent_workflo.Qualified.Native.Checked.{checked_iff}
use observable_agent_workflo.Qualified.Journal.Replay.{Replayed, replay}
use observable_agent_workflo.Qualified.Journal.Sound.{Served, replay_sound}
use observable_agent_workflo.Qualified.Journal.Store.{row_entry}
use observable_agent_workflo.Qualified.Journal.Appended.{append_refines}
use observable_agent_workflo.Qualified.Consumer.{check_view}
use observable_agent_workflo.Qualified.Consumer.Agreement.{NamesArtifact, retrieve_accepted}
use observable_agent_workflo.Qualified.Use.Served.{use_sound}
use observable_agent_workflo.Qualified.Use.{Request}
use observable_agent_workflo.Qualified.Use.Effect.{use_qualification}
use observable_agent_workflo.Qualified.Use.Once.{Meant, answered, use_repeated, use_unresolved}
use observable_agent_workflo.Qualified.Journal.Store.{entries}
use observable_agent_workflo.Examples.Recorded.{open_is}
use observable_agent_workflo.Examples.Uses.{intent_of, failed, open_, second}
use observable_agent_workflo.Prelude.{subst, sym, Elem, ◌⊎◌, none, str_mem, refl}
use observable_agent_workflo.Result.{Error, err}
use observable_agent_workflo.Json.{str, value_eq}
use observable_agent_workflo.Prelude.Assoc.{lookup}
use observable_agent_workflo.Examples.Hosted.{value_of}
use observable_agent_workflo.Examples.Receiver.{memory, host, qualification, implementation}
use observable_agent_workflo.Examples.Companion.{site, alt}
use observable_agent_workflo.Examples.Uses.{
  evidence, no_context, input_checked, blank_check, profiles, opened, retrieved, tools, request,
  quiet, used, left, extra, appended, blank_retrieved, blank_used, blank_replayed,
}
use observable_agent_workflo.Promotion.Inputs.{Recorded, input_set_sound}
use observable_agent_workflo.Checkers.Base.{get_or_none, distinct, same_set, str_each}
use observable_agent_workflo.Examples.Recorded.{
  input_checked_is, uses_ok, retrieved_is, left_is, appended_is, used_is,
}

abbrev document : Value
document = obj (dump_qualification qualification)

traverse_ends_example :
    (r : Result (Unit {0})) × (traverse (visit_limit + 1) 0 ((document, 0) ∷ []) ≡ some r)
    × ((r ≡ ok tt) ↔ ((nodes document ≤ visit_limit) × (height document ≤ 24)))
traverse_ends_example = traverse_ends document

abbrev operation : Operation
operation = record {
  implementation = implementation;
  input = "b\na";
  output = "a\nb";
  receiver = "recv";
  context_digest = "";
  time = 9;
  split = "evaluation";
  complete = true;
  outcome = "success";
  cost = record { id = "c3"; stage = "transfer"; unit = "work-unit"; amount = "1" };
}

checked_iff_example : (checked alt operation ≡ true) ↔ (
    (operation.implementation ≡ implementation)
    × (operation.complete ≡ true)
    × (operation.outcome ≡ "success")
    × (operation.output ≡ normal_form operation.input))
checked_iff_example = checked_iff alt operation

is_served : str_mem "use-1" (value_of blank_replayed left).state.services ≡ true
is_served = let (_, _, _, _, _, it, _, _, _, _, _, _, _, _, _, _, _, _, _) = uses_ok in it

replay_sound_example : Served host (value_of blank_replayed left).state "use-1"
replay_sound_example = replay_sound host alt (map row_entry used.1) left_is "use-1" is_served

append_refines_example :
    (before : Replayed) × (after : Replayed) × (added : List Entry) × (replay host alt
        (map row_entry opened.1)
      ≡ ok before)
    × (before.revision ≡ opened.0)
    × (map row_entry (value_of ("", []) appended).1 ≡ map row_entry opened.1 ++ added)
    × (length added ≤ length (extra ∷ []))
    × (replay host alt (map row_entry (value_of ("", []) appended).1) ≡ ok after)
    × (replay host alt (map row_entry opened.1 ++ (extra ∷ [])) ≡ ok after)
    × (after.revision ≡ (value_of ("", []) appended).0)
append_refines_example = append_refines host alt (extra ∷ []) opened.0 opened.1 appended_is

names_artifact : NamesArtifact alt
names_artifact f c read = elim (Option-cases (get "artifact_digest" f)) [
  | inl missing ↦ absurd (ground arith)
  | inr found ↦ found
]

retrieve_accepted_example :
    (c : Context) × (lookup "recv" profiles ≡ some c)
    × All
        (λ v. check_view host site.validation alt site.db opened.1 v c "b\na" 20 ≡ ok tt)
        (value_of blank_retrieved retrieved).views
retrieve_accepted_example =
    retrieve_accepted site profiles "recv" "b\na" 20 "workflow" 8 opened.1 names_artifact
      retrieved_is

is_service : (value_of blank_used used.0).service ≡ true
is_service = let (_, _, _, _, _, _, it, _, _, _, _, _, _, _, _, _, _, _, _) = uses_ok in it

use_sound_example :
    (rs : List PromotionReceipt) × (r : Replayed) × (get_receipts request.receipts site.db ≡ ok rs)
    × Permits host request.intent rs
    × (replay host alt (map row_entry used.1) ≡ ok r)
    × Served host r.state "use-1"
use_sound_example = use_sound site profiles tools request quiet opened.1 used_is is_service

input_passed : (value_of blank_check input_checked).passed ≡ true
input_passed = let (_, _, _, _, _, _, _, _, _, it, _, _, _, _, _, _, _, _, _) = uses_ok in it

input_set_sound_example :
    (ids : Items) × (given : Fields) × (get_or_none "input_event_ids" evidence ≡ arr ids)
    × (get_or_none "input_event_digests" evidence ≡ obj given)
    × (distinct memory.source_event_ids ≡ true)
    × (strs_eq (str_each host ids) memory.source_event_ids ≡ true)
    × (same_set (keys given) memory.source_event_ids ≡ true)
    × All (Recorded site.db given) memory.source_event_ids
input_set_sound_example =
    input_set_sound host memory evidence no_context site.db input_checked_is input_passed

used_opened : entries used.1 ≡ ok (map row_entry used.1)
used_opened = let (_, _, _, _, _, _, _, _, _, _, it, _, _, _, _, _, _, _, _) = uses_ok in it

known : lookup "use-1" (value_of blank_replayed left).state.intents ≡ some (intent_of left)
known = let (_, _, _, _, _, _, _, _, _, _, _, it, _, _, _, _, _, _, _) = uses_ok in it

abbrev again : Request
again = record request { expected = (value_of blank_replayed left).revision }

use_repeated_example :
    ((e : Error) × (use_qualification site profiles tools again quiet used.1 ≡ (err e, used.1)))
    ⊎ (Meant again (value_of blank_replayed left) (intent_of left)
        × (use_qualification site profiles tools again quiet used.1 ≡ (
          ok (answered (str_mem "use-1" (value_of blank_replayed left).state.services)),
          used.1,
        )))
use_repeated_example =
    use_repeated site profiles tools again quiet used.1 (map row_entry used.1)
      (value_of blank_replayed left) (intent_of left) used_opened left_is known

failed_opened : entries failed.1 ≡ ok (map row_entry failed.1)
failed_opened = let (_, _, _, _, _, _, _, _, _, _, _, _, it, _, _, _, _, _, _) = uses_ok in it

second_is_new : lookup "use-2" (value_of blank_replayed open_).state.intents ≡ none
second_is_new = let (_, _, _, _, _, _, _, _, _, _, _, _, _, _, it, _, _, _, _) = uses_ok in it

first_unresolved : Elem "use-1" (value_of blank_replayed open_).unresolved
first_unresolved =
    let (_, _, _, _, _, _, _, _, _, _, _, _, _, _, _, it, _, _, _) = uses_ok in
    subst (Elem "use-1") (sym it) (inl refl)

first_meant : lookup "use-1" (value_of blank_replayed open_).state.intents ≡ some (intent_of open_)
first_meant = let (_, _, _, _, _, _, _, _, _, _, _, _, _, _, _, _, it, _, _) = uses_ok in it

same_qualification : (intent_of open_).qualification ≡ second.qualification
same_qualification = let (_, _, _, _, _, _, _, _, _, _, _, _, _, _, _, _, _, it, _) = uses_ok in it

same_input : value_eq (intent_of open_).input (str "b\na") ≡ true
same_input = let (_, _, _, _, _, _, _, _, _, _, _, _, _, _, _, _, _, _, it) = uses_ok in it

use_unresolved_example :
    (e : Error) × (use_qualification site profiles tools second quiet failed.1 ≡ (err e, failed.1))
use_unresolved_example =
    use_unresolved site profiles tools second quiet failed.1 (map row_entry failed.1)
      (value_of blank_replayed open_) "use-1" (intent_of open_) failed_opened open_is second_is_new
      first_unresolved first_meant same_qualification same_input
