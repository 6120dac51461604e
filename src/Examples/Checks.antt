-- ===== src/Examples/Checks.antt =====
-- The theorems about records, lanes and checkers, at the session's memory and evidence.
use observable_agent_workflo.Prelude.{
  ℕ, ◌≡◌, ◌↔◌, ◌⊎◌, ◌≤◌, refl, true, false, none, [], ◌∷◌, is_empty,
}
use observable_agent_workflo.Prelude.Int.{pos}
use observable_agent_workflo.Result.{Result, ok, is_ok}
use observable_agent_workflo.Json.{
  Fields, Float, str, arr, obj, int, boolean, float, dict, end, nil, cons, value_eq, items_eq,
  fields_le, canonical_json, digest_json, normalize_for_json, normalize_items, normalize_fields,
  sort_keys, sort_items, sort_fields, dumps, dumps_items, dumps_fields, quote, decimal, print_int,
}
use observable_agent_workflo.Core.Lane.{certified, shadow, candidate}
use observable_agent_workflo.Core.Record.{
  MemoryRecord, Draft, create, moved, validated, content_seed, content_digest, compute_update_id,
  tagged_id,
}
use observable_agent_workflo.Core.Record.Binding.{IsBound, create-IsBound, moved-IsBound}
use observable_agent_workflo.Core.Receipt.{
  EvidenceManifest, create_manifest, int_fields, accept, replay_seed, manifest_seed,
}
use observable_agent_workflo.Core.Transitions.{assert_transition_allowed}
use observable_agent_workflo.Core.Transitions.Reach.{◌⟶◌, assert_transition_allowed_iff}
use observable_agent_workflo.Checkers.Manifest.{verify_manifest, manifest_name}
use observable_agent_workflo.Checkers.Manifest.Accepts.{verify_manifest-create_manifest}
use observable_agent_workflo.Checkers.Caps.{check_caps, out_of_range, intent_differs, max_steps_of}
use observable_agent_workflo.Checkers.Caps.Bounds.{check_caps_accepts}
use observable_agent_workflo.Checkers.Boundary.{float_paths}
use observable_agent_workflo.Checkers.Boundary.Floats.{Occurs, float_paths_iff}
use observable_agent_workflo.Examples.Hosted.{host, hash, value_of, result_is}
use observable_agent_workflo.Kernel.Audit.{no_context}
use observable_agent_workflo.Examples.Session.{blank_record}
use observable_agent_workflo.Prelude.Text.{prefix, strip}

assert_transition_allowed_iff_example :
    (assert_transition_allowed shadow certified ≡ ok tt) ↔ (shadow ⟶ certified)
assert_transition_allowed_iff_example = assert_transition_allowed_iff shadow certified

abbrev draft : Draft
draft = record {
  lane = candidate;
  claim = "build first";
  source_event_ids = "evt_1" ∷ [];
  metadata = end;
  evidence_refs = [];
  supersedes = [];
  contradicts = [];
}

abbrev drafted : Result MemoryRecord
drafted = create host "t0" "t1" draft

abbrev memory : MemoryRecord
memory = value_of blank_record drafted

abbrev shown : Result MemoryRecord
shown = moved memory shadow "verified" none "t2"

abbrev caps : Fields
caps = dict (("max_steps", int (pos 4)) ∷ [])

whole : int_fields host caps ≡ ok caps
whole = refl

abbrev made : Result EvidenceManifest
made = create_manifest host "t3" memory ("evt_1" ∷ []) (dict (("evt_1", str "d1") ∷ [])) [] caps

abbrev blank_manifest : EvidenceManifest
blank_manifest = record {
  schema_version = "1.1";
  manifest_id = "";
  candidate_id = "";
  candidate_update_id = "";
  input_event_ids = [];
  input_event_digests = end;
  candidate_digest = "";
  replay_digest = "";
  declared_tools = [];
  resource_caps = end;
  created_at = "";
}

all_ok :
    (is_ok drafted ≡ true)
    × (is_ok shown ≡ true)
    × (is_ok made ≡ true)
    × (strip draft.claim ≡ draft.claim)
    × (strip memory.claim ≡ memory.claim)
unfolding create moved validated content_seed content_digest compute_update_id tagged_id
    create_manifest replay_seed manifest_seed canonical_json digest_json normalize_for_json
    normalize_items normalize_fields sort_keys sort_items sort_fields dumps dumps_items dumps_fields
    quote decimal print_int hash strip prefix
all_ok = (refl, refl, refl, refl, refl)

drafted_is : drafted ≡ ok memory
drafted_is = let (it, _, _, _, _) = all_ok in result_is blank_record drafted it

shown_is : shown ≡ ok (value_of blank_record shown)
shown_is = let (_, it, _, _, _) = all_ok in result_is blank_record shown it

made_is : made ≡ ok (value_of blank_manifest made)
made_is = let (_, _, it, _, _) = all_ok in result_is blank_manifest made it

stripped : strip draft.claim ≡ draft.claim
stripped = let (_, _, _, it, _) = all_ok in it

stays_stripped : strip memory.claim ≡ memory.claim
stays_stripped = let (_, _, _, _, it) = all_ok in it

bound : IsBound host memory
bound = create-IsBound host "t0" "t1" draft drafted_is stripped

create-IsBound_example : IsBound host memory
create-IsBound_example = create-IsBound host "t0" "t1" draft drafted_is stripped

moved-IsBound_example : IsBound host (value_of blank_record shown)
moved-IsBound_example =
    moved-IsBound host memory shadow "verified" none "t2" shown_is stays_stripped bound

verify_manifest-create_manifest_example :
    verify_manifest host memory (value_of blank_manifest made) ≡ ok (accept manifest_name)
verify_manifest-create_manifest_example =
    verify_manifest-create_manifest host "t3" memory ("evt_1" ∷ [])
      (dict (("evt_1", str "d1") ∷ [])) [] caps whole made_is

caps_accepted : (check_caps 128 caps (obj caps) no_context).passed ≡ true
unfolding check_caps out_of_range value_eq items_eq fields_le
caps_accepted = refl

check_caps_accepts_example :
    (value_eq (obj caps) (obj caps) ≡ true)
    × (intent_differs none caps ≡ false)
    × (((n : ℕ) × (max_steps_of caps ≡ int (pos n)) × (1 ≤ n) × (n ≤ 128))
        ⊎ (max_steps_of caps ≡ boolean true))
check_caps_accepts_example = check_caps_accepts 128 caps (obj caps) no_context caps_accepted

abbrev half : Float
half = record { finite = true; num = pos 1; den = 2; repr = "0.5" }

abbrev nested : Fields
nested = dict (("steps", arr (cons (float half) nil)) ∷ [])

float_paths_iff_example :
    (is_empty (float_paths nested caps) ≡ false)
    ↔ (((x : Float) × Occurs x (obj nested)) ⊎ ((x : Float) × Occurs x (obj caps)))
float_paths_iff_example = float_paths_iff nested caps
