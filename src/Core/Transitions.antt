-- ===== src/Core/Transitions.antt =====
-- core/transitions.py: which lane a memory may move to.
pub mod Reach
use Prim.Native.String.{◌++◌}
use observable_agent_workflo.Prelude.{
  String, ◌==◌, Bool, true, false, List, [], ◌∷◌, ◌||◌, if◌then◌else◌,
}
use observable_agent_workflo.Result.{Result, ok, err, transition_error, raise_if, ◌>>◌}
use observable_agent_workflo.Core.Lane.{
  Lane, raw, candidate, shadow, certified, superseded, quarantine, tombstone, contradiction,
  lane_value, lane_eq,
}

unfoldable pub lane_mem : Lane → List Lane → Bool
unfolding lane_eq
lane_mem l [] = false
lane_mem l (m ∷ ms) = lane_eq m l || lane_mem l ms

-- `ALLOWED_TRANSITIONS[source]`
abbrev pub allowed_transitions : Lane → List Lane
allowed_transitions raw = candidate ∷ contradiction ∷ tombstone ∷ []
allowed_transitions candidate = shadow ∷ quarantine ∷ contradiction ∷ tombstone ∷ []
allowed_transitions shadow = certified ∷ quarantine ∷ contradiction ∷ tombstone ∷ []
allowed_transitions certified = superseded ∷ contradiction ∷ tombstone ∷ []
allowed_transitions superseded = contradiction ∷ tombstone ∷ []
allowed_transitions quarantine = candidate ∷ tombstone ∷ []
allowed_transitions contradiction = candidate ∷ tombstone ∷ []
allowed_transitions tombstone = []

unfoldable pub assert_transition_allowed : Lane → Lane → Result (Unit {0})
unfolding lane_eq lane_mem
assert_transition_allowed source target =
    if lane_eq source target
    then ok tt
    else if lane_mem target (allowed_transitions source)
    then ok tt
    else err (
        transition_error
          ("invalid memory lane transition: " ++ lane_value source ++ " -> " ++ lane_value target))

unfoldable pub admissible_lanes_for_mode : String → Result (List Lane)
admissible_lanes_for_mode mode =
    if mode == "admissible"
    then ok (certified ∷ [])
    else if mode == "raw"
    then ok (raw ∷ [])
    else if mode == "candidate"
    then ok (candidate ∷ shadow ∷ [])
    else if mode == "audit"
    then ok (
        raw ∷ candidate ∷ shadow ∷ certified ∷ superseded ∷ quarantine ∷ tombstone ∷ contradiction
        ∷ [])
    else err (transition_error ("unknown retrieval mode: " ++ mode))
