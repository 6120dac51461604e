-- ===== src/Core/Transitions/Reach.antt =====
-- The lane diagram, and what is reachable in it by any number of moves.
use observable_agent_workflo.Prelude.{◌≡◌, ◌≢◌, ◌↔◌, refl, ◌⊎◌, inl, inr, arith}
use observable_agent_workflo.Result.{ok}
use observable_agent_workflo.Core.Lane.{
  Lane, raw, candidate, shadow, certified, superseded, quarantine, tombstone, contradiction,
}
use observable_agent_workflo.Core.Transitions.{assert_transition_allowed}

infix 40 ◌⟶◌ ◌⟶*◌
-- The edges of the lifecycle diagram, one for each way that a memory's standing changes.
pub data ◌⟶◌ : Lane → Lane → Type 0 where
  stay : {l : Lane} → l ⟶ l
  propose : raw ⟶ candidate
  pass : candidate ⟶ shadow
  certify : shadow ⟶ certified
  replace : certified ⟶ superseded
  fail : candidate ⟶ quarantine
  recheck_fail : shadow ⟶ quarantine
  retry : quarantine ⟶ candidate
  resolve : contradiction ⟶ candidate
  contradict : {l : Lane} → l ≢ quarantine → l ≢ tombstone → l ⟶ contradiction
  retire : {l : Lane} → l ⟶ tombstone

pub data ◌⟶*◌ : Lane → Lane → Type 0 where
  here : {l : Lane} → l ⟶* l
  then_ : {l m n : Lane} → l ⟶ m → m ⟶* n → l ⟶* n

edge : (s t : Lane) → assert_transition_allowed s t ≡ ok tt → s ⟶ t
unfolding assert_transition_allowed
edge s t h = grind (
  arith, stay, propose, pass, certify, replace, fail, recheck_fail, retry, resolve, contradict,
  retire,
)

accepted : {s t : Lane} → s ⟶ t → assert_transition_allowed s t ≡ ok tt
unfolding assert_transition_allowed
accepted {s} stay = ground arith
accepted propose = refl
accepted pass = refl
accepted certify = refl
accepted replace = refl
accepted fail = refl
accepted recheck_fail = refl
accepted retry = refl
accepted resolve = refl
accepted {s} (contradict q t) = ground arith
accepted {s} retire = ground arith

-- A move is accepted exactly when it is an edge of the lifecycle diagram.
pub assert_transition_allowed_iff :
    (source target : Lane) → (assert_transition_allowed source target ≡ ok tt) ↔ (source ⟶ target)
assert_transition_allowed_iff source target = (edge source target, accepted)

from_step :
    {l m : Lane}
    → l ⟶ m
    → (m ≡ certified) ⊎ ((m ⟶* shadow) × (shadow ⟶ certified))
    → (l ≡ certified) ⊎ ((l ⟶* shadow) × (shadow ⟶ certified))
from_step e (inr (p, c)) = inr (then_ e p, c)
from_step stay (inl q) = inl q
from_step certify (inl q) = inr (here, certify)
from_step _ (inl q) = absurd (ground arith)

-- Every way to the certified lane, however long, ends with the move there from the shadow lane.
pub certified_needs_shadow :
    {l : Lane} → l ⟶* certified → (l ≡ certified) ⊎ ((l ⟶* shadow) × (shadow ⟶ certified))
certified_needs_shadow here = inl refl
certified_needs_shadow (then_ e p) = from_step e (certified_needs_shadow p)

step_from_tombstone : {l m : Lane} → l ⟶ m → l ≡ tombstone → m ≡ tombstone
step_from_tombstone stay t = t
step_from_tombstone (contradict q n) t = absurd (n t)
step_from_tombstone retire t = refl
step_from_tombstone _ t = ground arith

-- Nothing leaves the tombstone lane.
pub tombstone_absorbs : {l m : Lane} → l ≡ tombstone → l ⟶* m → m ≡ tombstone
tombstone_absorbs t here = t
tombstone_absorbs t (then_ e p) = tombstone_absorbs (step_from_tombstone e t) p
