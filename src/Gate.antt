-- ===== src/Gate.antt =====
-- runtime/action_gate.py: external effects wait for receipts that are bound to the action.
pub mod Sound
use observable_agent_workflo.Prelude.{
  String, ◌==◌, Bool, true, false, not, ◌||◌, Option, none, some, List, [], ◌∷◌, cat, any, select,
  first, is_empty, if◌then◌else◌,
}
use observable_agent_workflo.Result.{
  Result, ok, err, fail_closed_error, or_raise, raise_if, ◌>>=◌, ◌>>◌,
}
use observable_agent_workflo.Json.{Host}
use observable_agent_workflo.Core.Record.{tagged_id}
use observable_agent_workflo.Core.Receipt.{
  ActionIntent, action_seed, PromotionReceipt, is_passed, all_passed,
}

-- `reason or default`
abbrev pub reason_or : String → String → String
reason_or reason default = if reason == "" then default else reason

-- the identifier of an action, from the fields that it binds
unfoldable pub expected_action_id : Host → ActionIntent → Result String
expected_action_id host intent =
    tagged_id host "act_"
      (action_seed intent.tool_name intent.effect_class intent.args_digest intent.resource_caps)

-- A receipt counts if its result is "passed" and it has checks, all of which passed.
unfoldable pub is_passing : PromotionReceipt → Bool
is_passing r = not (not (is_passed r.result) || is_empty r.checks || not (all_passed r.checks))

-- the loop over the receipts: the first one that does not count is named
unfoldable pub require_passing : (reason : String) → List PromotionReceipt → Result (Unit {0})
unfolding is_passing
require_passing reason [] = ok tt
require_passing reason (r ∷ rs) = do
  raise_if (not (is_passing r))
      (fail_closed_error (reason_or reason (cat "receipt did not pass: " r.receipt_id)))
  require_passing reason rs

abbrev pub has_id : String → PromotionReceipt → Bool
has_id id r = r.receipt_id == id

-- the receipts that may bind the action: the required one alone, if the intent names one
unfoldable pub relevant :
    (reason : String) → Option String → List PromotionReceipt → Result (List PromotionReceipt)
relevant reason none receipts = ok receipts
relevant reason (some id) receipts =
    let matching = select (has_id id) receipts in
    if is_empty matching
    then err (fail_closed_error (reason_or reason "required receipt was not supplied"))
    else ok matching

abbrev pub binds : String → PromotionReceipt → Bool
binds action r = elim r.bound_action_id [ none ↦ false | some id ↦ id == action ]

unfoldable pub admit_intent :
    Host → ActionIntent → List PromotionReceipt → (reason : String) → Result (Unit {0})
admit_intent host intent receipts reason = do
  raise_if (is_empty receipts) (
      fail_closed_error (reason_or reason "external effects require action-bound passing receipts"))
  action_id ← expected_action_id host intent
  raise_if (not (intent.action_id == action_id))
      (fail_closed_error "action intent identity does not bind its current fields")
  require_passing reason receipts
  chosen ← relevant reason intent.required_receipt_id receipts
  raise_if (not (any (binds intent.action_id) chosen)) (
      fail_closed_error
        (reason_or reason "external effects require a receipt bound to this action intent"))

-- `ActionGate(strict).ensure_allowed(...)`
unfoldable pub ensure_allowed :
    Host
    → (strict external_effects : Bool) → List PromotionReceipt
    → Option ActionIntent
    → (reason : String) → Result (Unit {0})
ensure_allowed host strict false receipts intent reason = ok tt
ensure_allowed host false true receipts intent reason = ok tt
ensure_allowed host true true receipts none reason =
    err (fail_closed_error (reason_or reason "external effects require an action intent"))
ensure_allowed host true true receipts (some intent) reason =
    admit_intent host intent receipts reason
