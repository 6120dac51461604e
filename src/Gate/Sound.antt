-- ===== src/Gate/Sound.antt =====
-- What the gate lets through, and that it lets nothing else through.
use observable_agent_workflo.Prelude.{
  String, ◌≡◌, ◌↔◌, refl, Bool, true, false, Option, none, some, List, [], ◌∷◌, arith, eq_iff,
  select, is_empty, any, All, Elem, Elem-select, Bool-cases, Option-cases, subst, sym, ap, ◌∙◌,
  false≢true, inl, inr,
}
use observable_agent_workflo.Result.{ok, Result-cases}
use observable_agent_workflo.Json.{Host}
use observable_agent_workflo.Core.Receipt.{ActionIntent, PromotionReceipt, passed, all_passed}
use observable_agent_workflo.Gate.{
  expected_action_id, require_passing, has_id, relevant, binds, admit_intent, ensure_allowed,
}

-- A receipt that counts for the gate: it passed, and it has checks that all passed.
abbrev pub IsPassing : PromotionReceipt → Type 0
IsPassing r = (r.result ≡ passed) × (is_empty r.checks ≡ false) × (all_passed r.checks ≡ true)

-- What the gate asks of an action with an external effect under the strict profile.
pub record Permits (host : Host) (intent : ActionIntent) (receipts : List PromotionReceipt)
    : Type 0 where
  pub identity : expected_action_id host intent ≡ ok intent.action_id
  pub passing : All IsPassing receipts
  pub bound :
      (r : PromotionReceipt) × Elem r receipts
      × (r.bound_action_id ≡ some intent.action_id)
      × ((id : String) → intent.required_receipt_id ≡ some id → r.receipt_id ≡ id)

require_passing-All :
    (reason : String) (rs : List PromotionReceipt)
    → require_passing reason rs ≡ ok tt
    → All IsPassing rs
unfolding require_passing
require_passing-All reason [] h = tt
require_passing-All reason (r ∷ rs) h = ground (arith, require_passing-All reason rs)

All-require_passing :
    (reason : String) (rs : List PromotionReceipt)
    → All IsPassing rs
    → require_passing reason rs ≡ ok tt
unfolding require_passing
All-require_passing reason [] h = refl
All-require_passing reason (r ∷ rs) h = ground (arith, All-require_passing reason rs h.1)

binds_iff :
    (action : String) (r : PromotionReceipt)
    → (binds action r ≡ true) ↔ (r.bound_action_id ≡ some action)
binds_iff action r = elim (Option-cases r.bound_action_id) [
  | inl e ↦ rw e ((λ h. ground arith), (λ h. ground arith))
  | inr (id, e) ↦
      rw e ((λ h. ground (arith, eq_iff id action)), (λ h. ground (arith, eq_iff id action)))
]

any-binds :
    (action : String) (rs : List PromotionReceipt)
    → any (binds action) rs ≡ true
    → (r : PromotionReceipt) × Elem r rs × (r.bound_action_id ≡ some action)
any-binds action [] h = absurd (false≢true h)
any-binds action (r ∷ rs) h = elim (Bool-cases (binds action r)) [
  | inl here ↦ (r, inl refl, (binds_iff action r).0 here)
  | inr there ↦ let (s, m, b) = any-binds action rs (rw there at h) in (s, inr m, b)
]

Elem-any :
    (p : PromotionReceipt → Bool) (r : PromotionReceipt) (rs : List PromotionReceipt)
    → Elem r rs
    → p r ≡ true
    → any p rs ≡ true
Elem-any p r [] m h = absurd m
Elem-any p r (s ∷ rs) (inl e) h = rw (← e) (rw h refl)
Elem-any p r (s ∷ rs) (inr m) h = ground (arith, Elem-any p r rs m h)

Elem-into_select :
    (p : PromotionReceipt → Bool) (r : PromotionReceipt) (rs : List PromotionReceipt)
    → Elem r rs
    → p r ≡ true
    → Elem r (select p rs)
Elem-into_select p r [] m h = absurd m
Elem-into_select p r (s ∷ rs) (inl e) h = rw (← e) (rw h (inl refl))
Elem-into_select p r (s ∷ rs) (inr m) h = elim (Bool-cases (p s)) [
  | inl t ↦ rw t (inr (Elem-into_select p r rs m h))
  | inr f ↦ rw f (Elem-into_select p r rs m h)
]

-- The receipts that may bind are among those supplied, and have the identifier that is required.
relevant_lem :
    (reason : String) (required : Option String) (rs chosen : List PromotionReceipt)
    → relevant reason required rs ≡ ok chosen
    → (r : PromotionReceipt) → Elem r chosen
    → Elem r rs × ((id : String) → required ≡ some id → r.receipt_id ≡ id)
unfolding relevant
relevant_lem reason none rs chosen h r m =
    let same : rs ≡ chosen = ground arith in (rw same m, λ id e. ground arith)
relevant_lem reason (some id) rs chosen h r m =
    let same : select (has_id id) rs ≡ chosen = ground arith in
    let (inside, has) = Elem-select (has_id id) r rs (rw same m) in
    (inside, λ j e. ground (arith, eq_iff r.receipt_id id))

Elem-ne_empty :
    (r : PromotionReceipt) (rs : List PromotionReceipt) → Elem r rs → is_empty rs ≡ false
Elem-ne_empty r [] m = absurd m
Elem-ne_empty r (s ∷ rs) m = refl

relevant_total :
    (reason : String) (required : Option String) (rs : List PromotionReceipt) (r : PromotionReceipt)
    → Elem r rs
    → ((id : String) → required ≡ some id → r.receipt_id ≡ id)
    → (chosen : List PromotionReceipt) × (relevant reason required rs ≡ ok chosen) × Elem r chosen
unfolding relevant
relevant_total reason none rs r m h = (rs, refl, m)
relevant_total reason (some id) rs r m h =
    let here = Elem-into_select (has_id id) r rs m ((eq_iff r.receipt_id id).1 (h id refl)) in
    (select (has_id id) rs, rw (Elem-ne_empty r _ here) refl, here)

admit_sound :
    (host : Host) (i : ActionIntent) (rs : List PromotionReceipt) (reason : String)
    → admit_intent host i rs reason ≡ ok tt
    → Permits host i rs
unfolding admit_intent
admit_sound host i rs reason h = elim (Result-cases (expected_action_id host i)) [
  | inr (e, bad) ↦ absurd (ground arith)
  | inl (action, good) ↦ elim (Result-cases (relevant reason i.required_receipt_id rs)) [
    | inr (e, bad) ↦ absurd (ground arith)
    | inl (chosen, some_) ↦
        let same : i.action_id ≡ action = ground (arith, eq_iff i.action_id action) in
        let (r, m, b) = any-binds i.action_id chosen (ground arith) in
        let (inside, required) = relevant_lem reason i.required_receipt_id rs chosen some_ r m in
        record {
          identity = good ∙ ap ok (sym same);
          passing = require_passing-All reason rs (ground arith);
          bound = (r, inside, b, required);
        }
  ]
]

admit_complete :
    (host : Host) (i : ActionIntent) (rs : List PromotionReceipt) (reason : String)
    → Permits host i rs
    → admit_intent host i rs reason ≡ ok tt
unfolding admit_intent
admit_complete host i rs reason p =
    let (r, m, b, required) = p.bound in
    let (chosen, e, c) = relevant_total reason i.required_receipt_id rs r m required in
    let found = Elem-any (binds i.action_id) r chosen c ((binds_iff i.action_id r).1 b) in
    ground (
      arith,
      p.identity,
      All-require_passing reason rs p.passing,
      Elem-ne_empty r rs m,
      eq_iff i.action_id i.action_id,
    )

-- Under the strict profile an action with an external effect is let through exactly when it comes
-- with an intent whose identifier binds its fields, every receipt supplied has passed with checks,
-- and one of them is bound to the action and is the one that the intent requires, if it requires one.
pub ensure_allowed_iff :
    (host : Host) (rs : List PromotionReceipt) (intent : Option ActionIntent) (reason : String)
    → (ensure_allowed host true true rs intent reason ≡ ok tt)
      ↔ ((i : ActionIntent) × (intent ≡ some i) × Permits host i rs)
unfolding ensure_allowed
ensure_allowed_iff host rs none reason = ((λ h. ground arith), (λ h. ground arith))
ensure_allowed_iff host rs (some i) reason = (
  (λ h. (i, refl, admit_sound host i rs reason h)),
  (λ (j, e, p).
      admit_complete host i rs reason
        (let same : j ≡ i = cc in subst (λ k. Permits host k rs) same p)),
)
