-- ===== src/Qualified/Use/Gated.antt =====
-- qualified/runtime.py: what is checked before a use writes anything.
use observable_agent_workflo.Prelude.{
  ◌≡◌, subst, ◌==◌, Bool, true, false, not, ◌&&◌, some, List, arith,
}
use observable_agent_workflo.Result.{ok, >>=-eq-ok, raise_if-eq-ok}
use observable_agent_workflo.Json.{obj, digest_json}
use observable_agent_workflo.Core.Receipt.{ActionIntent, PromotionReceipt}
use observable_agent_workflo.Gate.{ensure_allowed}
use observable_agent_workflo.Gate.Sound.{Permits, ensure_allowed_iff}
use observable_agent_workflo.Kernel.Tools.{get_receipts}
use observable_agent_workflo.Qualified.Runtime.{Site}
use observable_agent_workflo.Qualified.Use.{Tools, Request, args, verify_all, check_request}

first_of : (a b c d : Bool) → not (a && b && c && d) ≡ false → a ≡ true
first_of a b c d h = ground arith

gate_lem :
    (site : Site) (strict : Bool) (i : ActionIntent) (rs : List PromotionReceipt)
    → strict ≡ true
    → ensure_allowed site.host strict true rs (some i) "" ≡ ok tt
    → Permits site.host i rs
gate_lem site strict i rs e h =
    let allowed : ensure_allowed site.host true true rs (some i) "" ≡ ok tt =
      subst (λ b. ensure_allowed site.host b true rs (some i) "" ≡ ok tt) e h in
    let (j, same, permits) = (ensure_allowed_iff site.host rs (some i) "").0 allowed in
    let same' : j ≡ i = ground arith in subst (λ k. Permits site.host k rs) same' permits

pub check_request_lem :
    (site : Site) (tools : Tools) (u : Request)
    → check_request site tools u ≡ ok tt
    → (rs : List PromotionReceipt) × (get_receipts u.receipts site.db ≡ ok rs)
      × Permits site.host u.intent rs
unfolding check_request
check_request_lem site tools u h =
    let (local, h1) =
      raise_if-eq-ok
        (not (
          tools.strict
          && u.intent.tool_name == "normalize-lines-v1"
          && u.intent.effect_class == "local-external"
          && u.cost.stage == "use"))
        _ _ h in
    let (wanted, h2, _) = >>=-eq-ok (digest_json site.host (obj (args u))) _ h1 in
    let (bound_, h3) = raise_if-eq-ok (not (u.intent.args_digest == wanted)) _ _ h2 in
    let (rs, h4, got) = >>=-eq-ok (get_receipts u.receipts site.db) _ h3 in
    let (unit, h5, verified) = >>=-eq-ok (verify_all site.host site.db u.receipts) _ h4 in
    (rs, got, gate_lem site tools.strict u.intent rs (first_of tools.strict _ _ _ local) h5)
