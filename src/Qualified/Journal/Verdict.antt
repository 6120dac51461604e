-- ===== src/Qualified/Journal/Verdict.antt =====
-- qualified/store.py: the verdict that `replay` keeps for an outcome, and the services that it counts.
use observable_agent_workflo.Prelude.{
  ◌≡◌, refl, String, ◌==◌, Bool, true, false, not, ◌||◌, some, List, [], ◌∷◌, ◌++◌, str_mem, arith,
  if◌then◌else◌, eq_iff, ◌↔◌, ℕ, subst,
}
use observable_agent_workflo.Prelude.Assoc.{lookup}
use observable_agent_workflo.Result.{
  ok, or_raise, key_error, >>=-eq-ok, raise_if-eq-ok, or_raise-eq-ok,
}
use observable_agent_workflo.Json.{Host, Value, str, obj, end}
use observable_agent_workflo.Qualified.Wire.{digest}
use observable_agent_workflo.Qualified.Model.{Cost, valid_operation, Operation, Entry}
use observable_agent_workflo.Qualified.Model.Decode.{decode_cost, text, invalid}
use observable_agent_workflo.Qualified.Lines.{normal_form}
use observable_agent_workflo.Qualified.Native.{Companion}
use observable_agent_workflo.Qualified.Native
use observable_agent_workflo.Qualified.Native.Checked.{checked_iff}
use observable_agent_workflo.Qualified.Journal.State.{Intent, Outcome, State}
use observable_agent_workflo.Qualified.Journal.Apply.{bound}
use observable_agent_workflo.Qualified.Journal.Settle.{
  rebuilt, operation_of, judged, serve, apply_checked, apply_reconciled,
}
use observable_agent_workflo.Qualified.Journal.Kept.{Follows, follows, known_names}
use observable_agent_workflo.Qualified.Journal.Backed.{
  Explained, Backed, with_checked-Backed, with_services-Backed, with_rest-Backed,
}

text_lem : (v : Value) {t : String} → text v ≡ ok t → v ≡ str t
text_lem (str s) h = ground arith
text_lem Value.null h = absurd (ground arith)
text_lem (Value.boolean b) h = absurd (ground arith)
text_lem (Value.int n) h = absurd (ground arith)
text_lem (Value.float x) h = absurd (ground arith)
text_lem (Value.arr xs) h = absurd (ground arith)
text_lem (Value.obj f) h = absurd (ground arith)

succeeds :
    (b : Bool) → (◌≡◌ {A = String} (if b then "success" else "unknown") "success") ↔ (b ≡ true)
succeeds true = (λ h. refl, λ h. refl)
succeeds false = ground (arith, eq_iff "unknown" "success")

rebuilt_verdict :
    (alt : Companion) (context_digest input output status : String) (time : ℕ) (c : Cost)
    → (Native.checked alt (rebuilt alt context_digest input output status time c) ≡ true)
      ↔ ((status ≡ "received") × (output ≡ normal_form input))
rebuilt_verdict alt context_digest input output status time c = ground (
  arith,
  eq_iff status "received",
  succeeds (status == "received"),
  checked_iff alt (rebuilt alt context_digest input output status time c),
)

operation_of-Explained :
    (host : Host) (alt : Companion) (time : ℕ) (s : State) (i : String) (n : Intent) (o : Outcome)
    (op : Operation)
    → lookup i s.intents ≡ some n
    → lookup i s.outcomes ≡ some o
    → operation_of host alt time s.costs n o ≡ ok op
    → Explained s.intents s.outcomes i (Native.checked alt op)
unfolding operation_of
operation_of-Explained host alt time s i n o op at_n at_o r =
    let (d, r1, _) = >>=-eq-ok (digest host (obj end)) _ r in
    let (f, r2, _) = >>=-eq-ok (or_raise (lookup n.cost s.costs) (key_error n.cost)) _ r1 in
    let (c, r3, _) = >>=-eq-ok (decode_cost host f) _ r2 in
    let (input, r4, read) = >>=-eq-ok (text n.input) _ r3 in
    let (output, r5, wrote) = >>=-eq-ok (text o.output) _ r4 in
    let (valid, r6) =
      raise_if-eq-ok (not (valid_operation host (rebuilt alt d input output o.status time c)))
        invalid _ r5 in
    let same : rebuilt alt d input output o.status time c ≡ op = ground arith in
    subst (λ x. Explained s.intents s.outcomes i (Native.checked alt x)) same
      (
        n,
        o,
        input,
        output,
        at_n,
        at_o,
        text_lem n.input read,
        text_lem o.output wrote,
        rebuilt_verdict alt d input output o.status time c,
      )

str_mem-append_last :
    (j i : String) (services : List String)
    → str_mem j (services ++ i ∷ []) ≡ (str_mem j services || i == j)
str_mem-append_last j i [] = ground arith
str_mem-append_last j i (k ∷ services) = ground (arith, str_mem-append_last j i services)

serve-checked :
    (checked : List (String × Bool)) (services : List String) (i : String) (b : Bool)
    → lookup i checked ≡ some b
    → ((j : String) → str_mem j services ≡ true → lookup j checked ≡ some true)
    → (j : String) → str_mem j (serve i b services) ≡ true
    → lookup j checked ≡ some true
serve-checked checked services i b at_b before j m =
    ground (arith, str_mem-append_last j i services, before j, eq_iff i j)

module _ {host : Host} (alt : Companion) (e : Entry) (s : State) {s' : State}
    (h : Backed host s) where
  pub apply_checked-Follows : apply_checked host alt e s ≡ ok s' → Follows host e s s'
  unfolding apply_checked
  apply_checked-Follows r =
      let (shaped, r1) = raise_if-eq-ok _ _ _ r in
      let (i, r2, known) = >>=-eq-ok (bound _ s.outcomes _) _ r1 in
      let (o, r3, at_o) = >>=-eq-ok (or_raise (lookup i s.outcomes) (key_error i)) _ r2 in
      let (n, r4, at_n) = >>=-eq-ok (or_raise (lookup i s.intents) (key_error i)) _ r3 in
      let (op, r5, rebuilt_) = >>=-eq-ok (operation_of host alt e.time s.costs n o) _ r4 in
      let (more, r6, _) = >>=-eq-ok (judged host e s n o (Native.checked alt op)) _ r5 in
      let explained =
        operation_of-Explained host alt e.time s i n o op (or_raise-eq-ok _ _ at_n)
          (or_raise-eq-ok _ _ at_o) rebuilt_ in
      follows e s r6
        (with_rest-Backed (with_checked-Backed h i (Native.checked alt op) explained) _ s.withdrawn
          s.exposures s.allegations)
        (known_names e s)

  pub apply_reconciled-Follows : apply_reconciled e s ≡ ok s' → Follows host e s s'
  unfolding apply_reconciled
  apply_reconciled-Follows r =
      let (shaped, r1) = raise_if-eq-ok _ _ _ r in
      let (i, r2, known) = >>=-eq-ok (bound _ s.checked _) _ r1 in
      let (b, r3, at_b) = >>=-eq-ok (or_raise (lookup i s.checked) (key_error i)) _ r2 in
      follows e s r3
        (with_services-Backed h _
          (serve-checked s.checked s.services i b (or_raise-eq-ok _ _ at_b) h.services_checked))
        (known_names e s)
