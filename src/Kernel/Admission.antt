-- ===== src/Kernel/Admission.antt =====
-- Which tool calls the kernel lets through to the adapter.
use observable_agent_workflo.Prelude.{
  String, ◌≡◌, ◌↔◌, refl, ◌∙◌, ap, true, some, List, [], ◌∷◌, arith, eq_iff, eq_refl, inl, inr,
}
use observable_agent_workflo.Result.{ok, Result-cases}
use observable_agent_workflo.Json.{Host, Fields, str, obj, boolean, dict, value_eq, digest_json}
use observable_agent_workflo.Json.Laws.{get-put}
use observable_agent_workflo.Core.Receipt.{ActionIntent, PromotionReceipt}
use observable_agent_workflo.Storage.{Db}
use observable_agent_workflo.Gate.{ensure_allowed}
use observable_agent_workflo.Gate.Sound.{Permits, ensure_allowed_iff}
use observable_agent_workflo.Kernel.Tools.{
  ToolCall, ToolResult, Adapter, find_tool, authorized_context, run_tool, invoke, get_receipts,
  check_contract, dump_intent, admit_call, invoke_tool,
}

-- What the kernel asks of a tool call under the strict profile.
pub record Admitted (host : Host) (call : ToolCall) (i : ActionIntent) (ids : List String) (db : Db)
    : Type 0 where
  pub name : call.name ≡ i.tool_name
  pub arguments : digest_json host (obj call.arguments) ≡ ok i.args_digest
  pub contract : check_contract i db ≡ ok tt
  pub receipts : List PromotionReceipt
  pub read : get_receipts ids db ≡ ok receipts
  pub gate : call.external_effect ≡ true → Permits host i receipts

abbrev pub gate_context : ToolCall → ActionIntent → Fields
gate_context call i = dict (
    ("action_gate_open", boolean call.external_effect)
    ∷ ("action_intent", obj (dump_intent i))
    ∷ [])

-- the context that the tool is called with
abbrev pub tool_context : Adapter → ToolCall → ActionIntent → Fields
tool_context adapter call i = authorized_context adapter (gate_context call i)

-- The gate's token, put into the context by the kernel, is the one that the adapter asks for.
authorized_invoke :
    (adapter : Adapter) (call : ToolCall) (context : Fields)
    → invoke adapter call (authorized_context adapter context)
      ≡ ok (run_tool call (find_tool call.name adapter.tools) (authorized_context adapter context))
unfolding invoke authorized_context value_eq
authorized_invoke adapter call context = ground (
  arith,
  get-put "_oawm_gate_token" "_oawm_gate_token" (str adapter.gate_token) context,
  eq_refl adapter.gate_token,
)

admit_call_sound :
    (host : Host) (call : ToolCall) (i : ActionIntent) (ids : List String) (db : Db)
    → admit_call host true call i ids db ≡ ok tt
    → Admitted host call i ids db
unfolding admit_call
admit_call_sound host call i ids db h =
    elim (Result-cases (digest_json host (obj call.arguments))) [
      | inr (e, bad) ↦ absurd (ground arith)
      | inl (digest, hashed) ↦ elim (Result-cases (get_receipts ids db)) [
        | inr (e, bad) ↦ absurd (ground arith)
        | inl (rs, read) ↦
            let same : digest ≡ i.args_digest = ground (arith, eq_iff digest i.args_digest) in
            record {
              name = ground (arith, eq_iff call.name i.tool_name);
              arguments = hashed ∙ ap ok same;
              contract = ground arith;
              receipts = rs;
              read = read;
              gate = λ external.
                  let (j, is_i, permits) =
                    (ensure_allowed_iff host rs (some i) "").0 (ground arith) in
                  rw (the_intent is_i) permits;
            }
      ]
    ]
  where
    the_intent : {j : ActionIntent} → some i ≡ some j → i ≡ j
    the_intent e = cc

admit_call_complete :
    (host : Host) (call : ToolCall) (i : ActionIntent) (ids : List String) (db : Db)
    → Admitted host call i ids db
    → admit_call host true call i ids db ≡ ok tt
unfolding admit_call ensure_allowed
admit_call_complete host call i ids db a = ground (
  arith,
  a.arguments,
  a.contract,
  a.read,
  a.name,
  eq_refl i.tool_name,
  eq_refl i.args_digest,
  open_gate,
)
  where
    open_gate :
        call.external_effect ≡ true → ensure_allowed host true true a.receipts (some i) "" ≡ ok tt
    open_gate e = (ensure_allowed_iff host a.receipts (some i) "").1 (i, refl, a.gate e)

-- Under the strict profile `invoke_tool` reaches the tool exactly when the call has the name and the
-- arguments that its intent binds, the contract and the receipts that are required are stored, and,
-- for a call with an external effect, the gate permits the intent. It then returns what the
-- registered function gives in the kernel's context; the adapter does not block a call that the
-- kernel has let through.
pub invoke_tool_iff :
    (host : Host) (adapter : Adapter) (call : ToolCall) (i : ActionIntent) (ids : List String)
    (db : Db) (result : ToolResult)
    → (invoke_tool host true adapter call i ids db ≡ ok result) ↔ (
        Admitted host call i ids db
        × (result
            ≡ run_tool call (find_tool call.name adapter.tools) (tool_context adapter call i)))
unfolding invoke_tool
invoke_tool_iff host adapter call i ids db result = (forth, back)
  where
    forth :
        invoke_tool host true adapter call i ids db ≡ ok result
        → Admitted host call i ids db
          × (result
              ≡ run_tool call (find_tool call.name adapter.tools) (tool_context adapter call i))
    forth h = (
      admit_call_sound host call i ids db (ground arith),
      ground (arith, authorized_invoke adapter call (gate_context call i)),
    )

    back :
        Admitted host call i ids db
          × (result
              ≡ run_tool call (find_tool call.name adapter.tools) (tool_context adapter call i))
        → invoke_tool host true adapter call i ids db ≡ ok result
    back (a, e) = ground (
      arith,
      admit_call_complete host call i ids db a,
      authorized_invoke adapter call (gate_context call i),
    )
