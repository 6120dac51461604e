-- ===== src/Kernel/Tools.antt =====
-- `invoke_tool` of runtime/kernel.py with the default adapter, adapters/local_tools.py. What a tool
-- does is its own: the host registers it as a function.
use observable_agent_workflo.Prelude.{
  String, ◌==◌, Bool, true, false, not, ◌&&◌, Option, none, some, List, [], ◌∷◌, cat, if◌then◌else◌,
}
use observable_agent_workflo.Result.{Result, ok, err, fail_closed_error, raise_if, ◌>>=◌, ◌>>◌}
use observable_agent_workflo.Json.{
  Host, Fields, str, obj, boolean, dict, end, put, opt_str, value_eq, digest_json,
}
use observable_agent_workflo.Core.Receipt.{ActionIntent, PromotionReceipt}
use observable_agent_workflo.Core.Contract.{WorkflowContract}
use observable_agent_workflo.Storage.{Db, get_contract, get_receipt}
use observable_agent_workflo.Checkers.Base.{get_or_none}
use observable_agent_workflo.Gate.{ensure_allowed}

pub record ToolCall : Type 0 where
  pub name : String
  pub arguments : Fields
  pub external_effect : Bool

pub record ToolResult : Type 0 where
  pub call_name : String
  pub is_ok : Bool
  pub output : Fields
  pub error : String

-- how a registered function ends: with its output, or with an exception's type and text
pub data Outcome : Type 0 where
  returned : Fields → Outcome
  raised : (type_name text : String) → Outcome

-- `LocalToolAdapter`: the registered functions and the token of its gate
pub record Adapter : Type 0 where
  pub tools : List (String × (Fields → Fields → Outcome))
  pub gate_token : String

-- `register`: a dict keeps one function for each name
unfoldable pub register :
    String
    → (Fields → Fields → Outcome)
    → List (String × (Fields → Fields → Outcome))
    → List (String × (Fields → Fields → Outcome))
register name fn [] = (name, fn) ∷ []
register name fn ((other, g) ∷ tools) =
    if other == name then (other, fn) ∷ tools else (other, g) ∷ register name fn tools

unfoldable pub find_tool :
    String → List (String × (Fields → Fields → Outcome)) → Option (Fields → Fields → Outcome)
find_tool name [] = none
find_tool name ((other, g) ∷ tools) = if other == name then some g else find_tool name tools

unfoldable pub authorized_context : Adapter → Fields → Fields
authorized_context adapter context = put "_oawm_gate_token" (str adapter.gate_token) context

abbrev failed_call : String → String → ToolResult
failed_call name error = record { call_name = name; is_ok = false; output = end; error = error }

-- an exception of the function comes back as data
unfoldable pub run_tool :
    ToolCall → Option (Fields → Fields → Outcome) → (context : Fields) → ToolResult
run_tool call none context = failed_call call.name (cat "unknown tool: " call.name)
run_tool call (some fn) context = elim (fn call.arguments context) [
  | returned output ↦ record { call_name = call.name; is_ok = true; output = output; error = "" }
  | raised type_name text ↦ failed_call call.name (cat type_name (cat ": " text))
]

-- `LocalToolAdapter.invoke`
unfoldable pub invoke : Adapter → ToolCall → (context : Fields) → Result ToolResult
invoke adapter call context =
    if call.external_effect
      && not (value_eq (get_or_none "_oawm_gate_token" context) (str adapter.gate_token))
    then err (fail_closed_error "external-effect tool call blocked by ActionGate")
    else ok (run_tool call (find_tool call.name adapter.tools) context)

-- `[self.storage.get_receipt(id) for id in ids]`
unfoldable pub get_receipts : List String → Db → Result (List PromotionReceipt)
get_receipts [] db = ok []
get_receipts (id ∷ ids) db = do r ← get_receipt id db; rs ← get_receipts ids db; ok (r ∷ rs)

abbrev contract_matches : WorkflowContract → Option String → Bool
contract_matches contract none = true
contract_matches contract (some id) =
    value_eq (get_or_none "receipt_id" contract.replay_spec) (str id)

-- an intent that requires a contract and a receipt requires the receipt of that contract
unfoldable pub check_contract : ActionIntent → Db → Result (Unit {0})
check_contract intent db = elim intent.required_contract_id [
  | none ↦ ok tt
  | some id ↦ do
    contract ← get_contract id db
    raise_if (not (contract_matches contract intent.required_receipt_id))
        (fail_closed_error "required contract is not bound to required receipt")
]

-- `model_dump(mode="json")`
unfoldable pub dump_intent : ActionIntent → Fields
dump_intent i = dict (
    ("schema_version", str i.schema_version)
    ∷ ("action_id", str i.action_id)
    ∷ ("tool_name", str i.tool_name)
    ∷ ("effect_class", str i.effect_class)
    ∷ ("args_digest", str i.args_digest)
    ∷ ("required_contract_id", opt_str i.required_contract_id)
    ∷ ("required_receipt_id", opt_str i.required_receipt_id)
    ∷ ("resource_caps", obj i.resource_caps)
    ∷ [])

-- what the kernel checks before the adapter sees the call
unfoldable pub admit_call :
    Host
    → (strict : Bool) → ToolCall
    → ActionIntent
    → (receipt_ids : List String) → Db
    → Result (Unit {0})
admit_call host strict call intent receipt_ids db = do
  raise_if (not (call.name == intent.tool_name))
      (fail_closed_error "tool call name does not match action intent")
  digest ← digest_json host (obj call.arguments)
  raise_if (not (digest == intent.args_digest))
      (fail_closed_error "tool call arguments do not match action intent digest")
  check_contract intent db
  receipts ← get_receipts receipt_ids db
  ensure_allowed host strict call.external_effect receipts (some intent) ""

-- `invoke_tool`: it reads the store and does not write to it
unfoldable pub invoke_tool :
    Host
    → (strict : Bool) → Adapter
    → ToolCall
    → ActionIntent
    → (receipt_ids : List String) → Db
    → Result ToolResult
invoke_tool host strict adapter call intent receipt_ids db = do
  admit_call host strict call intent receipt_ids db
  invoke adapter call (
      authorized_context adapter (
        dict (
          ("action_gate_open", boolean call.external_effect)
          ∷ ("action_intent", obj (dump_intent intent))
          ∷ [])))
