-- ===== src/Core/Receipt.antt =====
-- core/models.py: `CheckerResult`, `EvidenceManifest`, `ActionIntent` and `PromotionReceipt`.
use Prim.Native.String.{◌++◌}
use observable_agent_workflo.Prelude.{
  String, Bool, true, false, Option, List, [], ◌∷◌, all, if◌then◌else◌,
}
use observable_agent_workflo.Result.{Result, ok, value_error, or_raise, ◌>>=◌}
use observable_agent_workflo.Json.{
  Host, Value, Items, Fields, str, obj, arr, nil, cons, boolean, strs, dict, opt_str, digest_json,
  int, end, field,
}
use observable_agent_workflo.Core.Record.{MemoryRecord, schema_version, content_digest, tagged_id}

pub record CheckerResult : Type 0 where
  pub schema_version : String
  pub checker_name : String
  pub passed : Bool
  pub reason : String
  pub evidence_refs : List String
  pub metrics : Fields

-- a result that a checker returns, with the defaults for the rest
abbrev pub accept : String → CheckerResult
accept name = record {
  schema_version = schema_version;
  checker_name = name;
  passed = true;
  reason = "";
  evidence_refs = [];
  metrics = Fields.end;
}

abbrev pub reject_with : String → String → Fields → CheckerResult
reject_with name reason metrics = record {
  schema_version = schema_version;
  checker_name = name;
  passed = false;
  reason = reason;
  evidence_refs = [];
  metrics = metrics;
}

abbrev pub reject : String → String → CheckerResult
reject name reason = reject_with name reason Fields.end

unfoldable pub dump_check : CheckerResult → Value
dump_check c = obj (
    dict (
      ("schema_version", str c.schema_version)
      ∷ ("checker_name", str c.checker_name)
      ∷ ("passed", boolean c.passed)
      ∷ ("reason", str c.reason)
      ∷ ("evidence_refs", strs c.evidence_refs)
      ∷ ("metrics", obj c.metrics)
      ∷ []))

abbrev dump_checks : List CheckerResult → Items
dump_checks [] = nil
dump_checks (c ∷ cs) = cons (dump_check c) (dump_checks cs)

pub record EvidenceManifest : Type 0 where
  pub schema_version : String
  pub manifest_id : String
  pub candidate_id : String
  pub candidate_update_id : String
  pub input_event_ids : List String
  pub input_event_digests : Fields
  pub candidate_digest : String
  pub replay_digest : String
  pub declared_tools : List String
  pub resource_caps : Fields
  pub created_at : String

-- the dicts behind `replay_digest` and `manifest_id`
unfoldable pub replay_seed :
    MemoryRecord
    → (input_event_ids : List String) (input_event_digests : Fields)
    → (candidate_digest : String) (declared_tools : List String) (resource_caps : Fields) → Fields
replay_seed candidate input_event_ids input_event_digests candidate_digest declared_tools caps =
    dict (
      ("candidate_id", str candidate.memory_id)
      ∷ ("candidate_update_id", str candidate.update_id)
      ∷ ("claim", str candidate.claim)
      ∷ ("input_event_ids", strs input_event_ids)
      ∷ ("input_event_digests", obj input_event_digests)
      ∷ ("candidate_digest", str candidate_digest)
      ∷ ("declared_tools", strs declared_tools)
      ∷ ("resource_caps", obj caps)
      ∷ [])

unfoldable pub manifest_seed :
    MemoryRecord
    → (input_event_ids : List String) (input_event_digests : Fields)
    → (candidate_digest replay_digest : String) → Fields
manifest_seed candidate input_event_ids input_event_digests candidate_digest replay_digest = dict (
    ("candidate_id", str candidate.memory_id)
    ∷ ("candidate_update_id", str candidate.update_id)
    ∷ ("input_event_ids", strs input_event_ids)
    ∷ ("input_event_digests", obj input_event_digests)
    ∷ ("candidate_digest", str candidate_digest)
    ∷ ("replay_digest", str replay_digest)
    ∷ [])

-- a `dict[str, int]` field: every value goes through pydantic's coercion to an integer
abbrev pub int_fields : Host → Fields → Result Fields
int_fields host end = ok end
int_fields host (field k v f) = do
  n ← or_raise (host.as_int v) (value_error "Input should be a valid integer")
  g ← int_fields host f
  ok (field k (int n) g)

-- `EvidenceManifest.create`, at its time. The caps are hashed as they are given, and coerced when the
-- manifest is built.
unfoldable pub create_manifest :
    Host
    → (created_at : String) (candidate : MemoryRecord) (input_event_ids : List String)
    → (input_event_digests : Fields) (declared_tools : List String) (resource_caps : Fields)
    → Result EvidenceManifest
create_manifest host created_at candidate ids digests tools caps = do
  candidate_digest ← content_digest host candidate
  replay_digest ←
      digest_json host (obj (replay_seed candidate ids digests candidate_digest tools caps))
  manifest_id ←
      tagged_id host "evm_" (manifest_seed candidate ids digests candidate_digest replay_digest)
  int_caps ← int_fields host caps
  ok (record {
    schema_version = schema_version;
    manifest_id = manifest_id;
    candidate_id = candidate.memory_id;
    candidate_update_id = candidate.update_id;
    input_event_ids = ids;
    input_event_digests = digests;
    candidate_digest = candidate_digest;
    replay_digest = replay_digest;
    declared_tools = tools;
    resource_caps = int_caps;
    created_at = created_at;
  })

pub record ActionIntent : Type 0 where
  pub schema_version : String
  pub action_id : String
  pub tool_name : String
  pub effect_class : String
  pub args_digest : String
  pub required_contract_id : Option String
  pub required_receipt_id : Option String
  pub resource_caps : Fields

unfoldable pub action_seed :
    (tool_name effect_class args_digest : String) (resource_caps : Fields) → Fields
action_seed tool_name effect_class args_digest resource_caps = dict (
    ("tool_name", str tool_name)
    ∷ ("effect_class", str effect_class)
    ∷ ("args_digest", str args_digest)
    ∷ ("resource_caps", obj resource_caps)
    ∷ [])

-- `ActionIntent.create`, with the caps given
unfoldable pub create_intent :
    Host
    → (tool_name effect_class : String) (arguments : Fields)
    → (required_contract_id required_receipt_id : Option String) (caps : Fields)
    → Result ActionIntent
create_intent host tool_name effect_class arguments contract_id receipt_id caps = do
  args_digest ← digest_json host (obj arguments)
  action_id ← tagged_id host "act_" (action_seed tool_name effect_class args_digest caps)
  ok (record {
    schema_version = schema_version;
    action_id = action_id;
    tool_name = tool_name;
    effect_class = effect_class;
    args_digest = args_digest;
    required_contract_id = contract_id;
    required_receipt_id = receipt_id;
    resource_caps = caps;
  })

pub data Profile : Type 0 where
  strict warn : Profile

abbrev pub profile_value : Profile → String
profile_value strict = "strict"
profile_value warn = "warn"

pub data Verdict : Type 0 where
  passed failed : Verdict

abbrev pub verdict_value : Verdict → String
verdict_value passed = "passed"
verdict_value failed = "failed"

-- `receipt.result == "passed"`
abbrev pub is_passed : Verdict → Bool
is_passed passed = true
is_passed failed = false

pub record PromotionReceipt : Type 0 where
  pub schema_version : String
  pub receipt_id : String
  pub verification_id : String
  pub receipt_digest : String
  pub candidate_id : String
  pub candidate_update_id : String
  pub bound_action_id : Option String
  pub profile : Profile
  pub checks : List CheckerResult
  pub result : Verdict
  pub evidence_refs : List String
  pub created_at : String

unfoldable pub compute_receipt_digest :
    Host
    → (candidate_id candidate_update_id : String) (bound_action_id : Option String) → Profile
    → List CheckerResult
    → Verdict
    → (evidence_refs : List String) → Result String
compute_receipt_digest host candidate_id update_id action_id profile checks result refs =
    digest_json host (
      obj (
        dict (
          ("candidate_id", str candidate_id)
          ∷ ("candidate_update_id", str update_id)
          ∷ ("bound_action_id", opt_str action_id)
          ∷ ("profile", str (profile_value profile))
          ∷ ("checks", arr (dump_checks checks))
          ∷ ("result", str (verdict_value result))
          ∷ ("evidence_refs", strs refs)
          ∷ [])))

abbrev pub all_passed : List CheckerResult → Bool
all_passed = all (λ (c : CheckerResult). c.passed)

-- `PromotionReceipt.create`, at its time and nonce
unfoldable pub create_receipt :
    Host
    → (created_at nonce : String) (candidate : MemoryRecord) → Profile
    → List CheckerResult
    → (evidence_refs : List String) (bound_action_id : Option String) → Result PromotionReceipt
create_receipt host created_at nonce candidate profile checks refs action_id = do
  let result = if all_passed checks then passed else failed
  receipt_digest ←
      compute_receipt_digest host candidate.memory_id candidate.update_id action_id profile checks
        result refs
  let verification_id = "ver_" ++ nonce
  receipt_id ← tagged_id host "rcp_" (
      dict (("verification_id", str verification_id) ∷ ("receipt_digest", str receipt_digest) ∷ []))
  ok (record {
    schema_version = schema_version;
    receipt_id = receipt_id;
    verification_id = verification_id;
    receipt_digest = receipt_digest;
    candidate_id = candidate.memory_id;
    candidate_update_id = candidate.update_id;
    bound_action_id = action_id;
    profile = profile;
    checks = checks;
    result = result;
    evidence_refs = refs;
    created_at = created_at;
  })
