-- ===== src/Examples/Receiver.antt =====
-- A receiver whose memory is qualified from two training runs and one evaluation of the registered
-- tool: the operations, the promoted memory, and the qualification.
use observable_agent_workflo.Prelude.{
  ℕ, String, ◌==◌, true, none, some, List, [], ◌∷◌, map, if◌then◌else◌,
}
use observable_agent_workflo.Prelude.Int.{pos}
use observable_agent_workflo.Result.{Result, ok}
use observable_agent_workflo.Json.{
  Host, Value, Fields, str, int, obj, dict, end, dumps, digest_json,
}
use observable_agent_workflo.Core.Record.{MemoryRecord, content_digest}
use observable_agent_workflo.Core.Event.{StoredEvent}
use observable_agent_workflo.Core.Receipt.{
  PromotionReceipt, EvidenceManifest, ActionIntent, create_intent,
}
use observable_agent_workflo.Storage.{World}
use observable_agent_workflo.Checkers.Base.{Validation}
use observable_agent_workflo.Promotion.{verify, promote}
use observable_agent_workflo.Kernel.{observe}
use observable_agent_workflo.Kernel.Propose.{propose_memory}
use observable_agent_workflo.Qualified.Wire.{digest, sha}
use observable_agent_workflo.Qualified.Model.{Context, Cost, Source, Qualification}
use observable_agent_workflo.Qualified.Model.Dump.{dump_context}
use observable_agent_workflo.Qualified.Native.Reconstruct.{expected_mapping}
use observable_agent_workflo.Examples.Hosted
use observable_agent_workflo.Examples.Hosted.{start, value_of}
use observable_agent_workflo.Examples.Session.{blank_record, blank_receipt, pipeline}

abbrev pub implementation : String
implementation = Hosted.hash "normalize"

abbrev pub context : Context
context = record {
  workspace = "w";
  receiver = "recv";
  mission = "m";
  task_family = "lines";
  context = "c";
  inputs = "b\na" ∷ [];
  protocol = "normalize-protocol-v1";
  evaluator = "normalize-checker-v1";
  tool_version = "normalize-lines-v1";
  clock = "host";
  dependencies = implementation ∷ [];
  checks = "normalize-checker-v1" ∷ [];
  restrictions = "local-only" ∷ [];
  expose = true;
}

abbrev operation_data : (time : ℕ) (split context_digest id stage : String) → Fields
operation_data time split context_digest id stage = dict (
    ("implementation", str implementation)
    ∷ ("input", str "b\na")
    ∷ ("output", str "a\nb")
    ∷ ("receiver", str "recv")
    ∷ ("context_digest", str context_digest)
    ∷ ("time", int (pos time))
    ∷ ("split", str split)
    ∷ ("outcome", str "success")
    ∷ ("cost", obj (dict (("id", str id) ∷ ("stage", str stage) ∷ ("amount", str "1") ∷ [])))
    ∷ [])

-- the text that the digest of the context is taken from needs no parser to be hashed
abbrev context_digest : String
context_digest = value_of "" (digest Hosted.host (obj (dump_context context)))

abbrev first_data : Fields
first_data = operation_data 1 "training" context_digest "c1" "verification"

abbrev second_data : Fields
second_data = operation_data 2 "training" context_digest "c2" "verification"

abbrev evaluation_data : Fields
evaluation_data = operation_data 9 "evaluation" context_digest "c3" "transfer"

abbrev raw_of : Fields → String
raw_of f = dumps (obj f)

-- the parser, at the texts of the session
abbrev known_text : String → Value
known_text raw =
    if raw == raw_of first_data
    then obj first_data
    else if raw == raw_of second_data
    then obj second_data
    else if raw == raw_of evaluation_data
    then obj evaluation_data
    else obj end

abbrev pub host : Host
host = record Hosted.host { json_loads = λ raw. some (known_text raw) }

abbrev watch : String → Fields → World → World
watch run f w =
    (observe host "registered_operation" (dict (("raw", str (raw_of f)) ∷ [])) (some run) [] true
      w).1

abbrev watched : World
watched = watch "other" evaluation_data (watch "r1" second_data (watch "r1" first_data start))

abbrev pub proposed : Result MemoryRecord × World
proposed = propose_memory host "r1" "session" none none none watched

abbrev proposal : MemoryRecord
proposal = value_of blank_record proposed.0

abbrev blank_intent : ActionIntent
blank_intent = record {
  schema_version = "1.1";
  action_id = "";
  tool_name = "";
  effect_class = "";
  args_digest = "";
  required_contract_id = none;
  required_receipt_id = none;
  resource_caps = end;
}

abbrev pub intent : ActionIntent
intent = value_of blank_intent (
    create_intent host "normalize-lines-v1" "local-external" (dict (("text", str "b\na") ∷ [])) none
      none (dict (("max_steps", int (pos 3)) ∷ [])))

abbrev pub verified : Result PromotionReceipt × World
verified =
    verify host pipeline proposal.memory_id none
      (record { action_intent = some intent; entries = end }) proposed.1

abbrev pub receipt : PromotionReceipt
receipt = value_of blank_receipt verified.0

abbrev pub promoted : Result MemoryRecord × World
promoted = promote host proposal.memory_id verified.1

abbrev pub memory : MemoryRecord
memory = value_of blank_record promoted.0

-- pydantic's part: the evidence of the session is the manifest that the store holds
abbrev blank_manifest : EvidenceManifest
blank_manifest = record {
  schema_version = "1.1";
  manifest_id = "";
  candidate_id = "";
  candidate_update_id = "";
  input_event_ids = [];
  input_event_digests = end;
  candidate_digest = "";
  replay_digest = "";
  declared_tools = [];
  resource_caps = end;
  created_at = "";
}

abbrev head_or {ℓ} : {A : Type ℓ} → A → List A → A
head_or a [] = a
head_or a (x ∷ xs) = x

abbrev pub validation : Validation
validation = record {
  manifest = λ f. ok (head_or blank_manifest promoted.1.db.evidence_manifests);
  message = λ path rule. rule;
}

abbrev ids_of : List StoredEvent → List String
ids_of = map (λ (e : StoredEvent). e.event_id)

abbrev nth : ℕ → List String → String
nth n [] = ""
nth ℕ.zero (x ∷ xs) = x
nth (ℕ.suc n) (x ∷ xs) = nth n xs

abbrev pub id_at : ℕ → String
id_at n = nth n (ids_of promoted.1.db.events)

abbrev source : (event_id : String) → Fields → Source
source event_id f = record {
  event_id = event_id;
  producer_digest = value_of "" (digest_json host (obj f));
  raw = raw_of f;
  sha256 = sha host (raw_of f);
}

abbrev pub cost : String → String → Cost
cost id stage = record { id = id; stage = stage; unit = "work-unit"; amount = "1" }

abbrev pub training : List Source
training = source (id_at 0) first_data ∷ source (id_at 1) second_data ∷ []

abbrev pub candidate : Fields
candidate = dict (("artifact_digest", str "artifact") ∷ [])

abbrev pub qualification : Qualification
qualification = record {
  memory_id = memory.memory_id;
  update_id = memory.update_id;
  workflow_digest = value_of "" (content_digest host memory);
  context = context;
  valid_from = 10;
  valid_until = 100;
  cutoff = 5;
  training = training;
  evaluation = source (id_at 2) evaluation_data ∷ [];
  formation = dict (("kind", str "formation") ∷ []);
  candidate = candidate;
  offer = dict (("kind", str "offer") ∷ []);
  mapping = expected_mapping training end;
  costs =
      cost "c0" "formation"
      ∷ cost "c1" "verification"
      ∷ cost "c2" "verification"
      ∷ cost "c3" "transfer"
      ∷ [];
}
