-- ===== src/Examples/Companion.antt =====
-- The companion packages as the receiver sees them, for its qualification, and the whole site.
use observable_agent_workflo.Prelude.{String, ◌==◌, true, false, none, some, [], ◌∷◌, if◌then◌else◌}
use observable_agent_workflo.Result.{Result, ok, err, value_error}
use observable_agent_workflo.Json.{Value, Fields, str, dict, get}
use observable_agent_workflo.Qualified.Native.{Companion, Formation, Offer, Trace}
use observable_agent_workflo.Qualified.Runtime.{Site}
use observable_agent_workflo.Examples.Hosted
use observable_agent_workflo.Examples.Hosted.{start, value_of}
use observable_agent_workflo.Examples.Receiver.{implementation, host, promoted, validation, id_at}

-- ALT's models of the qualification
abbrev formation : Formation
formation = record {
  cutoff = 5;
  scope = "m";
  sources = str (id_at 0) ∷ str (id_at 1) ∷ [];
  library =
      record { implementation = implementation; inputs = "string" ∷ []; output = "string" } ∷ [];
  cost_id = "c0";
  cost_unit = "work-unit";
  cost = "1";
}

abbrev trace : Value → Result Trace
trace (str id) = ok (record {
  episode = id;
  input_digest = Hosted.hash "b\na";
  steps =
      record {
        primitive = "normalize-lines-v1";
        arguments = dict (("kind", str "string") ∷ ("value", str "b\na") ∷ []) ∷ [];
      }
      ∷ [];
  checked_artifact = implementation;
  dependencies = implementation ∷ [];
  time = if id == id_at 0 then 1 else 2;
  source_version = "oawm_normalize_v1";
  split = "training";
  outcome = "success";
  complete = true;
  check_results = "pass" ∷ [];
  costs = (if id == id_at 0 then "c1" else "c2") ∷ [];
  guards = "bounded-text" ∷ [];
  unresolved = [];
  secret_taint = false;
})
trace _ = err (value_error "envelope")

abbrev offer : Offer
offer = record {
  valid_from = 10;
  valid_until = 100;
  postconditions = "sorted-unique-lines" ∷ [];
  preconditions = "bounded-text" ∷ [];
  evidence_basis = "source-replay";
  quality = "exact";
  estimand = "normalized-text";
  valuation = "synthetic-work-v1";
  receiver = "recv";
  mission = "m";
  context = "c";
  task_family = "lines";
  protocol = "normalize-protocol-v1";
  evaluator = "normalize-checker-v1";
  dependencies = implementation ∷ [];
  restrictions = "local-only" ∷ [];
  inputs = Hosted.hash "b\na" ∷ [];
  checks = str "check" ∷ [];
  required_cost_ids = "c0" ∷ "c1" ∷ "c2" ∷ "c3" ∷ [];
}

abbrev resource : String → String × (String × String)
resource name = (name, (Hosted.hash "{}", "{}"))

-- a candidate without an artifact is refused
abbrev read_candidate : Fields → Result Fields
read_candidate f = elim (get "artifact_digest" f) [
  | none ↦ err (value_error "artifact_digest")
  | some v ↦ ok f
]

abbrev pub alt : Companion
alt = record {
  implementation = implementation;
  version = λ distribution. some "0.5.0";
  resources =
      resource "alt-formation.schema.json"
      ∷ resource "alt-candidate.schema.json"
      ∷ resource "alt-offer.schema.json"
      ∷ [];
  formation = λ f. ok formation;
  candidate = read_candidate;
  offer = λ f. ok offer;
  trace = trace;
  check = λ v. ok (record { input_digest = Hosted.hash "b\na"; time = 9 });
  digest = Hosted.hash;
  reconstruct = λ request c. ok tt;
  qualify = λ request c o now. ok tt;
  validate = λ schema value. ok tt;
}

abbrev pub site : Site
site = record { host = host; validation = validation; alt = alt; db = promoted.1.db }
