-- ===== src/Checkers/Default.antt =====
-- `create_default_checkers` of adapters/jsonschema_checker.py.
use observable_agent_workflo.Prelude.{List, [], ◌∷◌}
use observable_agent_workflo.Json.{Host}
use observable_agent_workflo.Checkers.Base.{Checker, Validation}
use observable_agent_workflo.Checkers.Schema.{candidate_schema}
use observable_agent_workflo.Checkers.InputSet.{input_set}
use observable_agent_workflo.Checkers.Manifest.{candidate_digest, evidence_manifest}
use observable_agent_workflo.Checkers.Tools.{declared_tools}
use observable_agent_workflo.Checkers.Boundary.{deterministic_boundary}
use observable_agent_workflo.Checkers.Caps.{resource_caps}

unfoldable pub create_default_checkers : Host → Validation → List Checker
create_default_checkers host validation =
    candidate_schema validation
    ∷ input_set host
    ∷ evidence_manifest host validation
    ∷ candidate_digest host
    ∷ declared_tools host
    ∷ deterministic_boundary
    ∷ resource_caps 128
    ∷ []
