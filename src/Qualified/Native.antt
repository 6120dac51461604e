-- ===== src/Qualified/Native.antt =====
-- qualified/native.py: the check of an operation of the registered tool, the operation that a source
-- records, and the companion packages (ALT's kernel, jsonschema), which are parameters.
pub mod Checked
pub mod Reconstruct
use observable_agent_workflo.Prelude.{
  ℕ, String, ◌==◌, Bool, true, false, not, ◌&&◌, Option, none, some, List, [], ◌∷◌, cat, first,
  if◌then◌else◌,
}
use observable_agent_workflo.Result.{Result, ok, err, value_error, raise_if, or_raise, ◌>>=◌, ◌>>◌}
use observable_agent_workflo.Json.{Host, Value, Fields, obj, digest_json}
use observable_agent_workflo.Checkers.Base.{distinct, same_set}
use observable_agent_workflo.Qualified.Wire.{loads, sha}
use observable_agent_workflo.Qualified.Model.{Source, Operation}
use observable_agent_workflo.Qualified.Model.Decode.{decode_operation}
use observable_agent_workflo.Qualified.Lines.{splitlines, split_lf, ascending}

-- ALT's validated models, as far as the program reads them. An envelope is a value that the
-- companion reads.
pub record Primitive : Type 0 where
  pub implementation : String
  pub inputs : List String
  pub output : String

pub record Formation : Type 0 where
  pub cutoff : ℕ
  pub scope : String
  pub sources : List Value
  pub library : List Primitive
  pub cost_id : String
  pub cost_unit : String
  pub cost : String

pub record Step : Type 0 where
  pub primitive : String
  pub arguments : List Fields

pub record Trace : Type 0 where
  pub episode : String
  pub input_digest : String
  pub steps : List Step
  pub checked_artifact : String
  pub dependencies : List String
  pub time : ℕ
  pub source_version : String
  pub split : String
  pub outcome : String
  pub complete : Bool
  pub check_results : List String
  pub costs : List String
  pub guards : List String
  pub unresolved : List String
  pub secret_taint : Bool

pub record Check : Type 0 where
  pub input_digest : String
  pub time : ℕ

pub record Offer : Type 0 where
  pub valid_from : ℕ
  pub valid_until : ℕ
  pub postconditions : List String
  pub preconditions : List String
  pub evidence_basis : String
  pub quality : String
  pub estimand : String
  pub valuation : String
  pub receiver : String
  pub mission : String
  pub context : String
  pub task_family : String
  pub protocol : String
  pub evaluator : String
  pub dependencies : List String
  pub restrictions : List String
  pub inputs : List String
  pub checks : List Value
  pub required_cost_ids : List String

-- `implementation` is IMPLEMENTATION, the digest of the installed text of `normalize`.
pub record Companion : Type 0 where
  pub implementation : String
  -- `importlib.metadata.version`
  pub version : (distribution : String) → Option String
  -- the rows of `manifest.json` with their file's text
  pub resources : List (String × (String × String))
  -- `model_validate` of `Formation`, `Candidate`, `Offer`, and of what an envelope's `read` returns
  pub formation : Fields → Result Formation
  pub candidate : Fields → Result Fields
  pub offer : Fields → Result Offer
  pub trace : Value → Result Trace
  pub check : Value → Result Check
  -- `alt_foundry_kernel.reuse`: `wire.digest`, `formation.reconstruct` and `qualification.qualify`
  pub digest : String → String
  pub reconstruct : Formation → Fields → Result (Unit {0})
  pub qualify : Formation → Fields → Offer → (now : ℕ) → Result (Unit {0})
  -- `Draft202012Validator(schema).validate(value)`
  pub validate : (schema : Value) → Fields → Result (Unit {0})

-- `checked`
abbrev pub output_lines : (input output : String) → List String
output_lines input output =
    if output == "" then if input == "" then [] else "" ∷ [] else split_lf output

unfoldable pub checked : Companion → Operation → Bool
checked alt op =
    let lines = output_lines op.input op.output in
    op.implementation == alt.implementation
    && op.complete
    && op.outcome == "success"
    && distinct lines
    && same_set lines (splitlines op.input)
    && ascending lines

-- `runtime`, without the module that it returns
unfoldable pub runtime : Companion → (distribution expected : String) → Result (Unit {0})
runtime alt distribution expected = elim (alt.version distribution) [
  | none ↦ err (
      value_error (
        cat "optional_dependency_required: install pinned "
          (cat distribution (cat " " (cat expected "; see alt-interoperability.md")))))
  | some observed ↦
      raise_if (not (observed == expected)) (value_error "unsupported companion version")
]

abbrev pub alt_runtime : Companion → Result (Unit {0})
alt_runtime alt = runtime alt "alt-foundry-kernel" "0.5.0"

abbrev is_file : String → String × (String × String) → Bool
is_file name row = row.0 == name

unfoldable pub pinned : Host → Companion → String → Result Value
pinned host alt name = do
  (file, (digest, raw)) ←
      or_raise (first (is_file name) alt.resources) (value_error "unknown pinned resource")
  raise_if (not (host.sha256_hex raw == digest)) (value_error "companion file hash mismatch")
  or_raise (host.json_loads raw) (value_error "invalid JSON")

-- `Source.read`
abbrev the_object : Value → Result Fields
the_object (obj f) = ok f
the_object _ = err (value_error "source object required")

unfoldable pub read : Host → Source → Result Fields
read host s = do
  raise_if (not (sha host s.raw == s.sha256)) (value_error "source digest mismatch")
  loads host s.raw >>= the_object

unfoldable pub operation : Host → Source → Result Operation
operation host s = do
  raw ← read host s
  digest ← digest_json host (obj raw)
  raise_if (not (digest == s.producer_digest)) (value_error "producer digest mismatch")
  decode_operation host raw
