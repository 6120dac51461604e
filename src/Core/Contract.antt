-- ===== src/Core/Contract.antt =====
-- core/models.py: `WorkflowContract`.
use observable_agent_workflo.Prelude.{
  String, ◌==◌, Option, none, some, List, [], ◌∷◌, map, prefix, if◌then◌else◌,
}
use observable_agent_workflo.Prelude.Int.{pos}
use observable_agent_workflo.Result.{
  Result, ok, err, Error, value_error, type_error, or_raise, ◌>>=◌,
}
use observable_agent_workflo.Json.{
  Host, Value, Items, Fields, str, obj, arr, int, nil, cons, end, field, strs, dict, get, put, keys,
  as_strs, py_str, canonical_json, opt_str,
}
use observable_agent_workflo.Core.Record.{MemoryRecord, schema_version, content_digest, tagged_id}
use observable_agent_workflo.Core.Receipt.{CheckerResult, PromotionReceipt, int_fields}

pub record WorkflowContract : Type 0 where
  pub schema_version : String
  pub contract_id : String
  pub name : String
  pub description : String
  pub interface_signature : String
  pub preconditions : List String
  pub steps : List String
  pub postconditions : List String
  pub tools : List String
  pub checkers : List String
  pub replay_spec : Fields
  pub resource_caps : Fields
  pub version : String
  pub source_memory_id : Option String
  pub source_update_id : Option String
  pub created_at : String

abbrev characters : String → List String
characters String.[] = []
characters (String.◌∷◌ c s) = String.◌∷◌ c String.[] ∷ characters s

-- `list(v)` in a field of type `list[str]`: a text gives its characters and a dict its keys.
-- Scalars have no `list` (a TypeError), and pydantic refuses items that are no texts.
unfoldable pub list_of_strs : Value → Result (List String)
list_of_strs (arr xs) = or_raise (as_strs xs) (value_error "Input should be a valid string")
list_of_strs (str s) = ok (characters s)
list_of_strs (obj f) = ok (keys f)
list_of_strs v = err (type_error "object is not iterable")

-- `list(metadata.get(key, []))`
unfoldable pub metadata_strs : String → Fields → Result (List String)
unfolding list_of_strs
metadata_strs key metadata = elim (get key metadata) [ none ↦ ok [] | some v ↦ list_of_strs v ]

-- A key of a dict: lists and dicts have no hash. One that is no text is refused here; the program has
-- pydantic refuse it when the dict goes into its field.
abbrev dict_key : Value → Result String
dict_key (str k) = ok k
dict_key (arr xs) = err (type_error "unhashable type: 'list'")
dict_key (obj f) = err (type_error "unhashable type: 'dict'")
dict_key v = err (value_error "Input should be a valid string")

abbrev wrong_length : Error
wrong_length = value_error "dictionary update sequence element has the wrong length; 2 is required"

-- an element that `dict` takes a key and a value from: two items, two characters, or a dict's two keys
abbrev dict_pair : Value → Result (String × Value)
dict_pair (arr (cons k (cons v nil))) = dict_key k >>= λ key. ok (key, v)
dict_pair (arr xs) = err wrong_length
dict_pair (str (String.◌∷◌ c (String.◌∷◌ d String.[]))) =
    ok (String.◌∷◌ c String.[], str (String.◌∷◌ d String.[]))
dict_pair (str s) = err wrong_length
dict_pair (obj (field k v (field l w end))) = ok (k, str l)
dict_pair (obj f) = err wrong_length
dict_pair v = err (type_error "cannot convert dictionary update sequence element to a sequence")

abbrev dict_pairs : Items → Fields → Result Fields
dict_pairs nil f = ok f
dict_pairs (cons x xs) f = dict_pair x >>= λ p. dict_pairs xs (put p.0 p.1 f)

-- `dict(v)`: of a dict, of a list of pairs, or of the empty text
unfoldable pub dict_of : Value → Result Fields
dict_of (obj f) = ok f
dict_of (arr xs) = dict_pairs xs end
dict_of (str s) = if s == "" then ok end else err wrong_length
dict_of v = err (type_error "object is not iterable")

-- `dict(metadata.get("resource_caps", default))`
unfoldable pub metadata_caps : Fields → Fields → Result Fields
unfolding dict_of
metadata_caps default metadata = elim (get "resource_caps" metadata) [
  | none ↦ ok default
  | some v ↦ dict_of v
]

abbrev pub default_caps : Fields
default_caps = dict (("max_steps", int (pos 32)) ∷ [])

abbrev str_all : Host → Items → List String
str_all host nil = []
str_all host (cons v xs) = py_str host v ∷ str_all host xs

-- the metadata's steps if they are a list that is not empty, and the claim otherwise
unfoldable pub contract_steps : Host → MemoryRecord → List String
contract_steps host candidate = elim (get "steps" candidate.metadata) [
  | some (arr (cons v xs)) ↦ str_all host (cons v xs)
  | _ ↦ candidate.claim ∷ []
]

abbrev or_default : String → String → String
or_default default s = if s == "" then default else s

-- `WorkflowContract.from_candidate`, at its time
unfoldable pub from_candidate :
    Host → (created_at : String) → MemoryRecord → PromotionReceipt → Result WorkflowContract
from_candidate host created_at candidate receipt = do
  contract_id ← tagged_id host "wfc_" (
      dict (
        ("candidate_id", str candidate.memory_id)
        ∷ ("candidate_update_id", str candidate.update_id)
        ∷ ("claim", str candidate.claim)
        ∷ ("source_event_ids", strs candidate.source_event_ids)
        ∷ ("receipt_id", str receipt.receipt_id)
        ∷ ("receipt_digest", str receipt.receipt_digest)
        ∷ []))
  preconditions ← metadata_strs "preconditions" candidate.metadata
  postconditions ← metadata_strs "postconditions" candidate.metadata
  tools ← metadata_strs "tools" candidate.metadata
  digest ← content_digest host candidate
  given ← metadata_caps default_caps candidate.metadata
  caps ← int_fields host given
  ok (record {
    schema_version = schema_version;
    contract_id = contract_id;
    name = or_default "certified-workflow" (prefix 96 candidate.claim);
    description = "Promoted from verified memory candidate.";
    interface_signature = elim (get "interface_signature" candidate.metadata) [
      | none ↦ "default"
      | some v ↦ py_str host v
    ];
    preconditions = preconditions;
    steps = contract_steps host candidate;
    postconditions = postconditions;
    tools = tools;
    checkers = map (λ (c : CheckerResult). c.checker_name) receipt.checks;
    replay_spec = dict (
        ("source_event_ids", strs candidate.source_event_ids)
        ∷ ("candidate_update_id", str candidate.update_id)
        ∷ ("candidate_digest", str digest)
        ∷ ("receipt_id", str receipt.receipt_id)
        ∷ ("receipt_digest", str receipt.receipt_digest)
        ∷ []);
    resource_caps = caps;
    version = "0.1.0";
    source_memory_id = some candidate.memory_id;
    source_update_id = some candidate.update_id;
    created_at = created_at;
  })

-- `canonical_json(contract)`, the text that a stored contract is compared by
unfoldable pub contract_json : WorkflowContract → Result String
contract_json c = canonical_json (
    obj (
      dict (
        ("schema_version", str c.schema_version)
        ∷ ("contract_id", str c.contract_id)
        ∷ ("name", str c.name)
        ∷ ("description", str c.description)
        ∷ ("interface_signature", str c.interface_signature)
        ∷ ("preconditions", strs c.preconditions)
        ∷ ("steps", strs c.steps)
        ∷ ("postconditions", strs c.postconditions)
        ∷ ("tools", strs c.tools)
        ∷ ("checkers", strs c.checkers)
        ∷ ("replay_spec", obj c.replay_spec)
        ∷ ("resource_caps", obj c.resource_caps)
        ∷ ("version", str c.version)
        ∷ ("source_memory_id", opt_str c.source_memory_id)
        ∷ ("source_update_id", opt_str c.source_update_id)
        ∷ ("created_at", str c.created_at)
        ∷ [])))
