-- ===== src/Qualified/Journal/State.antt =====
-- qualified/store.py: what `replay` collects. A dict whose keys an event's handler has checked is a
-- record of the values at those keys.
use observable_agent_workflo.Prelude.{ℕ, String, Bool, false, ◌&&◌, List, [], all, str_mem}
use observable_agent_workflo.Prelude.Assoc.{has}
use observable_agent_workflo.Result.{Result, ok, err, type_error}
use observable_agent_workflo.Json.{Value, Fields, str, arr, obj, keys}

pub record Block : Type 0 where
  pub artifact : Value
  pub context : String
  pub input : String
  pub reason : String
  pub time : ℕ
  pub event : String

pub record Withdrawal : Type 0 where
  pub dependency : String
  pub reason : String
  pub time : ℕ
  pub event : String

pub record Intent : Type 0 where
  pub qualification : String
  pub input : Value
  pub action : Value
  pub cost : String
  pub snapshot : Value

pub record Outcome : Type 0 where
  pub output : Value
  pub status : String

pub record Exposure : Type 0 where
  pub qualification : String
  pub input : Value

-- A qualification or a cost is kept as the data of its event.
pub record State : Type 0 where
  pub qualifications : List (String × Fields)
  pub costs : List (String × Fields)
  pub blocks : List Block
  pub withdrawn : List Withdrawal
  pub intents : List (String × Intent)
  pub attempts : List (String × String)
  pub outcomes : List (String × Outcome)
  pub checked : List (String × Bool)
  pub services : List String
  pub exposures : List Exposure
  pub allegations : List Block

abbrev pub start : State
start = record {
  qualifications = [];
  costs = [];
  blocks = [];
  withdrawn = [];
  intents = [];
  attempts = [];
  outcomes = [];
  checked = [];
  services = [];
  exposures = [];
  allegations = [];
}

-- `set(data) == {...}`
abbrev pub has_keys : List String → Fields → Bool
has_keys names f = all (λ k. str_mem k names) (keys f) && all (λ n. str_mem n (keys f)) names

-- the key of a dict with text keys that a value is, if it is one; a list or a dict has no hash
abbrev pub key_in {ℓ} : {A : Type ℓ} → Value → List (String × A) → Result Bool
key_in (str k) d = ok (has k d)
key_in (arr xs) d = err (type_error "unhashable type: 'list'")
key_in (obj f) d = err (type_error "unhashable type: 'dict'")
key_in _ d = ok false

abbrev pub text_of : Value → String
text_of (str s) = s
text_of _ = ""
