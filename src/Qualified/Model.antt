-- ===== src/Qualified/Model.antt =====
-- qualified/wire.py: the closed models of qualified memory, with what their annotations and
-- validators require. `version` fields and fields that are always None are written only by the
-- dumps. Times are ticks, never negative. `count` of a text is the number of its characters.
pub mod Dump
pub mod Decode
pub mod Roundtrip
use Prim.Native.Char.{Char, code}
use Prim.Native.String.{count}
use observable_agent_workflo.Prelude.{
  ℕ, zero, suc, ◌+◌, ◌^◌, String, ◌==◌, Bool, true, false, not, ◌&&◌, ◌||◌, Option, none, some,
  List, [], ◌∷◌, all, any, length, ltb, leb, nat_eq, str_mem, if◌then◌else◌, cat,
}
use observable_agent_workflo.Prelude.Int.{ℤ, pos, negsuc}
use observable_agent_workflo.Json.{Host, Fields, decimal}
use observable_agent_workflo.Checkers.Base.{distinct, all_strs}

abbrev between : ℕ → ℕ → Char → Bool
between low high c = leb low (code c) && leb (code c) high

-- `[0-9a-f]` and `[A-Za-z0-9_.:-]`
abbrev is_hex : Char → Bool
is_hex c = between 48 57 c || between 97 102 c

abbrev is_id_char : Char → Bool
is_id_char c =
    between 65 90 c
    || between 97 122 c
    || between 48 58 c
    || nat_eq (code c) 95
    || nat_eq (code c) 46
    || nat_eq (code c) 45

abbrev all_chars : (Char → Bool) → String → Bool
all_chars p String.[] = true
all_chars p (String.◌∷◌ c s) = p c && all_chars p s

-- `Id`, `Hash` and `Tick`
unfoldable pub is_id : String → Bool
is_id s = leb 1 (count s) && leb (count s) 120 && all_chars is_id_char s

unfoldable pub is_hash : String → Bool
is_hash s = nat_eq (count s) 64 && all_chars is_hex s

abbrev pub max_tick : ℕ
max_tick = 2_147_483_648

abbrev pub is_tick : ℕ → Bool
is_tick n = leb n max_tick

pub record Cost : Type 0 where
  pub id : String
  pub stage : String
  pub unit : String
  pub amount : String

abbrev pub stages : List String
stages = "formation" ∷ "verification" ∷ "transfer" ∷ "refresh" ∷ "maintenance" ∷ "use" ∷ []

-- `str(number)`
abbrev fraction_text : ℕ → ℕ → String
fraction_text n d = if nat_eq d 1 then decimal n else cat (decimal n) (cat "/" (decimal d))

-- a number has at most 128 bits if it is below 2 ** 128
abbrev pub bits_limit : ℕ
bits_limit = 2 ^ 128

abbrev is_canonical : String → Option (ℤ × ℕ) → Bool
is_canonical value none = false
is_canonical value (some (negsuc n, d)) = false
is_canonical value (some (pos n, d)) =
    fraction_text n d == value && ltb n bits_limit && ltb d bits_limit

-- `Cost.exact`
unfoldable pub exact : Host → String → Bool
exact host value = leb (count value) 81 && is_canonical value (host.fraction value)

unfoldable pub valid_cost : Host → Cost → Bool
valid_cost host c =
    is_id c.id && str_mem c.stage stages && c.unit == "work-unit" && exact host c.amount

pub record Context : Type 0 where
  pub workspace : String
  pub receiver : String
  pub mission : String
  pub task_family : String
  pub context : String
  pub inputs : List String
  pub protocol : String
  pub evaluator : String
  pub tool_version : String
  pub clock : String
  pub dependencies : List String
  pub checks : List String
  pub restrictions : List String
  pub expose : Bool

abbrev pub in_bounds {ℓ} : {A : Type ℓ} → (low high : ℕ) → List A → Bool
in_bounds low high xs = leb low (length xs) && leb (length xs) high

-- `Context.distinct`
unfoldable pub is_domain : List String → Bool
is_domain values = distinct values && not (any (λ v. ltb 4096 (count v)) values)

unfoldable pub valid_context : Context → Bool
valid_context c =
    all is_id (
      c.workspace ∷ c.receiver ∷ c.mission ∷ c.task_family ∷ c.context ∷ c.protocol ∷ c.evaluator
      ∷ c.tool_version ∷ c.clock ∷ [])
    && in_bounds 1 8 c.inputs
    && in_bounds 1 8 c.dependencies
    && all is_hash c.dependencies
    && in_bounds 1 8 c.checks
    && all is_id c.checks
    && in_bounds 0 8 c.restrictions
    && all is_id c.restrictions
    && all is_domain (c.inputs ∷ c.dependencies ∷ c.checks ∷ c.restrictions ∷ [])

pub record Source : Type 0 where
  pub event_id : String
  pub producer_digest : String
  pub raw : String
  pub sha256 : String

unfoldable pub valid_source : Source → Bool
valid_source s = is_id s.event_id && is_hash s.producer_digest && is_hash s.sha256

pub record Operation : Type 0 where
  pub implementation : String
  pub input : String
  pub output : String
  pub receiver : String
  pub context_digest : String
  pub time : ℕ
  pub split : String
  pub complete : Bool
  pub outcome : String
  pub cost : Cost

unfoldable pub valid_operation : Host → Operation → Bool
valid_operation host op =
    is_hash op.implementation
    && leb (count op.input) 4096
    && leb (count op.output) 4096
    && is_id op.receiver
    && is_hash op.context_digest
    && is_tick op.time
    && str_mem op.split ("training" ∷ "evaluation" ∷ [])
    && str_mem op.outcome ("success" ∷ "failure" ∷ "unknown" ∷ [])
    && valid_cost host op.cost

pub record Qualification : Type 0 where
  pub memory_id : String
  pub update_id : String
  pub workflow_digest : String
  pub context : Context
  pub valid_from : ℕ
  pub valid_until : ℕ
  pub cutoff : ℕ
  pub training : List Source
  pub evaluation : List Source
  pub formation : Fields
  pub candidate : Fields
  pub offer : Fields
  pub mapping : Fields
  pub costs : List Cost

unfoldable pub valid_qualification : Host → Qualification → Bool
valid_qualification host q =
    is_id q.memory_id
    && is_id q.update_id
    && is_hash q.workflow_digest
    && valid_context q.context
    && all is_tick (q.valid_from ∷ q.valid_until ∷ q.cutoff ∷ [])
    && in_bounds 2 8 q.training
    && all valid_source q.training
    && in_bounds 1 8 q.evaluation
    && all valid_source q.evaluation
    && all_strs q.mapping
    && in_bounds 1 32 q.costs
    && all (valid_cost host) q.costs

pub data Kind : Type 0 where
  admit exposure intent attempt outcome checked reconciled : Kind
  invalidate allegation withdraw cost correction : Kind

pub record Entry : Type 0 where
  pub id : String
  pub previous : String
  pub time : ℕ
  pub kind : Kind
  pub data_ : Fields

unfoldable pub valid_entry : Entry → Bool
valid_entry e = is_id e.id && is_hash e.previous && is_tick e.time
