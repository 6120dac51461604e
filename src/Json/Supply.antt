-- ===== src/Json/Supply.antt =====
-- What the host's libraries supply to the program, none of it under src/: `hashlib`'s SHA-256 of a
-- text in UTF-8, the times and identifiers that successive calls of `now_utc` and `uuid.uuid4`
-- return, `repr` of a container, pydantic's coercion of a value to an `int` field, SQLite's
-- full-text index and LIKE, and for qualified memory the parser of `json`, `fractions.Fraction` of a
-- text and `str.casefold`.
use Prim.Native.Char.{Char}
use observable_agent_workflo.Prelude.{ℕ, String, Bool, Option, List}
use observable_agent_workflo.Prelude.Int.{ℤ}
use observable_agent_workflo.Json.Data.{Value, Float}

-- a row of `memory_fts`
pub record FtsRow : Type 0 where
  pub memory_id : String
  pub lane : String
  pub claim : String
  pub body : String

pub record Host : Type 0 where
  pub sha256_hex : String → String
  pub now : ℕ → String
  pub uuid : ℕ → String
  pub repr : Value → String
  pub as_int : Value → Option ℤ
  -- the rows that MATCH a query with their bm25 scores, in the order of the scores; `none` stands
  -- for `sqlite3.OperationalError`
  pub fts_match : (query : String) → List FtsRow → Option (List (FtsRow × Float))
  -- `[\w\-]` of `re` with Unicode classes, of one character
  pub is_word : Char → Bool
  pub like : (text pattern : String) → Bool
  -- The document of a text, an object with its pairs as they are written and a constant such as NaN
  -- as a float; `none` where `json.loads` raises ValueError or RecursionError.
  pub json_loads : String → Option Value
  -- the numerator and the denominator of `Fraction(text)`; `none` where it raises
  pub fraction : String → Option (ℤ × ℕ)
  pub casefold : String → String
