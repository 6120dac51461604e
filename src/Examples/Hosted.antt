-- ===== src/Examples/Hosted.antt =====
-- A host whose functions compute.
use Prim.Native.Char.{code}
use Prim.Native.String.{len}
use observable_agent_workflo.Prelude.{
  ℕ, zero, suc, ◌-◌, String, ◌≡◌, refl, true, Option, none, some, List, [], ◌∷◌, ◌+◌, ◌*◌, ◌%◌, cat,
  All, Elem, inl, inr, arith,
}
use observable_agent_workflo.Prelude.Int.{ℤ, pos}
use observable_agent_workflo.Result.{Result, ok, err, is_ok}
use observable_agent_workflo.Json.{Host, FtsRow, Value, Float, null, int, decimal, dumps}
use observable_agent_workflo.Storage.{World, empty}
use observable_agent_workflo.Storage.Search.Lanes.{MatchesRows}

hash_from : ℕ → String → ℕ
hash_from h String.[] = h
hash_from h (String.◌∷◌ c s) = hash_from ((h * 31 + code c) % 2305843009213693951) s

zeros : ℕ → String
zeros zero = ""
zeros (suc n) = cat "0" (zeros n)

-- 64 digits, as SHA-256 has them
unfoldable pub hash : String → String
unfolding hash_from zeros
hash s = let digits = decimal (hash_from 7 s) in cat digits (zeros (64 - len digits))

abbrev as_int : Value → Option ℤ
as_int (int n) = some n
as_int _ = none

abbrev no_score : Float
no_score = record { finite = true; num = pos 0; den = 1; repr = "0.0" }

-- every row matches
abbrev all_rows : List FtsRow → List (FtsRow × Float)
all_rows [] = []
all_rows (f ∷ fs) = (f, no_score) ∷ all_rows fs

abbrev pub host : Host
host = record {
  sha256_hex = hash;
  now = λ n. cat "t" (decimal n);
  uuid = λ n. cat "u" (decimal n);
  repr = dumps;
  as_int = as_int;
  fts_match = λ query fs. some (all_rows fs);
  is_word = λ c. true;
  like = λ text pattern_. true;
  json_loads = λ raw. some null;
  fraction = λ text. some (pos 1, 1);
  casefold = λ text. text;
}

abbrev pub start : World
start = record { db = empty; clock = 0; fresh = 0 }

all_rows-Elem :
    (gs fs : List FtsRow)
    → ((f : FtsRow) → Elem f fs → Elem f gs)
    → All (λ (row : FtsRow × Float). Elem row.0 gs) (all_rows fs)
all_rows-Elem gs [] inside = tt
all_rows-Elem gs (f ∷ fs) inside =
    (inside f (inl refl), all_rows-Elem gs fs (λ g m. inside g (inr m)))

pub host-MatchesRows : MatchesRows host
host-MatchesRows query fs rows h =
    let same : all_rows fs ≡ rows = ground arith in rw (← same) (all_rows-Elem fs fs (λ f m. m))

-- the value of a result that is there
abbrev pub value_of : {A : Type 0} → A → Result A → A
value_of d (ok a) = a
value_of d (err e) = d

pub value_of_lem :
    {A B : Type 0} (d : A) (m : Result A × B) → is_ok m.0 ≡ true → m ≡ (ok (value_of d m.0), m.1)
value_of_lem d (ok a, w) h = refl
value_of_lem d (err e, w) h = ground arith

pub result_is : {A : Type 0} (d : A) (m : Result A) → is_ok m ≡ true → m ≡ ok (value_of d m)
result_is d (ok a) h = refl
result_is d (err e) h = ground arith
