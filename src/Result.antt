-- ===== src/Result.antt =====
-- The exceptions that the program raises (core/errors.py, ValueError, KeyError, IndexError,
-- TypeError,
-- SQLite's IntegrityError and jsonschema's ValidationError), and the results of functions that may raise.
use observable_agent_workflo.Prelude.{
  String, Bool, true, false, Option, none, some, ◌≡◌, refl, ◌⊎◌, inl, inr, arith,
}

-- each carries its message; `key_error` carries the missing key
pub data Error : Type 0 where
  transition_error fail_closed_error not_found_error value_error : String → Error
  integrity_error key_error index_error type_error schema_error : String → Error

pub data Result {ℓ} (A : Type ℓ) : Type ℓ where
  err : Error → Result A
  ok : A → Result A

infixl 5 ◌>>=◌ ◌>>◌
-- the rest of a body runs only if nothing was raised
abbrev pub ◌>>=◌ {ℓ κ} : {A : Type ℓ} {C : Type κ} → Result A → (A → Result C) → Result C
err e >>= rest = err e
ok a >>= rest = rest a

abbrev pub ◌>>◌ {ℓ} : {C : Type ℓ} → Result (Unit {0}) → Result C → Result C
check >> rest = check >>= λ _. rest

-- `if test: raise e`
abbrev pub raise_if : Bool → Error → Result (Unit {0})
raise_if true e = err e
raise_if false e = ok tt

abbrev pub or_raise {ℓ} : {A : Type ℓ} → Option A → Error → Result A
or_raise none e = err e
or_raise (some a) e = ok a

abbrev pub is_ok {ℓ} : {A : Type ℓ} → Result A → Bool
is_ok (ok a) = true
is_ok (err e) = false

pub >>=-eq-ok {ℓ κ} :
    {A : Type ℓ} {C : Type κ} (first : Result A) (rest : A → Result C) {c : C}
    → (first >>= rest) ≡ ok c
    → (a : A) × (rest a ≡ ok c) × (first ≡ ok a)
>>=-eq-ok (err e) rest h = ground arith
>>=-eq-ok (ok a) rest h = (a, h, refl)

pub Result-cases {ℓ} :
    {A : Type ℓ} (r : Result A) → ((a : A) × (r ≡ ok a)) ⊎ ((e : Error) × (r ≡ err e))
Result-cases (ok a) = inl (a, refl)
Result-cases (err e) = inr (e, refl)

-- a test that did not raise, and a value that was there
pub raise_if-eq-ok {ℓ} :
    {A : Type ℓ} (b : Bool) (e : Error) (rest : Result A) {a : A}
    → (raise_if b e >> rest) ≡ ok a
    → (b ≡ false) × (rest ≡ ok a)
raise_if-eq-ok true e rest h = absurd (ground arith)
raise_if-eq-ok false e rest h = (refl, h)

pub or_raise-eq-ok {ℓ} :
    {A : Type ℓ} (found : Option A) (e : Error) {a : A} → or_raise found e ≡ ok a → found ≡ some a
or_raise-eq-ok none e h = absurd (ground arith)
or_raise-eq-ok (some a) e h = ground arith

pub ok_injective {ℓ} : {A : Type ℓ} {a b : A} → ok a ≡ ok b → a ≡ b
ok_injective h = ground arith
