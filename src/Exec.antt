-- ===== src/Exec.antt =====
-- Methods that change an object and may raise: what was written before a raise stays written, so
-- the state comes back beside the error too.
use observable_agent_workflo.Prelude.{Bool, ◌≡◌, refl, arith, if◌then◌else◌}
use observable_agent_workflo.Result.{Error, Result, ok, err}

abbrev pub Exec {ℓ} : Type ℓ → Type ℓ → Type ℓ
Exec S A = S → Result A × S

module _ {ℓ} {S A : Type ℓ} where
  abbrev pub pure : A → Exec S A
  pure a s = (ok a, s)

  abbrev pub raise : Error → Exec S A
  raise e s = (err e, s)

  -- a computation that may raise and changes nothing
  abbrev pub lift : Result A → Exec S A
  lift r s = (r, s)

  abbrev pub gets : (S → A) → Exec S A
  gets f s = (ok (f s), s)

  abbrev pub reads : (S → Result A) → Exec S A
  reads f s = (f s, s)

module _ {ℓ} {S A B : Type ℓ} where
  abbrev pub continue : Result A → (A → Exec S B) → Exec S B
  continue (ok a) f s = f a s
  continue (err e) f s = (err e, s)

  infixl 10 ◌>>=◌ ◌>>◌
  abbrev pub ◌>>=◌ : Exec S A → (A → Exec S B) → Exec S B
  ◌>>=◌ m f s = let (r, s') = m s in continue r f s'

  abbrev pub ◌>>◌ : Exec S A → Exec S B → Exec S B
  m >> n = m >>= λ _. n

-- `if test: raise e`
abbrev pub guard : {S : Type 0} → Bool → Error → Exec S (Unit {0})
guard b e s = (if b then err e else ok tt, s)

-- A property of states that an action keeps, whether it returns or raises.
pub record Keeps {S A : Type 0} (P : S → Type 0) (m : Exec S A) : Type 0 where
  pub at : (s : S) → P s → P (m s).1

module _ {S A : Type 0} {P : S → Type 0} where
  pub Keeps-pure : (a : A) → Keeps P (pure a)
  Keeps-pure a = record { at = λ s h. h }

  pub Keeps-raise : (e : Error) → Keeps P (raise {A = A} e)
  Keeps-raise e = record { at = λ s h. h }

  pub Keeps-gets : (view : S → A) → Keeps P (gets view)
  Keeps-gets view = record { at = λ s h. h }

  pub Keeps-reads : (view : S → Result A) → Keeps P (reads view)
  Keeps-reads view = record { at = λ s h. h }

  pub Keeps-lift : (computed : Result A) → Keeps P (lift computed)
  Keeps-lift computed = record { at = λ s h. h }

  pub Keeps-if :
      (test : Bool) (yes_ no_ : Exec S A)
      → Keeps P yes_
      → Keeps P no_
      → Keeps P (if test then yes_ else no_)
  Keeps-if Bool.false yes_ no_ left right = right
  Keeps-if Bool.true yes_ no_ left right = left

module _ {S : Type 0} {P : S → Type 0} where
  pub Keeps-guard : (test : Bool) (e : Error) → Keeps P (guard test e)
  Keeps-guard test e = record { at = λ s h. h }

module _ {S A B : Type 0} {P : S → Type 0} where
  continue-Keeps :
      (r : Result A) (rest : A → Exec S B) (s : S)
      → ((a : A) → Keeps P (rest a))
      → P s
      → P (continue r rest s).1
  continue-Keeps (err e) rest s after held = held
  continue-Keeps (ok a) rest s after held = (after a).at s held

  pub Keeps-bind :
      (first : Exec S A) (rest : A → Exec S B)
      → Keeps P first
      → ((a : A) → Keeps P (rest a))
      → Keeps P (first >>= rest)
  Keeps-bind first rest before after = record {
    at = λ start held. continue-Keeps (first start).0 rest _ after (before.at start held);
  }

-- The rest of a block may use what is known of every result of its first part.
pub Keeps-known :
    {S A B : Type 0} {P : S → Type 0} (Q : A → Type 0) (first : Exec S A) (rest : A → Exec S B)
    → ((s : S) (a : A) → (first s).0 ≡ ok a → Q a)
    → Keeps P first
    → ((a : A) → Q a → Keeps P (rest a))
    → Keeps P (first >>= rest)
Keeps-known {S} {A} {B} {P} Q first rest known before after = record {
  at = λ start held.
      known_at (first start).0 (first start).1 (λ a e. known start a e) (before.at start held);
}
  where
    known_at : (r : Result A) (s : S) → ((a : A) → r ≡ ok a → Q a) → P s → P (continue r rest s).1
    known_at (err e) s q held = held
    known_at (ok a) s q held = (after a (q a refl)).at s held

-- A bind whose rest is `pure` ends in the state of its first part.
pub continue-pure_state :
    {S A B : Type 0} (r : Result A) (b : B) (s : S) → (continue r (λ _. pure b) s).1 ≡ s
continue-pure_state (ok a) b s = refl
continue-pure_state (err e) b s = refl

pub ruleset keeps_rules = (
  Keeps-pure, Keeps-raise, Keeps-lift, Keeps-gets, Keeps-reads, Keeps-if, Keeps-guard, Keeps-bind,
)

module _ {S A B : Type 0} where
  continue-eq-ok :
      (r : Result A) (f : A → Exec S B) (s : S) {b : B} {s' : S}
      → continue r f s ≡ (ok b, s')
      → (a : A) × (r ≡ ok a) × (f a s ≡ (ok b, s'))
  continue-eq-ok (ok a) f s h = (a, refl, h)
  continue-eq-ok (err e) f s h = absurd (ground arith)

  -- Inversion of a block that returned: its first part did, and the rest from there.
  pub >>=-eq-ok :
      (m : Exec S A) (f : A → Exec S B) (s : S) {b : B} {s' : S}
      → (m >>= f) s ≡ (ok b, s')
      → (a : A) × (m s ≡ (ok a, (m s).1)) × (f a (m s).1 ≡ (ok b, s'))
  >>=-eq-ok m f s h = let (a, e, k) = continue-eq-ok (m s).0 f (m s).1 h in (a, ground arith, k)
