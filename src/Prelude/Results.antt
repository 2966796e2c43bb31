-- ===== src/Prelude/Results.antt =====
-- Exceptions as values, and calls that change a state and may throw.
use Prim.Native.String.{String}
use mathlib.Core.Bool.{Bool, true, false}
use mathlib.Core.Option.{Option, none, some}

-- The HTTP exceptions of the framework with their messages; `missing_record` is what the database
-- client throws where a record that it must find is not there, `mail_failed` what the mailer throws.
pub data Error : Type 0 where
  bad_request unauthorized forbidden not_found conflict : String → Error
  missing_record mail_failed : Error

pub data Result (A : Type 0) : Type 0 where
  ok : A → Result A
  err : Error → Result A

-- What was written before a throw stays written.
abbrev pub Action : Type 0 → Type 0 → Type 0
Action S A = S → Result A × S

module _ {S A : Type 0} where
  abbrev pub pure : A → Action S A
  pure a s = (ok a, s)

  abbrev pub throw : Error → Action S A
  throw x s = (err x, s)

  abbrev pub gets : (S → A) → Action S A
  gets f s = (ok (f s), s)

  abbrev pub or_throw : Option A → Error → Action S A
  or_throw none x = throw x
  or_throw (some a) x = pure a

  -- A transaction that throws is rolled back.
  abbrev pub settle : S → Result A × S → Result A × S
  settle s (ok a, s') = (ok a, s')
  settle s (err x, s') = (err x, s)

  abbrev pub transaction : Action S A → Action S A
  transaction m s = settle s (m s)

infixl 5 ◌>>=◌ ◌>>◌
abbrev pub ◌>>=◌ : {S A B : Type 0} → Action S A → (A → Action S B) → Action S B
◌>>=◌ m f s = let (r, s') = m s in elim r [ ok a ↦ f a s' | err x ↦ (err x, s') ]

abbrev pub ◌>>◌ : {S A B : Type 0} → Action S A → Action S B → Action S B
m >> k = m >>= λ _. k

abbrev pub throw_if : {S : Type 0} → Bool → Error → Action S (Unit {0})
throw_if true x s = (err x, s)
throw_if false x s = (ok tt, s)

abbrev pub modify : {S : Type 0} → (S → S) → Action S (Unit {0})
modify f s = (ok tt, f s)
