-- ===== src/Base/Action.antt =====
-- A service method: state and exceptions. What was written before a throw stays written.
use Prim.Native.String.{String}
use mathlib.Core.Bool.{Bool}
use mathlib.Core.Option.{Option, none, some}
use mathlib.Core.Path.{◌≡◌, refl}
use mathlib.Core.Logic.{◌⊎◌, inl, inr}
use edu_crm_backend.Base.Tests.{if◌then◌else◌}

-- The HTTP exceptions of NestJS that the services throw, with their messages; any other exception
-- is answered as an internal error.
pub data Error : Type 0 where
  internal not_found bad_request conflict unauthorized forbidden : String → Error

pub data Result (A : Type 0) : Type 0 where
  ok : A → Result A
  err : Error → Result A

pub Result-cases :
    {A : Type 0} (r : Result A) → ((e : Error) × (r ≡ err e)) ⊎ ((a : A) × (r ≡ ok a))
Result-cases (ok a) = inr (a, refl)
Result-cases (err e) = inl (e, refl)

pub ok_injective : {A : Type 0} (a b : A) → ok a ≡ ok b → a ≡ b
ok_injective a b h = cc

abbrev pub Action : Type 0 → Type 0 → Type 0
Action S A = S → Result A × S

module _ {S A : Type 0} where
  abbrev pub pure : A → Action S A
  pure a s = (ok a, s)

  abbrev pub throw : Error → Action S A
  throw e s = (err e, s)

  -- A call of a library that may throw.
  abbrev pub of_result : Result A → Action S A
  of_result r s = (r, s)

  abbrev pub gets : (S → A) → Action S A
  gets f s = (ok (f s), s)

  -- `if (!x) throw e`
  abbrev pub or_throw : Option A → Error → Action S A
  or_throw none e = throw e
  or_throw (some a) e = pure a

infixl 5 ◌>>=◌ ◌>>◌
abbrev pub ◌>>=◌ : {S A B : Type 0} → Action S A → (A → Action S B) → Action S B
◌>>=◌ m f s = let (r, s') = m s in elim r [ ok a ↦ f a s' | err e ↦ throw e s' ]

abbrev pub ◌>>◌ : {S A B : Type 0} → Action S A → Action S B → Action S B
m >> k = m >>= λ _. k

-- `if (test) throw e`
abbrev pub throw_if : {S : Type 0} → Bool → Error → Action S (Unit {0})
throw_if c e s = (if c then err e else ok tt, s)

abbrev pub modify : {S : Type 0} → (S → S) → Action S (Unit {0})
modify f s = (ok tt, f s)

-- `try { m } catch (e) { … }`
abbrev pub recover : {S A : Type 0} → Action S A → (Error → Action S A) → Action S A
recover m k s = let (r, s') = m s in elim r [ ok a ↦ (ok a, s') | err e ↦ k e s' ]
