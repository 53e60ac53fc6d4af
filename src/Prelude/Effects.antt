-- ===== src/Prelude/Effects.antt =====
-- Calls that return, throw or are undefined.
use mathlib.Core.Option.{Option, none, some}

-- What a call comes to: it returns, it throws, or it does what C++ leaves undefined, such as using an array out
-- of range or a pointer to nothing.
pub data Effect {ℓ} (A : Type ℓ) : Type ℓ where
  returns : A → Effect A
  throws undefined : Effect A

infixl 5 ◌>>=◌
abbrev pub ◌>>=◌ {ℓ κ} : {A : Type ℓ} {B : Type κ} → Effect A → (A → Effect B) → Effect B
returns a >>= f = f a
throws >>= f = throws
undefined >>= f = undefined

-- An exception of `IndexPolicy::method`.
abbrev pub or_throw {ℓ} : {A : Type ℓ} → Option A → Effect A
or_throw none = throws
or_throw (some a) = returns a
