-- ===== src/Effects.antt =====
-- Code that changes state and may throw: a C++ call returns a value or raises an exception, and what
-- it changed before the exception stays changed.
pub mod Logged
use gaudere_agent.Prelude.{List, [], ◌∷◌}
use gaudere_agent.Text.{Text}

pub data Exception : Type 0 where
  -- std::exception with its what(), and anything else that is thrown
  standard : Text → Exception
  non_standard : Exception

pub data Result {ℓ} (A : Type ℓ) : Type ℓ where
  ok : A → Result A
  raised : Exception → Result A

abbrev pub M : Type 0 → Type 0 → Type 0
M S A = S → Result A × S

module _ {S A : Type 0} where
  abbrev pub pure : A → M S A
  pure a s = (ok a, s)

  abbrev pub continue {ℓ} : {B : Type ℓ} → Result A × S → (A → S → Result B × S) → Result B × S
  continue (ok a, s) f = f a s
  continue (raised e, s) f = (raised e, s)

  abbrev pub recover : Result A × S → (Exception → M S A) → Result A × S
  recover (ok a, s) h = (ok a, s)
  recover (raised e, s) h = h e s

  -- try { m } catch (…) { h }
  unfoldable pub catch : M S A → (Exception → M S A) → M S A
  catch m h s = recover (m s) h

module _ {S A B : Type 0} where
  infixl 10 ◌>>=◌ ◌>>◌
  unfoldable pub ◌>>=◌ : M S A → (A → M S B) → M S B
  ◌>>=◌ m f s = continue (m s) f

  abbrev pub ◌>>◌ : M S A → M S B → M S B
  m >> n = m >>= λ _. n
