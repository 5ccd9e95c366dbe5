-- ===== src/Effects/Logged.antt =====
-- A world with a log of the events that the theorems speak of, and a program logic for it. The log is
-- a ghost: the code does not read it.
use gaudere_agent.Prelude.{Bool, true, false, List, ◌∷◌, if◌then◌else◌}
use gaudere_agent.Effects.{Exception, Result, ok, raised, M, pure, continue, recover, catch, ◌>>=◌}

pub record World (W E : Type 0) : Type 0 where
  pub ext : W
  pub log : List E

module _ {W E A : Type 0} where
  abbrev pub enter : Result A × W → List E → Result A × World W E
  enter (r, w) l = (r, record { ext = w; log = l })

  -- A call that no event records.
  unfoldable pub quiet : M W A → M (World W E) A
  quiet m s = enter (m s.ext) s.log

  -- A call whose value says what the log records of it; an exception records nothing.
  abbrev pub enter_value : (A → List E → List E) → Result A × W → List E → Result A × World W E
  enter_value e (ok a, w) l = (ok a, record { ext = w; log = e a l })
  enter_value e (raised x, w) l = (raised x, record { ext = w; log = l })

  unfoldable pub logged : (A → List E → List E) → M W A → M (World W E) A
  logged e m s = enter_value e (m s.ext) s.log

module _ {W E : Type 0} where
  unfoldable pub note : E → M (World W E) (Unit {0})
  note e s = (ok tt, record s { log = e ∷ s.log })

-- X holds after an exception, Q of the value after a return.
abbrev pub Post : {S A : Type 0} → (S → Type 0) → (A → S → Type 0) → Result A × S → Type 0
Post X Q (ok a, s) = Q a s
Post X Q (raised e, s) = X s

pub record Triple {S A : Type 0} (X P : S → Type 0) (m : M S A) (Q : A → S → Type 0) : Type 0 where
  pub at : (s : S) → P s → Post X Q (m s)

Post-weaken :
    {S A : Type 0} (X : S → Type 0) {Q R : A → S → Type 0} (out : Result A × S)
    → ((a : A) (s : S) → Q a s → R a s)
    → Post X Q out
    → Post X R out
Post-weaken X (ok a, s) h p = h a s p
Post-weaken X (raised e, s) h p = p

module _ {S : Type 0} {X : S → Type 0} where
  pub Triple-pure :
      {A : Type 0} {P : S → Type 0} {Q : A → S → Type 0} (a : A)
      → ((s : S) → P s → Q a s)
      → Triple X P (pure a) Q
  Triple-pure a h = record { at = h }

  Post-bind :
      {A B : Type 0} {Q : A → S → Type 0} {R : B → S → Type 0} (f : A → M S B)
      → ((a : A) → Triple X (Q a) (f a) R)
      → (out : Result A × S) → Post X Q out
      → Post X R (continue out f)
  Post-bind f h (ok a, s) p = (h a).at s p
  Post-bind f h (raised e, s) p = p

  pub Triple-bind :
      {A B : Type 0} {P : S → Type 0} {Q : A → S → Type 0} {R : B → S → Type 0} (m : M S A)
      (f : A → M S B)
      → Triple X P m Q
      → ((a : A) → Triple X (Q a) (f a) R)
      → Triple X P (m >>= f) R
  unfolding ◌>>=◌
  Triple-bind m f k h = record { at = λ s p. Post-bind f h (m s) (k.at s p) }

  Post-catch :
      {A : Type 0} {Q : A → S → Type 0} {Y : S → Type 0} (h : Exception → M S A)
      → ((e : Exception) → Triple X Y (h e) Q)
      → (out : Result A × S) → Post Y Q out
      → Post X Q (recover out h)
  Post-catch h k (ok a, s) p = p
  Post-catch h k (raised e, s) p = (k e).at s p

  -- The handler starts from what holds when an exception leaves the block.
  pub Triple-catch :
      {A : Type 0} {P Y : S → Type 0} {Q : A → S → Type 0} (m : M S A) (h : Exception → M S A)
      → Triple Y P m Q
      → ((e : Exception) → Triple X Y (h e) Q)
      → Triple X P (catch m h) Q
  unfolding catch
  Triple-catch m h k l = record { at = λ s p. Post-catch h l (m s) (k.at s p) }

  pub Triple-if :
      {A : Type 0} {P : S → Type 0} {Q : A → S → Type 0} (b : Bool) (m n : M S A)
      → Triple X P m Q
      → Triple X P n Q
      → Triple X P (if b then m else n) Q
  Triple-if true m n k l = k
  Triple-if false m n k l = l

  -- A weaker start and a stronger end.
  pub Triple-weaken :
      {A : Type 0} {P P' : S → Type 0} {Q Q' : A → S → Type 0} (m : M S A)
      → ((s : S) → P' s → P s)
      → ((a : A) (s : S) → Q a s → Q' a s)
      → Triple X P m Q
      → Triple X P' m Q'
  Triple-weaken m p q k = record { at = λ s h. Post-weaken X (m s) q (k.at s (p s h)) }

Post-raise :
    {S A : Type 0} (X Y : S → Type 0) (Q : A → S → Type 0) (out : Result A × S)
    → ((s : S) → X s → Y s)
    → Post X Q out
    → Post Y Q out
Post-raise X Y Q (ok a, s) h p = p
Post-raise X Y Q (raised e, s) h p = h s p

-- A weaker promise after an exception.
pub Triple-raise :
    {S A : Type 0} {X Y P : S → Type 0} {Q : A → S → Type 0} (m : M S A)
    → ((s : S) → X s → Y s)
    → Triple X P m Q
    → Triple Y P m Q
Triple-raise {X} {Y} {Q} m h k = record { at = λ s p. Post-raise X Y Q (m s) h (k.at s p) }
