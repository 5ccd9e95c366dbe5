-- ===== src/Sidecar/Rules.antt =====
-- What a transaction keeps, from what its statements give.
use gaudere_agent.Prelude.{◌≡◌}
use gaudere_agent.Text.{Text}
use gaudere_agent.Sidecar.{
  Fault, healthy, before_commit, after_commit, Query, answer, throws, ◌>>=◌, transaction,
}

-- P holds of the answer, if there is one.
pub data Gives {A : Type 0} (P : A → Type 0) : Query A → Type 0 where
  gives : {a : A} → P a → Gives P (answer a)
  fails : {what : Text} → Gives P (throws what)

pub Gives-any : {A : Type 0} (m : Query A) → Gives (λ _. Unit {0}) m
Gives-any (answer a) = gives tt
Gives-any (throws what) = fails

pub Gives-bind :
    {A B : Type 0} {P : A → Type 0} (Q : B → Type 0) (m : Query A) (f : A → Query B)
    → Gives P m
    → ((a : A) → P a → Gives Q (f a))
    → Gives Q (m >>= f)
Gives-bind Q (answer a) f (gives p) h = h a p
Gives-bind Q (throws what) f fails h = fails

-- The same, of statements whose only answer is known.
pub Gives-then :
    {A B : Type 0} (u : A) (Q : B → Type 0) (m : Query A) (f : A → Query B)
    → Gives (λ a. a ≡ u) m
    → Gives Q (f u)
    → Gives Q (m >>= f)
Gives-then u Q (answer a) f (gives p) h = rw p h
Gives-then u Q (throws what) f fails h = fails

pub transaction-keeps :
    {T W : Type 0} (P : T → Type 0) (unavailable : Text → W) (t : T) (fault : Fault)
    (body : Query (T × W))
    → P t
    → Gives (λ done. P done.0) body
    → P (transaction unavailable t fault body).0
unfolding transaction
transaction-keeps P u t (before_commit what) body p h = p
transaction-keeps P u t healthy (answer done) p (gives h) = h
transaction-keeps P u t healthy (throws what) p h = p
transaction-keeps P u t (after_commit what) (answer done) p (gives h) = h
transaction-keeps P u t (after_commit what) (throws what') p h = p
