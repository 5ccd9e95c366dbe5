-- ===== src/Sidecar.antt =====
-- SQLite sidecars, as the stores use them (the transactions of src/LocalActivityPulseStore.cpp,
-- src/LocalGooseDialogueThreadStore.cpp and src/LocalGooseDialogueResponderStore.cpp). SQLite is not
-- modelled: a table is the list of its rows, a call may fail before its COMMIT, when the transaction is
-- rolled back, or after it, when its rows are already durable.
pub mod Rows
pub mod Rules
use gaudere_agent.Prelude.{Bool, true, false, List, if◌then◌else◌}
use gaudere_agent.Text.{Text}

pub data Fault : Type 0 where
  healthy : Fault
  before_commit : Text → Fault
  after_commit : Text → Fault

-- What statements inside a transaction give: a value, or the what() of a std::runtime_error.
pub data Query (A : Type 0) : Type 0 where
  answer : A → Query A
  throws : Text → Query A

infixl 10 ◌>>=◌ ◌>>◌
abbrev pub ◌>>=◌ : {A B : Type 0} → Query A → (A → Query B) → Query B
answer a >>= f = f a
throws what >>= f = throws what

abbrev pub ◌>>◌ : {B : Type 0} → Query (Unit {0}) → Query B → Query B
m >> n = m >>= λ _. n

-- if (condition) throw std::runtime_error(what)
abbrev pub throw_if : Bool → Text → Query (Unit {0})
throw_if condition what = if condition then throws what else answer tt

module _ {T W : Type 0} (unavailable : Text → W) where
  -- BEGIN IMMEDIATE, the statements, COMMIT; any exception is answered by ROLLBACK and `unavailable`.
  unfoldable pub transaction : T → Fault → Query (T × W) → T × W
  transaction t (before_commit what) body = (t, unavailable what)
  transaction t fault (throws what) = (t, unavailable what)
  transaction t healthy (answer done) = done
  transaction t (after_commit what) (answer (t', w)) = (t', unavailable what)
