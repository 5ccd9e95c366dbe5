-- ===== src/Pulse/Store.antt =====
-- The sidecar store of the cursor (LocalActivityPulseStore of src/LocalActivityPulseStore.cpp): seed,
-- find and the compare-and-set replacement. SQLite is not modelled: the table is the partial map from
-- the primary key `scope` to a row that its statements read and write, and a call may fail before its
-- COMMIT, when the transaction is rolled back, or after it, when the row is already durable.
pub mod Effect
pub mod History
pub mod Replies
use gaudere_agent.Prelude.{
  ℕ, ◌+◌, Bool, true, false, not, ◌&&◌, ◌||◌, Option, none, some, ◌==◌, if◌then◌else◌,
}
use gaudere_agent.Text.{Text, text, eqb}
use gaudere_agent.Sidecar.{Fault, healthy, before_commit, after_commit}
use gaudere_agent.Pulse.Cursor.{State, idle, Cursor, same_state, same_cursor, valid_cursor}
use gaudere_agent.Pulse.Transition.{valid_transition}

abbrev pub Table : Type 0
Table = Text → Option Cursor

abbrev pub empty_table : Table
empty_table _ = none

abbrev pub put : Table → Text → Cursor → Table
put t scope c k = if eqb scope k then some c else t k

pub data StoreResult : Type 0 where
  accepted duplicate conflict invalid unavailable : StoreResult

pub record StoreWrite : Type 0 where
  pub result : StoreResult
  pub cursor : Option Cursor
  pub detail : Text

abbrev pub wrote : StoreResult → Option Cursor → Text → StoreWrite
wrote result cursor detail = record { result = result; cursor = cursor; detail = detail }

-- What a SELECT of one row gives; read_cursor throws on a row that is not canonical.
pub data Found : Type 0 where
  row : Option Cursor → Found
  throws : Text → Found

read_cursor : Option Cursor → Found
read_cursor none = row none
read_cursor (some c) =
    if valid_cursor c
    then row (some c)
    else throws (text "non-canonical local activity pulse cursor row")

unfoldable pub find : Table → Text → Found
unfolding read_cursor
find t scope = read_cursor (t scope)

-- After the COMMIT: the row is read again and compared.
unfoldable pub confirm : Cursor → Text → Fault → Found → StoreWrite
confirm c message (before_commit what) found = wrote unavailable none what
confirm c message (after_commit what) found = wrote unavailable none what
confirm c message healthy (throws what) = wrote unavailable none what
confirm c message healthy (row none) = wrote conflict none message
confirm c message healthy (row (some stored)) =
    if not (same_cursor stored c)
    then wrote conflict (some stored) message
    else wrote accepted (some stored) (text "")

abbrev seed_lost : Text
seed_lost = text "local activity seed did not persist exact cursor"

unfoldable pub insert_row : Table → Fault → Cursor → Found → Table × StoreWrite
unfolding find confirm
insert_row t fault cursor (throws what) = (t, wrote unavailable none what)
insert_row t fault cursor (row (some existing)) = (
  t,
  if same_cursor existing cursor
      then wrote duplicate (some existing) (text "")
      else wrote conflict (some existing)
          (text "local activity sidecar is already seeded differently"),
)
insert_row t fault cursor (row none) =
    let t' = put t cursor.scope cursor in
    (t', confirm cursor seed_lost fault (find t' cursor.scope))

-- A transaction that fails before its COMMIT is rolled back.
abbrev transaction : Table → Fault → Table × StoreWrite → Table × StoreWrite
transaction t (before_commit what) done = (t, wrote unavailable none what)
transaction t healthy done = done
transaction t (after_commit what) done = done

unfoldable pub seed : Table → Fault → Cursor → Table × StoreWrite
unfolding insert_row
seed t fault cursor =
    if not (valid_cursor cursor)
      || not (cursor.revision == 0)
      || not (cursor.generation == 0)
      || not (same_state cursor.state idle)
    then (t, wrote invalid none (text "local activity seed cursor is non-canonical"))
    else transaction t fault (insert_row t fault cursor (find t cursor.scope))

-- UPDATE … WHERE scope=?14 AND revision=?15: the row that it changes.
unfoldable pub matches : Table → Cursor → Bool
matches t expected = elim (t expected.scope) [
  | none ↦ false
  | some c ↦ c.revision == expected.revision
]

-- No row was changed: read the current one, roll back, and tell a repetition from a conflict.
unfoldable pub unchanged : Cursor → Found → StoreWrite
unchanged replacement (throws what) = wrote unavailable none what
unchanged replacement (row none) =
    wrote conflict none (text "local activity cursor revision changed concurrently")
unchanged replacement (row (some current)) =
    if same_cursor current replacement
    then wrote duplicate (some current) (text "")
    else wrote conflict (some current) (text "local activity cursor revision changed concurrently")

abbrev replace_lost : Text
replace_lost = text "local activity cursor replacement did not persist exactly"

unfoldable pub update_row : Table → Fault → Cursor → Cursor → Table × StoreWrite
unfolding find confirm matches unchanged
update_row t fault expected replacement =
    let t' = put t expected.scope (record replacement { scope = expected.scope }) in
    if not (matches t expected)
    then (t, unchanged replacement (find t expected.scope))
    else (t', confirm replacement replace_lost fault (find t' expected.scope))

unfoldable pub replace : Table → Fault → Cursor → Cursor → Table × StoreWrite
unfolding update_row
replace t fault expected replacement =
    if not (valid_transition expected replacement)
    then (t, wrote invalid none (text "local activity cursor transition is non-canonical"))
    else transaction t fault (update_row t fault expected replacement)
