-- ===== src/Thread.antt =====
-- Preferred heads of dialogue threads (src/LocalGooseDialogueThreadStore.hpp,
-- src/LocalGooseDialogueThreadStore.cpp): the head of each alias, and the history of its revisions.
pub mod Lineage
pub mod Life
pub mod Record
pub mod Paging
mod Examples
use gaudere_agent.Prelude.{
  ℕ, ◌+◌, ◌≡◌, Bool, true, false, not, ◌&&◌, ◌||◌, Option, none, some, List, [], ◌∷◌, ltb, leb,
  ◌==◌, if◌then◌else◌, is_some, int64_max, zero, suc,
}
use gaudere_agent.Text.{Text, text, eqb, safe_identifier, prefixed_sha256}
use gaudere_agent.Responder.Lease.{dialogue_task_id}
use gaudere_agent.Sidecar.{Fault, Query, answer, throws, throw_if, ◌>>=◌, ◌>>◌, transaction}
use gaudere_agent.Sidecar.Rows.{find_row, set_row}

pub record Head : Type 0 where
  pub alias : Text
  pub revision : ℕ
  pub root_task_id : Text
  pub head_task_id : Text

unfoldable pub valid_head : Head → Bool
valid_head head =
    safe_identifier head.alias
    && leb head.revision int64_max
    && dialogue_task_id head.root_task_id
    && dialogue_task_id head.head_task_id

unfoldable pub valid_head_transition : Head → Head → Bool
valid_head_transition expected replacement =
    valid_head expected
    && valid_head replacement
    && eqb expected.alias replacement.alias
    && eqb expected.root_task_id replacement.root_task_id
    && ltb expected.revision int64_max
    && replacement.revision == expected.revision + 1
    && not (eqb replacement.head_task_id expected.head_task_id)

unfoldable pub same_head : Head → Head → Bool
same_head left right =
    eqb left.alias right.alias
    && left.revision == right.revision
    && eqb left.root_task_id right.root_task_id
    && eqb left.head_task_id right.head_task_id

pub data StoreResult : Type 0 where
  accepted duplicate conflict invalid unavailable : StoreResult

pub record StoreWrite : Type 0 where
  pub result : StoreResult
  pub head : Option Head
  pub detail : Text

abbrev pub wrote : StoreResult → Option Head → Text → StoreWrite
wrote result head detail = record { result = result; head = head; detail = detail }

-- The two tables. New rows of the history stand in front.
pub record Sidecar : Type 0 where
  pub heads : List Head
  pub history : List Head

abbrev pub alias_of : Head → Text
alias_of head = head.alias

-- A version 1 sidecar has the heads alone; INSERT INTO … history SELECT … FROM … head copies them.
unfoldable pub migrate : List Head → Sidecar
migrate heads = record { heads = heads; history = heads }

-- read_head: a row that is not canonical throws.
unfoldable pub read_head : Option Head → Query (Option Head)
read_head none = answer none
read_head (some head) =
    if valid_head head
    then answer (some head)
    else throws (text "non-canonical Local Goose dialogue thread head row")

unfoldable pub find_head : Sidecar → Text → Query (Option Head)
unfolding read_head
find_head s alias = read_head (find_row alias_of alias s.heads)

-- PRIMARY KEY(alias,revision) of the history
unfoldable pub recorded : Head → List Head → Bool
recorded head [] = false
recorded head (row ∷ rows) =
    eqb row.alias head.alias && row.revision == head.revision || recorded head rows

unfoldable pub insert_history : Sidecar → Head → Query Sidecar
insert_history s head =
    if recorded head s.history
    then throws (text "UNIQUE constraint failed")
    else answer (record s { history = head ∷ s.history })

unfoldable pub find : Sidecar → Text → Query (Option Head)
find s alias = if not (safe_identifier alias) then answer none else find_head s alias

-- SELECT … WHERE alias=?1 AND revision>=?2 ORDER BY revision ASC LIMIT ?3
unfoldable pub insert_by_revision : Head → List Head → List Head
insert_by_revision head [] = head ∷ []
insert_by_revision head (row ∷ rows) =
    let later = insert_by_revision head rows in
    if leb head.revision row.revision then head ∷ row ∷ rows else row ∷ later

unfoldable pub select_history : Text → ℕ → List Head → List Head
select_history alias first [] = []
select_history alias first (row ∷ rows) =
    let rest = select_history alias first rows in
    if eqb row.alias alias && leb first row.revision then insert_by_revision row rest else rest

unfoldable pub read_rows : ℕ → List Head → Query (List Head)
read_rows zero rows = answer []
read_rows (suc limit) [] = answer []
read_rows (suc limit) (row ∷ rows) =
    if not (valid_head row)
    then throws (text "non-canonical Local Goose dialogue thread head row")
    else (read_rows limit rows >>= λ rest. answer (row ∷ rest))

unfoldable pub history_from : Sidecar → Text → ℕ → ℕ → Query (List Head)
history_from s alias first_revision limit =
    if not (safe_identifier alias) || ltb int64_max first_revision || limit == 0 || ltb 1024 limit
    then answer []
    else read_rows limit (select_history alias first_revision s.history)

unfoldable pub seed_new : Sidecar → Head → Option Head → Query (Sidecar × StoreWrite)
seed_new s head (some current) = answer (
  s,
  (if same_head current head
      then wrote StoreResult.duplicate (some current) (text "dialogue thread head already seeded")
      else wrote StoreResult.conflict (some current)
          (text "dialogue thread alias is already bound")),
)
seed_new s head none = do
  s' ← insert_history (record s { heads = head ∷ s.heads }) head
  answer (s', wrote StoreResult.accepted (some head) (text "dialogue thread head seeded"))

abbrev pub failed : Text → StoreWrite
failed what = wrote StoreResult.unavailable none what

unfoldable pub seed : Sidecar → Fault → Head → Sidecar × StoreWrite
seed s fault head =
    if not (valid_head head) || not (head.revision == 0)
    then (
      s,
      wrote StoreResult.invalid none (text "invalid initial Local Goose dialogue thread head"),
    )
    else transaction failed s fault (find_head s head.alias >>= λ current. seed_new s head current)

-- UPDATE … WHERE alias=?3 AND revision=?4 AND root_task_id=?5 AND head_task_id=?6: the number of rows
-- that it changes is 1 where the row of the alias is `expected`, and 0 elsewhere.
unfoldable pub update_found : Sidecar → Head → Head → Option Head → Query Sidecar
update_found s expected replacement none =
    throws (text "dialogue thread head CAS changed unexpected row count")
update_found s expected replacement (some row) =
    if same_head row expected
    then answer (record s {
      heads =
          set_row alias_of
            (record row {
              revision = replacement.revision;
              head_task_id = replacement.head_task_id;
            })
            s.heads;
    })
    else throws (text "dialogue thread head CAS changed unexpected row count")

unfoldable pub update_head : Sidecar → Head → Head → Query Sidecar
update_head s expected replacement =
    update_found s expected replacement (find_row alias_of expected.alias s.heads)

unfoldable pub swap : Sidecar → Head → Head → Option Head → Query (Sidecar × StoreWrite)
swap s expected replacement none =
    answer (s, wrote StoreResult.conflict none (text "dialogue thread head is missing"))
swap s expected replacement (some current) =
    if same_head current replacement
    then answer (
      s,
      wrote StoreResult.duplicate (some current)
          (text "dialogue thread head transition already applied"),
    )
    else if not (same_head current expected)
    then answer (
      s,
      wrote StoreResult.conflict (some current)
          (text "dialogue thread head compare-and-swap conflict"),
    )
    else (do
      s1 ← update_head s expected replacement
      s2 ← insert_history s1 replacement
      answer (
        s2,
        wrote StoreResult.accepted (some replacement) (text "dialogue thread head advanced"),
      ))

unfoldable pub replace : Sidecar → Fault → Head → Head → Sidecar × StoreWrite
replace s fault expected replacement =
    if not (valid_head_transition expected replacement)
    then (
      s,
      wrote StoreResult.invalid none (text "invalid Local Goose dialogue thread head transition"),
    )
    else transaction failed s fault
        (find_head s expected.alias >>= λ current. swap s expected replacement current)
