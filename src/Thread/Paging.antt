-- ===== src/Thread/Paging.antt =====
-- What history_from reads of a thread (src/LocalGooseDialogueThreadStore.cpp).
use gaudere_agent.Prelude.{
  ℕ, zero, suc, ◌+◌, ◌-◌, ◌≤◌, ◌≡◌, refl, sym, ◌∙◌, inl, inr, true, false, not, ◌||◌, Option, none,
  some, List, [], ◌∷◌, ◌++◌, arith, ltb, leb, ◌==◌, if◌then◌else◌, Bool-cases, length,
  length-append, int64_max,
}
use gaudere_agent.Text.{Text, eqb, safe_identifier}
use gaudere_agent.Sidecar.{answer}
use gaudere_agent.Sidecar.Rows.{find_row, find_row_key}
use gaudere_agent.Thread.{
  Head, valid_head, valid_head_transition, Sidecar, alias_of, insert_by_revision, select_history,
  read_rows, history_from,
}
use gaudere_agent.Thread.Lineage.{history_of, Among, Origin, Chain, Linked}
use gaudere_agent.Thread.Life.{Life, Life-Coherent}
use gaudere_agent.Thread.Record.{oldest, Chain-oldest}

-- Canonical rows of the consecutive revisions from `first`.
abbrev pub Consecutive : ℕ → List Head → Type 0
Consecutive first [] = Unit {0}
Consecutive first (row ∷ rows) =
    (row.revision ≡ first) × (valid_head row ≡ true) × Consecutive (first + 1) rows

-- The selection among the rows of one thread.
from_revision : ℕ → List Head → List Head
from_revision first [] = []
from_revision first (row ∷ rows) =
    let rest = from_revision first rows in
    if leb first row.revision then insert_by_revision row rest else rest

selected :
    (alias : Text) (first : ℕ) (rows : List Head)
    → select_history alias first rows ≡ from_revision first (history_of alias rows)
unfolding select_history history_of from_revision
selected alias first [] = refl
selected alias first (row ∷ rows) = elim (Bool-cases (eqb row.alias alias)) [
  | inl y ↦ rw (y, selected alias first rows) refl
  | inr n ↦ rw n (selected alias first rows)
]

insert_last :
    (head : Head) (first : ℕ) (rows : List Head)
    → Consecutive first rows
    → first + length rows ≡ head.revision
    → insert_by_revision head rows ≡ rows ++ (head ∷ [])
unfolding insert_by_revision
insert_last head first [] c e = refl
insert_last head first (row ∷ rows) c e =
    let later : leb head.revision row.revision ≡ false = ground (arith, c.0, e) in
    rw (later, insert_last head (first + 1) rows c.2 (omega (arith, e))) refl

Consecutive-append :
    (head : Head) (first : ℕ) (rows : List Head)
    → Consecutive first rows
    → first + length rows ≡ head.revision
    → valid_head head ≡ true
    → Consecutive first (rows ++ (head ∷ []))
Consecutive-append head first [] c e v = (omega (arith, e), v, tt)
Consecutive-append head first (row ∷ rows) c e v =
    (c.0, c.1, Consecutive-append head (first + 1) rows c.2 (omega (arith, e)) v)

step_facts :
    (e r : Head)
    → valid_head_transition e r ≡ true
    → (r.revision ≡ e.revision + 1) × (valid_head r ≡ true)
unfolding valid_head_transition
step_facts e r v = (ground arith, ground arith)

abbrev pub later_of : ℕ → ℕ → ℕ
later_of a b = if leb a b then b else a

-- One more row, the newest, to the selection of the older ones, which begins at `low`.
newest :
    (head : Head) (first low : ℕ) (rows : List Head)
    → valid_head head ≡ true
    → first ≤ low
    → (first ≤ head.revision → low ≤ head.revision)
    → Consecutive low (from_revision first rows)
    → length (from_revision first rows) ≡ head.revision - low
    → Consecutive low (from_revision first (head ∷ rows))
      × (length (from_revision first (head ∷ rows)) ≡ head.revision + 1 - low)
unfolding from_revision
newest head first low rows v fl lh c e = elim (Bool-cases (leb first head.revision)) [
  | inr n ↦ rw n (c, ground (arith, e, fl))
  | inl y ↦
      let le : low ≤ head.revision = lh (ground (arith, y)) in
      let sum : low + length (from_revision first rows) ≡ head.revision = omega (arith, e, le) in
      rw (y, insert_last head low (from_revision first rows) c sum)
        (
          Consecutive-append head low (from_revision first rows) c sum v,
          omega (arith, length-append (from_revision first rows) (head ∷ []), e, le),
        )
]

later_bounds :
    (first start top : ℕ)
    → start ≤ top
    → (first ≤ later_of first start) × (first ≤ top → later_of first start ≤ top)
later_bounds first start top h = elim (Bool-cases (leb first start)) [
  | inl y ↦ rw y (ground arith, λ k. h)
  | inr n ↦ rw n (omega arith, λ k. k)
]

first_base : (first n : ℕ) → 0 ≡ n - later_of first n
first_base first n = elim (Bool-cases (leb first n)) [
  | inl y ↦ rw y (omega arith)
  | inr k ↦ rw k (ground arith)
]

Chain-selected :
    (old : List Head) (head : Head) (first start : ℕ) (rows : List Head)
    → Chain old head rows
    → (oldest head rows).revision ≡ start
    → Consecutive (later_of first start) (from_revision first (head ∷ rows))
      × (length (from_revision first (head ∷ rows)) ≡ head.revision + 1 - later_of first start)
unfolding from_revision
Chain-selected old head first start [] c s =
    let bounds = later_bounds first start head.revision (omega (arith, s)) in
    newest head first (later_of first start) [] c.0 bounds.0 bounds.1 tt
      (rw (sym s) (first_base first head.revision))
Chain-selected old head first start (g ∷ rest) c s =
    let older = Chain-selected old g first start rest c.1 s in
    let step = step_facts g head c.0 in
    let counted = (Chain-oldest old g rest c.1).2 in
    let bounds = later_bounds first start head.revision (omega (arith, s, counted, step.0)) in
    newest head first (later_of first start) (g ∷ rest) step.1 bounds.0 bounds.1 older.0
      (omega (arith, older.1, step.0))

first_rows : ℕ → List Head → List Head
first_rows zero rows = []
first_rows (suc n) [] = []
first_rows (suc n) (row ∷ rows) = row ∷ first_rows n rows

read-Consecutive :
    (limit first : ℕ) (rows : List Head)
    → Consecutive first rows
    → (read_rows limit rows ≡ answer (first_rows limit rows))
      × Consecutive first (first_rows limit rows)
      × (length (first_rows limit rows) ≡ (if leb limit (length rows) then limit else length rows))
unfolding read_rows first_rows
read-Consecutive zero first rows c = (refl, tt, ground arith)
read-Consecutive (suc n) first [] c = (refl, tt, ground arith)
read-Consecutive (suc n) first (row ∷ rows) c =
    let rest = read-Consecutive n (first + 1) rows c.2 in
    (rw (c.1, rest.0) refl, (c.0, c.1, rest.1), ground (arith, rest.2))

Chain-valid :
    (old : List Head) (head : Head) (rows : List Head)
    → Chain old head rows
    → valid_head head ≡ true
Chain-valid old head [] c = c.0
Chain-valid old head (g ∷ rest) c = (step_facts g head c.0).1

-- The rows of a thread from a revision on.
abbrev Page : List Head → Head → ℕ → List Head → Type 0
Page old h first rows =
    (start : Head) × Among start rows
    × Origin old start
    × Consecutive (later_of first start.revision) (from_revision first rows)
    × (length (from_revision first rows) ≡ h.revision + 1 - later_of first start.revision)

Linked-selected :
    (old : List Head) (o : Option Head) (h : Head) (first : ℕ) (rows : List Head)
    → o ≡ some h
    → Linked old o rows
    → (valid_head h ≡ true) × Page old h first rows
Linked-selected old none h first rows e l = cc
Linked-selected old (some g) h first [] e l = elim l [ ]
Linked-selected old (some g) h first (row ∷ rest) e l =
    let same : row ≡ h = l.0 ∙ ground (arith, e) in
    let chain = rw (sym (l.0) ∙ same) at l.1 in
    let begun = Chain-oldest old h rest chain in
    let chosen = Chain-selected old h first (oldest h rest).revision rest chain refl in
    (
      Chain-valid old h rest chain,
      (oldest h rest, rw same (begun.0), begun.1, rw same (chosen.0), rw same (chosen.1)),
    )

known_head :
    (h : Head) → valid_head h ≡ true → (safe_identifier h.alias ≡ true) × (h.revision ≤ int64_max)
unfolding valid_head
known_head h v = (ground arith, ground arith)

-- In any life of the sidecar, where a version 1 sidecar that it was migrated from had canonical heads, one
-- for each alias, of a thread whose head has revision n: history_from, asked for 1 to 1024 rows from a
-- revision up to n, answers canonical rows of consecutive revisions. They begin at the revision
-- asked for, or where that is later at the revision of a row of the thread that has revision 0 or is a
-- migrated head, and are as many as there are revisions from there up to n, within the limit.
pub Life-history_from :
    {old : List Head} {s : Sidecar} (alias : Text) (h : Head) (first limit : ℕ)
    → Life old s
    → find_row alias_of alias s.heads ≡ some h
    → first ≤ h.revision
    → 1 ≤ limit
    → limit ≤ 1024
    → (start : Head) × Among start (history_of alias s.history)
      × Origin old start
      × ((rows : List Head) × (history_from s alias first limit ≡ answer rows)
          × Consecutive (later_of first start.revision) rows
          × (length rows ≡ (
              if leb limit (h.revision + 1 - later_of first start.revision)
              then limit
              else h.revision + 1 - later_of first start.revision)))
unfolding history_from
Life-history_from {old} {s} alias h first limit life e le one most =
    let chosen =
      Linked-selected old (find_row alias_of alias s.heads) h first (history_of alias s.history) e
        ((Life-Coherent life).at alias) in
    let valid = chosen.0 in
    let (start, among, origin, consecutive, counted) = chosen.1 in
    let rows = from_revision first (history_of alias s.history) in
    let taken = read-Consecutive limit (later_of first start.revision) rows consecutive in
    let known = known_head h valid in
    let name = find_row_key alias_of alias s.heads h e in
    let passes : (not (safe_identifier alias)
          || ltb int64_max first
          || limit == 0
          || ltb 1024 limit)
        ≡ false =
      rw (sym name, known.0) (ground (arith, known.1)) in
    (
      start,
      among,
      origin,
      (
        first_rows limit rows,
        rw (passes, selected alias first s.history) taken.0,
        taken.1,
        rw (sym counted) taken.2,
      ),
    )
