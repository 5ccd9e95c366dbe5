-- ===== src/Thread/Lineage.antt =====
-- The head of a thread and its history belong together.
use gaudere_agent.Prelude.{
  ◌≡◌, refl, sym, ap, ◌∙◌, ◌↔◌, ◌⊎◌, inl, inr, true, Option, none, some, List, [], ◌∷◌, arith,
  if◌then◌else◌, Bool-cases,
}
use gaudere_agent.Text.{Text, eqb}
use gaudere_agent.Text.Laws.{eqb_iff}
use gaudere_agent.Sidecar.Rows.{find_row, set_row, find_row-set_row}
use gaudere_agent.Thread.{
  Head, valid_head, valid_head_transition, same_head, Sidecar, alias_of, migrate,
}

-- The rows of one thread, newest first.
unfoldable pub history_of : Text → List Head → List Head
history_of alias [] = []
history_of alias (row ∷ rows) =
    if eqb row.alias alias then row ∷ history_of alias rows else history_of alias rows

abbrev pub Among : Head → List Head → Type 0
Among head [] = ⊥
Among head (row ∷ rows) = (head ≡ row) ⊎ Among head rows

-- What the table of heads of a version 1 sidecar holds: canonical heads, one for each alias.
abbrev pub Keyed : List Head → Type 0
Keyed [] = Unit {0}
Keyed (row ∷ rows) =
    (valid_head row ≡ true) × (find_row alias_of row.alias rows ≡ none) × Keyed rows

-- The first row of a history: seeded with revision 0, or migrated from a version 1 sidecar with
-- these heads.
abbrev pub Origin : List Head → Head → Type 0
Origin old head = (head.revision ≡ 0) ⊎ Among head old

-- Each row follows the one before it by a canonical transition, from a valid first row.
abbrev pub Chain : List Head → Head → List Head → Type 0
Chain old head [] = (valid_head head ≡ true) × Origin old head
Chain old head (before ∷ rest) = (valid_head_transition before head ≡ true) × Chain old before rest

-- The newest row of the history is the head, and a thread without a head has no history.
abbrev pub Linked : List Head → Option Head → List Head → Type 0
Linked old none [] = Unit {0}
Linked old none (row ∷ rows) = ⊥
Linked old (some head) [] = ⊥
Linked old (some head) (row ∷ rows) = (row ≡ head) × Chain old head rows

pub record Coherent (old : List Head) (s : Sidecar) : Type 0 where
  pub at :
      (alias : Text) → Linked old (find_row alias_of alias s.heads) (history_of alias s.history)

start-Linked :
    (old : List Head) (head : Head) (o : Option Head) (rows : List Head)
    → valid_head head ≡ true
    → head.revision ≡ 0
    → o ≡ none
    → Linked old o rows
    → Linked old (some head) (head ∷ rows)
start-Linked old head none [] v z e l = (refl, (v, inl z))
start-Linked old head none (row ∷ rows) v z e l = elim l [ ]
start-Linked old head (some h) rows v z e l = cc

step-Linked :
    (old : List Head) (expected replacement : Head) (rows : List Head)
    → valid_head_transition expected replacement ≡ true
    → Linked old (some expected) rows
    → Linked old (some replacement) (replacement ∷ rows)
step-Linked old e r [] v l = elim l [ ]
step-Linked old e r (row ∷ rows) v l = (refl, rw (l.0) (v, l.1))

history_absent :
    (alias : Text) (rows : List Head)
    → find_row alias_of alias rows ≡ none
    → history_of alias rows ≡ []
unfolding find_row history_of
history_absent alias [] e = refl
history_absent alias (row ∷ rows) e = elim (Bool-cases (eqb row.alias alias)) [
  | inl same ↦ let found = rw same at e in cc
  | inr other ↦ rw other (history_absent alias rows (rw other at e))
]

migrated-Linked :
    (old : List Head) (alias : Text) (rows : List Head)
    → ((head : Head) → Among head rows → Among head old)
    → Keyed rows
    → Linked old (find_row alias_of alias rows) (history_of alias rows)
unfolding find_row history_of
migrated-Linked old alias [] sub k = tt
migrated-Linked old alias (row ∷ rows) sub k = elim (Bool-cases (eqb row.alias alias)) [
  | inl same ↦
      let gone : find_row alias_of alias rows ≡ none =
        rw ((eqb_iff row.alias alias).0 same) at k.1 in
      rw (same, history_absent alias rows gone) (refl, (k.0, inr (sub row (inl refl))))
  | inr other ↦ rw other (migrated-Linked old alias rows (λ h a. sub h (inr a)) k.2)
]

-- The migration of a version 1 sidecar.
pub migrate-Coherent : (old : List Head) → Keyed old → Coherent old (migrate old)
unfolding migrate
migrate-Coherent old k = record { at = λ alias. migrated-Linked old alias old (λ h a. a) k }

pub same_head_iff : (a b : Head) → (same_head a b ≡ true) ↔ (a ≡ b)
unfolding same_head
same_head_iff a b = ground (
  arith,
  eqb_iff a.alias b.alias,
  eqb_iff a.root_task_id b.root_task_id,
  eqb_iff a.head_task_id b.head_task_id,
)

pub transition_same :
    (e r : Head)
    → valid_head_transition e r ≡ true
    → (e.alias ≡ r.alias) × (e.root_task_id ≡ r.root_task_id)
unfolding valid_head_transition
transition_same e r v =
    ground (arith, eqb_iff e.alias r.alias, eqb_iff e.root_task_id r.root_task_id)

-- Adding a row to both tables.
pub added-Coherent :
    {old : List Head} (s : Sidecar) (head : Head)
    → Coherent old s
    → valid_head head ≡ true
    → head.revision ≡ 0
    → find_row alias_of head.alias s.heads ≡ none
    → Coherent old (record { heads = head ∷ s.heads; history = head ∷ s.history })
unfolding find_row history_of
added-Coherent {old} s head c v z e = record {
  at = λ alias. elim (Bool-cases (eqb head.alias alias)) [
    | inl same ↦ rw same (
        start-Linked old head (find_row alias_of alias s.heads) (history_of alias s.history) v z
          (rw ((eqb_iff head.alias alias).0 same) at e) (c.at alias))
    | inr other ↦ rw other (c.at alias)
  ];
}

pub moved-Coherent :
    {old : List Head} (s : Sidecar) (e r : Head)
    → Coherent old s
    → valid_head_transition e r ≡ true
    → find_row alias_of e.alias s.heads ≡ some e
    → Coherent old (record { heads = set_row alias_of r s.heads; history = r ∷ s.history })
unfolding history_of
moved-Coherent {old} s e r c v found = record {
  at = λ alias. elim (Bool-cases (eqb r.alias alias)) [
    | inl same ↦
        let here : find_row alias_of alias s.heads ≡ some e =
          ap (λ k. find_row alias_of k s.heads)
            (sym ((eqb_iff r.alias alias).0 same) ∙ sym (transition_same e r v).0)
          ∙ found in
        let linked = rw here at (c.at alias) in
        rw (find_row-set_row alias_of alias r s.heads, same, here)
          (step-Linked old e r (history_of alias s.history) v linked)
    | inr other ↦ rw (find_row-set_row alias_of alias r s.heads, other) (c.at alias)
  ];
}
