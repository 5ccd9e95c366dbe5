-- ===== src/Thread/Life.antt =====
-- Any sequence of calls of the thread store, under any faults (src/LocalGooseDialogueThreadStore.cpp).
use gaudere_agent.Prelude.{
  ◌≡◌, refl, ap, ◌∙◌, inl, inr, true, not, ◌||◌, Option, none, some, List, ◌∷◌, arith, ◌==◌,
  Bool-cases,
}
use gaudere_agent.Text.{Text}
use gaudere_agent.Sidecar.{Fault, ◌>>=◌}
use gaudere_agent.Sidecar.Rows.{find_row, set_row}
use gaudere_agent.Sidecar.Rules.{Gives, gives, fails, Gives-bind, transaction-keeps}
use gaudere_agent.Thread.{
  Head, valid_head, valid_head_transition, same_head, Sidecar, alias_of, read_head, find_head,
  recorded, insert_history, seed_new, seed, update_found, update_head, swap, replace, failed,
  StoreWrite, migrate,
}
use gaudere_agent.Thread.Lineage.{
  Coherent, Keyed, migrate-Coherent, added-Coherent, moved-Coherent, same_head_iff, transition_same,
}

abbrev Kept : List Head → Sidecar × StoreWrite → Type 0
Kept old done = Coherent old done.0

read_head-Gives : (o : Option Head) → Gives (λ p. o ≡ p) (read_head o)
unfolding read_head
read_head-Gives none = gives refl
read_head-Gives (some head) = elim (Bool-cases (valid_head head)) [
  | inl v ↦ rw v (gives refl)
  | inr n ↦ rw n fails
]

find_head-Gives :
    (s : Sidecar) (alias : Text)
    → Gives (λ o. find_row alias_of alias s.heads ≡ o) (find_head s alias)
unfolding find_head
find_head-Gives s alias = read_head-Gives (find_row alias_of alias s.heads)

insert_history-Gives :
    (s : Sidecar) (head : Head)
    → Gives (λ t. t ≡ record s { history = head ∷ s.history }) (insert_history s head)
unfolding insert_history
insert_history-Gives s head = elim (Bool-cases (recorded head s.history)) [
  | inl r ↦ rw r fails
  | inr n ↦ rw n (gives refl)
]

seed_new-Coherent :
    {old : List Head} (s : Sidecar) (head : Head) (o : Option Head)
    → Coherent old s
    → valid_head head ≡ true
    → head.revision ≡ 0
    → find_row alias_of head.alias s.heads ≡ o
    → Gives (Kept old) (seed_new s head o)
unfolding seed_new
seed_new-Coherent {old} s head (some current) c v z e = gives c
seed_new-Coherent {old} s head none c v z e =
    Gives-bind (Kept old) (insert_history (record s { heads = head ∷ s.heads }) head) _
      (insert_history-Gives (record s { heads = head ∷ s.heads }) head)
      (λ t p. rw p (gives (added-Coherent s head c v z e)))

pub seed-Coherent :
    {old : List Head} (s : Sidecar) (f : Fault) (head : Head)
    → Coherent old s
    → Coherent old (seed s f head).0
unfolding seed
seed-Coherent {old} s f head c =
    elim (Bool-cases (not (valid_head head) || not (head.revision == 0))) [
      | inl bad ↦ rw bad c
      | inr good ↦ rw good (
          transaction-keeps (Coherent old) failed s f (find_head s head.alias >>= seed_new s head) c
            (Gives-bind (Kept old) (find_head s head.alias) (seed_new s head)
              (find_head-Gives s head.alias)
              (λ o e. seed_new-Coherent s head o c (ground arith) (ground arith) e)))
    ]

pub new_row :
    (e r : Head)
    → valid_head_transition e r ≡ true
    → record e { revision = r.revision; head_task_id = r.head_task_id } ≡ r
new_row e r v = ground (arith, transition_same e r v)

update_found-Gives :
    (s : Sidecar) (e r : Head) (o : Option Head)
    → valid_head_transition e r ≡ true
    → o ≡ some e
    → Gives (λ t. t ≡ record s { heads = set_row alias_of r s.heads }) (update_found s e r o)
unfolding update_found
update_found-Gives s e r none v found = fails
update_found-Gives s e r (some row) v found =
    let same : row ≡ e = cc in
    rw (same, (same_head_iff e e).1 refl)
      (gives (ap (λ h. record s { heads = set_row alias_of h s.heads }) (new_row e r v)))

update_head-Gives :
    (s : Sidecar) (e r : Head)
    → valid_head_transition e r ≡ true
    → find_row alias_of e.alias s.heads ≡ some e
    → Gives (λ t. t ≡ record s { heads = set_row alias_of r s.heads }) (update_head s e r)
unfolding update_head
update_head-Gives s e r v found =
    update_found-Gives s e r (find_row alias_of e.alias s.heads) v found

swap-Coherent :
    {old : List Head} (s : Sidecar) (e r : Head) (o : Option Head)
    → Coherent old s
    → valid_head_transition e r ≡ true
    → find_row alias_of e.alias s.heads ≡ o
    → Gives (Kept old) (swap s e r o)
unfolding swap
swap-Coherent {old} s e r none c v p = gives c
swap-Coherent {old} s e r (some current) c v p = elim (Bool-cases (same_head current r)) [
  | inl again ↦ rw again (gives c)
  | inr fresh ↦ elim (Bool-cases (same_head current e)) [
    | inr other ↦ rw (fresh, other) (gives c)
    | inl expected ↦
        let found : find_row alias_of e.alias s.heads ≡ some e =
          p ∙ ap (λ h. some h) ((same_head_iff current e).0 expected) in
        rw (fresh, expected)
          (Gives-bind (Kept old) (update_head s e r) _ (update_head-Gives s e r v found) (λ t q.
            Gives-bind (Kept old) (insert_history t r) _ (insert_history-Gives t r)
              (λ u w. rw (w, q) (gives (moved-Coherent s e r c v found)))))
  ]
]

pub replace-Coherent :
    {old : List Head} (s : Sidecar) (f : Fault) (e r : Head)
    → Coherent old s
    → Coherent old (replace s f e r).0
unfolding replace
replace-Coherent {old} s f e r c = elim (Bool-cases (valid_head_transition e r)) [
  | inr bad ↦ rw bad c
  | inl v ↦ rw v (
      transaction-keeps (Coherent old) failed s f (find_head s e.alias >>= swap s e r) c (
        Gives-bind (Kept old) (find_head s e.alias) (swap s e r) (find_head-Gives s e.alias)
          (λ o p. swap-Coherent s e r o c v p)))
]

-- The sidecar after any calls, in any order, each under any fault. It began with the migration of a
-- version 1 sidecar with the heads `old`, of no heads where it was created.
pub data Life (old : List Head) : Sidecar → Type 0 where
  opened : Keyed old → Life old (migrate old)
  seeds : {s : Sidecar} → Life old s → (f : Fault) (head : Head) → Life old (seed s f head).0
  replaces : {s : Sidecar} → Life old s → (f : Fault) (e r : Head) → Life old (replace s f e r).0

-- Where the sidecar was created, or migrated from a version 1 sidecar of canonical heads, one for each
-- alias: whatever calls were made since, in any order and under any faults, the newest row of the history
-- of a thread is its head, each row follows the one before it by a canonical transition, and the first
-- has revision 0 or is a migrated head; a thread without a head has no history.
pub Life-Coherent : {old : List Head} {s : Sidecar} → Life old s → Coherent old s
Life-Coherent {old} (opened k) = migrate-Coherent old k
Life-Coherent (seeds {s} l f head) = seed-Coherent s f head (Life-Coherent l)
Life-Coherent (replaces {s} l f e r) = replace-Coherent s f e r (Life-Coherent l)
