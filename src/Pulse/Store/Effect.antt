-- ===== src/Pulse/Store/Effect.antt =====
-- What each call of the store does to the table, on every branch and under every fault.
use gaudere_agent.Prelude.{
  ◌≡◌, refl, sym, ap, ◌∙◌, ◌⊎◌, inl, inr, Bool, true, false, not, ◌||◌, none, some, arith, ◌==◌,
  Bool-cases, Option-cases,
}
use gaudere_agent.Text.{Text}
use gaudere_agent.Pulse.Cursor.{idle, Cursor, same_state, valid_cursor}
use gaudere_agent.Pulse.Transition.{valid_transition}
use gaudere_agent.Pulse.Steps.{same_state_iff, step_identity}
use gaudere_agent.Pulse.Store.{
  Table, put, StoreWrite, Found, row, throws, find, insert_row, transaction, seed, matches,
  update_row, replace,
}
use gaudere_agent.Sidecar.{Fault, healthy, before_commit, after_commit}

-- The row that a replacement changes, with the facts that it was changed under.
pub record Swapped (t : Table) (e r : Cursor) (t' : Table) : Type 0 where
  pub current : Cursor
  pub legal : valid_transition e r ≡ true
  pub stored : t e.scope ≡ some current
  pub same_revision : current.revision ≡ e.revision
  pub written : t' ≡ put t e.scope r

pub matches_row :
    (t : Table) (e : Cursor)
    → matches t e ≡ true
    → (c : Cursor) × (t e.scope ≡ some c) × (c.revision ≡ e.revision)
unfolding matches
matches_row t e h = elim (Option-cases (t e.scope)) [
  | inl p ↦ ground arith
  | inr (c, p) ↦ (c, p, ground arith)
]

update_row_effect :
    (t : Table) (f : Fault) (e r : Cursor)
    → ((update_row t f e r).0 ≡ t)
      ⊎ ((matches t e ≡ true)
          × ((update_row t f e r).0 ≡ put t e.scope (record r { scope = e.scope })))
unfolding update_row
update_row_effect t f e r = elim (Bool-cases (matches t e)) [
  | inl m ↦ inr (m, rw m refl)
  | inr m ↦ inl (rw m refl)
]

transaction_effect :
    (t : Table) (f : Fault) (done : Table × StoreWrite)
    → ((transaction t f done).0 ≡ t) ⊎ ((transaction t f done).0 ≡ done.0)
transaction_effect t healthy done = inr refl
transaction_effect t (before_commit what) done = inl refl
transaction_effect t (after_commit what) done = inr refl

pub same_scope : (e r : Cursor) → e.scope ≡ r.scope → record r { scope = e.scope } ≡ r
same_scope e r p = λ i. record r { scope = p i }

-- Whatever the arguments and the fault, `replace` leaves the table alone, or it writes the
-- replacement by a canonical transition over the one row that has the expected revision.
pub replace_effect :
    (t : Table) (f : Fault) (e r : Cursor)
    → ((replace t f e r).0 ≡ t) ⊎ Swapped t e r (replace t f e r).0
unfolding replace
replace_effect t f e r = elim (Bool-cases (valid_transition e r)) [
  | inr bad ↦ inl (rw bad refl)
  | inl ok ↦ rw ok (elim (transaction_effect t f (update_row t f e r)) [
    | inl p ↦ inl p
    | inr p ↦ elim (update_row_effect t f e r) [
      | inl q ↦ inl (p ∙ q)
      | inr (m, q) ↦
          let (c, s, v) = matches_row t e m in
          inr (record {
            current = c;
            legal = ok;
            stored = s;
            same_revision = v;
            written = p ∙ q ∙ ap (put t e.scope) (same_scope e r (step_identity e r ok).0);
          })
    ]
  ])
]

-- A seed that is not refused is a canonical idle cursor of revision 0.
pub record IsSeed (c : Cursor) : Type 0 where
  pub canonical : valid_cursor c ≡ true
  pub first_revision : c.revision ≡ 0
  pub idle_state : c.state ≡ idle

seed_guard : Cursor → Bool
seed_guard cursor =
    not (valid_cursor cursor)
    || not (cursor.revision == 0)
    || not (cursor.generation == 0)
    || not (same_state cursor.state idle)

seed_guard-IsSeed : (c : Cursor) → seed_guard c ≡ false → IsSeed c
unfolding seed_guard
seed_guard-IsSeed c h = record {
  canonical = ground arith;
  first_revision = ground arith;
  idle_state = ground (arith, same_state_iff c.state idle);
}

read_none : (t : Table) (k : Text) → find t k ≡ row none → t k ≡ none
unfolding find
read_none t k h = elim (Option-cases (t k)) [ inl p ↦ p | inr (c, p) ↦ ground arith ]

insert_row_effect :
    (t : Table) (f : Fault) (c : Cursor) (found : Found)
    → found ≡ find t c.scope
    → ((insert_row t f c found).0 ≡ t)
      ⊎ ((t c.scope ≡ none) × ((insert_row t f c found).0 ≡ put t c.scope c))
unfolding insert_row
insert_row_effect t f c (throws what) h = inl refl
insert_row_effect t f c (row (some existing)) h = inl refl
insert_row_effect t f c (row none) h = inr (read_none t c.scope (sym h), refl)

-- Whatever the argument and the fault, `seed` leaves the table alone, or it writes a canonical idle
-- cursor of revision 0 where there was no row.
pub seed_effect :
    (t : Table) (f : Fault) (c : Cursor)
    → ((seed t f c).0 ≡ t) ⊎ (IsSeed c × (t c.scope ≡ none) × ((seed t f c).0 ≡ put t c.scope c))
unfolding seed seed_guard
seed_effect t f c = elim (Bool-cases (seed_guard c)) [
  | inl bad ↦ inl (rw bad refl)
  | inr ok ↦ rw ok (elim (transaction_effect t f (insert_row t f c (find t c.scope))) [
    | inl p ↦ inl p
    | inr p ↦ elim (insert_row_effect t f c (find t c.scope) refl) [
      | inl q ↦ inl (p ∙ q)
      | inr (n, q) ↦ inr (seed_guard-IsSeed c ok, n, p ∙ q)
    ]
  ])
]
