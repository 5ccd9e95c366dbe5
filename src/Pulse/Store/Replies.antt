-- ===== src/Pulse/Store/Replies.antt =====
-- What a caller of the store may conclude from a reply.
use gaudere_agent.Prelude.{
  ◌≡◌, ◌≢◌, refl, ◌⊎◌, inl, inr, true, false, Option, none, some, arith, Bool-cases, same_option,
  eqb_ℤ, ℤ,
}
use gaudere_agent.Text.{Text, text, eqb}
use gaudere_agent.Text.Laws.{eqb_refl}
use gaudere_agent.Pulse.Cursor.{State, Cursor, same_state, same_cursor, valid_cursor}
use gaudere_agent.Pulse.Transition.{valid_transition}
use gaudere_agent.Pulse.Steps.{step_identity, step_valid}
use gaudere_agent.Pulse.Store.{
  Table, put, StoreWrite, wrote, accepted, unavailable, Found, row, throws, find, confirm,
  transaction, matches, unchanged, update_row, replace,
}
use gaudere_agent.Sidecar.{Fault, healthy, before_commit, after_commit}
use gaudere_agent.Pulse.Store.Effect.{same_scope, matches_row}

same_text_refl : (o : Option Text) → same_option eqb o o ≡ true
same_text_refl none = refl
same_text_refl (some s) = eqb_refl s

same_time_refl : (o : Option ℤ) → same_option eqb_ℤ o o ≡ true
same_time_refl none = refl
same_time_refl (some x) = ground arith

same_state_refl : (s : State) → same_state s s ≡ true
unfolding same_state
same_state_refl s = ground arith

pub same_cursor_refl : (c : Cursor) → same_cursor c c ≡ true
unfolding same_cursor
same_cursor_refl c = ground (
  arith,
  eqb_refl c.scope,
  eqb_refl c.anchor_checkpoint_task_id,
  same_state_refl c.state,
  eqb_refl c.anchor_checkpoint_result_sha256,
  same_time_refl c.captured_at_ms,
  eqb_refl c.task_id,
  same_text_refl c.result_sha256,
  same_text_refl c.predecessor_observation_task_id,
  same_text_refl c.predecessor_observation_result_sha256,
  eqb_refl c.blocked_reason,
)

pub find-put :
    (t : Table) (k : Text) (c : Cursor) → valid_cursor c ≡ true → find (put t k c) k ≡ row (some c)
unfolding find
find-put t k c v = rw (eqb_refl k, v)

confirm_exact :
    (c : Cursor) (m : Text) → confirm c m healthy (row (some c)) ≡ wrote accepted (some c) (text "")
unfolding confirm
confirm_exact c m = rw (same_cursor_refl c)

matches_exact :
    (t : Table) (e c : Cursor) → t e.scope ≡ some c → c.revision ≡ e.revision → matches t e ≡ true
unfolding matches
matches_exact t e c p q = ground arith

update_row_exact :
    (t : Table) (e r : Cursor)
    → matches t e ≡ true
    → e.scope ≡ r.scope
    → valid_cursor r ≡ true
    → update_row t healthy e r ≡ (put t e.scope r, wrote accepted (some r) (text ""))
unfolding update_row
update_row_exact t e r m s v =
    rw (m, same_scope e r s, find-put t e.scope r v, confirm_exact r) refl

-- Without a fault, a canonical transition over the row that has the expected revision is durable and
-- is acknowledged with the replacement.
pub replace_commits :
    (t : Table) (e r c : Cursor)
    → valid_transition e r ≡ true
    → t e.scope ≡ some c
    → c.revision ≡ e.revision
    → replace t healthy e r ≡ (put t e.scope r, wrote accepted (some r) (text ""))
unfolding replace
replace_commits t e r c ok s q = rw ok (
    update_row_exact t e r (matches_exact t e c s q) (step_identity e r ok).0 (step_valid e r ok).1)

unchanged_result : (r : Cursor) (found : Found) → (unchanged r found).result ≢ accepted
unfolding unchanged
unchanged_result r (throws what) = cc
unchanged_result r (row none) = cc
unchanged_result r (row (some c)) = ground arith

-- What a reply of `replace` says of the table before and after.
abbrev pub Tells : Table → Cursor → Cursor → Table × StoreWrite → Type 0
Tells t e r out =
    (out.1.result ≡ accepted
      → (out.0 ≡ put t e.scope r)
        × ((c : Cursor) × (t e.scope ≡ some c) × (c.revision ≡ e.revision)))
    × (out.1.result ≢ accepted → out.1.result ≢ unavailable → out.0 ≡ t)

update_row_missed :
    (t : Table) (f : Fault) (e r : Cursor) → matches t e ≡ false → Tells t e r (update_row t f e r)
unfolding update_row
update_row_missed t f e r m =
    rw m (λ a. absurd (unchanged_result r (find t e.scope) a), λ n u. refl)

update_row_after :
    (t : Table) (w : Text) (e r : Cursor)
    → (update_row t (after_commit w) e r).1.result ≡ unavailable ⊎ (matches t e ≡ false)
unfolding update_row confirm
update_row_after t w e r = ground arith

module _ (t : Table) (e r : Cursor) (ok : valid_transition e r ≡ true) where
  transaction-Tells : (f : Fault) → Tells t e r (transaction t f (update_row t f e r))
  transaction-Tells (before_commit what) = (λ a. cc, λ n u. absurd (u refl))
  transaction-Tells healthy = elim (Bool-cases (matches t e)) [
    | inr m ↦ update_row_missed t healthy e r m
    | inl m ↦
        rw (update_row_exact t e r m (step_identity e r ok).0 (step_valid e r ok).1)
          (λ a. (refl, matches_row t e m), λ n u. absurd (n refl))
  ]
  transaction-Tells (after_commit what) = elim (update_row_after t what e r) [
    | inl u ↦ (λ a. cc, λ n v. absurd (v u))
    | inr m ↦ update_row_missed t (after_commit what) e r m
  ]

-- Whatever the fault: an accepted replacement is durable and replaced the row that has the expected
-- revision; any other reply but `unavailable` has left the table as it was.
pub replace-Tells : (t : Table) (f : Fault) (e r : Cursor) → Tells t e r (replace t f e r)
unfolding replace
replace-Tells t f e r = elim (Bool-cases (valid_transition e r)) [
  | inl ok ↦ rw ok (transaction-Tells t e r ok f)
  | inr bad ↦ rw bad (λ a. cc, λ n u. refl)
]
