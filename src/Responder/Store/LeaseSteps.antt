-- ===== src/Responder/Store/LeaseSteps.antt =====
-- create_lease and close_lease of src/LocalGooseDialogueResponderStore.cpp change the tables as Change allows.
use gaudere_agent.Prelude.{
  ◌≡◌, refl, inl, inr, true, false, not, ◌||◌, Option, none, some, arith, ltb, empty, length,
  Bool-cases, ℤ, pos, ltb_ℤ,
}
use gaudere_agent.Text.{Text, safe_identifier}
use gaudere_agent.Sidecar.{Fault}
use gaudere_agent.Sidecar.Rows.{find_row, find_where, find_row_again}
use gaudere_agent.Sidecar.Rules.{Gives, gives, fails, Gives-bind, Gives-then, transaction-keeps}
use gaudere_agent.Responder.Lease.{Lease, LeaseState, active, valid_lease, max_reason_bytes}
use gaudere_agent.Responder.Store.{
  Ledger, failed, lease_key, lease_in, active_on, find_lease_row, find_active_row, update_lease,
}
use gaudere_agent.Responder.Store.Leases.{
  create_unless_active, create_unless_found, bad_new_lease, create_lease, closing_state,
  closed_lease, already_closed, close_conflicts, close_found, close_lease,
}
use gaudere_agent.Responder.Store.Change.{
  Change, same, leased, lease_closed, Reads, read_lease-Reads, update_lease-Gives,
}

abbrev pub Steps : {W : Type 0} → (Text → Text) → Ledger → Ledger × W → Type 0
Steps sha256_hex l done = Change sha256_hex l done.0

pub find_lease_row-Reads :
    (l : Ledger) (lease_id : Text)
    → Reads valid_lease (find_row lease_key lease_id l.leases) (find_lease_row l lease_id)
unfolding find_lease_row
find_lease_row-Reads l lease_id = read_lease-Reads (find_row lease_key lease_id l.leases)

find_active_row-Reads :
    (l : Ledger) (alias : Text)
    → Reads valid_lease (find_where (active_on alias) l.leases) (find_active_row l alias)
unfolding find_active_row
find_active_row-Reads l alias = read_lease-Reads (find_where (active_on alias) l.leases)

closing-inactive :
    (lease : Lease) → closing_state lease.state ≡ true → lease_in active lease ≡ false
unfolding closing_state
closing-inactive lease c = elim (Bool-cases (lease_in active lease)) [
  | inl y ↦ ground arith
  | inr n ↦ n
]

module _ (sha256_hex : Text → Text) where
  create_unless_active-Steps :
      (l : Ledger) (lease : Lease) (o : Option Lease)
      → bad_new_lease lease ≡ false
      → find_row lease_key lease.lease_id l.leases ≡ none
      → find_where (active_on lease.thread_alias) l.leases ≡ o
      → Gives (Steps sha256_hex l) (create_unless_active l lease o)
  unfolding create_unless_active bad_new_lease
  create_unless_active-Steps l lease (some other) g n e = gives same
  create_unless_active-Steps l lease none g n e =
      gives (leased lease (ground arith) (ground arith) (ground arith) n e)

  create_unless_found-Steps :
      (l : Ledger) (lease : Lease) (o : Option Lease)
      → bad_new_lease lease ≡ false
      → find_row lease_key lease.lease_id l.leases ≡ o
      → Gives (Steps sha256_hex l) (create_unless_found l lease o)
  unfolding create_unless_found
  create_unless_found-Steps l lease (some existing) g e = gives same
  create_unless_found-Steps l lease none g e =
      Gives-bind (Steps sha256_hex l) (find_active_row l lease.thread_alias) _
        (find_active_row-Reads l lease.thread_alias)
        (λ o r. create_unless_active-Steps l lease o g e r.0)

  pub create_lease-Steps :
      (l : Ledger) (f : Fault) (lease : Lease) → Change sha256_hex l (create_lease l f lease).0
  unfolding create_lease
  create_lease-Steps l f lease = elim (Bool-cases (bad_new_lease lease)) [
    | inl bad ↦ rw bad same
    | inr good ↦ rw good (
        transaction-keeps (Change sha256_hex l) failed l f _ same (
          Gives-bind (Steps sha256_hex l) (find_lease_row l lease.lease_id) _
            (find_lease_row-Reads l lease.lease_id)
            (λ o r. create_unless_found-Steps l lease o good r.0)))
  ]

  close_found-Steps :
      (l : Ledger) (state : LeaseState) (reason : Text) (at : ℤ) (id : Text) (o : Option Lease)
      → closing_state state ≡ true
      → find_row lease_key id l.leases ≡ o
      → Gives (Steps sha256_hex l) (close_found l state reason at o)
  unfolding close_found closed_lease
  close_found-Steps l state reason at id none c e = gives same
  close_found-Steps l state reason at id (some lease) c e =
      let new = closed_lease lease state reason at in
      elim (Bool-cases (already_closed lease state reason at)) [
        | inl again ↦ rw again (gives same)
        | inr fresh ↦ elim (Bool-cases (close_conflicts lease state at)) [
          | inl bad ↦ rw (fresh, bad) (gives same)
          | inr good ↦ elim (Bool-cases (valid_lease new)) [
            | inr broken ↦ rw (fresh, good, broken) fails
            | inl v ↦
                rw (fresh, good, v)
                  (Gives-then _ (Steps sha256_hex l)
                    (update_lease l new lease.state lease.turns_committed) _
                    (update_lease-Gives l new lease.state lease.turns_committed)
                    (gives (
                      lease_closed lease new v (find_row_again lease_key id l.leases lease e) refl
                        (closing-inactive new c))))
          ]
        ]
      ]

  pub close_lease-Steps :
      (l : Ledger) (f : Fault) (id : Text) (state : LeaseState) (reason : Text) (at : ℤ)
      → Change sha256_hex l (close_lease l f id state reason at).0
  unfolding close_lease
  close_lease-Steps l f id state reason at =
      elim (Bool-cases (
        not (safe_identifier id)
        || not (closing_state state)
        || empty reason
        || ltb max_reason_bytes (length reason)
        || ltb_ℤ at (pos 0))) [
          | inl bad ↦ rw bad same
          | inr good ↦ rw good (
              transaction-keeps (Change sha256_hex l) failed l f _ same (
                Gives-bind (Steps sha256_hex l) (find_lease_row l id) _ (find_lease_row-Reads l id)
                  (λ o r. close_found-Steps l state reason at id o (ground arith) r.0)))
        ]
