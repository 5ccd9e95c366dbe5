-- ===== src/Responder/Store/ReconcileSteps.antt =====
-- acknowledge_disposition, complete_disposition and terminalize_disposition of
-- src/LocalGooseDialogueResponderStore.cpp change the tables as Change allows.
use gaudere_agent.Prelude.{
  ◌≡◌, refl, inl, inr, not, ◌||◌, Option, none, some, ltb, empty, length, Bool-cases, ℤ, pos, ltb_ℤ,
}
use gaudere_agent.Text.{Text, prefixed_sha256}
use gaudere_agent.Sidecar.{Fault}
use gaudere_agent.Sidecar.Rows.{find_row}
use gaudere_agent.Sidecar.Rules.{Gives, gives, Gives-any, Gives-bind, transaction-keeps}
use gaudere_agent.Responder.Lease.{max_reason_bytes}
use gaudere_agent.Responder.Disposition.{
  Disposition, prepared, acknowledged, completed, disposition_prefix, is_intervention,
}
use gaudere_agent.Responder.Store.{
  Ledger, failed, disposition_key, disposition_in, find_intent_row, find_disposition_row,
}
use gaudere_agent.Responder.Store.Reconcile.{
  reconciled_disposition, already_reconciled, complete_disposition_conflicts, incomplete_intent,
  terminal_disposition, terminal_conflicts, already_terminal, acknowledge_found,
  acknowledge_disposition, find_bound_intent, complete_disposition_found, complete_disposition,
  terminalize_disposition_found, terminalize_disposition,
}
use gaudere_agent.Responder.Store.Change.{Change, same}
use gaudere_agent.Responder.Store.LeaseSteps.{Steps}
use gaudere_agent.Responder.Store.DispositionSteps.{
  find_disposition_row-Reads, move_disposition-Steps,
}

module _ (sha256_hex : Text → Text) where
  acknowledge_found-Steps :
      (l : Ledger) (at : ℤ) (id : Text) (o : Option Disposition)
      → find_row disposition_key id l.dispositions ≡ o
      → Gives (Steps sha256_hex l) (acknowledge_found sha256_hex l at o)
  unfolding acknowledge_found reconciled_disposition
  acknowledge_found-Steps l at id none e = gives same
  acknowledge_found-Steps l at id (some d) e =
      elim (Bool-cases (already_reconciled d acknowledged at)) [
        | inl again ↦ rw again (gives same)
        | inr fresh ↦
            elim (Bool-cases (
              not (disposition_in prepared d)
              || is_intervention d.kind
              || ltb_ℤ at d.created_at_ms)) [
                | inl bad ↦ rw (fresh, bad) (gives same)
                | inr good ↦
                    rw (fresh, good)
                      (move_disposition-Steps sha256_hex l d
                        (reconciled_disposition d acknowledged at) _ _ id e refl refl refl refl)
              ]
      ]

  pub acknowledge_disposition-Steps :
      (l : Ledger) (f : Fault) (id : Text) (at : ℤ)
      → Change sha256_hex l (acknowledge_disposition sha256_hex l f id at).0
  unfolding acknowledge_disposition
  acknowledge_disposition-Steps l f id at =
      elim (Bool-cases (not (prefixed_sha256 id disposition_prefix) || ltb_ℤ at (pos 0))) [
        | inl bad ↦ rw bad same
        | inr good ↦ rw good (
            transaction-keeps (Change sha256_hex l) failed l f _ same (
              Gives-bind (Steps sha256_hex l) (find_disposition_row sha256_hex l id) _
                (find_disposition_row-Reads sha256_hex l id)
                (λ o r. acknowledge_found-Steps l at id o r.0)))
      ]

  find_bound_intent-Gives :
      (l : Ledger) (o : Option Text) → Gives (λ _. Unit {0}) (find_bound_intent sha256_hex l o)
  unfolding find_bound_intent
  find_bound_intent-Gives l none = gives tt
  find_bound_intent-Gives l (some id) = Gives-any (find_intent_row sha256_hex l id)

  complete_disposition_found-Steps :
      (l : Ledger) (at : ℤ) (id : Text) (o : Option Disposition)
      → find_row disposition_key id l.dispositions ≡ o
      → Gives (Steps sha256_hex l) (complete_disposition_found sha256_hex l at o)
  unfolding complete_disposition_found reconciled_disposition
  complete_disposition_found-Steps l at id none e = gives same
  complete_disposition_found-Steps l at id (some d) e =
      elim (Bool-cases (already_reconciled d completed at)) [
        | inl again ↦ rw again (gives same)
        | inr fresh ↦ elim (Bool-cases (complete_disposition_conflicts d at)) [
          | inl bad ↦ rw (fresh, bad) (gives same)
          | inr good ↦
              rw (fresh, good)
                (Gives-bind (Steps sha256_hex l) (find_bound_intent sha256_hex l d.intent_id) _
                  (find_bound_intent-Gives l d.intent_id)
                  (λ intent r. elim (Bool-cases (incomplete_intent intent at)) [
                    | inl unfinished ↦ rw unfinished (gives same)
                    | inr done ↦ rw done (
                        move_disposition-Steps sha256_hex l d
                          (reconciled_disposition d completed at) _ _ id e refl refl refl refl)
                  ]))
        ]
      ]

  pub complete_disposition-Steps :
      (l : Ledger) (f : Fault) (id : Text) (at : ℤ)
      → Change sha256_hex l (complete_disposition sha256_hex l f id at).0
  unfolding complete_disposition
  complete_disposition-Steps l f id at =
      elim (Bool-cases (not (prefixed_sha256 id disposition_prefix) || ltb_ℤ at (pos 0))) [
        | inl bad ↦ rw bad same
        | inr good ↦ rw good (
            transaction-keeps (Change sha256_hex l) failed l f _ same (
              Gives-bind (Steps sha256_hex l) (find_disposition_row sha256_hex l id) _
                (find_disposition_row-Reads sha256_hex l id)
                (λ o r. complete_disposition_found-Steps l at id o r.0)))
      ]

  terminalize_disposition_found-Steps :
      (l : Ledger) (reason : Text) (at : ℤ) (id : Text) (o : Option Disposition)
      → find_row disposition_key id l.dispositions ≡ o
      → Gives (Steps sha256_hex l) (terminalize_disposition_found sha256_hex l reason at o)
  unfolding terminalize_disposition_found terminal_disposition
  terminalize_disposition_found-Steps l reason at id none e = gives same
  terminalize_disposition_found-Steps l reason at id (some d) e =
      elim (Bool-cases (already_terminal d reason at)) [
        | inl again ↦ rw again (gives same)
        | inr fresh ↦ elim (Bool-cases (terminal_conflicts d at)) [
          | inl bad ↦ rw (fresh, bad) (gives same)
          | inr good ↦
              rw (fresh, good)
                (move_disposition-Steps sha256_hex l d (terminal_disposition d reason at) _ _ id e
                  refl refl refl refl)
        ]
      ]

  pub terminalize_disposition-Steps :
      (l : Ledger) (f : Fault) (id : Text) (reason : Text) (at : ℤ)
      → Change sha256_hex l (terminalize_disposition sha256_hex l f id reason at).0
  unfolding terminalize_disposition
  terminalize_disposition-Steps l f id reason at =
      elim (Bool-cases (
        not (prefixed_sha256 id disposition_prefix)
        || empty reason
        || ltb max_reason_bytes (length reason)
        || ltb_ℤ at (pos 0))) [
          | inl bad ↦ rw bad same
          | inr good ↦ rw good (
              transaction-keeps (Change sha256_hex l) failed l f _ same (
                Gives-bind (Steps sha256_hex l) (find_disposition_row sha256_hex l id) _
                  (find_disposition_row-Reads sha256_hex l id)
                  (λ o r. terminalize_disposition_found-Steps l reason at id o r.0)))
        ]
