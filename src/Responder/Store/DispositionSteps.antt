-- ===== src/Responder/Store/DispositionSteps.antt =====
-- prepare_disposition and bind_disposition_intent of src/LocalGooseDialogueResponderStore.cpp change the tables
-- as Change allows.
use gaudere_agent.Prelude.{
  ℕ, ◌≡◌, refl, inl, inr, true, not, ◌||◌, Option, none, some, arith, Bool-cases, ℤ, pos, ltb_ℤ,
}
use gaudere_agent.Text.{Text, prefixed_sha256}
use gaudere_agent.Sidecar.{Fault}
use gaudere_agent.Sidecar.Rows.{find_row, find_where, find_row_again}
use gaudere_agent.Sidecar.Rules.{Gives, gives, fails, Gives-bind, Gives-then, transaction-keeps}
use gaudere_agent.Responder.Intent.{intent_prefix}
use gaudere_agent.Responder.Disposition.{
  Disposition, prepared, valid_disposition, disposition_prefix,
}
use gaudere_agent.Responder.Store.{
  Ledger, failed, disposition_key, disposition_in, for_event, for_sequence, same_disposition,
  find_intent_row, find_disposition_row, find_event_row, find_sequence_row, update_disposition,
}
use gaudere_agent.Responder.Store.Dispositions.{
  prepare_unless_sequence, bind_conflicts, already_bound, bound_disposition, prepare_unless_event,
  prepare_unless_known, prepare_disposition, move_disposition, bind_found, bind_disposition_intent,
}
use gaudere_agent.Responder.Store.Change.{
  Change, same, disposition_added, disposition_moved, Reads, read_disposition-Reads,
  update_disposition-Gives,
}
use gaudere_agent.Responder.Store.LeaseSteps.{Steps}
use gaudere_agent.Responder.Store.IntentSteps.{find_intent_row-Reads}

module _ (sha256_hex : Text → Text) where
  pub find_disposition_row-Reads :
      (l : Ledger) (id : Text)
      → Reads
          (valid_disposition sha256_hex)
          (find_row disposition_key id l.dispositions)
          (find_disposition_row sha256_hex l id)
  unfolding find_disposition_row
  find_disposition_row-Reads l id =
      read_disposition-Reads sha256_hex (find_row disposition_key id l.dispositions)

  find_event_row-Reads :
      (l : Ledger) (consumer event : Text)
      → Reads
          (valid_disposition sha256_hex)
          (find_where (for_event consumer event) l.dispositions)
          (find_event_row sha256_hex l consumer event)
  unfolding find_event_row
  find_event_row-Reads l consumer event =
      read_disposition-Reads sha256_hex (find_where (for_event consumer event) l.dispositions)

  find_sequence_row-Reads :
      (l : Ledger) (consumer : Text) (sequence : ℕ)
      → Reads
          (valid_disposition sha256_hex)
          (find_where (for_sequence consumer sequence) l.dispositions)
          (find_sequence_row sha256_hex l consumer sequence)
  unfolding find_sequence_row
  find_sequence_row-Reads l consumer sequence =
      read_disposition-Reads sha256_hex (find_where (for_sequence consumer sequence) l.dispositions)

  prepare_unless_sequence-Steps :
      (l : Ledger) (d : Disposition) (o : Option Disposition)
      → valid_disposition sha256_hex d ≡ true
      → find_row disposition_key d.disposition_id l.dispositions ≡ none
      → find_where (for_event d.consumer_id d.event_id) l.dispositions ≡ none
      → find_where (for_sequence d.consumer_id d.completion_sequence) l.dispositions ≡ o
      → Gives (Steps sha256_hex l) (prepare_unless_sequence l d o)
  unfolding prepare_unless_sequence
  prepare_unless_sequence-Steps l d (some sequence) v i e s = gives same
  prepare_unless_sequence-Steps l d none v i e s = gives (disposition_added d v i e s)

  prepare_unless_event-Steps :
      (l : Ledger) (d : Disposition) (o : Option Disposition)
      → valid_disposition sha256_hex d ≡ true
      → find_row disposition_key d.disposition_id l.dispositions ≡ none
      → find_where (for_event d.consumer_id d.event_id) l.dispositions ≡ o
      → Gives (Steps sha256_hex l) (prepare_unless_event sha256_hex l d o)
  unfolding prepare_unless_event
  prepare_unless_event-Steps l d (some event) v i e = gives same
  prepare_unless_event-Steps l d none v i e =
      Gives-bind (Steps sha256_hex l)
        (find_sequence_row sha256_hex l d.consumer_id d.completion_sequence) _
        (find_sequence_row-Reads l d.consumer_id d.completion_sequence)
        (λ o r. prepare_unless_sequence-Steps l d o v i e r.0)

  prepare_unless_known-Steps :
      (l : Ledger) (d : Disposition) (o : Option Disposition)
      → valid_disposition sha256_hex d ≡ true
      → find_row disposition_key d.disposition_id l.dispositions ≡ o
      → Gives (Steps sha256_hex l) (prepare_unless_known sha256_hex l d o)
  unfolding prepare_unless_known
  prepare_unless_known-Steps l d (some existing) v i =
      elim (Bool-cases (same_disposition existing d)) [
        | inl y ↦ rw y (gives same)
        | inr n ↦ rw n (gives same)
      ]
  prepare_unless_known-Steps l d none v i =
      Gives-bind (Steps sha256_hex l) (find_event_row sha256_hex l d.consumer_id d.event_id) _
        (find_event_row-Reads l d.consumer_id d.event_id)
        (λ o r. prepare_unless_event-Steps l d o v i r.0)

  pub prepare_disposition-Steps :
      (l : Ledger) (f : Fault) (d : Disposition)
      → Change sha256_hex l (prepare_disposition sha256_hex l f d).0
  unfolding prepare_disposition
  prepare_disposition-Steps l f d =
      elim (Bool-cases (not (valid_disposition sha256_hex d) || not (disposition_in prepared d))) [
        | inl bad ↦ rw bad same
        | inr good ↦ rw good (
            transaction-keeps (Change sha256_hex l) failed l f _ same (
              Gives-bind (Steps sha256_hex l) (find_disposition_row sha256_hex l d.disposition_id) _
                (find_disposition_row-Reads l d.disposition_id)
                (λ o r. prepare_unless_known-Steps l d o (ground arith) r.0)))
      ]

  pub move_disposition-Steps :
      (l : Ledger) (old new : Disposition) (broken done id : Text)
      → find_row disposition_key id l.dispositions ≡ some old
      → new.disposition_id ≡ old.disposition_id
      → new.consumer_id ≡ old.consumer_id
      → new.event_id ≡ old.event_id
      → new.completion_sequence ≡ old.completion_sequence
      → Gives (Steps sha256_hex l) (move_disposition sha256_hex l old new broken done)
  unfolding move_disposition
  move_disposition-Steps l old new broken done id e a b c d =
      elim (Bool-cases (valid_disposition sha256_hex new)) [
        | inr bad ↦ rw bad fails
        | inl v ↦ rw v (
            Gives-then _ (Steps sha256_hex l) (update_disposition l new old.state) _
              (update_disposition-Gives l new old.state)
              (gives (
                disposition_moved old new v
                  (rw a (find_row_again disposition_key id l.dispositions old e)) b c d)))
      ]

  bind_found-Steps :
      (l : Ledger) (intent_id : Text) (at : ℤ) (id : Text) (o : Option Disposition)
      → find_row disposition_key id l.dispositions ≡ o
      → Gives (Steps sha256_hex l) (bind_found sha256_hex l intent_id at o)
  unfolding bind_found bound_disposition
  bind_found-Steps l intent_id at id none e = gives same
  bind_found-Steps l intent_id at id (some d) e = elim (Bool-cases (already_bound d intent_id at)) [
    | inl again ↦ rw again (gives same)
    | inr fresh ↦ rw fresh (
        Gives-bind (Steps sha256_hex l) (find_intent_row sha256_hex l intent_id) _
          (find_intent_row-Reads sha256_hex l intent_id)
          (λ intent r. elim (Bool-cases (bind_conflicts d intent at)) [
            | inl bad ↦ rw bad (gives same)
            | inr good ↦ rw good (
                move_disposition-Steps l d (bound_disposition d intent_id at) _ _ id e refl refl
                  refl refl)
          ]))
  ]

  pub bind_disposition_intent-Steps :
      (l : Ledger) (f : Fault) (id : Text) (intent_id : Text) (at : ℤ)
      → Change sha256_hex l (bind_disposition_intent sha256_hex l f id intent_id at).0
  unfolding bind_disposition_intent
  bind_disposition_intent-Steps l f id intent_id at =
      elim (Bool-cases (
        not (prefixed_sha256 id disposition_prefix)
        || not (prefixed_sha256 intent_id intent_prefix)
        || ltb_ℤ at (pos 0))) [
          | inl bad ↦ rw bad same
          | inr good ↦ rw good (
              transaction-keeps (Change sha256_hex l) failed l f _ same (
                Gives-bind (Steps sha256_hex l) (find_disposition_row sha256_hex l id) _
                  (find_disposition_row-Reads l id)
                  (λ o r. bind_found-Steps l intent_id at id o r.0)))
        ]
