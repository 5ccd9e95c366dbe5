-- ===== src/Responder/Store/IntentSteps.antt =====
-- prepare_intent, complete_intent and terminalize_intent of
-- src/LocalGooseDialogueResponderStore.cpp change the tables as Change allows.
use gaudere_agent.Prelude.{
  ◌≡◌, refl, inl, inr, true, false, not, ◌&&◌, ◌||◌, Option, none, some, ◌∷◌, arith, ltb, ◌==◌,
  empty, length, same_option, Bool-cases, ℤ, pos, eqb_ℤ, ltb_ℤ,
}
use gaudere_agent.Text.{Text, eqb, prefixed_sha256}
use gaudere_agent.Sidecar.{Fault}
use gaudere_agent.Sidecar.Rows.{find_row, find_where, find_row_again}
use gaudere_agent.Sidecar.Rules.{Gives, gives, fails, Gives-bind, Gives-then, transaction-keeps}
use gaudere_agent.Responder.Lease.{Lease, max_reason_bytes}
use gaudere_agent.Responder.Intent.{
  Intent, IntentState, prepared, completed, valid_intent, valid_intent_in, refused_intent,
  foreign_intent, refused_submission, complete_submission, intent_prefix,
}
use gaudere_agent.Responder.Store.{
  Ledger, failed, lease_key, intent_key, intent_in, triggered_by, find_intent_row,
  find_trigger_intent, find_lease_row, update_intent, intent_state_number,
}
use gaudere_agent.Responder.Store.Intents.{
  not_admitted, requested, insert_intent, prepare_admitted, prepare_unless_triggered,
  complete_conflicts, completed_intent, ending_state, may_end, ended_intent, prepare_unless_found,
  prepare_intent, move_intent, complete_found, complete_intent, terminalize_found,
  terminalize_intent,
}
use gaudere_agent.Responder.Store.Change.{
  Change, same, intent_prepared, intent_moved, Reads, read_intent-Reads, update_intent-Gives,
}
use gaudere_agent.Responder.Store.LeaseSteps.{Steps, find_lease_row-Reads}

insert_intent-Gives :
    (l : Ledger) (intent : Intent)
    → Gives (λ t. t ≡ record l { intents = intent ∷ l.intents }) (insert_intent l intent)
unfolding insert_intent
insert_intent-Gives l intent = elim (Bool-cases (requested intent.request_id l.intents)) [
  | inl y ↦ rw y fails
  | inr n ↦ rw n (gives refl)
]

prepared_state : (state : IntentState) → (intent_state_number state == 0) ≡ true → state ≡ prepared
prepared_state IntentState.prepared e = refl
prepared_state IntentState.submitted e = cc
prepared_state IntentState.completed e = cc
prepared_state IntentState.conflict e = cc
prepared_state IntentState.expired e = cc
prepared_state IntentState.manual_review e = cc

module _ (sha256_hex : Text → Text) where
  pub find_intent_row-Reads :
      (l : Ledger) (id : Text)
      → Reads
          (valid_intent sha256_hex)
          (find_row intent_key id l.intents)
          (find_intent_row sha256_hex l id)
  unfolding find_intent_row
  find_intent_row-Reads l id = read_intent-Reads sha256_hex (find_row intent_key id l.intents)

  find_trigger_intent-Reads :
      (l : Ledger) (lease_id event_id : Text)
      → Reads
          (valid_intent sha256_hex)
          (find_where (triggered_by lease_id event_id) l.intents)
          (find_trigger_intent sha256_hex l lease_id event_id)
  unfolding find_trigger_intent
  find_trigger_intent-Reads l lease_id event_id =
      read_intent-Reads sha256_hex (find_where (triggered_by lease_id event_id) l.intents)

  pub valid_here :
      (i : Intent) → valid_intent sha256_hex i ≡ true → valid_intent_in i.state i ≡ true
  unfolding valid_intent
  valid_here i v =
      elim (Bool-cases (refused_intent i || foreign_intent sha256_hex i || refused_submission i)) [
        | inl bad ↦ cc (rw bad at v)
        | inr good ↦ rw good at v
      ]

  pub prepared-blank :
      (i : Intent)
      → valid_intent sha256_hex i ≡ true
      → intent_in prepared i ≡ true
      → complete_submission i ≡ false
  unfolding valid_intent_in
  prepared-blank i v p =
      let here = rw (prepared_state i.state p) at (valid_here i v) in ground arith

  prepare_admitted-Steps :
      (l : Ledger) (intent : Intent) (o : Option Lease)
      → valid_intent sha256_hex intent ≡ true
      → complete_submission intent ≡ false
      → find_row intent_key intent.intent_id l.intents ≡ none
      → find_where (triggered_by intent.lease_id intent.event_id) l.intents ≡ none
      → find_row lease_key intent.lease_id l.leases ≡ o
      → Gives (Steps sha256_hex l) (prepare_admitted l intent o)
  unfolding prepare_admitted
  prepare_admitted-Steps l intent none v c i t e = gives same
  prepare_admitted-Steps l intent (some lease) v c i t e =
      elim (Bool-cases (not_admitted intent lease)) [
        | inl bad ↦ rw bad (gives same)
        | inr good ↦ rw good (
            Gives-then _ (Steps sha256_hex l) (insert_intent l intent) _
              (insert_intent-Gives l intent) (gives (intent_prepared intent lease v c i t e)))
      ]

  prepare_unless_triggered-Steps :
      (l : Ledger) (intent : Intent) (o : Option Intent)
      → valid_intent sha256_hex intent ≡ true
      → complete_submission intent ≡ false
      → find_row intent_key intent.intent_id l.intents ≡ none
      → find_where (triggered_by intent.lease_id intent.event_id) l.intents ≡ o
      → Gives (Steps sha256_hex l) (prepare_unless_triggered l intent o)
  unfolding prepare_unless_triggered
  prepare_unless_triggered-Steps l intent (some trigger) v c i t = gives same
  prepare_unless_triggered-Steps l intent none v c i t =
      Gives-bind (Steps sha256_hex l) (find_lease_row l intent.lease_id) _
        (find_lease_row-Reads l intent.lease_id)
        (λ o r. prepare_admitted-Steps l intent o v c i t r.0)

  prepare_unless_found-Steps :
      (l : Ledger) (intent : Intent) (o : Option Intent)
      → valid_intent sha256_hex intent ≡ true
      → complete_submission intent ≡ false
      → find_row intent_key intent.intent_id l.intents ≡ o
      → Gives (Steps sha256_hex l) (prepare_unless_found sha256_hex l intent o)
  unfolding prepare_unless_found
  prepare_unless_found-Steps l intent (some existing) v c e = gives same
  prepare_unless_found-Steps l intent none v c e =
      Gives-bind (Steps sha256_hex l)
        (find_trigger_intent sha256_hex l intent.lease_id intent.event_id) _
        (find_trigger_intent-Reads l intent.lease_id intent.event_id)
        (λ o r. prepare_unless_triggered-Steps l intent o v c e r.0)

  pub prepare_intent-Steps :
      (l : Ledger) (f : Fault) (intent : Intent)
      → Change sha256_hex l (prepare_intent sha256_hex l f intent).0
  unfolding prepare_intent
  prepare_intent-Steps l f intent =
      elim (Bool-cases (not (valid_intent sha256_hex intent) || not (intent_in prepared intent))) [
        | inl bad ↦ rw bad same
        | inr good ↦ rw good (
            transaction-keeps (Change sha256_hex l) failed l f _ same (
              Gives-bind (Steps sha256_hex l) (find_intent_row sha256_hex l intent.intent_id) _
                (find_intent_row-Reads l intent.intent_id)
                (λ o r.
                  prepare_unless_found-Steps l intent o (ground arith)
                    (prepared-blank intent (ground arith) (ground arith)) r.0)))
      ]

  move_intent-Steps :
      (l : Ledger) (old new : Intent) (broken done id : Text)
      → find_row intent_key id l.intents ≡ some old
      → new.intent_id ≡ old.intent_id
      → new.lease_id ≡ old.lease_id
      → new.event_id ≡ old.event_id
      → complete_submission new ≡ complete_submission old
      → Gives (Steps sha256_hex l) (move_intent sha256_hex l old new broken done)
  unfolding move_intent
  move_intent-Steps l old new broken done id e a b c d =
      elim (Bool-cases (valid_intent sha256_hex new)) [
        | inr bad ↦ rw bad fails
        | inl v ↦ rw v (
            Gives-then _ (Steps sha256_hex l) (update_intent l new old.state) _
              (update_intent-Gives l new old.state)
              (gives (
                intent_moved old new v (rw a (find_row_again intent_key id l.intents old e)) b c
                  d)))
      ]

  complete_found-Steps :
      (l : Ledger) (at : ℤ) (id : Text) (o : Option Intent)
      → find_row intent_key id l.intents ≡ o
      → Gives (Steps sha256_hex l) (complete_found sha256_hex l at o)
  unfolding complete_found completed_intent complete_submission
  complete_found-Steps l at id none e = gives same
  complete_found-Steps l at id (some intent) e =
      elim (Bool-cases
        (intent_in completed intent && same_option eqb_ℤ intent.completed_at_ms (some at))) [
          | inl again ↦ rw again (gives same)
          | inr fresh ↦ elim (Bool-cases (complete_conflicts intent at)) [
            | inl bad ↦ rw (fresh, bad) (gives same)
            | inr good ↦
                rw (fresh, good)
                  (move_intent-Steps l intent (completed_intent intent at) _ _ id e refl refl refl
                    refl)
          ]
        ]

  pub complete_intent-Steps :
      (l : Ledger) (f : Fault) (id : Text) (at : ℤ)
      → Change sha256_hex l (complete_intent sha256_hex l f id at).0
  unfolding complete_intent
  complete_intent-Steps l f id at =
      elim (Bool-cases (not (prefixed_sha256 id intent_prefix) || ltb_ℤ at (pos 0))) [
        | inl bad ↦ rw bad same
        | inr good ↦ rw good (
            transaction-keeps (Change sha256_hex l) failed l f _ same (
              Gives-bind (Steps sha256_hex l) (find_intent_row sha256_hex l id) _
                (find_intent_row-Reads l id) (λ o r. complete_found-Steps l at id o r.0)))
      ]

  terminalize_found-Steps :
      (l : Ledger) (state : IntentState) (reason id : Text) (o : Option Intent)
      → find_row intent_key id l.intents ≡ o
      → Gives (Steps sha256_hex l) (terminalize_found sha256_hex l state reason o)
  unfolding terminalize_found ended_intent complete_submission
  terminalize_found-Steps l state reason id none e = gives same
  terminalize_found-Steps l state reason id (some intent) e =
      elim (Bool-cases (intent_in state intent && eqb intent.terminal_reason reason)) [
        | inl again ↦ rw again (gives same)
        | inr fresh ↦ elim (Bool-cases (may_end intent state)) [
          | inr bad ↦ rw (fresh, bad) (gives same)
          | inl good ↦
              rw (fresh, good)
                (move_intent-Steps l intent (ended_intent intent state reason) _ _ id e refl refl
                  refl refl)
        ]
      ]

  pub terminalize_intent-Steps :
      (l : Ledger) (f : Fault) (id : Text) (state : IntentState) (reason : Text)
      → Change sha256_hex l (terminalize_intent sha256_hex l f id state reason).0
  unfolding terminalize_intent
  terminalize_intent-Steps l f id state reason =
      elim (Bool-cases (
        not (prefixed_sha256 id intent_prefix)
        || not (ending_state state)
        || empty reason
        || ltb max_reason_bytes (length reason))) [
          | inl bad ↦ rw bad same
          | inr good ↦ rw good (
              transaction-keeps (Change sha256_hex l) failed l f _ same (
                Gives-bind (Steps sha256_hex l) (find_intent_row sha256_hex l id) _
                  (find_intent_row-Reads l id)
                  (λ o r. terminalize_found-Steps l state reason id o r.0)))
        ]
