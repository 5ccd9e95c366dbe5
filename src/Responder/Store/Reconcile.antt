-- ===== src/Responder/Store/Reconcile.antt =====
-- acknowledge_disposition, complete_disposition and terminalize_disposition of
-- src/LocalGooseDialogueResponderStore.cpp.
use gaudere_agent.Prelude.{
  Bool, true, not, ◌&&◌, ◌||◌, Option, none, some, ltb, if◌then◌else◌, empty, length, same_option,
  is_some, holds, ℤ, pos, eqb_ℤ, ltb_ℤ,
}
use gaudere_agent.Text.{Text, text, eqb, prefixed_sha256}
use gaudere_agent.Sidecar.{Fault, Query, answer, ◌>>=◌, transaction}
use gaudere_agent.Responder.Lease.{max_reason_bytes}
use gaudere_agent.Responder.Intent.{Intent, IntentState}
use gaudere_agent.Responder.Disposition.{
  Disposition, DispositionState, prepared, acknowledged, intervention_bound, completed,
  manual_review, is_intervention, disposition_prefix,
}
use gaudere_agent.Responder.Store.{
  invalid, Write, wrote, failed, Ledger, intent_in, disposition_in, find_intent_row,
  find_disposition_row,
}
use gaudere_agent.Responder.Store.Dispositions.{
  DispositionAnswer, refuse, repeated, not_found, move_disposition,
}

unfoldable pub reconciled_disposition : Disposition → DispositionState → ℤ → Disposition
reconciled_disposition disposition state at = record disposition {
  state = state;
  reconciled_at_ms = some at;
}

-- The state is already `state` and it was reconciled at this time.
unfoldable pub already_reconciled : Disposition → DispositionState → ℤ → Bool
already_reconciled disposition state at =
    disposition_in state disposition && same_option eqb_ℤ disposition.reconciled_at_ms (some at)

-- reconciled_at_ms < *at, where that is set
abbrev pub after : Option ℤ → ℤ → Bool
after at ms = holds (λ t. ltb_ℤ ms t) at

unfoldable pub complete_disposition_conflicts : Disposition → ℤ → Bool
complete_disposition_conflicts disposition at =
    not (is_intervention disposition.kind)
    || not (disposition_in intervention_bound disposition)
    || not (is_some disposition.intent_id)
    || not (is_some disposition.bound_at_ms)
    || after disposition.bound_at_ms at

unfoldable pub incomplete_intent : Option Intent → ℤ → Bool
incomplete_intent none at = true
incomplete_intent (some intent) at =
    not (intent_in IntentState.completed intent)
    || not (is_some intent.completed_at_ms)
    || after intent.completed_at_ms at

unfoldable pub terminal_disposition : Disposition → Text → ℤ → Disposition
terminal_disposition disposition reason at = record disposition {
  state = manual_review;
  terminal_reason = reason;
  terminal_at_ms = some at;
}

unfoldable pub terminal_conflicts : Disposition → ℤ → Bool
terminal_conflicts disposition at =
    not (disposition_in prepared disposition || disposition_in intervention_bound disposition)
    || ltb_ℤ at disposition.created_at_ms
    || after disposition.bound_at_ms at

unfoldable pub already_terminal : Disposition → Text → ℤ → Bool
already_terminal disposition reason at =
    disposition_in manual_review disposition
    && eqb disposition.terminal_reason reason
    && same_option eqb_ℤ disposition.terminal_at_ms (some at)

module _ (sha256_hex : Text → Text) where
  unfoldable pub acknowledge_found : Ledger → ℤ → Option Disposition → DispositionAnswer
  acknowledge_found l at none = not_found l
  acknowledge_found l at (some disposition) =
      if already_reconciled disposition acknowledged at
      then repeated l disposition (text "dialogue responder disposition already acknowledged")
      else if not (disposition_in prepared disposition)
          || is_intervention disposition.kind
          || ltb_ℤ at disposition.created_at_ms
      then refuse l disposition (text "responder disposition ACK reconciliation conflicts")
      else move_disposition sha256_hex l disposition
          (reconciled_disposition disposition acknowledged at)
          (text "acknowledged responder disposition became invalid")
          (text "dialogue responder disposition ACK reconciled")

  unfoldable pub acknowledge_disposition : Ledger → Fault → Text → ℤ → Ledger × Write Disposition
  acknowledge_disposition l fault disposition_id reconciled_at_ms =
      if not (prefixed_sha256 disposition_id disposition_prefix) || ltb_ℤ reconciled_at_ms (pos 0)
      then (l, wrote invalid none (text "invalid responder disposition ACK reconciliation"))
      else transaction failed l fault (
          find_disposition_row sha256_hex l disposition_id >>= λ disposition.
          acknowledge_found l reconciled_at_ms disposition)

  -- The intent that the disposition is bound to.
  unfoldable pub find_bound_intent : Ledger → Option Text → Query (Option Intent)
  find_bound_intent l none = answer none
  find_bound_intent l (some intent_id) = find_intent_row sha256_hex l intent_id

  unfoldable pub complete_disposition_found : Ledger → ℤ → Option Disposition → DispositionAnswer
  complete_disposition_found l at none = not_found l
  complete_disposition_found l at (some disposition) =
      if already_reconciled disposition completed at
      then repeated l disposition (text "dialogue responder disposition already completed")
      else if complete_disposition_conflicts disposition at
      then refuse l disposition (text "responder intervention disposition conflicts")
      else (do
        intent ← find_bound_intent l disposition.intent_id
        (if incomplete_intent intent at
            then refuse l disposition (text "bound responder intent is not durably completed")
            else move_disposition sha256_hex l disposition
                (reconciled_disposition disposition completed at)
                (text "completed responder disposition became invalid")
                (text "dialogue responder disposition completed")))

  unfoldable pub complete_disposition : Ledger → Fault → Text → ℤ → Ledger × Write Disposition
  complete_disposition l fault disposition_id reconciled_at_ms =
      if not (prefixed_sha256 disposition_id disposition_prefix) || ltb_ℤ reconciled_at_ms (pos 0)
      then (
        l,
        wrote invalid none (text "invalid responder intervention disposition reconciliation"),
      )
      else transaction failed l fault (
          find_disposition_row sha256_hex l disposition_id >>= λ disposition.
          complete_disposition_found l reconciled_at_ms disposition)

  unfoldable pub terminalize_disposition_found :
      Ledger → Text → ℤ → Option Disposition → DispositionAnswer
  terminalize_disposition_found l reason at none = not_found l
  terminalize_disposition_found l reason at (some disposition) =
      if already_terminal disposition reason at
      then repeated l disposition (text "dialogue responder disposition already in manual review")
      else if terminal_conflicts disposition at
      then refuse l disposition
          (text "dialogue responder disposition terminal transition conflicts")
      else move_disposition sha256_hex l disposition (terminal_disposition disposition reason at)
          (text "terminal responder disposition became invalid")
          (text "dialogue responder disposition requires manual review")

  unfoldable pub terminalize_disposition :
      Ledger → Fault → Text → Text → ℤ → Ledger × Write Disposition
  terminalize_disposition l fault disposition_id reason terminal_at_ms =
      if not (prefixed_sha256 disposition_id disposition_prefix)
        || empty reason
        || ltb max_reason_bytes (length reason)
        || ltb_ℤ terminal_at_ms (pos 0)
      then (l, wrote invalid none (text "invalid responder disposition terminal transition"))
      else transaction failed l fault (
          find_disposition_row sha256_hex l disposition_id >>= λ disposition.
          terminalize_disposition_found l reason terminal_at_ms disposition)
