-- ===== src/Responder/Store/Submission.antt =====
-- commit_submission of src/LocalGooseDialogueResponderStore.cpp: the intent and its lease in one transaction.
use gaudere_agent.Prelude.{
  ℕ, ◌+◌, Bool, not, ◌&&◌, ◌||◌, Option, none, some, ltb, leb, ◌==◌, if◌then◌else◌, same_option,
  int64_max, ℤ, pos, ltb_ℤ,
}
use gaudere_agent.Text.{Text, text, eqb, prefixed_sha256}
use gaudere_agent.Sidecar.{Fault, answer, throw_if, ◌>>=◌, ◌>>◌, transaction}
use gaudere_agent.Responder.Lease.{Lease, active, exhausted, valid_lease, v3_task_prefix}
use gaudere_agent.Responder.Intent.{
  Intent, prepared, submitted, completed, valid_intent, intent_prefix,
}
use gaudere_agent.Responder.Store.{
  accepted, duplicate, conflict, invalid, Write, wrote, failed, Ledger, lease_in, intent_in,
  find_lease_row, update_lease, update_intent, find_intent_row, checked_next_eligible,
}
use gaudere_agent.Responder.Store.Intents.{IntentAnswer, retry_reply}

-- What a reconciled submission makes of the intent and of its lease.
unfoldable pub submitted_intent : Intent → Text → ℕ → ℤ → Intent
submitted_intent intent task_id revision at = record intent {
  state = submitted;
  submitted_task_id = task_id;
  submitted_thread_revision = some revision;
  committed_at_ms = some at;
}

-- The turn is the last one of an active lease.
unfoldable pub quota_spent : Lease → Bool
quota_spent lease = lease_in active lease && lease.turns_committed + 1 == lease.max_system_turns

unfoldable pub accounted_lease : Lease → ℤ → ℤ → Lease
accounted_lease lease next_eligible at =
    let turned = record lease {
      turns_committed = lease.turns_committed + 1;
      next_eligible_at_ms = next_eligible;
    } in
    if quota_spent lease
    then record turned {
      state = exhausted;
      terminal_reason = text "quota_exhausted";
      terminal_at_ms = some at;
    }
    else turned

unfoldable pub commit_conflicts : Intent → ℕ → ℤ → Bool
commit_conflicts intent revision at =
    not (intent_in prepared intent)
    || not (revision == intent.expected_thread_revision + 1)
    || ltb_ℤ at intent.created_at_ms

unfoldable pub already_committed : Intent → Text → ℕ → Bool
already_committed intent task_id revision =
    (intent_in submitted intent || intent_in completed intent)
    && eqb intent.submitted_task_id task_id
    && same_option (λ a b. a == b) intent.submitted_thread_revision (some revision)

module _ (sha256_hex : Text → Text) where
  -- Both updates of an accepted submission.
  unfoldable pub account : Ledger → Intent → Lease → Text → ℕ → ℤ → ℤ → IntentAnswer
  account l intent lease task_id revision at next_eligible = do
    let reconciled = submitted_intent intent task_id revision at
    throw_if (not (valid_intent sha256_hex reconciled))
        (text "reconciled responder intent became invalid")
    l1 ← update_intent l reconciled intent.state
    let accounted = accounted_lease lease next_eligible at
    throw_if (not (valid_lease accounted)) (text "accounted responder lease became invalid")
    l2 ← update_lease l1 accounted lease.state lease.turns_committed
    answer (l2, wrote accepted (some reconciled) (text "responder submission reconciled"))

  unfoldable pub account_if_eligible :
      Ledger → Intent → Lease → Text → ℕ → ℤ → Option ℤ → IntentAnswer
  account_if_eligible l intent lease task_id revision at none =
      retry_reply l intent (text "responder next eligible time would overflow")
  account_if_eligible l intent lease task_id revision at (some next_eligible) =
      account l intent lease task_id revision at next_eligible

  unfoldable pub commit_on_lease : Ledger → Intent → Text → ℕ → ℤ → Option Lease → IntentAnswer
  commit_on_lease l intent task_id revision at none =
      retry_reply l intent (text "responder lease cannot account another turn")
  commit_on_lease l intent task_id revision at (some lease) =
      if leb lease.max_system_turns lease.turns_committed
      then retry_reply l intent (text "responder lease cannot account another turn")
      else account_if_eligible l intent lease task_id revision at
          (checked_next_eligible at lease.min_interval_ms)

  unfoldable pub commit_found : Ledger → Text → ℕ → ℤ → Option Intent → IntentAnswer
  commit_found l task_id revision at none =
      answer (l, wrote conflict none (text "dialogue responder intent not found"))
  commit_found l task_id revision at (some intent) =
      if already_committed intent task_id revision
      then answer
          (l, wrote duplicate (some intent) (text "responder submission already reconciled"))
      else if commit_conflicts intent revision at
      then retry_reply l intent (text "responder submission reconciliation conflicts")
      else (do
        lease ← find_lease_row l intent.lease_id
        commit_on_lease l intent task_id revision at lease)

  unfoldable pub commit_submission : Ledger → Fault → Text → Text → ℕ → ℤ → Ledger × Write Intent
  commit_submission l fault intent_id task_id resulting_thread_revision committed_at_ms =
      if not (prefixed_sha256 intent_id intent_prefix)
        || not (prefixed_sha256 task_id v3_task_prefix)
        || ltb int64_max resulting_thread_revision
        || ltb_ℤ committed_at_ms (pos 0)
      then (l, wrote invalid none (text "invalid responder submission reconciliation"))
      else transaction failed l fault (
          find_intent_row sha256_hex l intent_id >>= λ intent.
          commit_found l task_id resulting_thread_revision committed_at_ms intent)
