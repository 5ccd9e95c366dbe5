-- ===== src/Responder/Store/Intents.antt =====
-- prepare_intent, complete_intent and terminalize_intent of src/LocalGooseDialogueResponderStore.cpp.
use Prim.Native.Nat.{bit_and}
use gaudere_agent.Prelude.{
  Bool, true, false, not, ◌&&◌, ◌||◌, Option, none, some, List, [], ◌∷◌, ltb, leb, ◌==◌,
  if◌then◌else◌, empty, length, same_option, is_some, holds, ℤ, pos, eqb_ℤ, ltb_ℤ, leb_ℤ,
}
use gaudere_agent.Text.{Text, text, eqb, prefixed_sha256}
use gaudere_agent.Sidecar.{Fault, Query, answer, throws, throw_if, ◌>>=◌, ◌>>◌, transaction}
use gaudere_agent.Responder.Lease.{Lease, active, max_reason_bytes, message_kind_bit}
use gaudere_agent.Responder.Intent.{
  Intent, IntentState, prepared, submitted, completed, valid_intent, intent_prefix,
}
use gaudere_agent.Responder.Store.{
  accepted, duplicate, conflict, invalid, Write, wrote, failed, Ledger, lease_in, intent_in,
  find_lease_row, update_intent, find_intent_row, find_trigger_intent, intent_state_number,
}

abbrev pub IntentAnswer : Type 0
IntentAnswer = Query (Ledger × Write Intent)

-- Any of these refuses the intent.
unfoldable pub not_admitted : Intent → Lease → Bool
not_admitted intent lease =
    not (lease_in active lease)
    || not (eqb lease.thread_alias intent.thread_alias)
    || not (eqb lease.speaker_kind intent.speaker_kind)
    || not (eqb lease.speaker_id intent.speaker_id)
    || bit_and lease.allowed_message_kinds (message_kind_bit intent.message_kind) == 0
    || leb lease.max_system_turns lease.turns_committed
    || ltb_ℤ intent.created_at_ms lease.issued_at_ms
    || leb_ℤ lease.expires_at_ms intent.created_at_ms
    || ltb_ℤ lease.expires_at_ms intent.expires_at_ms
    || ltb_ℤ intent.created_at_ms lease.next_eligible_at_ms

-- request_id TEXT NOT NULL UNIQUE
unfoldable pub requested : Text → List Intent → Bool
requested request_id [] = false
requested request_id (row ∷ rows) = eqb row.request_id request_id || requested request_id rows

unfoldable pub insert_intent : Ledger → Intent → Query Ledger
insert_intent l intent =
    if requested intent.request_id l.intents
    then throws (text "UNIQUE constraint failed")
    else answer (record l { intents = intent ∷ l.intents })

abbrev pub not_admitted_reply : Ledger → IntentAnswer
not_admitted_reply l =
    answer (l, wrote conflict none (text "intent is not admitted by active responder lease"))

unfoldable pub prepare_admitted : Ledger → Intent → Option Lease → IntentAnswer
prepare_admitted l intent none = not_admitted_reply l
prepare_admitted l intent (some lease) =
    if not_admitted intent lease then not_admitted_reply l else (do
      l' ← insert_intent l intent
      answer (l', wrote accepted (some intent) (text "dialogue responder intent prepared")))

unfoldable pub prepare_unless_triggered : Ledger → Intent → Option Intent → IntentAnswer
prepare_unless_triggered l intent (some trigger) = answer (
  l,
  wrote conflict (some trigger) (text "lease already has an intent for this completion event"),
)
prepare_unless_triggered l intent none = do
  lease ← find_lease_row l intent.lease_id
  prepare_admitted l intent lease

abbrev pub retry_reply : Ledger → Intent → Text → IntentAnswer
retry_reply l intent detail = answer (l, wrote conflict (some intent) detail)

unfoldable pub complete_conflicts : Intent → ℤ → Bool
complete_conflicts intent at =
    not (intent_in submitted intent)
    || not (is_some intent.committed_at_ms)
    || holds (λ committed. ltb_ℤ at committed) intent.committed_at_ms

unfoldable pub completed_intent : Intent → ℤ → Intent
completed_intent intent at = record intent { state = completed; completed_at_ms = some at }

-- conflict, expired or manual_review
unfoldable pub ending_state : IntentState → Bool
ending_state IntentState.prepared = false
ending_state IntentState.submitted = false
ending_state IntentState.completed = false
ending_state IntentState.conflict = true
ending_state IntentState.expired = true
ending_state IntentState.manual_review = true

unfoldable pub may_end : Intent → IntentState → Bool
may_end intent state =
    intent_in prepared intent
    || (intent_in submitted intent
        && intent_state_number state == intent_state_number IntentState.manual_review)

unfoldable pub ended_intent : Intent → IntentState → Text → Intent
ended_intent intent state reason = record intent { state = state; terminal_reason = reason }

module _ (sha256_hex : Text → Text) where
  unfoldable pub prepare_unless_found : Ledger → Intent → Option Intent → IntentAnswer
  prepare_unless_found l intent (some existing) =
      answer
        (l, wrote duplicate (some existing) (text "dialogue responder intent already prepared"))
  prepare_unless_found l intent none = do
    trigger ← find_trigger_intent sha256_hex l intent.lease_id intent.event_id
    prepare_unless_triggered l intent trigger

  unfoldable pub prepare_intent : Ledger → Fault → Intent → Ledger × Write Intent
  prepare_intent l fault intent =
      if not (valid_intent sha256_hex intent) || not (intent_in prepared intent)
      then (l, wrote invalid none (text "invalid initial dialogue responder intent"))
      else transaction failed l fault (
          find_intent_row sha256_hex l intent.intent_id >>= λ existing.
          prepare_unless_found l intent existing)

  -- An update of the intent alone, after its check.
  unfoldable pub move_intent : Ledger → Intent → Intent → Text → Text → IntentAnswer
  move_intent l old new broken done = do
    throw_if (not (valid_intent sha256_hex new)) broken
    l' ← update_intent l new old.state
    answer (l', wrote accepted (some new) done)

  unfoldable pub complete_found : Ledger → ℤ → Option Intent → IntentAnswer
  complete_found l at none =
      answer (l, wrote conflict none (text "dialogue responder intent not found"))
  complete_found l at (some intent) =
      if intent_in completed intent && same_option eqb_ℤ intent.completed_at_ms (some at)
      then answer
          (l, wrote duplicate (some intent) (text "dialogue responder intent already completed"))
      else if complete_conflicts intent at
      then retry_reply l intent (text "dialogue responder completion conflicts")
      else move_intent l intent (completed_intent intent at)
          (text "completed responder intent became invalid")
          (text "dialogue responder intent completed")

  unfoldable pub complete_intent : Ledger → Fault → Text → ℤ → Ledger × Write Intent
  complete_intent l fault intent_id completed_at_ms =
      if not (prefixed_sha256 intent_id intent_prefix) || ltb_ℤ completed_at_ms (pos 0)
      then (l, wrote invalid none (text "invalid responder completion transition"))
      else transaction failed l fault (
          find_intent_row sha256_hex l intent_id >>= λ intent.
          complete_found l completed_at_ms intent)

  unfoldable pub terminalize_found : Ledger → IntentState → Text → Option Intent → IntentAnswer
  terminalize_found l state reason none =
      answer (l, wrote conflict none (text "dialogue responder intent not found"))
  terminalize_found l state reason (some intent) =
      if intent_in state intent && eqb intent.terminal_reason reason
      then answer (
        l,
        wrote duplicate (some intent) (text "dialogue responder terminal intent already recorded"),
      )
      else if not (may_end intent state)
      then retry_reply l intent (text "dialogue responder terminal transition conflicts")
      else move_intent l intent (ended_intent intent state reason)
          (text "terminal responder intent became invalid")
          (text "dialogue responder intent terminalized")

  unfoldable pub terminalize_intent :
      Ledger → Fault → Text → IntentState → Text → Ledger × Write Intent
  terminalize_intent l fault intent_id terminal_state reason =
      if not (prefixed_sha256 intent_id intent_prefix)
        || not (ending_state terminal_state)
        || empty reason
        || ltb max_reason_bytes (length reason)
      then (l, wrote invalid none (text "invalid responder intent terminal transition"))
      else transaction failed l fault (
          find_intent_row sha256_hex l intent_id >>= λ intent.
          terminalize_found l terminal_state reason intent)
