-- ===== src/Responder/Store/Dispositions.antt =====
-- prepare_disposition and bind_disposition_intent of src/LocalGooseDialogueResponderStore.cpp.
use gaudere_agent.Prelude.{
  Bool, not, ◌&&◌, ◌||◌, Option, none, some, ◌∷◌, ◌==◌, if◌then◌else◌, same_option, is_some, holds,
  ℤ, pos, eqb_ℤ, ltb_ℤ,
}
use gaudere_agent.Text.{Text, text, eqb, prefixed_sha256}
use gaudere_agent.Sidecar.{Fault, Query, answer, throw_if, ◌>>=◌, ◌>>◌, transaction}
use gaudere_agent.Responder.Intent.{Intent, IntentState, intent_prefix}
use gaudere_agent.Responder.Disposition.{
  Disposition, prepared, intervention_bound, is_intervention, valid_disposition, disposition_prefix,
}
use gaudere_agent.Responder.Store.{
  accepted, duplicate, conflict, invalid, Write, wrote, failed, Ledger, intent_in, disposition_in,
  same_disposition, find_intent_row, find_disposition_row, find_event_row, find_sequence_row,
  update_disposition,
}

abbrev pub DispositionAnswer : Type 0
DispositionAnswer = Query (Ledger × Write Disposition)

abbrev pub refuse : Ledger → Disposition → Text → DispositionAnswer
refuse l disposition detail = answer (l, wrote conflict (some disposition) detail)

abbrev pub repeated : Ledger → Disposition → Text → DispositionAnswer
repeated l disposition detail = answer (l, wrote duplicate (some disposition) detail)

abbrev pub not_found : Ledger → DispositionAnswer
not_found l = answer (l, wrote conflict none (text "dialogue responder disposition not found"))

-- The INSERT. The SELECTs before it have tested its key and both of its UNIQUE pairs.
unfoldable pub prepare_unless_sequence :
    Ledger → Disposition → Option Disposition → DispositionAnswer
prepare_unless_sequence l disposition (some sequence) =
    refuse l sequence (text "responder consumer already has a disposition for sequence")
prepare_unless_sequence l disposition none = answer (
  record l { dispositions = disposition ∷ l.dispositions },
  wrote accepted (some disposition) (text "dialogue responder disposition prepared"),
)

-- Any of these refuses the binding of an intent that was found.
unfoldable pub other_intent : Disposition → Intent → ℤ → Bool
other_intent disposition intent at =
    not (intent_in IntentState.prepared intent)
    || ltb_ℤ at intent.created_at_ms
    || not (eqb intent.thread_alias disposition.thread_alias)
    || not (intent.completion_sequence == disposition.completion_sequence)
    || not (eqb intent.event_id disposition.event_id)
    || not (eqb intent.result_sha256 disposition.result_sha256)
    || not (eqb intent.triggering_task_id disposition.task_id)
    || not (intent.expected_thread_revision == disposition.thread_revision)
    || not (eqb intent.expected_head_task_id disposition.task_id)

unfoldable pub bind_conflicts : Disposition → Option Intent → ℤ → Bool
bind_conflicts disposition intent at =
    not (is_intervention disposition.kind)
    || not (disposition_in prepared disposition)
    || ltb_ℤ at disposition.created_at_ms
    || not (is_some intent)
    || holds (λ i. other_intent disposition i at) intent

unfoldable pub already_bound : Disposition → Text → ℤ → Bool
already_bound disposition intent_id at =
    disposition_in intervention_bound disposition
    && same_option eqb disposition.intent_id (some intent_id)
    && same_option eqb_ℤ disposition.bound_at_ms (some at)

unfoldable pub bound_disposition : Disposition → Text → ℤ → Disposition
bound_disposition disposition intent_id at = record disposition {
  state = intervention_bound;
  intent_id = some intent_id;
  bound_at_ms = some at;
}

module _ (sha256_hex : Text → Text) where
  unfoldable pub prepare_unless_event :
      Ledger → Disposition → Option Disposition → DispositionAnswer
  prepare_unless_event l disposition (some event) =
      refuse l event (text "responder consumer already has a disposition for event")
  prepare_unless_event l disposition none = do
    sequence ←
        find_sequence_row sha256_hex l disposition.consumer_id disposition.completion_sequence
    prepare_unless_sequence l disposition sequence

  unfoldable pub prepare_unless_known :
      Ledger → Disposition → Option Disposition → DispositionAnswer
  prepare_unless_known l disposition (some existing) =
      if same_disposition existing disposition
      then repeated l existing (text "dialogue responder disposition already prepared")
      else refuse l existing (text "dialogue responder disposition id conflicts")
  prepare_unless_known l disposition none = do
    event ← find_event_row sha256_hex l disposition.consumer_id disposition.event_id
    prepare_unless_event l disposition event

  unfoldable pub prepare_disposition : Ledger → Fault → Disposition → Ledger × Write Disposition
  prepare_disposition l fault disposition =
      if not (valid_disposition sha256_hex disposition) || not (disposition_in prepared disposition)
      then (l, wrote invalid none (text "invalid initial dialogue responder disposition"))
      else transaction failed l fault (
          find_disposition_row sha256_hex l disposition.disposition_id >>= λ existing.
          prepare_unless_known l disposition existing)

  -- The update of one disposition, after its check.
  unfoldable pub move_disposition :
      Ledger → Disposition → Disposition → Text → Text → DispositionAnswer
  move_disposition l old new broken done = do
    throw_if (not (valid_disposition sha256_hex new)) broken
    l' ← update_disposition l new old.state
    answer (l', wrote accepted (some new) done)

  unfoldable pub bind_found : Ledger → Text → ℤ → Option Disposition → DispositionAnswer
  bind_found l intent_id at none = not_found l
  bind_found l intent_id at (some disposition) =
      if already_bound disposition intent_id at
      then repeated l disposition (text "dialogue responder disposition already bound")
      else (do
        intent ← find_intent_row sha256_hex l intent_id
        (if bind_conflicts disposition intent at
            then refuse l disposition (text "responder disposition intent binding conflicts")
            else move_disposition l disposition (bound_disposition disposition intent_id at)
                (text "bound responder disposition became invalid")
                (text "dialogue responder disposition bound to intent")))

  unfoldable pub bind_disposition_intent :
      Ledger → Fault → Text → Text → ℤ → Ledger × Write Disposition
  bind_disposition_intent l fault disposition_id intent_id bound_at_ms =
      if not (prefixed_sha256 disposition_id disposition_prefix)
        || not (prefixed_sha256 intent_id intent_prefix)
        || ltb_ℤ bound_at_ms (pos 0)
      then (l, wrote invalid none (text "invalid responder disposition intent binding"))
      else transaction failed l fault (
          find_disposition_row sha256_hex l disposition_id >>= λ disposition.
          bind_found l intent_id bound_at_ms disposition)
