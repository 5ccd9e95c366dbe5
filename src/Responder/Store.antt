-- ===== src/Responder/Store.antt =====
-- The responder store (src/LocalGooseDialogueResponderStore.hpp, src/LocalGooseDialogueResponderStore.cpp):
-- its three tables, and the statements that read and update one row. A table keeps the records that its rows
-- are bound from (Responder/Rows.antt). The operations are in the modules below.
pub mod Leases
pub mod Intents
pub mod Submission
pub mod Dispositions
pub mod Reconcile
pub mod Change
pub mod LeaseSteps
pub mod IntentSteps
pub mod SubmissionSteps
pub mod DispositionSteps
pub mod ReconcileSteps
pub mod Account
pub mod Uniqueness
pub mod Stored
pub mod Life
pub mod Reads
mod Examples
use gaudere_agent.Prelude.{
  ℕ, ◌+◌, ◌-◌, ◌≡◌, Bool, true, false, not, ◌&&◌, ◌||◌, Option, none, some, List, [], ◌∷◌, ltb, leb,
  ◌==◌, if◌then◌else◌, is_some, same_option, int64_max, ℤ, pos, eqb_ℤ, ltb_ℤ, leb_ℤ, ◌+ℤ◌, ◌-ℤ◌,
}
use gaudere_agent.Text.{Text, text, eqb, safe_identifier, prefixed_sha256}
use gaudere_agent.Sidecar.{Query, answer, throws, ◌>>=◌}
use gaudere_agent.Sidecar.Rows.{find_row, set_row, find_where}
use gaudere_agent.Responder.Lease.{
  Lease, LeaseState, active, exhausted, expired, revoked, manual_review, valid_lease,
  completion_event_prefix,
}
use gaudere_agent.Responder.Intent.{Intent, IntentState, valid_intent, intent_prefix}
unfoldable pub use gaudere_agent.Responder.Rows.{
  lease_state_number, intent_state_number, disposition_state_number,
}
use gaudere_agent.Responder.Rows.{read_lease, read_intent, read_disposition}
use gaudere_agent.Responder.Disposition.{
  Disposition, DispositionState, valid_disposition, disposition_prefix, kind_number,
}

pub data StoreResult : Type 0 where
  accepted duplicate conflict invalid unavailable : StoreResult

-- The three …Write structures; `row` is their lease, intent or disposition.
pub record Write (A : Type 0) : Type 0 where
  pub result : StoreResult
  pub row : Option A
  pub detail : Text

module _ {A : Type 0} where
  abbrev pub wrote : StoreResult → Option A → Text → Write A
  wrote result row detail = record { result = result; row = row; detail = detail }

  abbrev pub failed : Text → Write A
  failed what = wrote unavailable none what

pub record Ledger : Type 0 where
  pub leases : List Lease
  pub intents : List Intent
  pub dispositions : List Disposition

abbrev pub lease_in : LeaseState → Lease → Bool
lease_in state lease = lease_state_number lease.state == lease_state_number state

abbrev pub intent_in : IntentState → Intent → Bool
intent_in state intent = intent_state_number intent.state == intent_state_number state

abbrev pub disposition_in : DispositionState → Disposition → Bool
disposition_in state disposition =
    disposition_state_number disposition.state == disposition_state_number state

abbrev pub lease_key : Lease → Text
lease_key lease = lease.lease_id

abbrev pub intent_key : Intent → Text
intent_key intent = intent.intent_id

abbrev pub disposition_key : Disposition → Text
disposition_key disposition = disposition.disposition_id

abbrev pub active_on : Text → Lease → Bool
active_on thread_alias lease = eqb lease.thread_alias thread_alias && lease_in active lease

abbrev pub triggered_by : Text → Text → Intent → Bool
triggered_by lease_id event_id intent = eqb intent.lease_id lease_id && eqb intent.event_id event_id

abbrev pub for_event : Text → Text → Disposition → Bool
for_event consumer_id event_id d = eqb d.consumer_id consumer_id && eqb d.event_id event_id

abbrev pub for_sequence : Text → ℕ → Disposition → Bool
for_sequence consumer_id sequence d =
    eqb d.consumer_id consumer_id && d.completion_sequence == sequence

-- Two leases have the same document.
unfoldable pub same_lease : Lease → Lease → Bool
same_lease a b =
    eqb a.lease_id b.lease_id
    && eqb a.thread_alias b.thread_alias
    && eqb a.speaker_kind b.speaker_kind
    && eqb a.speaker_id b.speaker_id
    && a.allowed_message_kinds == b.allowed_message_kinds
    && eqb a.purpose b.purpose
    && a.max_system_turns == b.max_system_turns
    && a.turns_committed == b.turns_committed
    && eqb_ℤ a.issued_at_ms b.issued_at_ms
    && eqb_ℤ a.expires_at_ms b.expires_at_ms
    && eqb_ℤ a.min_interval_ms b.min_interval_ms
    && eqb_ℤ a.next_eligible_at_ms b.next_eligible_at_ms
    && lease_in b.state a
    && eqb a.terminal_reason b.terminal_reason
    && same_option eqb_ℤ a.terminal_at_ms b.terminal_at_ms

unfoldable pub same_disposition : Disposition → Disposition → Bool
same_disposition a b =
    eqb a.disposition_id b.disposition_id
    && eqb a.consumer_id b.consumer_id
    && eqb a.thread_alias b.thread_alias
    && a.completion_sequence == b.completion_sequence
    && eqb a.event_id b.event_id
    && eqb a.result_sha256 b.result_sha256
    && a.thread_revision == b.thread_revision
    && eqb a.task_id b.task_id
    && eqb a.speaker_kind b.speaker_kind
    && eqb a.speaker_id b.speaker_id
    && kind_number a.kind == kind_number b.kind
    && eqb a.authority_source b.authority_source
    && eqb_ℤ a.created_at_ms b.created_at_ms
    && disposition_in b.state a
    && same_option eqb a.intent_id b.intent_id
    && same_option eqb_ℤ a.bound_at_ms b.bound_at_ms
    && same_option eqb_ℤ a.reconciled_at_ms b.reconciled_at_ms
    && eqb a.terminal_reason b.terminal_reason
    && same_option eqb_ℤ a.terminal_at_ms b.terminal_at_ms

-- `false` of checked_next_eligible is none.
unfoldable pub checked_next_eligible : ℤ → ℤ → Option ℤ
checked_next_eligible base interval =
    if ltb_ℤ base (pos 0) || ltb_ℤ interval (pos 0) || ltb_ℤ (pos int64_max -ℤ interval) base
    then none
    else some (base +ℤ interval)

unfoldable pub find_lease_row : Ledger → Text → Query (Option Lease)
find_lease_row l lease_id = read_lease (find_row lease_key lease_id l.leases)

unfoldable pub find_active_row : Ledger → Text → Query (Option Lease)
find_active_row l thread_alias = read_lease (find_where (active_on thread_alias) l.leases)

unfoldable pub find_lease : Ledger → Text → Query (Option Lease)
find_lease l lease_id =
    if not (safe_identifier lease_id) then answer none else find_lease_row l lease_id

unfoldable pub find_active_lease : Ledger → Text → Query (Option Lease)
find_active_lease l thread_alias =
    if not (safe_identifier thread_alias) then answer none else find_active_row l thread_alias

-- UPDATE … WHERE lease_id=?1 AND state=?5 AND turns_committed=?6, of one row or it throws
unfoldable pub update_found_lease : Ledger → Lease → LeaseState → ℕ → Option Lease → Query Ledger
update_found_lease l lease state turns none =
    throws (text "dialogue responder lease update lost CAS")
update_found_lease l lease state turns (some row) =
    if lease_in state row && row.turns_committed == turns
    then answer (record l { leases = set_row lease_key lease l.leases })
    else throws (text "dialogue responder lease update lost CAS")

unfoldable pub update_lease : Ledger → Lease → LeaseState → ℕ → Query Ledger
update_lease l lease state turns =
    update_found_lease l lease state turns (find_row lease_key lease.lease_id l.leases)

unfoldable pub update_found_intent : Ledger → Intent → IntentState → Option Intent → Query Ledger
update_found_intent l intent state none = throws (text "dialogue responder intent update lost CAS")
update_found_intent l intent state (some row) =
    if intent_in state row
    then answer (record l { intents = set_row intent_key intent l.intents })
    else throws (text "dialogue responder intent update lost CAS")

unfoldable pub update_intent : Ledger → Intent → IntentState → Query Ledger
update_intent l intent state =
    update_found_intent l intent state (find_row intent_key intent.intent_id l.intents)

-- intent_id TEXT UNIQUE, of the other rows; NULLs are distinct. The UPDATE is then not SQLITE_DONE.
unfoldable pub bound_elsewhere : Disposition → List Disposition → Bool
bound_elsewhere d [] = false
bound_elsewhere d (row ∷ rows) =
    (is_some d.intent_id
      && same_option eqb row.intent_id d.intent_id
      && not (eqb row.disposition_id d.disposition_id))
    || bound_elsewhere d rows

unfoldable pub update_found_disposition :
    Ledger → Disposition → DispositionState → Option Disposition → Query Ledger
update_found_disposition l disposition state none =
    throws (text "dialogue responder disposition update lost CAS")
update_found_disposition l disposition state (some row) =
    if disposition_in state row && not (bound_elsewhere disposition l.dispositions)
    then answer (record l { dispositions = set_row disposition_key disposition l.dispositions })
    else throws (text "dialogue responder disposition update lost CAS")

unfoldable pub update_disposition : Ledger → Disposition → DispositionState → Query Ledger
update_disposition l disposition state =
    update_found_disposition l disposition state
      (find_row disposition_key disposition.disposition_id l.dispositions)

module _ (sha256_hex : Text → Text) where
  unfoldable pub find_intent_row : Ledger → Text → Query (Option Intent)
  find_intent_row l intent_id = read_intent sha256_hex (find_row intent_key intent_id l.intents)

  unfoldable pub find_trigger_intent : Ledger → Text → Text → Query (Option Intent)
  find_trigger_intent l lease_id event_id =
      read_intent sha256_hex (find_where (triggered_by lease_id event_id) l.intents)

  unfoldable pub find_intent : Ledger → Text → Query (Option Intent)
  find_intent l intent_id =
      if not (prefixed_sha256 intent_id intent_prefix)
      then answer none
      else find_intent_row l intent_id

  unfoldable pub find_disposition_row : Ledger → Text → Query (Option Disposition)
  find_disposition_row l id =
      read_disposition sha256_hex (find_row disposition_key id l.dispositions)

  unfoldable pub find_event_row : Ledger → Text → Text → Query (Option Disposition)
  find_event_row l consumer_id event_id =
      read_disposition sha256_hex (find_where (for_event consumer_id event_id) l.dispositions)

  unfoldable pub find_sequence_row : Ledger → Text → ℕ → Query (Option Disposition)
  find_sequence_row l consumer_id sequence =
      read_disposition sha256_hex (find_where (for_sequence consumer_id sequence) l.dispositions)

  unfoldable pub find_disposition : Ledger → Text → Query (Option Disposition)
  find_disposition l id =
      if not (prefixed_sha256 id disposition_prefix) then answer none else find_disposition_row l id

  unfoldable pub find_disposition_for_event : Ledger → Text → Text → Query (Option Disposition)
  find_disposition_for_event l consumer_id event_id =
      if not (safe_identifier consumer_id) || not (prefixed_sha256 event_id completion_event_prefix)
      then answer none
      else find_event_row l consumer_id event_id
