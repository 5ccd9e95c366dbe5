-- ===== src/Responder/Rows.antt =====
-- The rows of the responder store as it reads them (read_lease_row, read_intent_row and
-- read_disposition_row of src/LocalGooseDialogueResponderStore.cpp): index columns beside the document.
-- The document is the record itself, for the JSON library that prints and parses it is not modelled. The
-- statements bind the columns from the record that they store; an UPDATE leaves out those that its
-- record has in common with the old one.
use gaudere_agent.Prelude.{
  ℕ, ◌≡◌, refl, Bool, true, false, not, ◌||◌, Option, none, some, arith, if◌then◌else◌, same_option,
  ℤ, pos, eqb_ℤ, ltb_ℤ, leb_ℤ,
}
use gaudere_agent.Text.{Text, text, eqb}
use gaudere_agent.Text.Laws.{eqb_refl}
use gaudere_agent.Sidecar.{Query, answer, throws, ◌>>=◌}
use gaudere_agent.Responder.Lease.{
  Lease, LeaseState, active, exhausted, expired, revoked, manual_review, valid_lease,
}
use gaudere_agent.Responder.Intent.{Intent, IntentState, valid_intent, refused_intent}
use gaudere_agent.Responder.Disposition.{
  Disposition, DispositionState, valid_disposition, refused_disposition, kind_number,
}

-- The numbers of the states in the index columns.
abbrev pub lease_state_number : LeaseState → ℕ
lease_state_number active = 0
lease_state_number exhausted = 1
lease_state_number expired = 2
lease_state_number revoked = 3
lease_state_number manual_review = 4

abbrev pub intent_state_number : IntentState → ℕ
intent_state_number IntentState.prepared = 0
intent_state_number IntentState.submitted = 1
intent_state_number IntentState.completed = 2
intent_state_number IntentState.conflict = 3
intent_state_number IntentState.expired = 4
intent_state_number IntentState.manual_review = 5

abbrev pub disposition_state_number : DispositionState → ℕ
disposition_state_number DispositionState.prepared = 0
disposition_state_number DispositionState.acknowledged = 1
disposition_state_number DispositionState.intervention_bound = 2
disposition_state_number DispositionState.completed = 3
disposition_state_number DispositionState.manual_review = 4

pub record LeaseRow : Type 0 where
  pub row_thread : Text
  pub row_state : ℤ
  pub row_turns : ℤ
  pub document : Lease

pub record IntentRow : Type 0 where
  pub row_lease : Text
  pub row_event : Text
  pub row_request : Text
  pub row_state : ℤ
  pub row_created : ℤ
  pub document : Intent

pub record DispositionRow : Type 0 where
  pub row_consumer : Text
  pub row_sequence : ℤ
  pub row_event : Text
  pub row_kind : ℤ
  pub row_state : ℤ
  pub row_intent : Option Text
  pub row_created : ℤ
  pub document : Disposition

-- The columns as they are bound.
abbrev pub lease_row : Lease → LeaseRow
lease_row lease = record {
  row_thread = lease.thread_alias;
  row_state = pos (lease_state_number lease.state);
  row_turns = pos lease.turns_committed;
  document = lease;
}

abbrev pub intent_row : Intent → IntentRow
intent_row intent = record {
  row_lease = intent.lease_id;
  row_event = intent.event_id;
  row_request = intent.request_id;
  row_state = pos (intent_state_number intent.state);
  row_created = intent.created_at_ms;
  document = intent;
}

abbrev pub disposition_row : Disposition → DispositionRow
disposition_row d = record {
  row_consumer = d.consumer_id;
  row_sequence = pos d.completion_sequence;
  row_event = d.event_id;
  row_kind = pos (kind_number d.kind);
  row_state = pos (disposition_state_number d.state);
  row_intent = d.intent_id;
  row_created = d.created_at_ms;
  document = d;
}

unfoldable pub lease_mismatch : LeaseRow → Bool
lease_mismatch row =
    not (eqb row.document.thread_alias row.row_thread)
    || not (eqb_ℤ (pos (lease_state_number row.document.state)) row.row_state)
    || not (eqb_ℤ (pos row.document.turns_committed) row.row_turns)

unfoldable pub read_lease_row : LeaseRow → Query Lease
read_lease_row row =
    if ltb_ℤ row.row_state (pos 0) || ltb_ℤ row.row_turns (pos 0)
    then throws (text "invalid dialogue responder lease index columns")
    else if not (valid_lease row.document)
    then throws (text "non-canonical dialogue responder lease row")
    else if lease_mismatch row
    then throws (text "dialogue responder lease index/document mismatch")
    else answer row.document

unfoldable pub read_lease : Option Lease → Query (Option Lease)
read_lease none = answer none
read_lease (some lease) = read_lease_row (lease_row lease) >>= λ out. answer (some out)

unfoldable pub intent_mismatch : IntentRow → Bool
intent_mismatch row =
    not (eqb row.document.lease_id row.row_lease)
    || not (eqb row.document.event_id row.row_event)
    || not (eqb row.document.request_id row.row_request)
    || not (eqb_ℤ (pos (intent_state_number row.document.state)) row.row_state)
    || not (eqb_ℤ row.document.created_at_ms row.row_created)

unfoldable pub disposition_mismatch : DispositionRow → Bool
disposition_mismatch row =
    not (eqb row.document.consumer_id row.row_consumer)
    || not (eqb_ℤ (pos row.document.completion_sequence) row.row_sequence)
    || not (eqb row.document.event_id row.row_event)
    || not (eqb_ℤ (pos (kind_number row.document.kind)) row.row_kind)
    || not (eqb_ℤ (pos (disposition_state_number row.document.state)) row.row_state)
    || not (same_option eqb row.document.intent_id row.row_intent)
    || not (eqb_ℤ row.document.created_at_ms row.row_created)

module _ (sha256_hex : Text → Text) where
  unfoldable pub read_intent_row : IntentRow → Query Intent
  read_intent_row row =
      if ltb_ℤ row.row_state (pos 0) || ltb_ℤ row.row_created (pos 0)
      then throws (text "invalid dialogue responder intent index columns")
      else if not (valid_intent sha256_hex row.document)
      then throws (text "non-canonical dialogue responder intent row")
      else if intent_mismatch row
      then throws (text "dialogue responder intent index/document mismatch")
      else answer row.document

  unfoldable pub read_intent : Option Intent → Query (Option Intent)
  read_intent none = answer none
  read_intent (some intent) = read_intent_row (intent_row intent) >>= λ out. answer (some out)

  unfoldable pub read_disposition_row : DispositionRow → Query Disposition
  read_disposition_row row =
      if leb_ℤ row.row_sequence (pos 0)
        || ltb_ℤ row.row_kind (pos 0)
        || ltb_ℤ row.row_state (pos 0)
        || ltb_ℤ row.row_created (pos 0)
      then throws (text "invalid dialogue responder disposition index columns")
      else if not (valid_disposition sha256_hex row.document)
      then throws (text "non-canonical dialogue responder disposition row")
      else if disposition_mismatch row
      then throws (text "dialogue responder disposition index/document mismatch")
      else answer row.document

  unfoldable pub read_disposition : Option Disposition → Query (Option Disposition)
  read_disposition none = answer none
  read_disposition (some d) = read_disposition_row (disposition_row d) >>= λ out. answer (some out)

-- The columns of a stored record agree with it, so that a canonical one is read back.
nonnegative : (n : ℕ) → ltb_ℤ (pos n) (pos 0) ≡ false
nonnegative n = ground arith

lease_mismatch_none : (a : Lease) → lease_mismatch (lease_row a) ≡ false
unfolding lease_mismatch
lease_mismatch_none a = rw (eqb_refl a.thread_alias) (ground arith)

pub read_lease-valid : (a : Lease) → valid_lease a ≡ true → read_lease (some a) ≡ answer (some a)
unfolding read_lease read_lease_row
read_lease-valid a v =
    rw
      (
        nonnegative (lease_state_number a.state),
        nonnegative a.turns_committed,
        v,
        lease_mismatch_none a,
      )
      refl

same_text_refl : (o : Option Text) → same_option eqb o o ≡ true
same_text_refl none = refl
same_text_refl (some s) = eqb_refl s

eqb_ℤ_refl : (x : ℤ) → eqb_ℤ x x ≡ true
eqb_ℤ_refl x = ground arith

intent_mismatch_none : (a : Intent) → intent_mismatch (intent_row a) ≡ false
unfolding intent_mismatch
intent_mismatch_none a =
    rw (eqb_refl a.lease_id, eqb_refl a.event_id, eqb_refl a.request_id, eqb_ℤ_refl a.created_at_ms)
      (ground arith)

disposition_mismatch_none : (a : Disposition) → disposition_mismatch (disposition_row a) ≡ false
unfolding disposition_mismatch
disposition_mismatch_none a =
    rw
      (
        eqb_refl a.consumer_id,
        eqb_refl a.event_id,
        same_text_refl a.intent_id,
        eqb_ℤ_refl a.created_at_ms,
      )
      (ground arith)

module _ (sha256_hex : Text → Text) where
  intent_created :
      (a : Intent) → valid_intent sha256_hex a ≡ true → ltb_ℤ a.created_at_ms (pos 0) ≡ false
  unfolding valid_intent refused_intent
  intent_created a v = ground arith

  pub read_intent-valid :
      (a : Intent)
      → valid_intent sha256_hex a ≡ true
      → read_intent sha256_hex (some a) ≡ answer (some a)
  unfolding read_intent read_intent_row
  read_intent-valid a v =
      rw (nonnegative (intent_state_number a.state), intent_created a v, v, intent_mismatch_none a)
        refl

  disposition_columns :
      (a : Disposition)
      → valid_disposition sha256_hex a ≡ true
      → (ltb_ℤ a.created_at_ms (pos 0) ≡ false)
        × (leb_ℤ (pos a.completion_sequence) (pos 0) ≡ false)
  unfolding valid_disposition refused_disposition
  disposition_columns a v = (ground arith, ground arith)

  pub read_disposition-valid :
      (a : Disposition)
      → valid_disposition sha256_hex a ≡ true
      → read_disposition sha256_hex (some a) ≡ answer (some a)
  unfolding read_disposition read_disposition_row
  read_disposition-valid a v =
      let columns = disposition_columns a v in
      rw
        (
          nonnegative (kind_number a.kind),
          nonnegative (disposition_state_number a.state),
          columns.0,
          columns.1,
          v,
          disposition_mismatch_none a,
        )
        refl
