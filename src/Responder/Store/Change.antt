-- ===== src/Responder/Store/Change.antt =====
-- What one call of the responder store does to its tables (src/LocalGooseDialogueResponderStore.cpp), and
-- what its SELECTs and UPDATEs give.
use gaudere_agent.Prelude.{
  ℕ, ◌+◌, ◌≡◌, refl, inl, inr, Bool, true, false, not, ◌&&◌, Option, none, some, ◌∷◌, ◌==◌,
  Bool-cases, if◌then◌else◌,
}
use gaudere_agent.Text.{Text}
use gaudere_agent.Sidecar.{Query, answer, throws, ◌>>=◌}
use gaudere_agent.Sidecar.Rows.{find_row, set_row, find_where}
use gaudere_agent.Sidecar.Rules.{Gives, gives, fails}
use gaudere_agent.Responder.Lease.{Lease, LeaseState, active, valid_lease}
use gaudere_agent.Responder.Intent.{Intent, IntentState, valid_intent, complete_submission}
use gaudere_agent.Responder.Disposition.{Disposition, DispositionState, valid_disposition}
use gaudere_agent.Responder.Rows.{
  read_lease, read_lease_row, read_intent, read_intent_row, read_disposition, read_disposition_row,
}
use gaudere_agent.Responder.Store.{
  Ledger, lease_key, intent_key, disposition_key, lease_in, active_on, triggered_by, for_event,
  for_sequence, bound_elsewhere, update_lease, update_found_lease, update_found_intent,
  update_found_disposition, disposition_in, intent_in, update_intent, update_disposition,
}

pub data Change (sha256_hex : Text → Text) (l : Ledger) : Ledger → Type 0 where
  same : Change sha256_hex l l
  leased :
      (lease : Lease)
      → valid_lease lease ≡ true
      → lease_in active lease ≡ true
      → lease.turns_committed ≡ 0
      → find_row lease_key lease.lease_id l.leases ≡ none
      → find_where (active_on lease.thread_alias) l.leases ≡ none
      → Change sha256_hex l (record l { leases = lease ∷ l.leases })
  lease_closed :
      (old new : Lease)
      → valid_lease new ≡ true
      → find_row lease_key new.lease_id l.leases ≡ some old
      → new.turns_committed ≡ old.turns_committed
      → lease_in active new ≡ false
      → Change sha256_hex l (record l { leases = set_row lease_key new l.leases })
  intent_prepared :
      (intent : Intent) (lease : Lease)
      → valid_intent sha256_hex intent ≡ true
      → complete_submission intent ≡ false
      → find_row intent_key intent.intent_id l.intents ≡ none
      → find_where (triggered_by intent.lease_id intent.event_id) l.intents ≡ none
      → find_row lease_key intent.lease_id l.leases ≡ some lease
      → Change sha256_hex l (record l { intents = intent ∷ l.intents })
  turn_taken :
      (old new : Intent) (lease turned : Lease)
      → valid_intent sha256_hex new ≡ true
      → valid_lease turned ≡ true
      → find_row intent_key new.intent_id l.intents ≡ some old
      → new.lease_id ≡ old.lease_id
      → new.event_id ≡ old.event_id
      → complete_submission old ≡ false
      → complete_submission new ≡ true
      → turned.lease_id ≡ new.lease_id
      → find_row lease_key turned.lease_id l.leases ≡ some lease
      → turned.thread_alias ≡ lease.thread_alias
      → turned.turns_committed ≡ lease.turns_committed + 1
      → (lease_in active turned ≡ true → lease_in active lease ≡ true)
      → Change sha256_hex l (record l {
        leases = set_row lease_key turned l.leases;
        intents = set_row intent_key new l.intents;
      })
  intent_moved :
      (old new : Intent)
      → valid_intent sha256_hex new ≡ true
      → find_row intent_key new.intent_id l.intents ≡ some old
      → new.lease_id ≡ old.lease_id
      → new.event_id ≡ old.event_id
      → complete_submission new ≡ complete_submission old
      → Change sha256_hex l (record l { intents = set_row intent_key new l.intents })
  disposition_added :
      (d : Disposition)
      → valid_disposition sha256_hex d ≡ true
      → find_row disposition_key d.disposition_id l.dispositions ≡ none
      → find_where (for_event d.consumer_id d.event_id) l.dispositions ≡ none
      → find_where (for_sequence d.consumer_id d.completion_sequence) l.dispositions ≡ none
      → Change sha256_hex l (record l { dispositions = d ∷ l.dispositions })
  disposition_moved :
      (old new : Disposition)
      → valid_disposition sha256_hex new ≡ true
      → find_row disposition_key new.disposition_id l.dispositions ≡ some old
      → new.consumer_id ≡ old.consumer_id
      → new.event_id ≡ old.event_id
      → new.completion_sequence ≡ old.completion_sequence
      → Change sha256_hex l (record l { dispositions = set_row disposition_key new l.dispositions })

-- A row that was read is canonical.
module _ {A : Type 0} (valid : A → Bool) where
  abbrev pub Canonical : Option A → Type 0
  Canonical none = Unit {0}
  Canonical (some a) = valid a ≡ true

abbrev pub Reads : {A : Type 0} → (A → Bool) → Option A → Query (Option A) → Type 0
Reads valid o query = Gives (λ p. (o ≡ p) × Canonical valid p) query

read_document :
    {A : Type 0} (valid : A → Bool) (a : A) (bad mismatch : Bool) (t1 t2 t3 : Text)
    → Reads valid (some a) (
        (if bad
          then throws t1
          else if not (valid a)
          then throws t2
          else if mismatch
          then throws t3
          else answer a)
        >>= λ out. answer (some out))
read_document valid a true mismatch t1 t2 t3 = fails
read_document valid a false mismatch t1 t2 t3 = elim (Bool-cases (valid a)) [
  | inr n ↦ rw n fails
  | inl v ↦
      rw v (elim (Bool-cases mismatch) [ inl m ↦ rw m fails | inr m ↦ rw m (gives (refl, v)) ])
]

pub read_lease-Reads : (o : Option Lease) → Reads valid_lease o (read_lease o)
unfolding read_lease read_lease_row
read_lease-Reads none = gives (refl, tt)
read_lease-Reads (some lease) = read_document valid_lease lease _ _ _ _ _

module _ (sha256_hex : Text → Text) where
  pub read_intent-Reads :
      (o : Option Intent) → Reads (valid_intent sha256_hex) o (read_intent sha256_hex o)
  unfolding read_intent read_intent_row
  read_intent-Reads none = gives (refl, tt)
  read_intent-Reads (some intent) = read_document (valid_intent sha256_hex) intent _ _ _ _ _

  pub read_disposition-Reads :
      (o : Option Disposition)
      → Reads (valid_disposition sha256_hex) o (read_disposition sha256_hex o)
  unfolding read_disposition read_disposition_row
  read_disposition-Reads none = gives (refl, tt)
  read_disposition-Reads (some d) = read_document (valid_disposition sha256_hex) d _ _ _ _ _

-- An UPDATE that does not throw sets the row.
update_found_lease-Gives :
    (l : Ledger) (lease : Lease) (state : LeaseState) (turns : ℕ) (o : Option Lease)
    → Gives
        (λ l'. l' ≡ record l { leases = set_row lease_key lease l.leases })
        (update_found_lease l lease state turns o)
unfolding update_found_lease
update_found_lease-Gives l lease state turns none = fails
update_found_lease-Gives l lease state turns (some row) =
    elim (Bool-cases (lease_in state row && row.turns_committed == turns)) [
      | inl y ↦ rw y (gives refl)
      | inr n ↦ rw n fails
    ]

pub update_lease-Gives :
    (l : Ledger) (lease : Lease) (state : LeaseState) (turns : ℕ)
    → Gives
        (λ l'. l' ≡ record l { leases = set_row lease_key lease l.leases })
        (update_lease l lease state turns)
unfolding update_lease
update_lease-Gives l lease state turns =
    update_found_lease-Gives l lease state turns (find_row lease_key lease.lease_id l.leases)

update_found_intent-Gives :
    (l : Ledger) (intent : Intent) (state : IntentState) (o : Option Intent)
    → Gives
        (λ l'. l' ≡ record l { intents = set_row intent_key intent l.intents })
        (update_found_intent l intent state o)
unfolding update_found_intent
update_found_intent-Gives l intent state none = fails
update_found_intent-Gives l intent state (some row) = elim (Bool-cases (intent_in state row)) [
  | inl y ↦ rw y (gives refl)
  | inr n ↦ rw n fails
]

pub update_intent-Gives :
    (l : Ledger) (intent : Intent) (state : IntentState)
    → Gives
        (λ l'. l' ≡ record l { intents = set_row intent_key intent l.intents })
        (update_intent l intent state)
unfolding update_intent
update_intent-Gives l intent state =
    update_found_intent-Gives l intent state (find_row intent_key intent.intent_id l.intents)

update_found_disposition-Gives :
    (l : Ledger) (d : Disposition) (state : DispositionState) (o : Option Disposition)
    → Gives
        (λ l'. l' ≡ record l { dispositions = set_row disposition_key d l.dispositions })
        (update_found_disposition l d state o)
unfolding update_found_disposition
update_found_disposition-Gives l d state none = fails
update_found_disposition-Gives l d state (some row) =
    elim (Bool-cases (disposition_in state row && not (bound_elsewhere d l.dispositions))) [
      | inl y ↦ rw y (gives refl)
      | inr n ↦ rw n fails
    ]

pub update_disposition-Gives :
    (l : Ledger) (d : Disposition) (state : DispositionState)
    → Gives
        (λ l'. l' ≡ record l { dispositions = set_row disposition_key d l.dispositions })
        (update_disposition l d state)
unfolding update_disposition
update_disposition-Gives l d state =
    update_found_disposition-Gives l d state
      (find_row disposition_key d.disposition_id l.dispositions)
