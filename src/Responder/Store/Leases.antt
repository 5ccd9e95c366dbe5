-- ===== src/Responder/Store/Leases.antt =====
-- create_lease and close_lease of src/LocalGooseDialogueResponderStore.cpp.
use gaudere_agent.Prelude.{
  Bool, true, false, not, ◌&&◌, ◌||◌, Option, none, some, ◌∷◌, ltb, ◌==◌, if◌then◌else◌, empty,
  length, same_option, ℤ, pos, eqb_ℤ, ltb_ℤ,
}
use gaudere_agent.Text.{Text, text, eqb, safe_identifier}
use gaudere_agent.Sidecar.{Fault, Query, answer, throw_if, ◌>>=◌, ◌>>◌, transaction}
use gaudere_agent.Responder.Lease.{
  Lease, LeaseState, active, exhausted, expired, revoked, manual_review, valid_lease,
  max_reason_bytes,
}
use gaudere_agent.Responder.Store.{
  accepted, duplicate, conflict, invalid, Write, wrote, failed, Ledger, lease_in, same_lease,
  find_lease_row, find_active_row, update_lease, lease_state_number,
}

abbrev pub LeaseAnswer : Type 0
LeaseAnswer = Query (Ledger × Write Lease)

-- The INSERT. The SELECTs before it have tested its key and the unique active lease of the thread.
unfoldable pub create_unless_active : Ledger → Lease → Option Lease → LeaseAnswer
create_unless_active l lease (some other) =
    answer (
      l,
      wrote conflict (some other) (text "preferred thread already has an active responder lease"),
    )
create_unless_active l lease none = answer (
  record l { leases = lease ∷ l.leases },
  wrote accepted (some lease) (text "dialogue responder lease created"),
)

unfoldable pub create_unless_found : Ledger → Lease → Option Lease → LeaseAnswer
create_unless_found l lease (some existing) = answer (
  l,
  (if same_lease existing lease
      then wrote duplicate (some existing) (text "dialogue responder lease already exists")
      else wrote conflict (some existing) (text "dialogue responder lease id conflicts")),
)
create_unless_found l lease none = do
  other ← find_active_row l lease.thread_alias
  create_unless_active l lease other

unfoldable pub bad_new_lease : Lease → Bool
bad_new_lease lease =
    not (valid_lease lease)
    || not (lease_in active lease)
    || not (lease.turns_committed == 0)
    || not (eqb_ℤ lease.next_eligible_at_ms lease.issued_at_ms)

unfoldable pub create_lease : Ledger → Fault → Lease → Ledger × Write Lease
create_lease l fault lease =
    if bad_new_lease lease
    then (l, wrote invalid none (text "invalid initial dialogue responder lease"))
    else transaction failed l fault
        (find_lease_row l lease.lease_id >>= λ existing. create_unless_found l lease existing)

-- expired, revoked or manual_review
unfoldable pub closing_state : LeaseState → Bool
closing_state active = false
closing_state exhausted = false
closing_state expired = true
closing_state revoked = true
closing_state manual_review = true

abbrev pub is_expired : LeaseState → Bool
is_expired state = lease_state_number state == lease_state_number expired

unfoldable pub closed_lease : Lease → LeaseState → Text → ℤ → Lease
closed_lease lease state reason at = record lease {
  state = state;
  terminal_reason = reason;
  terminal_at_ms = some at;
}

unfoldable pub close_conflicts : Lease → LeaseState → ℤ → Bool
close_conflicts lease state at =
    not (lease_in active lease)
    || ltb_ℤ at lease.issued_at_ms
    || (is_expired state && ltb_ℤ at lease.expires_at_ms)

unfoldable pub already_closed : Lease → LeaseState → Text → ℤ → Bool
already_closed lease state reason at =
    lease_in state lease
    && eqb lease.terminal_reason reason
    && same_option eqb_ℤ lease.terminal_at_ms (some at)

unfoldable pub close_found : Ledger → LeaseState → Text → ℤ → Option Lease → LeaseAnswer
close_found l state reason at none =
    answer (l, wrote conflict none (text "dialogue responder lease not found"))
close_found l state reason at (some lease) =
    if already_closed lease state reason at
    then answer (l, wrote duplicate (some lease) (text "dialogue responder lease already closed"))
    else if close_conflicts lease state at
    then answer (l, wrote conflict (some lease) (text "dialogue responder lease close conflicts"))
    else (do
      let closed = closed_lease lease state reason at
      throw_if (not (valid_lease closed)) (text "terminal responder lease became invalid")
      l' ← update_lease l closed lease.state lease.turns_committed
      answer (l', wrote accepted (some closed) (text "dialogue responder lease closed")))

unfoldable pub close_lease : Ledger → Fault → Text → LeaseState → Text → ℤ → Ledger × Write Lease
close_lease l fault lease_id terminal_state reason terminal_at_ms =
    if not (safe_identifier lease_id)
      || not (closing_state terminal_state)
      || empty reason
      || ltb max_reason_bytes (length reason)
      || ltb_ℤ terminal_at_ms (pos 0)
    then (l, wrote invalid none (text "invalid responder lease terminal transition"))
    else transaction failed l fault (
        find_lease_row l lease_id >>= λ lease.
        close_found l terminal_state reason terminal_at_ms lease)
