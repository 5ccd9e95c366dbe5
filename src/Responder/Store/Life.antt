-- ===== src/Responder/Store/Life.antt =====
-- Any sequence of calls of the responder store, under any faults (src/LocalGooseDialogueResponderStore.cpp).
use gaudere_agent.Prelude.{ℕ, ◌≤◌, ◌≡◌, refl, ap, ◌∙◌, some, [], arith, all, ℤ}
use gaudere_agent.Text.{Text}
use gaudere_agent.Sidecar.{Fault}
use gaudere_agent.Sidecar.Rows.{find_row, tally, count}
use gaudere_agent.Responder.Lease.{
  Lease, LeaseState, valid_lease, refused_lease, system_turns_limit,
}
use gaudere_agent.Responder.Intent.{Intent, IntentState}
use gaudere_agent.Responder.Disposition.{Disposition}
use gaudere_agent.Responder.Store.{Ledger, lease_key}
use gaudere_agent.Responder.Store.Leases.{create_lease, close_lease}
use gaudere_agent.Responder.Store.Intents.{prepare_intent, complete_intent, terminalize_intent}
use gaudere_agent.Responder.Store.Submission.{commit_submission}
use gaudere_agent.Responder.Store.Dispositions.{prepare_disposition, bind_disposition_intent}
use gaudere_agent.Responder.Store.Reconcile.{
  acknowledge_disposition, complete_disposition, terminalize_disposition,
}
use gaudere_agent.Responder.Store.Change.{Change}
use gaudere_agent.Responder.Store.LeaseSteps.{create_lease-Steps, close_lease-Steps}
use gaudere_agent.Responder.Store.IntentSteps.{
  prepare_intent-Steps, complete_intent-Steps, terminalize_intent-Steps,
}
use gaudere_agent.Responder.Store.SubmissionSteps.{commit_submission-Steps}
use gaudere_agent.Responder.Store.DispositionSteps.{
  prepare_disposition-Steps, bind_disposition_intent-Steps,
}
use gaudere_agent.Responder.Store.ReconcileSteps.{
  acknowledge_disposition-Steps, complete_disposition-Steps, terminalize_disposition-Steps,
}
use gaudere_agent.Responder.Store.Account.{submission_of, turns_of, Accounted, Change-Accounted}
use gaudere_agent.Responder.Store.Stored.{Stored, Change-Stored, find_row-all}
use gaudere_agent.Responder.Store.Uniqueness.{Unique, Change-Unique}

abbrev pub empty_ledger : Ledger
empty_ledger = record { leases = []; intents = []; dispositions = [] }

-- The calls of the store that write.
pub data Call : Type 0 where
  creates : Lease → Call
  closes : (id : Text) (state : LeaseState) (reason : Text) (at : ℤ) → Call
  prepares : Intent → Call
  commits : (id task_id : Text) (revision : ℕ) (at : ℤ) → Call
  completes : (id : Text) (at : ℤ) → Call
  terminalizes : (id : Text) (state : IntentState) (reason : Text) → Call
  disposes : Disposition → Call
  binds : (id intent_id : Text) (at : ℤ) → Call
  acknowledges : (id : Text) (at : ℤ) → Call
  reconciles : (id : Text) (at : ℤ) → Call
  reviews : (id reason : Text) (at : ℤ) → Call

module _ (sha256_hex : Text → Text) where
  -- The tables after a call.
  abbrev pub run : Ledger → Fault → Call → Ledger
  run l f (creates lease) = (create_lease l f lease).0
  run l f (closes id state reason at) = (close_lease l f id state reason at).0
  run l f (prepares intent) = (prepare_intent sha256_hex l f intent).0
  run l f (commits id task_id revision at) =
      (commit_submission sha256_hex l f id task_id revision at).0
  run l f (completes id at) = (complete_intent sha256_hex l f id at).0
  run l f (terminalizes id state reason) = (terminalize_intent sha256_hex l f id state reason).0
  run l f (disposes d) = (prepare_disposition sha256_hex l f d).0
  run l f (binds id intent_id at) = (bind_disposition_intent sha256_hex l f id intent_id at).0
  run l f (acknowledges id at) = (acknowledge_disposition sha256_hex l f id at).0
  run l f (reconciles id at) = (complete_disposition sha256_hex l f id at).0
  run l f (reviews id reason at) = (terminalize_disposition sha256_hex l f id reason at).0

  -- The tables after any calls, in any order, each under any fault.
  pub data Life : Ledger → Type 0 where
    born : Life empty_ledger
    call : {l : Ledger} → Life l → (f : Fault) (c : Call) → Life (run l f c)

  run-Change : (l : Ledger) (f : Fault) (c : Call) → Change sha256_hex l (run l f c)
  run-Change l f (creates lease) = create_lease-Steps sha256_hex l f lease
  run-Change l f (closes id state reason at) = close_lease-Steps sha256_hex l f id state reason at
  run-Change l f (prepares intent) = prepare_intent-Steps sha256_hex l f intent
  run-Change l f (commits id task_id revision at) =
      commit_submission-Steps sha256_hex l f id task_id revision at
  run-Change l f (completes id at) = complete_intent-Steps sha256_hex l f id at
  run-Change l f (terminalizes id state reason) =
      terminalize_intent-Steps sha256_hex l f id state reason
  run-Change l f (disposes d) = prepare_disposition-Steps sha256_hex l f d
  run-Change l f (binds id intent_id at) =
      bind_disposition_intent-Steps sha256_hex l f id intent_id at
  run-Change l f (acknowledges id at) = acknowledge_disposition-Steps sha256_hex l f id at
  run-Change l f (reconciles id at) = complete_disposition-Steps sha256_hex l f id at
  run-Change l f (reviews id reason at) = terminalize_disposition-Steps sha256_hex l f id reason at

  Life-Accounted : {l : Ledger} → Life l → Accounted l
  unfolding tally find_row
  Life-Accounted born = record { at = λ id. refl }
  Life-Accounted (call {l} life f c) =
      Change-Accounted sha256_hex (run-Change l f c) (Life-Accounted life)

  -- In any life of the store, the turns committed of a lease are the number of its intents that have a complete
  -- submission; where there is no such lease, there is no such intent.
  pub Life-turns :
      {l : Ledger}
      → Life l
      → (lease_id : Text)
      → count (submission_of lease_id) l.intents ≡ turns_of (find_row lease_key lease_id l.leases)
  Life-turns life lease_id = (Life-Accounted life).at lease_id

  -- In any life of the store a thread has at most one active lease, a lease has at most one intent for a
  -- completion event, and a consumer has at most one disposition for an event and one for a sequence.
  pub Life-Unique : {l : Ledger} → Life l → Unique l
  unfolding tally
  Life-Unique born = record {
    lease = λ alias. omega arith;
    trigger = λ a b. omega arith;
    event = λ a b. omega arith;
    sequence = λ a n. omega arith;
  }
  Life-Unique (call {l} life f c) = Change-Unique sha256_hex (run-Change l f c) (Life-Unique life)

  pub Life-Stored : {l : Ledger} → Life l → Stored sha256_hex l
  unfolding all
  Life-Stored born = record { leases = refl; intents = refl; dispositions = refl }
  Life-Stored (call {l} life f c) = Change-Stored sha256_hex (run-Change l f c) (Life-Stored life)

  -- In any life of the store the number of submissions under a lease is at most its max_system_turns, which is at
  -- most 8.
  pub Life-quota :
      {l : Ledger} {lease : Lease} (lease_id : Text)
      → Life l
      → find_row lease_key lease_id l.leases ≡ some lease
      → (count (submission_of lease_id) l.intents ≤ lease.max_system_turns)
        × (lease.max_system_turns ≤ system_turns_limit)
  unfolding valid_lease refused_lease
  Life-quota {l} {lease} lease_id life e =
      let valid =
        find_row-all valid_lease lease_key lease_id lease l.leases (Life-Stored life).leases e in
      let turns = Life-turns life lease_id ∙ ap turns_of e in
      let bounds : (lease.turns_committed ≤ lease.max_system_turns)
          × (lease.max_system_turns ≤ system_turns_limit) =
        ground arith in
      (omega (arith, turns, bounds.0), bounds.1)
