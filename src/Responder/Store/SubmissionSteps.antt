-- ===== src/Responder/Store/SubmissionSteps.antt =====
-- commit_submission of src/LocalGooseDialogueResponderStore.cpp changes the tables as Change allows.
use gaudere_agent.Prelude.{
  ℕ, ◌+◌, ◌≡◌, refl, ◌∙◌, inl, inr, true, false, not, ◌||◌, Option, none, some, arith, ltb, leb,
  Bool-cases, Option-cases, int64_max, ℤ, pos, ltb_ℤ,
}
use gaudere_agent.Text.{Text, prefixed_sha256}
use gaudere_agent.Sidecar.{Fault}
use gaudere_agent.Sidecar.Rows.{find_row, set_row, find_row_key, find_row_again}
use gaudere_agent.Sidecar.Rules.{Gives, gives, fails, Gives-bind, Gives-then, transaction-keeps}
use gaudere_agent.Responder.Lease.{Lease, active, valid_lease, v3_task_prefix}
use gaudere_agent.Responder.Intent.{
  Intent, submitted, valid_intent, valid_intent_in, complete_submission, intent_prefix,
}
use gaudere_agent.Responder.Store.{
  Ledger, failed, lease_key, intent_key, lease_in, find_intent_row, find_lease_row, update_lease,
  update_intent, checked_next_eligible,
}
use gaudere_agent.Responder.Store.Submission.{
  submitted_intent, quota_spent, accounted_lease, commit_conflicts, already_committed, account,
  account_if_eligible, commit_on_lease, commit_found, commit_submission,
}
use gaudere_agent.Responder.Store.Change.{
  Change, same, turn_taken, Canonical, update_lease-Gives, update_intent-Gives,
}
use gaudere_agent.Responder.Store.LeaseSteps.{Steps, find_lease_row-Reads}
use gaudere_agent.Responder.Store.IntentSteps.{find_intent_row-Reads, valid_here, prepared-blank}

-- What keeps an active lease active after another turn was active before it.
accounted-active :
    (lease : Lease) (next at : ℤ)
    → lease_in active (accounted_lease lease next at) ≡ true
    → lease_in active lease ≡ true
unfolding accounted_lease
accounted-active lease next at h = elim (Bool-cases (quota_spent lease)) [
  | inl y ↦ cc (rw y at h)
  | inr n ↦ rw n at h
]

accounted-fields :
    (lease : Lease) (next at : ℤ)
    → ((accounted_lease lease next at).lease_id ≡ lease.lease_id)
      × ((accounted_lease lease next at).thread_alias ≡ lease.thread_alias)
      × ((accounted_lease lease next at).turns_committed ≡ lease.turns_committed + 1)
unfolding accounted_lease
accounted-fields lease next at = elim (Bool-cases (quota_spent lease)) [
  | inl y ↦ rw y (refl, refl, refl)
  | inr n ↦ rw n (refl, refl, refl)
]

module _ (sha256_hex : Text → Text) where
  submitted-full :
      (i : Intent)
      → valid_intent sha256_hex i ≡ true
      → i.state ≡ submitted
      → complete_submission i ≡ true
  unfolding valid_intent_in
  submitted-full i v p = let here = rw p at (valid_here sha256_hex i v) in ground arith

  account-Steps :
      (l : Ledger) (intent : Intent) (lease : Lease) (task_id : Text) (revision : ℕ) (at next : ℤ)
      → complete_submission intent ≡ false
      → find_row intent_key intent.intent_id l.intents ≡ some intent
      → find_row lease_key intent.lease_id l.leases ≡ some lease
      → Gives (Steps sha256_hex l) (account sha256_hex l intent lease task_id revision at next)
  unfolding account submitted_intent
  account-Steps l intent lease task_id revision at next c i e =
      let new = submitted_intent intent task_id revision at in
      let turned = accounted_lease lease next at in
      let fields = accounted-fields lease next at in
      let l1 : Ledger = record l { intents = set_row intent_key new l.intents } in
      let own : turned.lease_id ≡ intent.lease_id =
        fields.0 ∙ find_row_key lease_key intent.lease_id l.leases lease e in
      elim (Bool-cases (valid_intent sha256_hex new)) [
        | inr broken ↦ rw broken fails
        | inl v ↦ rw v (
            Gives-then l1 (Steps sha256_hex l) (update_intent l new intent.state) _
              (update_intent-Gives l new intent.state)
              (elim (Bool-cases (valid_lease turned)) [
                | inr broken ↦ rw broken fails
                | inl w ↦ rw w (
                    Gives-then _ (Steps sha256_hex l)
                      (update_lease l1 turned lease.state lease.turns_committed) _
                      (update_lease-Gives l1 turned lease.state lease.turns_committed)
                      (gives (
                        turn_taken intent new lease turned v w i refl refl c
                          (submitted-full new v refl) own (rw own e) fields.1 fields.2
                          (accounted-active lease next at))))
              ]))
      ]

  commit_on_lease-Steps :
      (l : Ledger) (intent : Intent) (task_id : Text) (revision : ℕ) (at : ℤ) (o : Option Lease)
      → complete_submission intent ≡ false
      → find_row intent_key intent.intent_id l.intents ≡ some intent
      → find_row lease_key intent.lease_id l.leases ≡ o
      → Gives (Steps sha256_hex l) (commit_on_lease sha256_hex l intent task_id revision at o)
  unfolding commit_on_lease account_if_eligible
  commit_on_lease-Steps l intent task_id revision at none c i e = gives same
  commit_on_lease-Steps l intent task_id revision at (some lease) c i e =
      elim (Bool-cases (leb lease.max_system_turns lease.turns_committed)) [
        | inl spent ↦ rw spent (gives same)
        | inr left ↦ elim (Option-cases (checked_next_eligible at lease.min_interval_ms)) [
          | inl over ↦ rw (left, over) (gives same)
          | inr next ↦
              rw (left, next.1) (account-Steps l intent lease task_id revision at next.0 c i e)
        ]
      ]

  commit_found-Steps :
      (l : Ledger) (task_id : Text) (revision : ℕ) (at : ℤ) (id : Text) (o : Option Intent)
      → find_row intent_key id l.intents ≡ o
      → Canonical (valid_intent sha256_hex) o
      → Gives (Steps sha256_hex l) (commit_found sha256_hex l task_id revision at o)
  unfolding commit_found commit_conflicts
  commit_found-Steps l task_id revision at id none e v = gives same
  commit_found-Steps l task_id revision at id (some intent) e v =
      elim (Bool-cases (already_committed intent task_id revision)) [
        | inl again ↦ rw again (gives same)
        | inr fresh ↦ elim (Bool-cases (commit_conflicts intent revision at)) [
          | inl bad ↦ rw (fresh, bad) (gives same)
          | inr good ↦
              rw (fresh, good)
                (Gives-bind (Steps sha256_hex l) (find_lease_row l intent.lease_id) _
                  (find_lease_row-Reads l intent.lease_id)
                  (λ o r.
                    commit_on_lease-Steps l intent task_id revision at o
                      (prepared-blank sha256_hex intent v (ground arith))
                      (find_row_again intent_key id l.intents intent e) r.0))
        ]
      ]

  pub commit_submission-Steps :
      (l : Ledger) (f : Fault) (id task_id : Text) (revision : ℕ) (at : ℤ)
      → Change sha256_hex l (commit_submission sha256_hex l f id task_id revision at).0
  unfolding commit_submission
  commit_submission-Steps l f id task_id revision at =
      elim (Bool-cases (
        not (prefixed_sha256 id intent_prefix)
        || not (prefixed_sha256 task_id v3_task_prefix)
        || ltb int64_max revision
        || ltb_ℤ at (pos 0))) [
          | inl bad ↦ rw bad same
          | inr good ↦ rw good (
              transaction-keeps (Change sha256_hex l) failed l f _ same (
                Gives-bind (Steps sha256_hex l) (find_intent_row sha256_hex l id) _
                  (find_intent_row-Reads sha256_hex l id)
                  (λ o r. commit_found-Steps l task_id revision at id o r.0 r.1)))
        ]
