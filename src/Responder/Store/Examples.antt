-- ===== src/Responder/Store/Examples.antt =====
-- Tests of the responder store and instances of its theorems, with a digest under which all texts collide.
use gaudere_agent.Prelude.{
  ℕ, zero, suc, ◌≡◌, ◌≤◌, refl, none, some, [], ◌∷◌, ◌++◌, all, pos, ◌-ℤ◌, ◌+ℤ◌,
}
use gaudere_agent.Text.{
  Text, text, eqb, safe_identifier, bounded_nonempty, lowercase_sha256, prefixed_sha256, hex_byte,
  identifier_byte, starts_with,
}
use gaudere_agent.Sidecar.{healthy, transaction}
use gaudere_agent.Sidecar.Rows.{find_row, set_row, find_where, count}
use gaudere_agent.Responder.Lease.{
  Lease, active, exhausted, valid_lease, refused_lease, valid_lease_in, valid_lease_state,
  unfinished_lease, message_kind_bit, v2_task_prefix, v3_task_prefix, completion_event_prefix,
  dialogue_task_id, v3_task_id, system_turns_limit,
}
use gaudere_agent.Responder.Intent.{
  Intent, valid_intent, refused_intent, any_submission, complete_submission, refused_submission,
  valid_intent_in, valid_intent_state, intent_digest, intent_canonical, foreign_intent, make_intent,
}
use gaudere_agent.Responder.Store.{
  Ledger, lease_key, checked_next_eligible, find_lease_row, find_active_row, update_found_lease,
  update_lease, update_found_intent, update_intent, find_intent_row, find_trigger_intent,
}
use gaudere_agent.Responder.Rows.{
  read_lease, read_lease_row, lease_mismatch, read_intent, read_intent_row, intent_mismatch,
}
use gaudere_agent.Responder.Store.Leases.{
  create_unless_active, create_unless_found, bad_new_lease, create_lease,
}
use gaudere_agent.Responder.Store.Intents.{
  not_admitted, requested, insert_intent, prepare_admitted, prepare_unless_triggered,
  prepare_unless_found, prepare_intent,
}
use gaudere_agent.Responder.Store.Submission.{
  submitted_intent, quota_spent, accounted_lease, commit_conflicts, already_committed, account,
  account_if_eligible, commit_on_lease, commit_found, commit_submission,
}
use gaudere_agent.Responder.Store.Account.{submission_of, turns_of}
use gaudere_agent.Responder.Store.Uniqueness.{Unique}
use gaudere_agent.Responder.Store.Life.{
  Life, born, call, creates, prepares, commits, run, empty_ledger, Life-turns, Life-Unique,
  Life-quota,
}

abbrev repeat : ℕ → ℕ → Text
repeat zero c = []
repeat (suc n) c = c ∷ repeat n c

abbrev sixty_four : Text
sixty_four = repeat 64 b'a'

abbrev constant_digest : Text → Text
constant_digest t = sixty_four

abbrev lease_1 : Text
unfolding text
lease_1 = text "lease-1"

abbrev ask : Intent
unfolding text make_intent intent_digest lease_1
ask =
    make_intent constant_digest lease_1 (text "main") 7 (completion_event_prefix ++ sixty_four)
      sixty_four (v3_task_prefix ++ sixty_four) 3 (v2_task_prefix ++ sixty_four) (text "goose")
      (text "dialogue") (text "hello") (pos 10) (pos 20)

abbrev grant : Lease
unfolding text lease_1
grant = record {
  lease_id = lease_1;
  thread_alias = text "main";
  speaker_kind = text "system";
  speaker_id = text "goose";
  allowed_message_kinds = 1;
  purpose = text "talk";
  max_system_turns = 1;
  turns_committed = 0;
  issued_at_ms = pos 5;
  expires_at_ms = pos 50;
  min_interval_ms = pos 2;
  next_eligible_at_ms = pos 5;
  state = active;
  terminal_reason = [];
  terminal_at_ms = none;
}

-- The only turn of the grant, committed at 12.
abbrev spent : Lease
unfolding text
spent = record grant {
  turns_committed = 1;
  next_eligible_at_ms = pos 14;
  state = exhausted;
  terminal_reason = text "quota_exhausted";
  terminal_at_ms = some (pos 12);
}

abbrev granted : Ledger
granted = run constant_digest empty_ledger healthy (creates grant)

abbrev asked : Ledger
asked = run constant_digest granted healthy (prepares ask)

abbrev committed : Ledger
committed =
    run constant_digest asked healthy
      (commits ask.intent_id (v3_task_prefix ++ sixty_four) 4 (pos 12))

committed-Life : Life constant_digest committed
committed-Life =
    call (call (call born healthy (creates grant)) healthy (prepares ask)) healthy
      (commits ask.intent_id (v3_task_prefix ++ sixty_four) 4 (pos 12))

granted_rows : granted.leases ≡ grant ∷ []
unfolding text eqb safe_identifier identifier_byte bounded_nonempty all starts_with valid_lease
    refused_lease valid_lease_in valid_lease_state find_row find_where read_lease read_lease_row
    lease_mismatch find_lease_row find_active_row create_unless_active create_unless_found
    bad_new_lease create_lease transaction ◌-ℤ◌ lease_1 grant
granted_rows = refl

committed_rows : committed.leases ≡ spent ∷ []
unfolding text eqb safe_identifier identifier_byte bounded_nonempty lowercase_sha256 prefixed_sha256
    hex_byte starts_with all valid_lease refused_lease valid_lease_in valid_lease_state
    unfinished_lease find_row set_row find_where read_lease read_lease_row lease_mismatch
    find_lease_row find_active_row create_unless_active create_unless_found bad_new_lease
    create_lease transaction ◌-ℤ◌ lease_1 grant ask make_intent intent_digest spent valid_intent
    refused_intent any_submission complete_submission refused_submission valid_intent_in
    valid_intent_state intent_canonical foreign_intent dialogue_task_id v3_task_id message_kind_bit
    not_admitted requested insert_intent prepare_admitted prepare_unless_triggered submitted_intent
    quota_spent accounted_lease commit_conflicts already_committed prepare_unless_found
    prepare_intent account account_if_eligible commit_on_lease commit_found commit_submission
    read_intent read_intent_row intent_mismatch find_intent_row find_trigger_intent
    update_found_lease update_lease update_found_intent update_intent checked_next_eligible ◌+ℤ◌
committed_rows = refl

spent_row : find_row lease_key lease_1 committed.leases ≡ some spent
unfolding find_row eqb lease_1
spent_row = rw committed_rows refl

Life-turns_example :
    count (submission_of lease_1) committed.intents
    ≡ turns_of (find_row lease_key lease_1 committed.leases)
Life-turns_example = Life-turns constant_digest committed-Life lease_1

Life-Unique_example : Unique committed
Life-Unique_example = Life-Unique constant_digest committed-Life

Life-quota_example :
    (count (submission_of lease_1) committed.intents ≤ 1) × (1 ≤ system_turns_limit)
unfolding spent grant
Life-quota_example = Life-quota constant_digest lease_1 committed-Life spent_row
