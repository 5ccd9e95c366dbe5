-- ===== src/Pulse/Examples.antt =====
-- Tests of the pulse and instances of its theorems at concrete cursors.
use gaudere_agent.Prelude.{
  ℕ, zero, suc, ◌+◌, ◌-◌, ◌*◌, ◌≤◌, ◌≡◌, refl, inl, Bool, true, false, none, some, arith, [], ◌∷◌,
  ◌++◌, ℤ, pos, negsuc, ◌≤ℤ◌, ◌+ℤ◌, all,
}
use gaudere_agent.Text.{
  Text, text, eqb, starts_with, hex_byte, safe_byte, lowercase_sha256, prefixed_sha256, safe_text,
}
use gaudere_agent.Text.Laws.{eqb_refl}
use gaudere_agent.Effects.{ok, M, pure, ◌>>=◌}
use gaudere_agent.Pulse.Deadline.{Update, arm, arm_result, arm-admits}
use gaudere_agent.Pulse.Cursor.{
  idle, preparing, settled, quiescent, blocked, Cursor, scope_name, checkpoint_prefix,
  observation_prefix, valid_cursor, optional_safe_id, optional_sha, predecessor_shape,
  active_generation_shape, same_state, same_opportunity, same_blocked_payload, refused_fields,
  no_observation, valid_in_state, cadence_ms, same_cursor,
}
use gaudere_agent.Pulse.Transition.{refused_step, from_settled, step_from, valid_transition}
use gaudere_agent.Pulse.Runs.{
  Run, here, next, admissions, Run-admissions_bounded, Run-paced, Run-final,
}
use gaudere_agent.Pulse.Store.{Table, put, empty_table, seed, replace, wrote, accepted}
use gaudere_agent.Sidecar.{healthy, after_commit}
use gaudere_agent.Pulse.Store.History.{
  Life, born, seeds, replaces, snapshot, Seen, Lineage, Life-Lineage,
}
use gaudere_agent.Pulse.Store.Replies.{replace_commits, replace-Tells, Tells}

abbrev repeat : ℕ → ℕ → Text
repeat zero c = []
repeat (suc n) c = c ∷ repeat n c

abbrev digest : Text
digest = repeat 64 b'a'

-- The checks with everything that they call.
abbrev legal : Cursor → Cursor → Bool
unfolding text eqb starts_with hex_byte safe_byte lowercase_sha256 prefixed_sha256 safe_text all
    valid_cursor optional_safe_id optional_sha predecessor_shape active_generation_shape same_state
    same_opportunity same_blocked_payload refused_fields no_observation valid_in_state refused_step
    from_settled step_from valid_transition ◌+ℤ◌
legal = valid_transition

abbrev seeded : Cursor
seeded = record {
  scope = scope_name;
  revision = 0;
  generation = 0;
  state = idle;
  anchor_checkpoint_task_id = checkpoint_prefix ++ digest;
  anchor_checkpoint_result_sha256 = digest;
  anchor_at_ms = pos 1000;
  due_at_ms = pos 86401000;
  captured_at_ms = none;
  task_id = [];
  result_sha256 = none;
  predecessor_observation_task_id = none;
  predecessor_observation_result_sha256 = none;
  blocked_reason = [];
}

abbrev admitted : Cursor
admitted = record seeded {
  revision = 1;
  generation = 1;
  state = preparing;
  captured_at_ms = some (pos 86401005);
  task_id = observation_prefix ++ digest;
}

abbrev done : Cursor
done = record admitted { revision = 2; state = settled; result_sha256 = some digest }

-- The second observation, one cadence after the capture of the first one.
abbrev second : Cursor
second = record done {
  revision = 3;
  generation = 2;
  state = preparing;
  due_at_ms = pos 172801005;
  captured_at_ms = some (pos 172801010);
  task_id = observation_prefix ++ repeat 64 b'b';
  result_sha256 = none;
  predecessor_observation_task_id = some (observation_prefix ++ digest);
  predecessor_observation_result_sha256 = some digest;
}

seeded_valid : valid_cursor seeded ≡ true
unfolding legal
seeded_valid = refl

admits : valid_transition seeded admitted ≡ true
unfolding legal
admits = refl

settles : valid_transition admitted done ≡ true
unfolding legal
settles = refl

admits_again : valid_transition done second ≡ true
unfolding legal
admits_again = refl

-- A replacement that skips a revision is refused.
skips : valid_transition seeded (record admitted { revision = 2 }) ≡ false
unfolding legal
skips = refl

-- Instances of the theorems.
abbrev two_steps : Run seeded done
two_steps = next (next here admits) settles

Run-admissions_bounded_example : seeded.generation + admissions two_steps ≤ 3
Run-admissions_bounded_example = Run-admissions_bounded two_steps seeded_valid

Run-paced_example :
    (pos (86401000 + (second.generation - 1) * cadence_ms) ≤ℤ second.due_at_ms)
    × ((x : ℤ) × (second.captured_at_ms ≡ some x) × (second.due_at_ms ≤ℤ x))
Run-paced_example =
    Run-paced 86401000 (next two_steps admits_again) seeded_valid refl (omega arith) (omega arith)

Run-final_example :
    (seeded.state ≡ quiescent → done ≡ seeded)
    × (seeded.state ≡ blocked
        → (done.state ≡ blocked)
          × (done.generation ≡ seeded.generation)
          × (done.due_at_ms ≡ seeded.due_at_ms))
Run-final_example = Run-final two_steps

abbrev holding : Table
holding = put empty_table scope_name seeded

holding_row : holding scope_name ≡ some seeded
holding_row = rw (eqb_refl scope_name)

replace_commits_example :
    replace holding healthy seeded admitted
    ≡ (put holding scope_name admitted, wrote accepted (some admitted) (text ""))
replace_commits_example = replace_commits holding seeded admitted seeded admits holding_row refl

replace-Tells_example :
    Tells holding seeded admitted (replace holding (after_commit []) seeded admitted)
replace-Tells_example = replace-Tells holding (after_commit []) seeded admitted

abbrev once : Table
once = (seed empty_table healthy seeded).0

Seen-seed : Seen seeded (snapshot once [])
unfolding seed legal same_cursor
Seen-seed = inl refl

abbrev twice : Table
twice = (replace once healthy seeded admitted).0

seeded-Life : Life twice (snapshot twice (snapshot once []))
seeded-Life = replaces (seeds born healthy seeded) healthy seeded admitted Seen-seed

admitted_row : twice scope_name ≡ some admitted
unfolding seed replace legal same_cursor
admitted_row = refl

Life-Lineage_example : Lineage (snapshot twice (snapshot once [])) admitted
Life-Lineage_example = Life-Lineage admitted seeded-Life admitted_row

-- A scheduler whose world is the last deadline asked for.
-- A clock of nanoseconds.
abbrev in_nanoseconds : ℤ → ℤ
in_nanoseconds (pos n) = pos (n * 1000000)
in_nanoseconds (negsuc n) = negsuc n

abbrev ask_scheduler : ℤ → M ℤ Update
ask_scheduler deadline w = (ok Update.scheduled, deadline)

arm-admits_example :
    arm in_nanoseconds ask_scheduler (some seeded) true (pos 0)
    ≡ (ask_scheduler (in_nanoseconds admitted.due_at_ms) >>= λ update. pure (arm_result update))
        (pos 0)
arm-admits_example = arm-admits in_nanoseconds ask_scheduler seeded admitted (pos 0) admits refl
