-- ===== src/Authority/Examples.antt =====
-- A grant and a decision with their SHA-256 identities, and the theorems about them.
use gaudere_agent.Prelude.{
  ℕ, zero, suc, ◌≡◌, ◌⊎◌, refl, true, [], ◌∷◌, ◌++◌, all, pos, ◌-ℤ◌, ◌+ℤ◌, ◌≤ℤ◌, int64_max,
}
use gaudere_agent.Text.{
  Text, text, eqb, safe_identifier, bounded_nonempty, lowercase_sha256, prefixed_sha256, hex_byte,
  identifier_byte, starts_with,
}
use gaudere_agent.Sha256.{
  sha256_hex, padded, zeros_after, big_endian, element, load_word, load_words, next_word, extend,
  round, rounds, add_hash, block, blocks, hex_digits, hex_hash, rotate_right,
}
use gaudere_agent.Responder.Canonical.{digits, to_string, append_text, append_number}
use gaudere_agent.Responder.Lease.{v3_task_prefix, completion_event_prefix, message_kind_bit}
use gaudere_agent.Responder.Identity.{Collision}
use gaudere_agent.Authority.Grant.{
  Grant, grant_canonical, grant_digest, valid_grant_state, refused_grant, refused_activation,
  valid_grant_in, grant_expiry, valid_grant, make_grant, grant_prefix,
}
use gaudere_agent.Authority.Decision.{
  Decision, decision_canonical, decision_digest, valid_decision_state, refused_decision,
  refused_bond, valid_decision_in, valid_decision, make_decision,
}
use gaudere_agent.Authority.GrantIdentity.{SameGrant, grant_identity}
use gaudere_agent.Authority.DecisionIdentity.{SameDecision, decision_identity}
use gaudere_agent.Authority.Window.{make_grant-window}

abbrev repeat : ℕ → ℕ → Text
repeat zero c = []
repeat (suc n) c = c ∷ repeat n c

abbrev sixty_four : Text
sixty_four = repeat 64 b'a'

-- The same request at another time.
abbrev granted_at : ℕ → Grant
unfolding text
granted_at created =
    make_grant sha256_hex (text "req-1") (text "operator") (text "main") (text "goose") 1
      (text "talk") 2 (pos 1000) (pos 10) (pos created) (pos 500)

granted_valid : valid_grant sha256_hex (granted_at 10) ≡ true
unfolding text eqb safe_identifier bounded_nonempty lowercase_sha256 prefixed_sha256 hex_byte
    identifier_byte starts_with all sha256_hex padded zeros_after big_endian element load_word
    load_words next_word extend round rounds add_hash block blocks hex_digits hex_hash rotate_right
    digits to_string append_text append_number grant_canonical grant_digest valid_grant_state
    refused_grant refused_activation valid_grant_in grant_expiry valid_grant make_grant ◌-ℤ◌ ◌+ℤ◌
    granted_at
granted_valid = refl

later_valid : valid_grant sha256_hex (granted_at 20) ≡ true
unfolding text eqb safe_identifier bounded_nonempty lowercase_sha256 prefixed_sha256 hex_byte
    identifier_byte starts_with all sha256_hex padded zeros_after big_endian element load_word
    load_words next_word extend round rounds add_hash block blocks hex_digits hex_hash rotate_right
    digits to_string append_text append_number grant_canonical grant_digest valid_grant_state
    refused_grant refused_activation valid_grant_in grant_expiry valid_grant make_grant ◌-ℤ◌ ◌+ℤ◌
    granted_at
later_valid = refl

same_grant : (granted_at 10).grant_id ≡ (granted_at 20).grant_id
unfolding text eqb safe_identifier bounded_nonempty lowercase_sha256 prefixed_sha256 hex_byte
    identifier_byte starts_with all sha256_hex padded zeros_after big_endian element load_word
    load_words next_word extend round rounds add_hash block blocks hex_digits hex_hash rotate_right
    digits to_string append_text append_number grant_canonical grant_digest valid_grant_state
    refused_grant refused_activation valid_grant_in grant_expiry valid_grant make_grant ◌-ℤ◌ ◌+ℤ◌
    granted_at
same_grant = refl

grant_identity_example :
    SameGrant (granted_at 10) (granted_at 20)
    ⊎ Collision sha256_hex (grant_canonical (granted_at 10)) (grant_canonical (granted_at 20))
grant_identity_example =
    grant_identity sha256_hex (granted_at 10) (granted_at 20) granted_valid later_valid same_grant

make_grant-window_example :
    (pos 1 ≤ℤ pos 500)
    × ((granted_at 10).expires_at_ms ≡ pos 10 +ℤ pos 500)
    × (pos 10 +ℤ pos 500 ≤ℤ pos int64_max)
unfolding granted_at
make_grant-window_example =
    make_grant-window sha256_hex (text "req-1") (text "operator") (text "main") (text "goose") 1
      (text "talk") 2 (pos 1000) (pos 10) (pos 10) (pos 500) granted_valid

abbrev decided_at : ℕ → Decision
unfolding text
decided_at created =
    make_decision sha256_hex (text "req-2") (text "operator") (grant_prefix ++ sixty_four)
      (text "lease-1") (text "responder") 7 (completion_event_prefix ++ sixty_four) sixty_four
      (text "main") 3 (v3_task_prefix ++ sixty_four) (text "human") (text "ana") 3
      (v3_task_prefix ++ sixty_four) (text "goose") (text "dialogue") (text "hello") (pos 100)
      (pos created)

decided_valid : valid_decision sha256_hex (decided_at 10) ≡ true
unfolding text eqb safe_identifier bounded_nonempty lowercase_sha256 prefixed_sha256 hex_byte
    identifier_byte starts_with all sha256_hex padded zeros_after big_endian element load_word
    load_words next_word extend round rounds add_hash block blocks hex_digits hex_hash rotate_right
    digits to_string append_text append_number message_kind_bit decision_canonical decision_digest
    valid_decision_state refused_decision refused_bond valid_decision_in valid_decision
    make_decision ◌-ℤ◌ decided_at
decided_valid = refl

again_valid : valid_decision sha256_hex (decided_at 20) ≡ true
unfolding text eqb safe_identifier bounded_nonempty lowercase_sha256 prefixed_sha256 hex_byte
    identifier_byte starts_with all sha256_hex padded zeros_after big_endian element load_word
    load_words next_word extend round rounds add_hash block blocks hex_digits hex_hash rotate_right
    digits to_string append_text append_number message_kind_bit decision_canonical decision_digest
    valid_decision_state refused_decision refused_bond valid_decision_in valid_decision
    make_decision ◌-ℤ◌ decided_at
again_valid = refl

same_decision : (decided_at 10).decision_id ≡ (decided_at 20).decision_id
unfolding text eqb safe_identifier bounded_nonempty lowercase_sha256 prefixed_sha256 hex_byte
    identifier_byte starts_with all sha256_hex padded zeros_after big_endian element load_word
    load_words next_word extend round rounds add_hash block blocks hex_digits hex_hash rotate_right
    digits to_string append_text append_number message_kind_bit decision_canonical decision_digest
    valid_decision_state refused_decision refused_bond valid_decision_in valid_decision
    make_decision ◌-ℤ◌ decided_at
same_decision = refl

decision_identity_example :
    SameDecision (decided_at 10) (decided_at 20)
    ⊎ Collision sha256_hex (decision_canonical (decided_at 10)) (decision_canonical (decided_at 20))
decision_identity_example =
    decision_identity sha256_hex (decided_at 10) (decided_at 20) decided_valid again_valid
      same_decision
