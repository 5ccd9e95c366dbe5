-- ===== src/Authority/Grant.antt =====
-- Grants (src/LocalGooseDialogueResponderAuthority.cpp).
use gaudere_agent.Prelude.{
  ℕ, ◌-◌, Bool, true, false, not, ◌&&◌, ◌||◌, Option, none, [], ◌++◌, ltb, ◌==◌, if◌then◌else◌,
  is_some, holds, length, empty, int64_max, ℤ, pos, negsuc, ltb_ℤ, leb_ℤ, ◌-ℤ◌, ◌+ℤ◌,
}
use gaudere_agent.Text.{Text, text, eqb, safe_identifier, bounded_nonempty, prefixed_sha256}
use gaudere_agent.Responder.Canonical.{append_text, append_number}
use gaudere_agent.Responder.Lease.{
  max_purpose_bytes, max_reason_bytes, max_duration_ms, system_turns_limit, message_all,
}

abbrev pub grant_prefix : Text
unfolding text
grant_prefix = text "cognition.local-goose-dialogue.responder-grant.v1:"

pub data GrantState : Type 0 where
  prepared activated revoked expired manual_review : GrantState

pub record Grant : Type 0 where
  pub grant_id : Text
  pub request_id : Text
  pub authority_source : Text
  pub thread_alias : Text
  pub speaker_kind : Text
  pub speaker_id : Text
  pub allowed_message_kinds : ℕ
  pub purpose : Text
  pub max_system_turns : ℕ
  pub max_lease_ttl_ms : ℤ
  pub min_interval_ms : ℤ
  pub created_at_ms : ℤ
  pub expires_at_ms : ℤ
  pub state : GrantState
  pub activated_lease_id : Option Text
  pub activated_at_ms : Option ℤ
  pub terminal_reason : Text
  pub terminal_at_ms : Option ℤ

-- static_cast<std::uint64_t> of a std::int64_t
abbrev pub uint64_of : ℤ → ℕ
uint64_of (pos n) = n
uint64_of (negsuc n) = 0xffffffffffffffff - n

unfoldable pub grant_canonical : Grant → Text
grant_canonical grant =
    let c0 = text "gaudere.cognition.local-goose-dialogue-responder-grant.v1|" in
    let c1 = append_text c0 grant.request_id in
    let c2 = append_text c1 grant.authority_source in
    let c3 = append_text c2 grant.thread_alias in
    let c4 = append_text c3 grant.speaker_kind in
    let c5 = append_text c4 grant.speaker_id in
    let c6 = append_number c5 grant.allowed_message_kinds in
    let c7 = append_text c6 grant.purpose in
    let c8 = append_number c7 grant.max_system_turns in
    let c9 = append_number c8 (uint64_of grant.max_lease_ttl_ms) in
    let c10 = append_number c9 (uint64_of grant.min_interval_ms) in
    append_number c10 (uint64_of (grant.expires_at_ms -ℤ grant.created_at_ms))

unfoldable pub valid_grant_state : GrantState → Bool
valid_grant_state prepared = true
valid_grant_state activated = true
valid_grant_state revoked = true
valid_grant_state expired = true
valid_grant_state manual_review = true

-- The conditions of the first `if`. A bit outside the mask of the low four is set exactly where the number
-- exceeds the mask.
unfoldable pub refused_grant : Grant → Bool
refused_grant grant =
    not (prefixed_sha256 grant.grant_id grant_prefix)
    || not (safe_identifier grant.request_id)
    || not (safe_identifier grant.authority_source)
    || not (safe_identifier grant.thread_alias)
    || not (eqb grant.speaker_kind (text "system"))
    || not (safe_identifier grant.speaker_id)
    || grant.allowed_message_kinds == 0
    || ltb message_all grant.allowed_message_kinds
    || not (bounded_nonempty grant.purpose max_purpose_bytes)
    || grant.max_system_turns == 0
    || ltb system_turns_limit grant.max_system_turns
    || leb_ℤ grant.max_lease_ttl_ms (pos 0)
    || ltb_ℤ max_duration_ms grant.max_lease_ttl_ms
    || ltb_ℤ grant.min_interval_ms (pos 0)
    || ltb_ℤ max_duration_ms grant.min_interval_ms
    || ltb_ℤ grant.created_at_ms (pos 0)
    || leb_ℤ grant.expires_at_ms grant.created_at_ms
    || ltb_ℤ max_duration_ms (grant.expires_at_ms -ℤ grant.created_at_ms)
    || not (valid_grant_state grant.state)
    || ltb max_reason_bytes (length grant.terminal_reason)

abbrev pub is_activated : Grant → Bool
is_activated grant = is_some grant.activated_lease_id || is_some grant.activated_at_ms

-- The two checks of the activation.
unfoldable pub refused_activation : Grant → Bool
refused_activation grant =
    (is_some grant.activated_lease_id && not (is_some grant.activated_at_ms))
    || (not (is_some grant.activated_lease_id) && is_some grant.activated_at_ms)
    || holds (λ id. not (safe_identifier id)) grant.activated_lease_id
    || holds (λ at. ltb_ℤ at grant.created_at_ms || leb_ℤ grant.expires_at_ms at)
        grant.activated_at_ms

-- The terminal fields are blank.
abbrev pub grant_open : Grant → Bool
grant_open grant = empty grant.terminal_reason && not (is_some grant.terminal_at_ms)

abbrev pub unfinished_grant : Grant → Bool
unfinished_grant grant =
    is_activated grant
    || empty grant.terminal_reason
    || not (is_some grant.terminal_at_ms)
    || holds (λ at. ltb_ℤ at grant.created_at_ms) grant.terminal_at_ms

unfoldable pub valid_grant_in : GrantState → Grant → Bool
valid_grant_in prepared grant = not (is_activated grant) && grant_open grant
valid_grant_in activated grant = is_activated grant && grant_open grant
valid_grant_in revoked grant = if unfinished_grant grant then false else true
valid_grant_in expired grant =
    if unfinished_grant grant
    then false
    else not (holds (λ at. ltb_ℤ at grant.expires_at_ms) grant.terminal_at_ms)
valid_grant_in manual_review grant = if unfinished_grant grant then false else true

-- created_at_ms <= max - grant_ttl_ms, where both are in order
unfoldable pub grant_expiry : ℤ → ℤ → ℤ
grant_expiry created_at_ms grant_ttl_ms =
    if leb_ℤ (pos 0) created_at_ms
      && ltb_ℤ (pos 0) grant_ttl_ms
      && leb_ℤ created_at_ms (pos int64_max -ℤ grant_ttl_ms)
    then created_at_ms +ℤ grant_ttl_ms
    else pos 0

module _ (sha256_hex : Text → Text) where
  unfoldable pub grant_digest : Grant → Text
  grant_digest grant = sha256_hex (grant_canonical grant)

  unfoldable pub valid_grant : Grant → Bool
  valid_grant grant =
      if refused_grant grant
        || not (eqb grant.grant_id (grant_prefix ++ grant_digest grant))
        || refused_activation grant
      then false
      else valid_grant_in grant.state grant

  unfoldable pub make_grant :
      (request_id authority_source thread_alias speaker_id : Text) (allowed_message_kinds : ℕ)
      (purpose : Text) (max_turns : ℕ)
      (max_lease_ttl_ms min_interval_ms created_at_ms grant_ttl_ms : ℤ)
      → Grant
  make_grant request_id authority_source thread_alias speaker_id allowed_message_kinds purpose
        max_turns max_lease_ttl_ms min_interval_ms created_at_ms grant_ttl_ms =
      let grant : Grant = record {
        grant_id = [];
        request_id = request_id;
        authority_source = authority_source;
        thread_alias = thread_alias;
        speaker_kind = text "system";
        speaker_id = speaker_id;
        allowed_message_kinds = allowed_message_kinds;
        purpose = purpose;
        max_system_turns = max_turns;
        max_lease_ttl_ms = max_lease_ttl_ms;
        min_interval_ms = min_interval_ms;
        created_at_ms = created_at_ms;
        expires_at_ms = grant_expiry created_at_ms grant_ttl_ms;
        state = prepared;
        activated_lease_id = none;
        activated_at_ms = none;
        terminal_reason = [];
        terminal_at_ms = none;
      } in
      record grant {
        grant_id =
            (if ltb_ℤ grant.created_at_ms grant.expires_at_ms
              then grant_prefix ++ grant_digest grant
              else []);
      }
