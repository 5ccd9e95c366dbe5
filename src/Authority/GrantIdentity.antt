-- ===== src/Authority/GrantIdentity.antt =====
-- What the identity of a grant covers (grant_digest of src/LocalGooseDialogueResponderAuthority.cpp).
use gaudere_agent.Prelude.{
  ◌≡◌, sym, ◌∙◌, ◌⊎◌, inl, inr, true, [], ◌++◌, append-nil, arith, Bool-cases, ◌-ℤ◌,
}
use gaudere_agent.Text.{Text, text, eqb}
use gaudere_agent.Text.Laws.{eqb_iff}
use gaudere_agent.Responder.Canonical.{
  frame_text, frame_number, append_text-frame, append_number-frame, frame_text_injective,
  frame_number_injective, prefix_cancel,
}
use gaudere_agent.Responder.Identity.{Collision}
use gaudere_agent.Authority.Grant.{
  Grant, grant_canonical, grant_digest, valid_grant, grant_prefix, uint64_of,
}

-- The canonical text as one frame per field.
grant_framed : Grant → Text
grant_framed i = frame_text i.request_id (
    frame_text i.authority_source (
      frame_text i.thread_alias (
        frame_text i.speaker_kind (
          frame_text i.speaker_id (
            frame_number i.allowed_message_kinds (
              frame_text i.purpose (
                frame_number i.max_system_turns (
                  frame_number (uint64_of i.max_lease_ttl_ms) (
                    frame_number (uint64_of i.min_interval_ms)
                      (frame_number (uint64_of (i.expires_at_ms -ℤ i.created_at_ms)) []))))))))))

grant_canonical-framed :
    (i : Grant)
    → grant_canonical i
      ≡ text "gaudere.cognition.local-goose-dialogue-responder-grant.v1|" ++ grant_framed i
unfolding grant_canonical grant_framed
grant_canonical-framed i =
    sym (append-nil (grant_canonical i))
    ∙ append_number-frame _ (uint64_of (i.expires_at_ms -ℤ i.created_at_ms)) _
    ∙ append_number-frame _ (uint64_of i.min_interval_ms) _
    ∙ append_number-frame _ (uint64_of i.max_lease_ttl_ms) _
    ∙ append_number-frame _ i.max_system_turns _
    ∙ append_text-frame _ i.purpose _
    ∙ append_number-frame _ i.allowed_message_kinds _
    ∙ append_text-frame _ i.speaker_id _
    ∙ append_text-frame _ i.speaker_kind _
    ∙ append_text-frame _ i.thread_alias _
    ∙ append_text-frame _ i.authority_source _
    ∙ append_text-frame _ i.request_id _

-- The fields that a grant is identified by.
abbrev pub SameGrant : Grant → Grant → Type 0
SameGrant i j =
    (i.request_id ≡ j.request_id)
    × (i.authority_source ≡ j.authority_source)
    × (i.thread_alias ≡ j.thread_alias)
    × (i.speaker_kind ≡ j.speaker_kind)
    × (i.speaker_id ≡ j.speaker_id)
    × (i.allowed_message_kinds ≡ j.allowed_message_kinds)
    × (i.purpose ≡ j.purpose)
    × (i.max_system_turns ≡ j.max_system_turns)
    × (uint64_of i.max_lease_ttl_ms ≡ uint64_of j.max_lease_ttl_ms)
    × (uint64_of i.min_interval_ms ≡ uint64_of j.min_interval_ms)
    × (uint64_of (i.expires_at_ms -ℤ i.created_at_ms)
        ≡ uint64_of (j.expires_at_ms -ℤ j.created_at_ms))

grant_canonical_injective : (i j : Grant) → grant_canonical i ≡ grant_canonical j → SameGrant i j
unfolding grant_framed
grant_canonical_injective i j e =
    let f0 =
      prefix_cancel (text "gaudere.cognition.local-goose-dialogue-responder-grant.v1|")
        (grant_framed i) (grant_framed j)
        (sym (grant_canonical-framed i) ∙ e ∙ grant_canonical-framed j) in
    let f1 = frame_text_injective i.request_id j.request_id _ _ f0 in
    let f2 = frame_text_injective i.authority_source j.authority_source _ _ f1.1 in
    let f3 = frame_text_injective i.thread_alias j.thread_alias _ _ f2.1 in
    let f4 = frame_text_injective i.speaker_kind j.speaker_kind _ _ f3.1 in
    let f5 = frame_text_injective i.speaker_id j.speaker_id _ _ f4.1 in
    let f6 = frame_number_injective i.allowed_message_kinds j.allowed_message_kinds _ _ f5.1 in
    let f7 = frame_text_injective i.purpose j.purpose _ _ f6.1 in
    let f8 = frame_number_injective i.max_system_turns j.max_system_turns _ _ f7.1 in
    let f9 =
      frame_number_injective (uint64_of i.max_lease_ttl_ms) (uint64_of j.max_lease_ttl_ms) _ _
        f8.1 in
    let f10 =
      frame_number_injective (uint64_of i.min_interval_ms) (uint64_of j.min_interval_ms) _ _ f9.1 in
    let f11 =
      frame_number_injective (uint64_of (i.expires_at_ms -ℤ i.created_at_ms))
        (uint64_of (j.expires_at_ms -ℤ j.created_at_ms)) _ _ f10.1 in
    (f1.0, f2.0, f3.0, f4.0, f5.0, f6.0, f7.0, f8.0, f9.0, f10.0, f11.0)

module _ (sha256_hex : Text → Text) where
  derived_grant_id :
      (i : Grant)
      → valid_grant sha256_hex i ≡ true
      → i.grant_id ≡ grant_prefix ++ grant_digest sha256_hex i
  unfolding valid_grant
  derived_grant_id i h =
      (eqb_iff i.grant_id (grant_prefix ++ grant_digest sha256_hex i)).0 (ground arith)

  -- For any digest function: two valid grants with the same id agree in all eleven identifying fields, or their
  -- canonical texts are two different texts with the same digest.
  pub grant_identity :
      (i j : Grant)
      → valid_grant sha256_hex i ≡ true
      → valid_grant sha256_hex j ≡ true
      → i.grant_id ≡ j.grant_id
      → SameGrant i j ⊎ Collision sha256_hex (grant_canonical i) (grant_canonical j)
  unfolding grant_digest
  grant_identity i j v w e = elim (Bool-cases (eqb (grant_canonical i) (grant_canonical j))) [
    | inl same ↦ inl (grant_canonical_injective i j ((eqb_iff _ _).0 same))
    | inr different ↦ inr (
      (λ s. ground (arith, (eqb_iff (grant_canonical i) (grant_canonical j)).1 s, different)),
      prefix_cancel grant_prefix _ _ (sym (derived_grant_id i v) ∙ e ∙ derived_grant_id j w),
    )
  ]
