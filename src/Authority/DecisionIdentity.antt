-- ===== src/Authority/DecisionIdentity.antt =====
-- What the identity of a decision covers (decision_digest of src/LocalGooseDialogueResponderAuthority.cpp).
use gaudere_agent.Prelude.{
  ◌≡◌, sym, ◌∙◌, ◌⊎◌, inl, inr, true, [], ◌++◌, append-nil, arith, Bool-cases,
}
use gaudere_agent.Text.{Text, text, eqb}
use gaudere_agent.Text.Laws.{eqb_iff}
use gaudere_agent.Responder.Canonical.{
  frame_text, frame_number, append_text-frame, append_number-frame, frame_text_injective,
  frame_number_injective, prefix_cancel,
}
use gaudere_agent.Responder.Identity.{Collision}
use gaudere_agent.Authority.Grant.{uint64_of}
use gaudere_agent.Authority.Decision.{
  Decision, decision_canonical, decision_digest, valid_decision, decision_prefix,
}

-- The canonical text as one frame per field.
decision_framed : Decision → Text
decision_framed i = frame_text i.request_id (
    frame_text i.authority_source (
      frame_text i.grant_id (
        frame_text i.lease_id (
          frame_text i.consumer_id (
            frame_number i.completion_sequence (
              frame_text i.event_id (
                frame_text i.result_sha256 (
                  frame_text i.thread_alias (
                    frame_number i.thread_revision (
                      frame_text i.task_id (
                        frame_text i.observed_speaker_kind (
                          frame_text i.observed_speaker_id (
                            frame_number i.expected_head_revision (
                              frame_text i.expected_head_task_id (
                                frame_text i.responder_speaker_kind (
                                  frame_text i.responder_speaker_id (
                                    frame_text i.message_kind (
                                      frame_text i.message (
                                        frame_number (uint64_of i.intent_ttl_ms)
                                          [])))))))))))))))))))

decision_canonical-framed :
    (i : Decision)
    → decision_canonical i
      ≡ text "gaudere.cognition.local-goose-dialogue-responder-decision.v1|" ++ decision_framed i
unfolding decision_canonical decision_framed
decision_canonical-framed i =
    sym (append-nil (decision_canonical i))
    ∙ append_number-frame _ (uint64_of i.intent_ttl_ms) _
    ∙ append_text-frame _ i.message _
    ∙ append_text-frame _ i.message_kind _
    ∙ append_text-frame _ i.responder_speaker_id _
    ∙ append_text-frame _ i.responder_speaker_kind _
    ∙ append_text-frame _ i.expected_head_task_id _
    ∙ append_number-frame _ i.expected_head_revision _
    ∙ append_text-frame _ i.observed_speaker_id _
    ∙ append_text-frame _ i.observed_speaker_kind _
    ∙ append_text-frame _ i.task_id _
    ∙ append_number-frame _ i.thread_revision _
    ∙ append_text-frame _ i.thread_alias _
    ∙ append_text-frame _ i.result_sha256 _
    ∙ append_text-frame _ i.event_id _
    ∙ append_number-frame _ i.completion_sequence _
    ∙ append_text-frame _ i.consumer_id _
    ∙ append_text-frame _ i.lease_id _
    ∙ append_text-frame _ i.grant_id _
    ∙ append_text-frame _ i.authority_source _
    ∙ append_text-frame _ i.request_id _

-- The fields that a decision is identified by.
abbrev pub SameDecision : Decision → Decision → Type 0
SameDecision i j =
    (i.request_id ≡ j.request_id)
    × (i.authority_source ≡ j.authority_source)
    × (i.grant_id ≡ j.grant_id)
    × (i.lease_id ≡ j.lease_id)
    × (i.consumer_id ≡ j.consumer_id)
    × (i.completion_sequence ≡ j.completion_sequence)
    × (i.event_id ≡ j.event_id)
    × (i.result_sha256 ≡ j.result_sha256)
    × (i.thread_alias ≡ j.thread_alias)
    × (i.thread_revision ≡ j.thread_revision)
    × (i.task_id ≡ j.task_id)
    × (i.observed_speaker_kind ≡ j.observed_speaker_kind)
    × (i.observed_speaker_id ≡ j.observed_speaker_id)
    × (i.expected_head_revision ≡ j.expected_head_revision)
    × (i.expected_head_task_id ≡ j.expected_head_task_id)
    × (i.responder_speaker_kind ≡ j.responder_speaker_kind)
    × (i.responder_speaker_id ≡ j.responder_speaker_id)
    × (i.message_kind ≡ j.message_kind)
    × (i.message ≡ j.message)
    × (uint64_of i.intent_ttl_ms ≡ uint64_of j.intent_ttl_ms)

decision_canonical_injective :
    (i j : Decision) → decision_canonical i ≡ decision_canonical j → SameDecision i j
unfolding decision_framed
decision_canonical_injective i j e =
    let f0 =
      prefix_cancel (text "gaudere.cognition.local-goose-dialogue-responder-decision.v1|")
        (decision_framed i) (decision_framed j)
        (sym (decision_canonical-framed i) ∙ e ∙ decision_canonical-framed j) in
    let f1 = frame_text_injective i.request_id j.request_id _ _ f0 in
    let f2 = frame_text_injective i.authority_source j.authority_source _ _ f1.1 in
    let f3 = frame_text_injective i.grant_id j.grant_id _ _ f2.1 in
    let f4 = frame_text_injective i.lease_id j.lease_id _ _ f3.1 in
    let f5 = frame_text_injective i.consumer_id j.consumer_id _ _ f4.1 in
    let f6 = frame_number_injective i.completion_sequence j.completion_sequence _ _ f5.1 in
    let f7 = frame_text_injective i.event_id j.event_id _ _ f6.1 in
    let f8 = frame_text_injective i.result_sha256 j.result_sha256 _ _ f7.1 in
    let f9 = frame_text_injective i.thread_alias j.thread_alias _ _ f8.1 in
    let f10 = frame_number_injective i.thread_revision j.thread_revision _ _ f9.1 in
    let f11 = frame_text_injective i.task_id j.task_id _ _ f10.1 in
    let f12 = frame_text_injective i.observed_speaker_kind j.observed_speaker_kind _ _ f11.1 in
    let f13 = frame_text_injective i.observed_speaker_id j.observed_speaker_id _ _ f12.1 in
    let f14 = frame_number_injective i.expected_head_revision j.expected_head_revision _ _ f13.1 in
    let f15 = frame_text_injective i.expected_head_task_id j.expected_head_task_id _ _ f14.1 in
    let f16 = frame_text_injective i.responder_speaker_kind j.responder_speaker_kind _ _ f15.1 in
    let f17 = frame_text_injective i.responder_speaker_id j.responder_speaker_id _ _ f16.1 in
    let f18 = frame_text_injective i.message_kind j.message_kind _ _ f17.1 in
    let f19 = frame_text_injective i.message j.message _ _ f18.1 in
    let f20 =
      frame_number_injective (uint64_of i.intent_ttl_ms) (uint64_of j.intent_ttl_ms) _ _ f19.1 in
    (
      f1.0, f2.0, f3.0, f4.0, f5.0, f6.0, f7.0, f8.0, f9.0, f10.0, f11.0, f12.0, f13.0, f14.0,
      f15.0, f16.0, f17.0, f18.0, f19.0, f20.0,
    )

module _ (sha256_hex : Text → Text) where
  derived_decision_id :
      (i : Decision)
      → valid_decision sha256_hex i ≡ true
      → i.decision_id ≡ decision_prefix ++ decision_digest sha256_hex i
  unfolding valid_decision
  derived_decision_id i h =
      (eqb_iff i.decision_id (decision_prefix ++ decision_digest sha256_hex i)).0 (ground arith)

  -- For any digest function: two valid decisions with the same id agree in all twenty identifying fields, or their
  -- canonical texts are two different texts with the same digest.
  pub decision_identity :
      (i j : Decision)
      → valid_decision sha256_hex i ≡ true
      → valid_decision sha256_hex j ≡ true
      → i.decision_id ≡ j.decision_id
      → SameDecision i j ⊎ Collision sha256_hex (decision_canonical i) (decision_canonical j)
  unfolding decision_digest
  decision_identity i j v w e =
      elim (Bool-cases (eqb (decision_canonical i) (decision_canonical j))) [
        | inl same ↦ inl (decision_canonical_injective i j ((eqb_iff _ _).0 same))
        | inr different ↦ inr (
          (λ s.
              ground
                (arith, (eqb_iff (decision_canonical i) (decision_canonical j)).1 s, different)),
          prefix_cancel decision_prefix _ _
              (sym (derived_decision_id i v) ∙ e ∙ derived_decision_id j w),
        )
      ]
