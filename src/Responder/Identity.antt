-- ===== src/Responder/Identity.antt =====
-- What the identity of an intent covers (intent_digest of src/LocalGooseDialogueResponder.cpp).
use gaudere_agent.Prelude.{
  ◌≡◌, ◌≢◌, sym, ◌∙◌, ◌⊎◌, inl, inr, true, [], ◌++◌, append-nil, arith, Bool-cases,
}
use gaudere_agent.Text.{Text, text, eqb}
use gaudere_agent.Text.Laws.{eqb_iff}
use gaudere_agent.Responder.Canonical.{
  frame_text, frame_number, append_text-frame, append_number-frame, frame_text_injective,
  frame_number_injective, prefix_cancel,
}
use gaudere_agent.Responder.Intent.{
  Intent, intent_canonical, intent_digest, valid_intent, foreign_intent, intent_prefix,
}

-- The canonical text as one frame per field.
framed : Intent → Text
framed i = frame_text i.lease_id (
    frame_text i.thread_alias (
      frame_number i.completion_sequence (
        frame_text i.event_id (
          frame_text i.result_sha256 (
            frame_text i.triggering_task_id (
              frame_number i.expected_thread_revision (
                frame_text i.expected_head_task_id (
                  frame_text i.speaker_id
                    (frame_text i.message_kind (frame_text i.message []))))))))))

canonical-framed :
    (i : Intent)
    → intent_canonical i
      ≡ text "gaudere.cognition.local-goose-dialogue-responder-intent.v1|" ++ framed i
unfolding intent_canonical framed
canonical-framed i =
    sym (append-nil (intent_canonical i))
    ∙ append_text-frame _ i.message _
    ∙ append_text-frame _ i.message_kind _
    ∙ append_text-frame _ i.speaker_id _
    ∙ append_text-frame _ i.expected_head_task_id _
    ∙ append_number-frame _ i.expected_thread_revision _
    ∙ append_text-frame _ i.triggering_task_id _
    ∙ append_text-frame _ i.result_sha256 _
    ∙ append_text-frame _ i.event_id _
    ∙ append_number-frame _ i.completion_sequence _
    ∙ append_text-frame _ i.thread_alias _
    ∙ append_text-frame _ i.lease_id _

-- The fields that an intent is identified by.
abbrev pub SameCause : Intent → Intent → Type 0
SameCause i j =
    (i.lease_id ≡ j.lease_id)
    × (i.thread_alias ≡ j.thread_alias)
    × (i.completion_sequence ≡ j.completion_sequence)
    × (i.event_id ≡ j.event_id)
    × (i.result_sha256 ≡ j.result_sha256)
    × (i.triggering_task_id ≡ j.triggering_task_id)
    × (i.expected_thread_revision ≡ j.expected_thread_revision)
    × (i.expected_head_task_id ≡ j.expected_head_task_id)
    × (i.speaker_id ≡ j.speaker_id)
    × (i.message_kind ≡ j.message_kind)
    × (i.message ≡ j.message)

-- Two intents have the same canonical text only if all eleven identifying fields agree.
pub canonical_injective : (i j : Intent) → intent_canonical i ≡ intent_canonical j → SameCause i j
unfolding framed
canonical_injective i j e =
    let f0 =
      prefix_cancel (text "gaudere.cognition.local-goose-dialogue-responder-intent.v1|") (framed i)
        (framed j) (sym (canonical-framed i) ∙ e ∙ canonical-framed j) in
    let f1 = frame_text_injective i.lease_id j.lease_id _ _ f0 in
    let f2 = frame_text_injective i.thread_alias j.thread_alias _ _ f1.1 in
    let f3 = frame_number_injective i.completion_sequence j.completion_sequence _ _ f2.1 in
    let f4 = frame_text_injective i.event_id j.event_id _ _ f3.1 in
    let f5 = frame_text_injective i.result_sha256 j.result_sha256 _ _ f4.1 in
    let f6 = frame_text_injective i.triggering_task_id j.triggering_task_id _ _ f5.1 in
    let f7 =
      frame_number_injective i.expected_thread_revision j.expected_thread_revision _ _ f6.1 in
    let f8 = frame_text_injective i.expected_head_task_id j.expected_head_task_id _ _ f7.1 in
    let f9 = frame_text_injective i.speaker_id j.speaker_id _ _ f8.1 in
    let f10 = frame_text_injective i.message_kind j.message_kind _ _ f9.1 in
    let f11 = frame_text_injective i.message j.message _ _ f10.1 in
    (f1.0, f2.0, f3.0, f4.0, f5.0, f6.0, f7.0, f8.0, f9.0, f10.0, f11.0)

module _ (sha256_hex : Text → Text) where
  -- Two different texts with the same digest.
  abbrev pub Collision : Text → Text → Type 0
  Collision c d = (c ≢ d) × (sha256_hex c ≡ sha256_hex d)

  derived_id :
      (i : Intent)
      → valid_intent sha256_hex i ≡ true
      → i.intent_id ≡ intent_prefix ++ intent_digest sha256_hex i
  unfolding valid_intent foreign_intent
  derived_id i h =
      (eqb_iff i.intent_id (intent_prefix ++ intent_digest sha256_hex i)).0 (ground arith)

  pub intent_identity_at :
      (i j : Intent)
      → valid_intent sha256_hex i ≡ true
      → valid_intent sha256_hex j ≡ true
      → i.intent_id ≡ j.intent_id
      → SameCause i j ⊎ Collision (intent_canonical i) (intent_canonical j)
  unfolding intent_digest
  intent_identity_at i j v w e = elim (Bool-cases (eqb (intent_canonical i) (intent_canonical j))) [
    | inl same ↦ inl (canonical_injective i j ((eqb_iff _ _).0 same))
    | inr different ↦ inr (
      (λ s. ground (arith, (eqb_iff (intent_canonical i) (intent_canonical j)).1 s, different)),
      prefix_cancel intent_prefix _ _ (sym (derived_id i v) ∙ e ∙ derived_id j w),
    )
  ]

-- For any digest function: two valid intents with the same id agree in all eleven identifying fields
-- (lease, thread, sequence, event, result, triggering task, revision, head, speaker, message kind and
-- message), or their canonical texts are two different texts with the same digest.
pub intent_identity :
    (sha256_hex : Text → Text) (i j : Intent)
    → valid_intent sha256_hex i ≡ true
    → valid_intent sha256_hex j ≡ true
    → i.intent_id ≡ j.intent_id
    → SameCause i j ⊎ Collision sha256_hex (intent_canonical i) (intent_canonical j)
intent_identity sha256_hex i j v w e = intent_identity_at sha256_hex i j v w e
