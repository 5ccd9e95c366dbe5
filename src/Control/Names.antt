-- ===== src/Control/Names.antt =====
-- The wire names of the operations (src/LiveControl.cpp), printed and parsed.
use gaudere_agent.Prelude.{◌≡◌, refl, sym, ap, ◌∙◌, ◌↔◌, Bool-cases, List, [], ◌∷◌, inl, inr}
use gaudere_agent.Text.{Text, text, eqb}
use gaudere_agent.Text.Laws.{eqb_iff}
use gaudere_agent.Effects.{Result, ok}
use gaudere_agent.Control.Command.{
  Operation, operation_name, comparisons, first_match, parse_operation,
}

-- Every comparison of the chain names its operation.
abbrev Consistent : List (Text × Operation) → Type 0
Consistent [] = Unit
Consistent ((name, o) ∷ rest) = (operation_name o ≡ name) × Consistent rest

comparisons-Consistent : Consistent comparisons
unfolding comparisons operation_name
comparisons-Consistent = (
  refl,
  (
    refl,
    (
      refl,
      (
        refl,
        (
          refl,
          (
            refl,
            (
              refl,
              (
                refl,
                (
                  refl,
                  (
                    refl,
                    (
                      refl,
                      (
                        refl,
                        (
                          refl,
                          (
                            refl,
                            (
                              refl,
                              (
                                refl,
                                (
                                  refl,
                                  (
                                    refl,
                                    (
                                      refl,
                                      (refl, (refl, (refl, (refl, (refl, (refl, (refl, tt))))))),
                                    ),
                                  ),
                                ),
                              ),
                            ),
                          ),
                        ),
                      ),
                    ),
                  ),
                ),
              ),
            ),
          ),
        ),
      ),
    ),
  ),
)

same_ok : {p o : Operation} → ◌≡◌ {A = Result Operation} (ok p) (ok o) → p ≡ o
same_ok h = cc

first_match_sound :
    (v : Text) (l : List (Text × Operation)) {o : Operation}
    → Consistent l
    → first_match v l ≡ ok o
    → operation_name o ≡ v
unfolding first_match
first_match_sound v [] c h = cc
first_match_sound v ((n, p) ∷ l) c h = elim (Bool-cases (eqb v n)) [
  | inl e ↦ sym (ap operation_name (same_ok (rw e at h))) ∙ c.0 ∙ sym ((eqb_iff v n).0 e)
  | inr n ↦ first_match_sound v l c.1 (rw n at h)
]

parse-name : (o : Operation) → parse_operation (operation_name o) ≡ ok o
unfolding parse_operation operation_name text eqb
parse-name Operation.submit_echo = refl
parse-name Operation.submit_openai = refl
parse-name Operation.submit_reflection = refl
parse-name Operation.submit_local_goose_dialogue = refl
parse-name Operation.submit_local_goose_dialogue_v2_root = refl
parse-name Operation.submit_local_goose_dialogue_v2_next = refl
parse-name Operation.submit_local_goose_dialogue_v3_root = refl
parse-name Operation.submit_local_goose_dialogue_v3_next = refl
parse-name Operation.bind_local_goose_dialogue_thread_head = refl
parse-name Operation.inspect_local_goose_dialogue_thread_head = refl
parse-name Operation.submit_local_goose_dialogue_v3_preferred_next = refl
parse-name Operation.inspect_local_goose_dialogue_completion = refl
parse-name Operation.acknowledge_local_goose_dialogue_completion = refl
parse-name Operation.create_local_goose_dialogue_responder_lease = refl
parse-name Operation.revoke_local_goose_dialogue_responder_lease = refl
parse-name Operation.inspect_local_goose_dialogue_responder_lease = refl
parse-name Operation.prepare_local_goose_dialogue_responder_intent = refl
parse-name Operation.dispatch_local_goose_dialogue_responder_intent = refl
parse-name Operation.inspect_local_goose_dialogue_responder_intent = refl
parse-name Operation.inspect_task = refl
parse-name Operation.inspect_budget = refl
parse-name Operation.accept_wake = refl
parse-name Operation.revoke_wake = refl
parse-name Operation.inspect_wake = refl
parse-name Operation.inspect_wake_status = refl
parse-name Operation.stimulate_local_goose_cycle = refl

-- The wire name of an operation is parsed to that operation, and only its wire name is.
pub parse_operation_iff :
    (v : Text) (o : Operation) → (parse_operation v ≡ ok o) ↔ (v ≡ operation_name o)
unfolding parse_operation
parse_operation_iff v o =
    (λ h. sym (first_match_sound v comparisons comparisons-Consistent h), λ e. rw e (parse-name o))
