-- ===== src/Responder/Store/Account.antt =====
-- The turns of a lease and the submissions under it (src/LocalGooseDialogueResponderStore.cpp).
use gaudere_agent.Prelude.{
  ℕ, ◌+◌, ◌≡◌, refl, sym, ap, ◌∙◌, inl, inr, Bool, true, false, ◌&&◌, Option, none, some, List, ◌∷◌,
  arith, if◌then◌else◌, Bool-cases,
}
use gaudere_agent.Text.{Text, eqb}
use gaudere_agent.Text.Laws.{eqb_iff}
use gaudere_agent.Sidecar.Rows.{find_row, set_row, tally, count, find_row-set_row, tally-set_row}
use gaudere_agent.Responder.Lease.{Lease}
use gaudere_agent.Responder.Intent.{Intent, complete_submission}
use gaudere_agent.Responder.Store.{Ledger, lease_key, intent_key}
use gaudere_agent.Responder.Store.Change.{
  Change, same, leased, lease_closed, intent_prepared, turn_taken, intent_moved, disposition_added,
  disposition_moved,
}

-- Intents of the lease with a complete submission.
abbrev pub submission_of : Text → Intent → Bool
submission_of lease_id intent = eqb intent.lease_id lease_id && complete_submission intent

-- The turns of a lease; none, where there is no such lease.
abbrev pub turns_of : Option Lease → ℕ
turns_of none = 0
turns_of (some lease) = lease.turns_committed

pub record Accounted (l : Ledger) : Type 0 where
  pub at :
      (lease_id : Text)
      → count (submission_of lease_id) l.intents ≡ turns_of (find_row lease_key lease_id l.leases)

inserted_lease :
    (id : Text) (lease : Lease) (rows : List Lease)
    → lease.turns_committed ≡ 0
    → find_row lease_key lease.lease_id rows ≡ none
    → turns_of (find_row lease_key id (lease ∷ rows)) ≡ turns_of (find_row lease_key id rows)
unfolding find_row
inserted_lease id lease rows z e = elim (Bool-cases (eqb lease.lease_id id)) [
  | inl y ↦
      let here : find_row lease_key id rows ≡ none =
        ap (λ k. find_row lease_key k rows) (sym ((eqb_iff lease.lease_id id).0 y)) ∙ e in
      rw (y, here) z
  | inr n ↦ rw n refl
]

-- An UPDATE of one lease changes the turns of that lease alone.
set_lease :
    (id : Text) (new old : Lease) (rows : List Lease)
    → find_row lease_key new.lease_id rows ≡ some old
    → turns_of (find_row lease_key id (set_row lease_key new rows))
      ≡ (if eqb new.lease_id id then new.turns_committed else turns_of (find_row lease_key id rows))
set_lease id new old rows e = elim (Bool-cases (eqb new.lease_id id)) [
  | inl y ↦
      let here : find_row lease_key id rows ≡ some old =
        ap (λ k. find_row lease_key k rows) (sym ((eqb_iff new.lease_id id).0 y)) ∙ e in
      rw (find_row-set_row lease_key id new rows, y, here) refl
  | inr n ↦ rw (find_row-set_row lease_key id new rows, n) refl
]

found_turns :
    (id : Text) (new old : Lease) (rows : List Lease)
    → find_row lease_key new.lease_id rows ≡ some old
    → eqb new.lease_id id ≡ true
    → turns_of (find_row lease_key id rows) ≡ old.turns_committed
found_turns id new old rows e y =
    ap (λ k. turns_of (find_row lease_key k rows)) (sym ((eqb_iff new.lease_id id).0 y))
    ∙ ap turns_of e

closed_turns :
    (id : Text) (new old : Lease) (rows : List Lease)
    → find_row lease_key new.lease_id rows ≡ some old
    → new.turns_committed ≡ old.turns_committed
    → turns_of (find_row lease_key id (set_row lease_key new rows))
      ≡ turns_of (find_row lease_key id rows)
closed_turns id new old rows e t = elim (Bool-cases (eqb new.lease_id id)) [
  | inl y ↦ set_lease id new old rows e ∙ rw y (t ∙ sym (found_turns id new old rows e y))
  | inr n ↦ set_lease id new old rows e ∙ rw n refl
]

abbrev weight : Text → Intent → ℕ
weight id intent = if submission_of id intent then 1 else 0

-- An intent that has no submission yet, and then has one.
counted :
    (id : Text) (new old : Intent) (rows : List Intent)
    → find_row intent_key new.intent_id rows ≡ some old
    → new.lease_id ≡ old.lease_id
    → complete_submission old ≡ false
    → complete_submission new ≡ true
    → count (submission_of id) (set_row intent_key new rows)
      ≡ (if eqb new.lease_id id then 1 else 0) + count (submission_of id) rows
counted id new old rows e a f t =
    let sum = tally-set_row intent_key (weight id) new old rows e in
    let before : weight id old ≡ 0 = ground arith in
    let now : weight id new ≡ (if eqb new.lease_id id then 1 else 0) = rw t (ground arith) in
    omega (arith, sum, before, now)

kept_count :
    (id : Text) (new old : Intent) (rows : List Intent)
    → find_row intent_key new.intent_id rows ≡ some old
    → new.lease_id ≡ old.lease_id
    → complete_submission new ≡ complete_submission old
    → count (submission_of id) (set_row intent_key new rows) ≡ count (submission_of id) rows
kept_count id new old rows e a c =
    let sum = tally-set_row intent_key (weight id) new old rows e in
    let same_weight : weight id new ≡ weight id old =
      ap (λ b. if b then 1 else 0)
        (ap (λ k. eqb k id && complete_submission new) a ∙ ap (λ b. eqb old.lease_id id && b) c) in
    omega (arith, sum, same_weight)

turned_account :
    (id : Text) (lease turned : Lease) (rows : List Lease)
    → find_row lease_key turned.lease_id rows ≡ some lease
    → turned.turns_committed ≡ lease.turns_committed + 1
    → turns_of (find_row lease_key id (set_row lease_key turned rows))
      ≡ (if eqb turned.lease_id id then 1 else 0) + turns_of (find_row lease_key id rows)
turned_account id lease turned rows e t = elim (Bool-cases (eqb turned.lease_id id)) [
  | inl y ↦ rw y (
      let s = rw y at (set_lease id turned lease rows e) in
      omega (arith, s, t, found_turns id turned lease rows e y))
  | inr n ↦ rw n (let s = rw n at (set_lease id turned lease rows e) in omega (arith, s))
]

blank_intent :
    (id : Text) (i : Intent) (rows : List Intent)
    → complete_submission i ≡ false
    → count (submission_of id) (i ∷ rows) ≡ count (submission_of id) rows
unfolding tally
blank_intent id i rows c = elim (Bool-cases (eqb i.lease_id id)) [
  | inl y ↦ rw (y, c) (omega arith)
  | inr n ↦ rw n (omega arith)
]

pub Change-Accounted :
    (sha256_hex : Text → Text) {l l' : Ledger} → Change sha256_hex l l' → Accounted l → Accounted l'
Change-Accounted sha256_hex same h = h
Change-Accounted sha256_hex {l} (leased lease v y z k e) h = record {
  at = λ id. h.at id ∙ sym (inserted_lease id lease l.leases z k);
}
Change-Accounted sha256_hex {l} (lease_closed old new v e t off) h = record {
  at = λ id. h.at id ∙ sym (closed_turns id new old l.leases e t);
}
Change-Accounted sha256_hex {l} (intent_prepared i lease v c k e x) h = record {
  at = λ id. blank_intent id i l.intents c ∙ h.at id;
}
Change-Accounted sha256_hex {l} (turn_taken old new lease turned v w k a b c d o e al t on) h =
    record {
      at = λ id.
          let before = h.at id in
          let one = counted id new old l.intents k a c d in
          let turn = turned_account id lease turned l.leases e t in rw (one, turn, o, before) refl;
    }
Change-Accounted sha256_hex {l} (intent_moved old new v k a b c) h = record {
  at = λ id. kept_count id new old l.intents k a c ∙ h.at id;
}
Change-Accounted sha256_hex (disposition_added d v k e s) h = record { at = h.at }
Change-Accounted sha256_hex (disposition_moved old new v k a b c) h = record { at = h.at }
