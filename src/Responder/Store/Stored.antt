-- ===== src/Responder/Store/Stored.antt =====
-- Every row of the responder store is canonical (src/LocalGooseDialogueResponderStore.cpp).
use gaudere_agent.Prelude.{
  ◌≡◌, refl, sym, ap, ◌∙◌, inl, inr, Bool, true, some, List, [], ◌∷◌, arith, Bool-cases, all,
}
use gaudere_agent.Text.{Text, eqb}
use gaudere_agent.Sidecar.Rows.{find_row, set_row}
use gaudere_agent.Responder.Lease.{valid_lease}
use gaudere_agent.Responder.Intent.{valid_intent}
use gaudere_agent.Responder.Disposition.{valid_disposition}
use gaudere_agent.Responder.Store.{Ledger, lease_key, intent_key, disposition_key}
use gaudere_agent.Responder.Store.Change.{
  Change, same, leased, lease_closed, intent_prepared, turn_taken, intent_moved, disposition_added,
  disposition_moved,
}

module _ {A : Type 0} (valid : A → Bool) where
  inserted :
      (a : A) (rows : List A) → valid a ≡ true → all valid rows ≡ true → all valid (a ∷ rows) ≡ true
  unfolding all
  inserted a rows v h = ground arith

  updated :
      (key : A → Text) (a : A) (rows : List A)
      → valid a ≡ true
      → all valid rows ≡ true
      → all valid (set_row key a rows) ≡ true
  unfolding all set_row
  updated key a [] v h = refl
  updated key a (b ∷ rows) v h = elim (Bool-cases (eqb (key b) (key a))) [
    | inl y ↦ rw y (ground arith)
    | inr n ↦
        rw n (inserted b (set_row key a rows) (ground arith) (updated key a rows v (ground arith)))
  ]

  pub find_row-all :
      (key : A → Text) (k : Text) (a : A) (rows : List A)
      → all valid rows ≡ true
      → find_row key k rows ≡ some a
      → valid a ≡ true
  unfolding all find_row
  find_row-all key k a [] h e = cc
  find_row-all key k a (b ∷ rows) h e = elim (Bool-cases (eqb (key b) k)) [
    | inl y ↦ let same_row : b ≡ a = ground arith in ap valid (sym same_row) ∙ ground arith
    | inr n ↦ find_row-all key k a rows (ground arith) (ground arith)
  ]

-- All rows of the three tables are canonical.
pub record Stored (sha256_hex : Text → Text) (l : Ledger) : Type 0 where
  pub leases : all valid_lease l.leases ≡ true
  pub intents : all (valid_intent sha256_hex) l.intents ≡ true
  pub dispositions : all (valid_disposition sha256_hex) l.dispositions ≡ true

pub Change-Stored :
    (sha256_hex : Text → Text) {l l' : Ledger}
    → Change sha256_hex l l'
    → Stored sha256_hex l
    → Stored sha256_hex l'
Change-Stored sha256_hex same h = h
Change-Stored sha256_hex {l} (leased lease v y z k e) h = record {
  leases = inserted valid_lease lease l.leases v h.leases;
  intents = h.intents;
  dispositions = h.dispositions;
}
Change-Stored sha256_hex {l} (lease_closed old new v e t off) h = record {
  leases = updated valid_lease lease_key new l.leases v h.leases;
  intents = h.intents;
  dispositions = h.dispositions;
}
Change-Stored sha256_hex {l} (intent_prepared i lease v c k e x) h = record {
  leases = h.leases;
  intents = inserted (valid_intent sha256_hex) i l.intents v h.intents;
  dispositions = h.dispositions;
}
Change-Stored sha256_hex {l} (turn_taken old new lease turned v w k a b c d o e al t on) h =
    record {
      leases = updated valid_lease lease_key turned l.leases w h.leases;
      intents = updated (valid_intent sha256_hex) intent_key new l.intents v h.intents;
      dispositions = h.dispositions;
    }
Change-Stored sha256_hex {l} (intent_moved old new v k a b c) h = record {
  leases = h.leases;
  intents = updated (valid_intent sha256_hex) intent_key new l.intents v h.intents;
  dispositions = h.dispositions;
}
Change-Stored sha256_hex {l} (disposition_added d v k e s) h = record {
  leases = h.leases;
  intents = h.intents;
  dispositions = inserted (valid_disposition sha256_hex) d l.dispositions v h.dispositions;
}
Change-Stored sha256_hex {l} (disposition_moved old new v k a b c) h = record {
  leases = h.leases;
  intents = h.intents;
  dispositions =
      updated (valid_disposition sha256_hex) disposition_key new l.dispositions v h.dispositions;
}
