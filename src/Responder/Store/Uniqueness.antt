-- ===== src/Responder/Store/Uniqueness.antt =====
-- The UNIQUE indexes of src/LocalGooseDialogueResponderStore.cpp.
use gaudere_agent.Prelude.{ℕ, ◌≤◌, ◌≡◌, sym, ap, ◌∙◌, true, none, some, List, ◌∷◌, arith}
use gaudere_agent.Text.{Text}
use gaudere_agent.Text.Laws.{eqb_iff}
use gaudere_agent.Sidecar.Rows.{find_row, set_row, find_where, count, count-insert, count-set_row}
use gaudere_agent.Responder.Lease.{Lease}
use gaudere_agent.Responder.Intent.{Intent}
use gaudere_agent.Responder.Disposition.{Disposition}
use gaudere_agent.Responder.Store.{
  Ledger, lease_key, intent_key, disposition_key, active_on, triggered_by, for_event, for_sequence,
}
use gaudere_agent.Responder.Store.Change.{
  Change, same, leased, lease_closed, intent_prepared, turn_taken, intent_moved, disposition_added,
  disposition_moved,
}

-- One active lease of a thread, one intent of a lease for an event, one disposition of a consumer for an
-- event and one for a sequence, at most.
pub record Unique (l : Ledger) : Type 0 where
  pub lease : (alias : Text) → count (active_on alias) l.leases ≤ 1
  pub trigger : (lease_id event_id : Text) → count (triggered_by lease_id event_id) l.intents ≤ 1
  pub event : (consumer event_id : Text) → count (for_event consumer event_id) l.dispositions ≤ 1
  pub sequence : (consumer : Text) (n : ℕ) → count (for_sequence consumer n) l.dispositions ≤ 1

inserted_lease :
    (alias : Text) (lease : Lease) (rows : List Lease)
    → find_where (active_on lease.thread_alias) rows ≡ none
    → count (active_on alias) rows ≤ 1
    → count (active_on alias) (lease ∷ rows) ≤ 1
inserted_lease alias lease rows e h =
    count-insert (active_on alias) lease rows
      (λ p.
        ap (λ k. find_where (active_on k) rows)
          (sym ((eqb_iff lease.thread_alias alias).0 (ground arith)))
        ∙ e)
      h

inserted_intent :
    (lease_id event_id : Text) (intent : Intent) (rows : List Intent)
    → find_where (triggered_by intent.lease_id intent.event_id) rows ≡ none
    → count (triggered_by lease_id event_id) rows ≤ 1
    → count (triggered_by lease_id event_id) (intent ∷ rows) ≤ 1
inserted_intent lease_id event_id intent rows e h =
    count-insert (triggered_by lease_id event_id) intent rows
      (λ p.
        let a : intent.lease_id ≡ lease_id = (eqb_iff intent.lease_id lease_id).0 (ground arith) in
        let b : intent.event_id ≡ event_id = (eqb_iff intent.event_id event_id).0 (ground arith) in
        rw (sym a, sym b) e)
      h

inserted_event :
    (consumer event_id : Text) (d : Disposition) (rows : List Disposition)
    → find_where (for_event d.consumer_id d.event_id) rows ≡ none
    → count (for_event consumer event_id) rows ≤ 1
    → count (for_event consumer event_id) (d ∷ rows) ≤ 1
inserted_event consumer event_id d rows e h =
    count-insert (for_event consumer event_id) d rows
      (λ p.
        let a : d.consumer_id ≡ consumer = (eqb_iff d.consumer_id consumer).0 (ground arith) in
        let b : d.event_id ≡ event_id = (eqb_iff d.event_id event_id).0 (ground arith) in
        rw (sym a, sym b) e)
      h

inserted_sequence :
    (consumer : Text) (n : ℕ) (d : Disposition) (rows : List Disposition)
    → find_where (for_sequence d.consumer_id d.completion_sequence) rows ≡ none
    → count (for_sequence consumer n) rows ≤ 1
    → count (for_sequence consumer n) (d ∷ rows) ≤ 1
inserted_sequence consumer n d rows e h =
    count-insert (for_sequence consumer n) d rows
      (λ p.
        let a : d.consumer_id ≡ consumer = (eqb_iff d.consumer_id consumer).0 (ground arith) in
        let b : d.completion_sequence ≡ n = ground arith in rw (sym a, sym b) e)
      h

-- An UPDATE that leaves the columns of an index alone, or deactivates a lease.
set_lease :
    (alias : Text) (new old : Lease) (rows : List Lease)
    → find_row lease_key new.lease_id rows ≡ some old
    → (active_on alias new ≡ true → active_on alias old ≡ true)
    → count (active_on alias) rows ≤ 1
    → count (active_on alias) (set_row lease_key new rows) ≤ 1
set_lease alias new old rows e f h = count-set_row lease_key (active_on alias) new old rows e f h

set_intent :
    (lease_id event_id : Text) (new old : Intent) (rows : List Intent)
    → find_row intent_key new.intent_id rows ≡ some old
    → new.lease_id ≡ old.lease_id
    → new.event_id ≡ old.event_id
    → count (triggered_by lease_id event_id) rows ≤ 1
    → count (triggered_by lease_id event_id) (set_row intent_key new rows) ≤ 1
set_intent lease_id event_id new old rows e a b h =
    count-set_row intent_key (triggered_by lease_id event_id) new old rows e
      (λ p. rw (sym a, sym b) p) h

pub Change-Unique :
    (sha256_hex : Text → Text) {l l' : Ledger} → Change sha256_hex l l' → Unique l → Unique l'
Change-Unique sha256_hex same u = u
Change-Unique sha256_hex {l} (leased lease v y z k e) u = record {
  lease = λ alias. inserted_lease alias lease l.leases e (u.lease alias);
  trigger = u.trigger;
  event = u.event;
  sequence = u.sequence;
}
Change-Unique sha256_hex {l} (lease_closed old new v e t off) u = record {
  lease = λ alias. set_lease alias new old l.leases e (λ p. ground arith) (u.lease alias);
  trigger = u.trigger;
  event = u.event;
  sequence = u.sequence;
}
Change-Unique sha256_hex {l} (intent_prepared intent lease v c k e x) u = record {
  lease = u.lease;
  trigger = λ a b. inserted_intent a b intent l.intents e (u.trigger a b);
  event = u.event;
  sequence = u.sequence;
}
Change-Unique sha256_hex {l} (turn_taken old new lease turned v w k a b c d o e al t on) u =
    record {
      lease = λ alias.
          set_lease alias turned lease l.leases e
            (λ p. rw (sym al, on (ground arith)) (ground arith)) (u.lease alias);
      trigger = λ x y. set_intent x y new old l.intents k a b (u.trigger x y);
      event = u.event;
      sequence = u.sequence;
    }
Change-Unique sha256_hex {l} (intent_moved old new v k a b c) u = record {
  lease = u.lease;
  trigger = λ x y. set_intent x y new old l.intents k a b (u.trigger x y);
  event = u.event;
  sequence = u.sequence;
}
Change-Unique sha256_hex {l} (disposition_added d v k e s) u = record {
  lease = u.lease;
  trigger = u.trigger;
  event = λ x y. inserted_event x y d l.dispositions e (u.event x y);
  sequence = λ x n. inserted_sequence x n d l.dispositions s (u.sequence x n);
}
Change-Unique sha256_hex {l} (disposition_moved old new v k a b c) u = record {
  lease = u.lease;
  trigger = u.trigger;
  event = λ x y.
      count-set_row disposition_key (for_event x y) new old l.dispositions k
        (λ p. rw (sym a, sym b) p) (u.event x y);
  sequence = λ x n.
      count-set_row disposition_key (for_sequence x n) new old l.dispositions k
        (λ p. rw (sym a, sym c) p) (u.sequence x n);
}
