-- ===== src/Provider/Once.antt =====
-- The provider calls of a log of the provider handler (src/ProviderTaskHandler.cpp): the invariant of the
-- log, and the steps that need the laws of the durable stores.
use gaudere_agent.Prelude.{
  ℕ, zero, suc, ◌+◌, ◌≤◌, ◌<◌, ◌≡◌, refl, sym, Bool, true, false, Option, none, some, List, [], ◌∷◌,
  arith, ◌||◌, if◌then◌else◌, Bool-cases, inl, inr,
}
use gaudere_agent.Text.{Text, eqb}
use gaudere_agent.Text.Laws.{eqb_iff, eqb_refl}
use gaudere_agent.Effects.{Result, ok, raised, M}
use gaudere_agent.Effects.Logged.{World, quiet, logged, enter_value, note, enter, Post, Triple}
use gaudere_agent.Provider.Api.{Api, Action, Laws, Keeps, SubmitResult, ConsumeResult}
use gaudere_agent.Provider.Handler.{Event, consumed, marked, invoked, budget_event, marker_event}

-- How often the provider was invoked for a key.
unfoldable pub calls : Text → List Event → ℕ
calls k [] = 0
calls k (consumed j ∷ l) = calls k l
calls k (marked i ∷ l) = calls k l
calls k (invoked i j ∷ l) = (if eqb j k then 1 else 0) + calls k l

-- Whether the budget admitted a call for the key.
abbrev pub spent : Text → List Event → Bool
spent k [] = false
spent k (consumed j ∷ l) = eqb j k || spent k l
spent k (marked i ∷ l) = spent k l
spent k (invoked i j ∷ l) = spent k l

-- The newest event is the marker of this action, and the budget was spent before it.
abbrev pub Announced : Text → Text → List Event → Type 0
Announced i k [] = ⊥
Announced i k (consumed j ∷ l) = ⊥
Announced i k (invoked j h ∷ l) = ⊥
Announced i k (marked j ∷ l) = (i ≡ j) × (spent k l ≡ true)

abbrev pub Ordered : List Event → Type 0
Ordered [] = Unit
Ordered (consumed j ∷ l) = Ordered l
Ordered (marked i ∷ l) = Ordered l
Ordered (invoked i k ∷ l) = Announced i k l × Ordered l

module _ {W : Type 0} (known : Text → W → Bool) where
  pub record Inv (s : World W Event) : Type 0 where
    pub once : (k : Text) → calls k s.log ≤ 1
    pub durable : (k : Text) → 0 < calls k s.log → known k s.ext ≡ true
    pub ordered : Ordered s.log

  pub record Fresh (k : Text) (s : World W Event) : Type 0 where
    pub inv : Inv s
    pub uncalled : calls k s.log ≡ 0

  pub record Paid (k : Text) (s : World W Event) : Type 0 where
    pub fresh : Fresh k s
    pub paid : spent k s.log ≡ true

  pub record Ready (k : Text) (s : World W Event) : Type 0 where
    pub is_paid : Paid k s
    pub stored : known k s.ext ≡ true

  -- A predicate that survives where the log is unchanged and no action is lost.
  abbrev pub Stable : (World W Event → Type 0) → Type 0
  Stable P =
      (s : World W Event) (w : W)
      → ((k : Text) → known k s.ext ≡ true → known k w ≡ true)
      → P s
      → P (record s { ext = w })

  pub Inv-Stable : Stable Inv
  Inv-Stable s w h p = record {
    once = p.once;
    durable = λ k c. h k (p.durable k c);
    ordered = p.ordered;
  }

  pub Fresh-Stable : (k : Text) → Stable (Fresh k)
  Fresh-Stable k s w h p = record { inv = Inv-Stable s w h p.inv; uncalled = p.uncalled }

  pub Paid-Stable : (k : Text) → Stable (Paid k)
  Paid-Stable k s w h p = record { fresh = Fresh-Stable k s w h p.fresh; paid = p.paid }

  pub Ready-Stable : (k : Text) → Stable (Ready k)
  Ready-Stable k s w h p = record { is_paid = Paid-Stable k s w h p.is_paid; stored = h k p.stored }

  enter-Post :
      {A : Type 0} (X P : World W Event → Type 0) (l : List Event) (out : Result A × W)
      → ((s : World W Event) → P s → X s)
      → P (record { ext = out.1; log = l })
      → Post X (λ _. P) (enter out l)
  enter-Post X P l (ok a, w) h p = p
  enter-Post X P l (raised e, w) h p = h _ p

  pub Triple-quiet :
      {A : Type 0} {X P : World W Event → Type 0} (m : M W A)
      → Keeps known m
      → Stable P
      → ((s : World W Event) → P s → X s)
      → Triple X P (quiet m) (λ _. P)
  unfolding quiet
  Triple-quiet {X} {P} m k st h = record {
    at = λ s p. enter-Post X P s.log (m s.ext) h (st s (m s.ext).1 (k s.ext) p);
  }

  -- A key that the store does not hold was never called.
  unknown-Fresh : (k : Text) (s : World W Event) → Inv s → known k s.ext ≡ false → Fresh k s
  unknown-Fresh k s p n = record { inv = p; uncalled = never (calls k s.log) (p.durable k) }
    where
      never : (c : ℕ) → (0 < c → known k s.ext ≡ true) → c ≡ 0
      never zero h = refl
      never (suc c) h = cc (h (omega arith))

  abbrev pub Found : Text → Option Action → World W Event → Type 0
  Found k none = Fresh k
  Found k (some a) = Inv

  abbrev pub Submitted : Text → SubmitResult → World W Event → Type 0
  Submitted k SubmitResult.accepted = Ready k
  Submitted k SubmitResult.duplicate = Inv
  Submitted k SubmitResult.other_submit = Inv

  find-Post :
      (k : Text) (l : List Event) (out : Result (Option Action) × W)
      → (out.0 ≡ ok none → known k out.1 ≡ false)
      → Inv (record { ext = out.1; log = l })
      → Post Inv (Found k) (enter out l)
  find-Post k l (ok none, w) h p = unknown-Fresh k _ p (h refl)
  find-Post k l (ok (some a), w) h p = p
  find-Post k l (raised e, w) h p = p

  submit-Post :
      (k : Text) (l : List Event) (out : Result SubmitResult × W)
      → (out.0 ≡ ok SubmitResult.accepted → known k out.1 ≡ true)
      → Paid k (record { ext = out.1; log = l })
      → Post Inv (Submitted k) (enter out l)
  submit-Post k l (ok SubmitResult.accepted, w) h p = record { is_paid = p; stored = h refl }
  submit-Post k l (ok SubmitResult.duplicate, w) h p = p.fresh.inv
  submit-Post k l (ok SubmitResult.other_submit, w) h p = p.fresh.inv
  submit-Post k l (raised e, w) h p = p.fresh.inv

  -- What an answer of the budget tells.
  abbrev pub Granted : Text → ConsumeResult → World W Event → Type 0
  Granted k ConsumeResult.accepted = Paid k
  Granted k ConsumeResult.duplicate = Paid k
  Granted k _ = Fresh k

  consumed-Paid :
      (k : Text) (l : List Event) (w : W)
      → Fresh k (record { ext = w; log = l })
      → Paid k (record { ext = w; log = consumed k ∷ l })
  unfolding calls
  consumed-Paid k l w p = record {
    fresh = record {
      inv = record { once = p.inv.once; durable = p.inv.durable; ordered = p.inv.ordered };
      uncalled = p.uncalled;
    };
    paid = rw (eqb_refl k);
  }

  consume-Post :
      (k : Text) (l : List Event) (out : Result ConsumeResult × W)
      → Fresh k (record { ext = out.1; log = l })
      → Post (Fresh k) (Granted k) (enter_value (budget_event k) out l)
  consume-Post k l (ok ConsumeResult.accepted, w) p = consumed-Paid k l w p
  consume-Post k l (ok ConsumeResult.duplicate, w) p = consumed-Paid k l w p
  consume-Post k l (ok ConsumeResult.total_exhausted, w) p = p
  consume-Post k l (ok ConsumeResult.window_exhausted, w) p = p
  consume-Post k l (ok ConsumeResult.cooldown, w) p = p
  consume-Post k l (ok ConsumeResult.clock_rollback, w) p = p
  consume-Post k l (raised e, w) p = p

  pub Triple-consume :
      (k : Text) (m : M W ConsumeResult)
      → Keeps known m
      → Triple (Fresh k) (Fresh k) (logged (budget_event k) m) (Granted k)
  unfolding logged
  Triple-consume k m h = record {
    at = λ s p. consume-Post k s.log (m s.ext) (Fresh-Stable k s (m s.ext).1 (h s.ext) p);
  }

  -- The marker of action i is the newest event, and the call may follow.
  pub record Armed (i k : Text) (s : World W Event) : Type 0 where
    pub ready : Ready k s
    pub announced : Announced i k s.log

  -- What an answer of the marker call tells.
  abbrev pub Persisted : Text → Text → Bool → World W Event → Type 0
  Persisted i k false = Ready k
  Persisted i k true = Armed i k

  marked-Armed :
      (i k : Text) (l : List Event) (w : W)
      → Ready k (record { ext = w; log = l })
      → Armed i k (record { ext = w; log = marked i ∷ l })
  unfolding calls
  marked-Armed i k l w p = record {
    ready = record {
      is_paid = record {
        fresh = record {
          inv = record {
            once = p.is_paid.fresh.inv.once;
            durable = p.is_paid.fresh.inv.durable;
            ordered = p.is_paid.fresh.inv.ordered;
          };
          uncalled = p.is_paid.fresh.uncalled;
        };
        paid = p.is_paid.paid;
      };
      stored = p.stored;
    };
    announced = (refl, p.is_paid.paid);
  }

  mark-Post :
      (i k : Text) (l : List Event) (out : Result Bool × W)
      → Ready k (record { ext = out.1; log = l })
      → Post Inv (Persisted i k) (enter_value (marker_event i) out l)
  mark-Post i k l (ok true, w) p = marked-Armed i k l w p
  mark-Post i k l (ok false, w) p = p
  mark-Post i k l (raised e, w) p = p.is_paid.fresh.inv

  pub Triple-mark :
      (i k : Text) (m : M W Bool)
      → Keeps known m
      → Triple Inv (Ready k) (logged (marker_event i) m) (Persisted i k)
  unfolding logged
  Triple-mark i k m h = record {
    at = λ s p. mark-Post i k s.log (m s.ext) (Ready-Stable k s (m s.ext).1 (h s.ext) p);
  }

  call_once :
      (k j : Text) (l : List Event)
      → calls k l ≡ 0
      → calls j l ≤ 1
      → (if eqb k j then 1 else 0) + calls j l ≤ 1
  call_once k j l z h = elim (Bool-cases (eqb k j)) [
    | inl e ↦ rw (e, sym ((eqb_iff k j).0 e)) (omega arith)
    | inr n ↦ rw n (omega arith)
  ]

  call_stored :
      (k j : Text) (l : List Event) (w : W)
      → known k w ≡ true
      → (0 < calls j l → known j w ≡ true)
      → 0 < (if eqb k j then 1 else 0) + calls j l
      → known j w ≡ true
  call_stored k j l w s h c = elim (Bool-cases (eqb k j)) [
    | inl e ↦ rw (sym ((eqb_iff k j).0 e)) s
    | inr n ↦ let c' = rw n at c in h (omega arith)
  ]

  pub Triple-note_invoked : (i k : Text) → Triple Inv (Armed i k) (note (invoked i k)) (λ _. Inv)
  unfolding note calls
  Triple-note_invoked i k = record {
    at = λ s p.
        let inv = p.ready.is_paid.fresh.inv in
        record {
          once = λ j. call_once k j s.log p.ready.is_paid.fresh.uncalled (inv.once j);
          durable = λ j. call_stored k j s.log s.ext p.ready.stored (inv.durable j);
          ordered = (p.announced, inv.ordered);
        };
  }

module _ {W : Type 0} (api : Api W) (laws : Laws api) where
  pub Triple-find :
      (k : Text)
      → Triple
          (Inv laws.known)
          (Inv laws.known)
          (quiet (api.find_by_idempotency_key k))
          (Found laws.known k)
  unfolding quiet
  Triple-find k = record {
    at = λ s p.
        find-Post laws.known k s.log (api.find_by_idempotency_key k s.ext) (laws.find_none k s.ext)
          (Inv-Stable laws.known s _ (laws.find_keeps k s.ext) p);
  }

  pub Triple-submit :
      (i k : Text)
      → Triple
          (Inv laws.known)
          (Paid laws.known k)
          (quiet (api.submit i k true))
          (Submitted laws.known k)
  unfolding quiet
  Triple-submit i k = record {
    at = λ s p.
        submit-Post laws.known k s.log (api.submit i k true s.ext)
          (laws.submit_accepted i k true s.ext)
          (Paid-Stable laws.known k s _ (laws.submit_keeps i k true s.ext) p);
  }
