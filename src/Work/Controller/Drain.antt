-- ===== src/Work/Controller/Drain.antt =====
-- The loop of WorkController::wait_and_run ends (src/WorkController.cpp).
use gaudere_agent.Prelude.{ℕ, zero, suc, ◌≤◌, ◌<◌, ◌≡◌, refl, arith, Bool, true, Option, none, some}
use gaudere_agent.Effects.{Result, ok, raised}
use gaudere_agent.Effects.Logged.{
  World, quiet, Post, Triple, Triple-pure, Triple-bind, Triple-if, Triple-weaken,
}
use gaudere_agent.Work.Executor.{Event}
use gaudere_agent.Work.Dispatcher.{DispatchResult, dispatched, dispatch_one}
use gaudere_agent.Work.Controller.{
  WorkCycleResult, Shared, Controller, load_stopping, Call, returns, enter_draining, conclude_drain,
  after_dispatch, drain, schedule_next_deadline,
}

abbrev pub Anywhere : {S : Type 0} → S → Type 0
Anywhere s = Unit {0}

-- The call returned a result, or raised: its fuel was enough.
abbrev pub Ended : {A S : Type 0} → Result (Option A) × S → Type 0
Ended (ok none, s) = ⊥
Ended (ok (some a), s) = Unit {0}
Ended (raised e, s) = Unit {0}

Post-second :
    {A S : Type 0} (Q : S → Type 0) (out : Result A × S) → Q out.1 → Post Anywhere (λ a. Q) out
Post-second Q (ok a, s) q = q
Post-second Q (raised e, s) q = tt

Post-value :
    {A S : Type 0} (Q : A → S → Type 0) (out : Result A × S)
    → ((a : A) → out.0 ≡ ok a → Q a out.1)
    → Post Anywhere Q out
Post-value Q (ok a, s) h = h a refl
Post-value Q (raised e, s) h = tt

abbrev Given : {A : Type 0} → Option A → Type 0
Given none = ⊥
Given (some a) = Unit {0}

Post-Ended :
    {A S : Type 0} (out : Result (Option A) × S) → Post Anywhere (λ r s. Given r) out → Ended out
Post-Ended (ok none, s) p = p
Post-Ended (ok (some a), s) p = tt
Post-Ended (raised e, s) p = tt

Triple-returns :
    {W : Type 0} {P : World (Shared W) Event → Type 0} (m : Call W WorkCycleResult)
    → Triple Anywhere P (returns m) (λ r s. Given r)
Triple-returns m =
    Triple-bind m _ (record { at = λ s p. Post-second Anywhere (m s) tt })
      (λ r. Triple-pure (some r) (λ s p. tt))

module _ {W : Type 0} (c : Controller W) where
  abbrev State : Type 0
  State = World (Shared W) Event

  -- A measure of the pending work that no load of the flag raises, and that falls with each task dispatched.
  pub record Drains (pending : State → ℕ) : Type 0 where
    pub polls : (s : State) → pending (quiet load_stopping s).1 ≤ pending s
    pub falls :
        (s : State)
        → (dispatch_one c.runtime c.handlers c.worker (some load_stopping) s).0 ≡ ok dispatched
        → pending (dispatch_one c.runtime c.handlers c.worker (some load_stopping) s).1 < pending s

  load-below :
      (pending : State → ℕ) (n : ℕ)
      → Drains pending
      → Triple Anywhere (λ s. pending s < n) (quiet load_stopping) (λ b s. pending s < n)
  load-below pending n d = record {
    at = λ s p.
        Post-second (λ s. pending s < n) (quiet load_stopping s) (omega (arith, d.polls s, p));
  }

  concluded :
      {P : State → Type 0} (r : WorkCycleResult)
      → Triple Anywhere P (conclude_drain c r) (λ o s. Given o)
  unfolding conclude_drain
  concluded r =
      Triple-bind (schedule_next_deadline c) _
        (record { at = λ s p. Post-second Anywhere (schedule_next_deadline c s) tt })
        (λ u. Triple-pure (some r) (λ s p. tt))

  dispatched-Triple :
      (pending : State → ℕ) (n : ℕ) (b : Bool) (rest : Call W (Option WorkCycleResult))
      (r : DispatchResult)
      → Drains pending
      → Triple Anywhere (λ s. pending s < n) rest (λ o s. Given o)
      → Triple Anywhere
          (λ s. r ≡ dispatched → pending s < n)
          (after_dispatch c b rest r)
          (λ o s. Given o)
  unfolding after_dispatch
  dispatched-Triple pending n b rest DispatchResult.dispatched d k =
      Triple-bind (quiet load_stopping) _
        (Triple-weaken (quiet load_stopping) (λ s p. p refl) (λ x s p. p) (load-below pending n d))
        (λ stop. Triple-if stop _ _ (Triple-returns (enter_draining c)) k)
  dispatched-Triple pending n b rest DispatchResult.idle d k = concluded _
  dispatched-Triple pending n b rest DispatchResult.state_conflict d k = concluded _

  drain-Triple :
      (pending : State → ℕ) (n : ℕ) (b : Bool)
      → Drains pending
      → Triple Anywhere (λ s. pending s < n) (drain c n b) (λ r s. Given r)
  unfolding drain
  drain-Triple pending zero b d = record { at = λ s p. omega (arith, p) }
  drain-Triple pending (suc n) b d =
      Triple-bind (quiet load_stopping) _ (load-below pending (suc n) d) (λ stop.
        Triple-if stop _ _ (Triple-returns (enter_draining c)) (
          Triple-bind (dispatch_one c.runtime c.handlers c.worker (some load_stopping)) _
            (record {
              at = λ s p.
                  Post-value (λ r t. r ≡ dispatched → pending t < n)
                    (dispatch_one c.runtime c.handlers c.worker (some load_stopping) s)
                    (λ r e q. omega (arith, p, d.falls s (rw q at e)));
            })
            (λ r.
              dispatched-Triple pending n b (drain c n true) r d (drain-Triple pending n true d))))

  -- Under a measure that each dispatched task lowers, the loop ends with a result, or with an exception, on any fuel
  -- above the measure.
  pub drain-ends :
      (pending : State → ℕ)
      → Drains pending
      → (n : ℕ) (b : Bool) (s : State) → pending s < n
      → Ended (drain c n b s)
  drain-ends pending d n b s p = Post-Ended (drain c n b s) ((drain-Triple pending n b d).at s p)
