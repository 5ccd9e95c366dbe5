-- ===== src/Work/Controller/Stopping.antt =====
-- What the answer `stopped` of WorkController::wait_and_run tells (src/WorkController.cpp).
use gaudere_agent.Prelude.{
  ℕ, zero, suc, ◌≡◌, arith, Bool, true, false, Option, none, some, List, if◌then◌else◌,
}
use gaudere_agent.Effects.{Result, ok, raised, M, pure, ◌>>=◌}
use gaudere_agent.Effects.Logged.{
  World, quiet, enter, Post, Triple, Triple-pure, Triple-bind, Triple-if,
}
use gaudere_agent.Work.Executor.{Event}
use gaudere_agent.Work.Dispatcher.{DispatchResult, dispatch_one}
use gaudere_agent.Work.Controller.{
  WaitResult, WorkCycleResult, idle, worked, stopped, Shared, Controller, Call, load_stopping,
  load_started, returns, enter_draining, conclude_drain, after_dispatch, drain, after_wait,
  after_block, wait_and_run, schedule_next_deadline, reconcile_wakes,
}
use gaudere_agent.Work.Controller.Drain.{Anywhere}

Post-anything : {A S : Type 0} (out : Result A × S) → Post Anywhere (λ a. Anywhere) out
Post-anything (ok a, s) = tt
Post-anything (raised e, s) = tt

-- Whatever the first call does.
skip :
    {S A B : Type 0} {P : S → Type 0} {Q : B → S → Type 0} (m : M S A) (f : A → M S B)
    → ((a : A) → Triple Anywhere Anywhere (f a) Q)
    → Triple Anywhere P (m >>= f) Q
skip m f h = Triple-bind m f (record { at = λ s p. Post-anything (m s) }) h

-- The state of the runtime that request_shutdown brings about.
module _ {W : Type 0} (c : Controller W) (draining : Shared W → Bool)
    (drains : (s : Shared W) → draining (c.runtime.request_shutdown s).1 ≡ true) where
  abbrev pub Told : Option WorkCycleResult → World (Shared W) Event → Type 0
  Told o s = o ≡ some stopped → draining s.ext ≡ true

  entered :
      (out : Result (Unit {0}) × Shared W) (log : List Event)
      → draining out.1 ≡ true
      → Post {S = World (Shared W) Event} Anywhere (λ u s. draining s.ext ≡ true) (enter out log)
  entered (ok u, s) log h = h
  entered (raised e, s) log h = tt

  draining-Told :
      {P : World (Shared W) Event → Type 0} → Triple Anywhere P (returns (enter_draining c)) Told
  unfolding enter_draining quiet
  draining-Told =
      Triple-bind (enter_draining c) _
        (Triple-bind (quiet c.runtime.request_shutdown) _
          (record { at = λ s p. entered (c.runtime.request_shutdown s.ext) s.log (drains s.ext) })
          (λ u. Triple-pure stopped (λ s h. h)))
        (λ r. Triple-pure (some r) (λ s h e. h))

  other-Told :
      {P : World (Shared W) Event → Type 0} (r : WorkCycleResult)
      → (r ≡ stopped → ⊥)
      → Triple Anywhere P (pure (some r)) Told
  other-Told r n = Triple-pure (some r) (λ s p e. elim (n (ground arith)) [ ])

  concluded-Told :
      (r : WorkCycleResult) → (r ≡ stopped → ⊥) → Triple Anywhere Anywhere (conclude_drain c r) Told
  unfolding conclude_drain
  concluded-Told r n = skip (schedule_next_deadline c) _ (λ u. other-Told r n)

  after_dispatch-Told :
      (b : Bool) (rest : Call W (Option WorkCycleResult)) (r : DispatchResult)
      → Triple Anywhere Anywhere rest Told
      → Triple Anywhere Anywhere (after_dispatch c b rest r) Told
  unfolding after_dispatch
  after_dispatch-Told b rest DispatchResult.dispatched k =
      skip (quiet load_stopping) _ (λ stop. Triple-if stop _ _ draining-Told k)
  after_dispatch-Told true rest DispatchResult.idle k = concluded-Told worked (λ e. cc)
  after_dispatch-Told false rest DispatchResult.idle k = concluded-Told idle (λ e. cc)
  after_dispatch-Told b rest DispatchResult.state_conflict k =
      concluded-Told WorkCycleResult.state_conflict (λ e. cc)

  drain-Told : (n : ℕ) (b : Bool) → Triple Anywhere Anywhere (drain c n b) Told
  unfolding drain
  drain-Told zero b = Triple-pure none (λ s p e. cc)
  drain-Told (suc n) b = skip (quiet load_stopping) _ (λ stop. Triple-if stop _ _ draining-Told (
      skip (dispatch_one c.runtime c.handlers c.worker (some load_stopping)) _
        (λ r. after_dispatch-Told b (drain c n true) r (drain-Told n true))))

  after_wait-Told : (n : ℕ) (r : WaitResult) → Triple Anywhere Anywhere (after_wait c n r) Told
  unfolding after_wait
  after_wait-Told n WaitResult.stopped = draining-Told
  after_wait-Told n WaitResult.interrupted =
      skip (quiet load_stopping) _
        (λ stop. Triple-if stop _ _ draining-Told (other-Told idle (λ e. cc)))
  after_wait-Told n WaitResult.due = skip (quiet load_stopping) _ (λ stop.
      Triple-if stop _ _ draining-Told (
        skip (reconcile_wakes c.wake_runtime) _
          (λ u. skip (quiet c.runtime.recover_expired) _ (λ v. drain-Told n false))))

  after_block-Told :
      (n : ℕ) (r : Option WaitResult) → Triple Anywhere Anywhere (after_block c n r) Told
  unfolding after_block
  after_block-Told n none = Triple-pure none (λ s p e. cc)
  after_block-Told n (some r) = after_wait-Told n r

  running-Told :
      (n : ℕ)
      → Triple Anywhere Anywhere
          (quiet load_stopping >>= λ stop.
            if stop
            then returns (enter_draining c)
            else (quiet c.scheduler.wait >>= λ result. after_block c n result))
          Told
  running-Told n = skip (quiet load_stopping) _ (λ stop.
      Triple-if stop _ _ draining-Told (skip (quiet c.scheduler.wait) _ (after_block-Told n)))

  -- Where request_shutdown leaves the runtime draining: if wait_and_run of a started controller returns stopped, the
  -- runtime is draining.
  pub wait_and_run-drains :
      (n : ℕ) (s : World (Shared W) Event)
      → s.ext.started ≡ true
      → Post Anywhere Told (wait_and_run c n s)
  unfolding wait_and_run load_started quiet ◌>>=◌
  wait_and_run-drains n s e = rw e ((running-Told n).at _ tt)
