-- ===== src/Work/Controller.antt =====
-- WorkController of src/WorkController.hpp and src/WorkController.cpp: the start and stop flags, and one cycle
-- of waiting, recovering and draining pending work. The scheduler and the wake runtime belong to the Gaudere
-- library. Another thread may call stop() between any two loads of its flag.
pub mod Drain
pub mod Stopping
mod Examples
use gaudere_agent.Prelude.{
  ℕ, zero, suc, Bool, true, false, not, ◌||◌, Option, none, some, List, [], ◌∷◌, if◌then◌else◌,
  empty, ℤ,
}
use gaudere_agent.Text.{Text}
use gaudere_agent.Effects.{Result, ok, M, pure, ◌>>=◌, ◌>>◌}
use gaudere_agent.Effects.Logged.{World, quiet}
use gaudere_agent.Work.Runtime.{Runtime}
use gaudere_agent.Work.Executor.{Event}
use gaudere_agent.Work.Dispatcher.{DispatchResult, Registry, dispatch_one}

-- gaudere::scheduling::wake::WaitResult, of which the controller tests two enumerators.
pub data WaitResult : Type 0 where
  due stopped interrupted : WaitResult

pub data WorkCycleResult : Type 0 where
  idle worked state_conflict stopped : WorkCycleResult

-- The world with the flags of the controller. `arrivals` says at which of the next loads another thread's stop()
-- has been stored meanwhile; past its end there is none.
pub record Shared (W : Type 0) : Type 0 where
  pub ext : W
  pub started : Bool
  pub stopping : Bool
  pub arrivals : List Bool

pub record Scheduler (W : Type 0) : Type 0 where
  -- none where it blocks for ever
  pub wait : M W (Option WaitResult)
  pub request_now : M W (Unit {0})
  pub request_at : ℤ → M W (Unit {0})
  pub interrupt : M W (Unit {0})
  pub stop : M W (Unit {0})

-- gaudere::scheduling::wake::WakeIntentRuntime
pub record Wakes (W : Type 0) : Type 0 where
  pub reconcile : M W (Unit {0})
  pub next_scheduled_at : M W (Option ℤ)

-- The references that the constructor keeps.
pub record Controller (W : Type 0) : Type 0 where
  pub scheduler : Scheduler (Shared W)
  pub runtime : Runtime (Shared W)
  pub handlers : Registry (Shared W)
  pub worker : Text
  pub wake_runtime : Option (Wakes (Shared W))

-- A call of the controller that gives an A.
abbrev pub Call : Type 0 → Type 0 → Type 0
Call W A = M (World (Shared W) Event) A

module _ {W : Type 0} where
  abbrev pub polled : List Bool → Shared W → Result Bool × Shared W
  polled [] s = (ok s.stopping, s)
  polled (arrived ∷ rest) s =
      (ok (s.stopping || arrived), record s { stopping = s.stopping || arrived; arrivals = rest })

  -- stopping_.load()
  unfoldable pub load_stopping : M (Shared W) Bool
  load_stopping s = polled s.arrivals s

  -- started_.load()
  unfoldable pub load_started : M (Shared W) Bool
  load_started s = (ok s.started, s)

  -- started_.compare_exchange_strong(false, true)
  unfoldable pub claim_start : M (Shared W) Bool
  claim_start s = (ok (not s.started), record s { started = true })

  -- stopping_.store(true)
  unfoldable pub store_stopping : M (Shared W) (Unit {0})
  store_stopping s = (ok tt, record s { stopping = true })

  -- A result of the loop; none is out of fuel.
  abbrev pub returns : Call W WorkCycleResult → Call W (Option WorkCycleResult)
  returns m = do r ← m; pure (some r)

  unfoldable pub reconcile_wakes : Option (Wakes (Shared W)) → Call W (Unit {0})
  reconcile_wakes none = pure tt
  reconcile_wakes (some w) = quiet w.reconcile

  module _ (c : Controller W) where
    open c use {runtime, scheduler, handlers, worker, wake_runtime}

    unfoldable pub enter_draining : Call W WorkCycleResult
    enter_draining = do quiet runtime.request_shutdown; pure stopped

    unfoldable pub request_deadline : Option ℤ → Call W (Unit {0})
    request_deadline none = pure tt
    request_deadline (some deadline) = quiet (scheduler.request_at deadline)

    unfoldable pub schedule_wake : Option (Wakes (Shared W)) → Call W (Unit {0})
    schedule_wake none = pure tt
    schedule_wake (some w) = do deadline ← quiet w.next_scheduled_at; request_deadline deadline

    unfoldable pub schedule_next_deadline : Call W (Unit {0})
    schedule_next_deadline = do
      stopping ← quiet load_stopping
      if stopping then pure tt else (do
        deadline ← quiet runtime.next_recovery_at
        request_deadline deadline
        schedule_wake wake_runtime)

    unfoldable pub begin : Call W Bool
    begin = do
      reconcile_wakes wake_runtime
      quiet scheduler.request_now
      schedule_next_deadline
      pure true

    unfoldable pub start : Call W Bool
    start = do
      stopping ← quiet load_stopping
      if stopping || empty worker then pure false else (do
        running ← quiet runtime.is_running
        if not running
            then pure false
            else (do first ← quiet claim_start; if not first then pure false else begin))

    -- if (!started_.load() || stopping_.load()) return; before each of the three notifications
    unfoldable pub while_started : Call W (Unit {0}) → Call W (Unit {0})
    while_started action = do
      started ← quiet load_started
      if not started
          then pure tt
          else (do stopping ← quiet load_stopping; if stopping then pure tt else action)

    unfoldable pub notify_work : Call W (Unit {0})
    notify_work = while_started (quiet scheduler.request_now)

    unfoldable pub interrupt : Call W (Unit {0})
    interrupt = while_started (quiet scheduler.interrupt)

    unfoldable pub refresh_deadlines : Call W (Unit {0})
    refresh_deadlines = while_started schedule_next_deadline

    unfoldable pub stop : Call W (Unit {0})
    stop = do quiet store_stopping; quiet scheduler.stop

    unfoldable pub conclude_drain : WorkCycleResult → Call W (Option WorkCycleResult)
    conclude_drain result = do schedule_next_deadline; pure (some result)

    -- The switch on the result of a dispatch; `rest` is the next round of the loop.
    unfoldable pub after_dispatch :
        Bool → Call W (Option WorkCycleResult) → DispatchResult → Call W (Option WorkCycleResult)
    after_dispatch worked_before rest DispatchResult.dispatched = do
      stopping ← quiet load_stopping
      if stopping then returns enter_draining else rest
    after_dispatch worked_before rest DispatchResult.idle =
        conclude_drain (if worked_before then worked else idle)
    after_dispatch worked_before rest DispatchResult.state_conflict = conclude_drain state_conflict

    -- for (;;)
    unfoldable pub drain : ℕ → Bool → Call W (Option WorkCycleResult)
    drain zero worked_before = pure none
    drain (suc n) worked_before = do
      stopping ← quiet load_stopping
      if stopping then returns enter_draining else (do
        result ← dispatch_one runtime handlers worker (some load_stopping)
        after_dispatch worked_before (drain n true) result)

    unfoldable pub after_wait : ℕ → WaitResult → Call W (Option WorkCycleResult)
    after_wait n WaitResult.stopped = returns enter_draining
    after_wait n WaitResult.interrupted = do
      stopping ← quiet load_stopping
      if stopping then returns enter_draining else pure (some idle)
    after_wait n WaitResult.due = do
      stopping ← quiet load_stopping
      if stopping
          then returns enter_draining
          else (do reconcile_wakes wake_runtime; quiet runtime.recover_expired; drain n false)

    -- A wait that blocks for ever gives no result, as a loop does that is out of fuel.
    unfoldable pub after_block : ℕ → Option WaitResult → Call W (Option WorkCycleResult)
    after_block n none = pure none
    after_block n (some result) = after_wait n result

    unfoldable pub wait_and_run : ℕ → Call W (Option WorkCycleResult)
    wait_and_run n = do
      started ← quiet load_started
      if not started then pure (some stopped) else (do
        stopping ← quiet load_stopping
        if stopping
            then returns enter_draining
            else (do result ← quiet scheduler.wait; after_block n result))
