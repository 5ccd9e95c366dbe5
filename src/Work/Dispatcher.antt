-- ===== src/Work/Dispatcher.antt =====
-- TaskDispatcher of src/TaskDispatcher.cpp: the registry of handlers by kind, and the dispatch of one
-- pending task to the executor. The std::map of handlers is its association list in the order of the keys;
-- a registered handler is a reference, never null.
pub mod Routes
use gaudere_agent.Prelude.{
  ℕ, ◌≡◌, refl, ◌↔◌, ◌⊎◌, inl, inr, Bool, true, false, not, ◌||◌, ◌&&◌, Option, none, some, List,
  [], ◌∷◌, arith, if◌then◌else◌, empty, is_some, ltb, ◌==◌, Bool-cases,
}
use gaudere_agent.Text.{Text, eqb}
use gaudere_agent.Text.Laws.{eqb_iff, eqb_refl}
use gaudere_agent.Effects.{Result, ok, M, pure, ◌>>=◌}
use gaudere_agent.Effects.Logged.{World, quiet}
use gaudere_agent.Work.Task.{Task}
use gaudere_agent.Work.Runtime.{Runtime}
use gaudere_agent.Work.Executor.{Event, ExecuteResult, completed, not_startable, Handler, execute}

pub data DispatchResult : Type 0 where
  idle dispatched state_conflict : DispatchResult

abbrev pub Registry : Type 0 → Type 0
Registry W = List (Text × Handler W)

-- operator< of std::string, on unsigned bytes.
unfoldable pub before : Text → Text → Bool
before [] [] = false
before [] (b ∷ t) = true
before (a ∷ s) [] = false
before (a ∷ s) (b ∷ t) = ltb a b || a == b && before s t

abbrev pub dispatch_result : ExecuteResult → DispatchResult
dispatch_result completed = dispatched
dispatch_result not_startable = state_conflict
dispatch_result ExecuteResult.state_conflict = state_conflict

module _ {W : Type 0} where
  -- handlers_.find(kind)
  unfoldable pub lookup : Text → Registry W → Option (Handler W)
  lookup kind [] = none
  lookup kind ((key, handler) ∷ rest) =
      let found = lookup kind rest in if eqb kind key then some handler else found

  -- handlers_.emplace(kind, handler), of a kind that is not there
  unfoldable pub emplace : Text → Handler W → Registry W → Registry W
  emplace kind handler [] = (kind, handler) ∷ []
  emplace kind handler ((key, other) ∷ rest) =
      let later = emplace kind handler rest in
      if before kind key then (kind, handler) ∷ (key, other) ∷ rest else (key, other) ∷ later

  unfoldable pub register_handler : Registry W → Text → Handler W → Registry W × Bool
  register_handler handlers kind handler =
      if empty kind || is_some (lookup kind handlers)
      then (handlers, false)
      else (emplace kind handler handlers, true)

  unfoldable pub accepted_kinds : Registry W → List Text
  accepted_kinds [] = []
  accepted_kinds ((key, handler) ∷ rest) = key ∷ accepted_kinds rest

  module _ (rt : Runtime W) where
    unfoldable pub run_found :
        Text → Option (M W Bool) → Text → Option (Handler W) → M (World W Event) DispatchResult
    run_found worker stop id none = pure state_conflict
    run_found worker stop id (some handler) = do
      result ← execute rt id worker handler stop
      pure (dispatch_result result)

    unfoldable pub dispatch_task :
        Registry W → Text → Option (M W Bool) → Option Task → M (World W Event) DispatchResult
    dispatch_task handlers worker stop none = pure idle
    dispatch_task handlers worker stop (some task) =
        run_found worker stop task.id (lookup task.kind handlers)

    unfoldable pub dispatch_one :
        Registry W → Text → Option (M W Bool) → M (World W Event) DispatchResult
    dispatch_one handlers worker stop = if empty worker then pure state_conflict else (do
      task ← quiet (rt.find_pending_for (accepted_kinds handlers))
      dispatch_task handlers worker stop task)
