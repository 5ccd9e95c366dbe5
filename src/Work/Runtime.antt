-- ===== src/Work/Runtime.antt =====
-- The work runtime and the task store of the Gaudere library, as the agent calls them. They are not
-- modelled: `Runtime` holds their operations over an abstract world W, and `Laws` the documented effect of
-- the finishing calls that the executor relies on.
use gaudere_agent.Prelude.{◌≡◌, Bool, true, Option, List, ℤ}
use gaudere_agent.Text.{Text}
use gaudere_agent.Effects.{ok, M}
use gaudere_agent.Work.Task.{Task}

-- gaudere::work::FinishResult, of which the agent tests one enumerator.
pub data FinishResult : Type 0 where
  unavailable finished : FinishResult

pub record Runtime (W : Type 0) : Type 0 where
  pub is_running : M W Bool
  pub start : Text → Text → M W Bool
  pub find : Text → M W (Option Task)
  pub succeed : Text → Text → Text → Text → Text → M W FinishResult
  pub fail : Text → Text → Text → Text → Text → M W Bool
  pub mark_cancelled : Text → M W Bool
  pub request_cancel : Text → Text → M W Bool
  pub require_manual_review : Text → Text → Text → Text → Text → M W Bool
  pub find_pending_for : List Text → M W (Option Task)
  pub recover_expired : M W (Unit {0})
  pub request_shutdown : M W (Unit {0})
  pub next_recovery_at : M W (Option ℤ)

-- `finished id` says that the task is in a terminal status.
pub record Laws {W : Type 0} (rt : Runtime W) : Type 0 where
  pub terminal : Text → W → Bool
  pub succeed_finishes :
      (i o c mc m : Text) (w : W)
      → (rt.succeed i o c mc m w).0 ≡ ok finished
      → terminal i (rt.succeed i o c mc m w).1 ≡ true
  pub fail_finishes :
      (i c m mc md : Text) (w : W)
      → (rt.fail i c m mc md w).0 ≡ ok true
      → terminal i (rt.fail i c m mc md w).1 ≡ true
  pub cancel_finishes :
      (i : Text) (w : W)
      → (rt.mark_cancelled i w).0 ≡ ok true
      → terminal i (rt.mark_cancelled i w).1 ≡ true
  pub review_finishes :
      (i c m mc md : Text) (w : W)
      → (rt.require_manual_review i c m mc md w).0 ≡ ok true
      → terminal i (rt.require_manual_review i c m mc md w).1 ≡ true
