-- ===== src/Work/Task.antt =====
-- The fields of `gaudere::work::Task` that the agent reads, and the contract of a task handler
-- (src/TaskExecutor.hpp). The Task type itself belongs to the Gaudere library.
use gaudere_agent.Prelude.{ℕ}
use gaudere_agent.Text.{Text, text}

-- gaudere::work::TaskStatus, whose enumerators src/TaskReport.cpp lists.
pub data TaskStatus : Type 0 where
  pending running cancel_requested succeeded failed cancelled manual_review : TaskStatus

pub record Task : Type 0 where
  pub id : Text
  pub idempotency_key : Text
  pub kind : Text
  pub status : TaskStatus
  pub input_content_type : Text
  pub input : Text
  -- task.limits
  pub max_output_bytes : ℕ
  pub max_runtime : ℕ

pub data HandlerOutcome : Type 0 where
  succeeded failed cancelled manual_review : HandlerOutcome

pub record HandlerResult : Type 0 where
  pub outcome : HandlerOutcome
  pub content_type : Text
  pub output : Text
  pub failure_code : Text
  pub failure_message : Text
  pub metadata_content_type : Text
  pub metadata : Text

-- The constructor with five arguments, the metadata left empty.
abbrev pub handler_result : HandlerOutcome → Text → Text → Text → Text → HandlerResult
handler_result outcome content_type output failure_code failure_message = record {
  outcome = outcome;
  content_type = content_type;
  output = output;
  failure_code = failure_code;
  failure_message = failure_message;
  metadata_content_type = text "";
  metadata = text "";
}
