-- ===== src/Work.antt =====
-- The bounded-work pipeline: tasks, handlers, the executor (src/TaskExecutor.cpp),
-- the dispatcher (src/TaskDispatcher.cpp) and the controller (src/WorkController.cpp).
pub mod Task
pub mod Runtime
pub mod Executor
pub mod Dispatcher
pub mod Controller
mod Examples
