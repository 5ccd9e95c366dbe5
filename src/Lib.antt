-- ===== src/Lib.antt =====
-- Gaudere Agent: a bounded, local agent that works tasks off a durable queue, calls an outside provider at
-- most under a budget, observes its own continuity at a slow pulse, takes commands over a local socket,
-- and answers dialogues on leases that a person grants. This library models its core and proves what it
-- is relied on for.
--
-- The parts, and the files that model them:
-- - Work: one task at a time (src/TaskExecutor.hpp, src/TaskExecutor.cpp, src/TaskDispatcher.cpp). Work/Task.antt has the task
--   fields and HandlerResult, Work/Executor.antt is TaskExecutor::execute, with one function for each
--   block of it, Work/Dispatcher.antt is TaskDispatcher, which finds a pending task and hands it and the
--   registered handler to the executor. The work runtime and the task store belong to the Gaudere library: Work/Runtime.antt
--   holds their operations as a record, with laws for what the executor relies on. Work/Controller.antt is
--   WorkController (src/WorkController.hpp, src/WorkController.cpp): its flags, and wait_and_run with the loop that
--   drains pending work through the dispatcher, on fuel; Work/Controller/Drain.antt says how much is enough.
-- - Provider: the handler that makes the outbound call (src/Provider.hpp, src/ProviderTaskHandler.cpp).
--   Provider/Handler.antt is ProviderTaskHandler::execute, Provider/Api.antt the operations that it calls:
--   the action runtime and store, the budget store, its clock and the provider. Provider/Once.antt and
--   Provider/AtMostOnce.antt hold its invariant, Provider/History.antt its sequences of executions. It
--   is one of the handlers that the executor runs.
-- - Pulse: the durable cursor of the local activity pulse (src/LocalActivityPulseStore.hpp,
--   src/LocalActivityPulseStore.cpp). Pulse/Cursor.antt is valid_local_activity_pulse_cursor,
--   Pulse/Transition.antt valid_local_activity_pulse_transition, Pulse/Store.antt the sidecar's seed, find and
--   replace, Pulse/Deadline.antt the deadline that the scheduler bridge derives from the cursor
--   (src/LocalActivityPulseSchedulerBridge.cpp). Pulse/Steps.antt and Pulse/Runs.antt speak of replacements and their sequences,
--   Pulse/Store/ of the store under faults.
-- - Control: the commands of the local control socket (src/LiveControl.hpp, src/LiveControl.cpp).
--   Control/Command.antt has the operations and their names, Control/Validate.antt validate_command and the
--   sequence texts.
-- - Responder: leases, intents and dispositions of the dialogue responder
--   (src/LocalGooseDialogueResponder.hpp, src/LocalGooseDialogueResponder.cpp), in files of these names;
--   Responder/Canonical.antt has the texts that their identities are hashed from.
-- - Sidecar: what the two SQLite stores below share. Sidecar.antt has the transaction, under a fault before or
--   after its COMMIT, and statements that may throw; Sidecar/Rows.antt the SELECT, INSERT and UPDATE of a table.
-- - Thread: the preferred heads of dialogue threads and their history (src/LocalGooseDialogueThreadStore.hpp,
--   src/LocalGooseDialogueThreadStore.cpp), in Thread.antt: seed, replace, find, history_from and
--   the migration of a version 1 sidecar. Thread/Lineage.antt
--   and Thread/Life.antt speak of sequences of calls, Thread/Record.antt of what the history records, and
--   Thread/Paging.antt of what history_from reads of it.
-- - Responder/Store: the durable ledger of the responder (src/LocalGooseDialogueResponderStore.hpp,
--   src/LocalGooseDialogueResponderStore.cpp). Responder/Rows.antt has a row with its index columns as it is read,
--   Responder/Store.antt the tables and the reads and updates of one row,
--   Responder/Store/Leases.antt, Intents.antt, Submission.antt, Dispositions.antt and Reconcile.antt the eleven
--   operations that write. Change.antt
--   says what a call may do to the tables, the files named Steps which change each operation makes, and Account.antt,
--   Uniqueness.antt and Stored.antt what every change keeps; Life.antt holds the sequences of calls, Reads.antt what a read answers
--   among them.
-- - Authority: grants and decisions of the person behind the responder
--   (src/LocalGooseDialogueResponderAuthority.hpp, src/LocalGooseDialogueResponderAuthority.cpp): Authority/Grant.antt and
--   Authority/Decision.antt the records, the files named Identity what their ids cover, Authority/Window.antt the window of a grant.
-- - Sha256: the digest that identities are made of (src/Sha256.hpp, src/Sha256.cpp), in Sha256.antt, on words with
--   their wrap-around written out. Each of its loops runs on its count; the loop over the blocks has the length of the
--   padded text as fuel, and the zeros of the padding 64 rounds.
-- - Report: the quoted texts of a task report (src/TaskReport.cpp), in Report.antt.
--
-- Conventions. A std::string is a list of bytes as numbers (Text.antt). std::int64_t is ℤ of
-- Prelude/Int.antt and std::uint64_t ℕ, without wrap-around where the code's guards exclude it and with
-- `% 2 ^ 64` in the loop of positive_sequence_text, which relies on its guard. An enum class is a data type
-- of its enumerators; values outside them are not modelled. C++ exceptions are values of Result
-- (Effects.antt), and what was changed before a throw stays changed. A log of events beside the world
-- (Effects/Logged.antt) is read by the theorems alone; it records the calls of a parameter by what they returned. Digits of numbers are printed with as much fuel as the
-- number, which is enough because each division by ten makes a positive number smaller
-- (read-to_string of Responder/Canonical.antt).
--
-- What stands for code that is not in the repository: the Gaudere library behind Runtime and Api, with
-- `Laws` for its documented effects; SQLite, as a partial map or a list of rows with
-- failures before and after the COMMIT; a table keeps the records that its rows are bound from, and a UNIQUE
-- constraint is a test of the other rows. The scheduler's clock is a parameter where the pulse makes a time point of
-- milliseconds, and its wait may block for ever, which gives no result.
-- Where the responder hashes, sha256_hex is
-- a parameter; its model in Sha256.antt has the form that is assumed of it there (Sha256/Laws.antt).
--
-- Not modelled: the JSON codec, the sockets and the mailbox of the control protocol and its processor
-- (src/LiveControlProcessor.cpp), the observation of the pulse (src/LocalActivityPulse.cpp), the opening of
-- the stores with their schema checks and the JSON of their documents, the lists of intents and dispositions by
-- state, the dispatcher of the responder, the store and the service of
-- its authority, the completion feed, the Goose
-- cycle, the cognition and continuity documents, the OpenAI provider and its transport, and the
-- executables, scripts and tests. They are I/O, or components of their own that build on these.
pub mod Prelude
pub mod Text
pub mod Effects
pub mod Work
pub mod Provider
pub mod Control
pub mod Sidecar
pub mod Sha256
pub mod Pulse
pub mod Responder
pub mod Authority
pub mod Thread
pub mod Report
