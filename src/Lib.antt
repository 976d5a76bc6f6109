-- ===== src/Lib.antt =====
-- A model of codex-queue-bot: of the job manager, which queues runs of Codex on several targets, and
-- of the React console, which shows the manager's state and asks it to act.
--
-- The parts and how they meet. The manager (internal/jobs/manager.go) keeps, for each target, a queue
-- task, a keepalive task and an arbiter that says which run owns the target; goroutines carry out the
-- tasks, limited by a number of slots that they share. The web server (internal/web) hands requests of
-- the console to the manager. The console (frontend/src) is one page of three screens: setup, login,
-- and, behind the login, the dashboard and the configuration.
--
-- Jobs: internal/jobs/manager.go.
--   Jobs/State: the records `job`, `keepaliveJob`, `targetArbiter`, put together in one entry for each
--     target, since the four maps of `Manager` always have the same keys; `targetBusyLocked`,
--     `signalTargetLocked`, `releaseTargetLocked`.
--   Jobs/Queue, Jobs/Keepalive, Jobs/Adhoc: each section of code under the manager's lock as a function
--     from an entry to the changed entry, whether a broadcast follows, and which contexts are cancelled.
--   Jobs/Manager: `Manager`, `acquire`, `releaseSlot`, `finishProcess`, `finishAdhocRequest`, `stop`,
--     `prepareMode`, the snapshots and the broadcast to observers.
--   Jobs/Manager/Targets: `CreateTarget`, `UpdateTarget`, `DeleteTarget`, `UpdateSettings`,
--     `BeginShutdown` and the reservation of `RunAdhoc`. The database is the argument `persist`.
--     Targets/Order and Targets/Table treat the list of keys and the table, Targets/Changes the operations.
--   Jobs/Names: `normalizeName`, `containsAll`, `resolveLocked`; Go's table of lower case letters is an
--     argument.
--   Jobs/Worker: the goroutines `run`, `runKeepalive` and the request of `RunAdhoc` as a program counter
--     and a function `work` that takes one step; a step is one section under the lock or one return of
--     the runner. Jobs/System: the manager with all its workers; a step of the system is a step of any
--     worker, a section of any caller, or the end of a context, in any order.
--   Jobs/Invariant: what holds in each state reached. Flags says what a worker holds at each point, Local
--     and Effect what one step may do, Global the invariant over all workers and Move how one step
--     changes it, Reached and Capacity what
--     follows from it, and Stale what a worker does whose run is over. Jobs/Tests: a run of the manager
--     on one target.
--   Jobs/Locks: an abstract specification of the arbiters, one lock for each target, and Locks/Refinement
--     how the arbiters stand for it.
--   Jobs/Shutdown: the manager after `BeginShutdown` and the end of the contexts. Contexts says what stays
--     as it is, Rank counts the steps that a worker may still take, Drain the runs of the system from
--     there, and Ending how they end.
--
-- Web: internal/web.
--   Web/Sessions: the map of sessions in server.go, and each operation on it. Sessions/History is the
--     independent description: what was issued, dropped and revoked, by the list of the operations.
--   Web/Accounts: the handlers `login`, `setup`, `logout`, `getSession` (server.go) and `updateAccount`
--     (config_api.go), with `requireSession` in front. What the store answers, random tokens and the
--     cookies that come along are arguments. Accounts/Updating treats the branches of `updateAccount`,
--     Accounts/Guards what the handlers never do, Accounts/Exchanges who is let in by the requests and
--     responses alone, and Exchanges/Soundness compares the two.
--   Web/Actions: the handler `actions`, and Actions/Requested what it does with the requests that the
--     console's dashboard sends. Its starts of tasks are an argument, since they take several steps.
--   Web/ManualRuns: the handler `runAdhoc` up to the reservation of `RunAdhoc`, and ManualRuns/Outcomes its
--     answers as steps of the manager.
--   Web/Messages: `updateOpenILinkConfig` and `updateTelegramConfig` (config_api.go) up to the call of the
--     store, and the tokens that the two operations of the store
--     (internal/storage/storage.go) keep; the validation is an argument.
-- Chat: internal/commands/handler.go.
--   Chat/Commands: `NewAdapter`, `Handle`, `parseCommand`, `splitTargets`, `isAllowed`, `reply`. What a
--     command does and answers is an argument. Commands/Fields reads back commands as users write them,
--     Commands/Guard says who may command what, and by which names.
-- Console: frontend/src, and the routes of the server.
--   Console/Api: frontend/src/lib/api.ts. Api/Types has its types, Api/Calls the request that each
--     exported function sends, Api/Routes the routes of internal/web/server.go and `parseTargetID` of
--     internal/web/config_api.go. The number of a target is printed exactly, as JavaScript does below
--     2 ^ 53; the database counts its ids up from 1.
--   Console/Format: frontend/src/lib/utils.ts. Reading a date belongs to the browser and is an argument.
--   Console/Labels, Console/Lines, Console/Layout, Console/Dashboard, Console/Access: the parts of
--     frontend/src/App.tsx that label a state, edit lists as lines, frame a page, show the dashboard and
--     decide who sees the console. Dashboard/Selection and Dashboard/Requests treat what is selected and
--     what is sent.
--   Console/Settings: `ConfigurationPage` of App.tsx with `TargetEditor` and `SecretInput`.
--   Console/Adhoc: frontend/src/components/adhoc-run-dialog.tsx.
--   A page is a record of its `useState` values with the list of the requests sent, newest first. A
--   handler is cut at each `await`: one function for the part before, one for the part given the outcome.
--   An event is a use of a control or the arrival of an outcome; `step` leaves the page as it is where the
--   control is disabled or not shown, and `run` takes events in any order.
-- Base: the library's names, Boolean tests, lists, texts as lists of code points, decimal numbers, trim.
--
-- Bounds and fuel. Times, counters and numbers of runs are natural numbers without an upper bound: the
-- counters of the program are 64 bits wide and count single runs. Each definition is by structural
-- recursion, and the loops of the goroutines are steps of the system. `reply_from` of
-- Chat/Commands has fuel, the three attempts of the loop in `reply`; and so has `print_onto` of
-- Base/Decimal, one round more than the number printed, each of which divides it by ten.
--
-- Not modelled: the markup; the other handlers of the configuration and of targets, and the event
-- stream of the server; the database; the runner of Codex, whose result is an input of a step; the
-- notification of subscribers; the texts that chat commands answer with; the OpenILink and Telegram
-- clients; the settings and the list of targets do not change during a run of the system.
pub mod Base
pub mod Console
pub mod Jobs
pub mod Web
pub mod Chat
