-- ===== src/Jobs/Locks/Tests.antt =====
-- The locks of internal/jobs/manager.go in a run of the manager on one target.
use codex_queue_bot.Base.{◌≡◌, refl, none, Text, arith}
use codex_queue_bot.Jobs.Queue.{start_queue}
use codex_queue_bot.Jobs.Manager.{commit}
use codex_queue_bot.Jobs.System.{working}
use codex_queue_bot.Jobs.Locks.{LockStep}
use codex_queue_bot.Jobs.Locks.Refinement.{locks, Step-refines}
use codex_queue_bot.Jobs.Tests.{fresh, fresh-IsFresh, input, entry_in, worked, queued, queued-Reach}

-- The worker of the first run takes its target.
Step-refines_example :
    ((key : Text) → locks fresh.manager key ≡ none)
    × LockStep (locks queued.manager) (locks (worked queued).manager)
unfolding start_queue commit
Step-refines_example =
    Step-refines fresh queued (worked queued) fresh-IsFresh queued-Reach
      (working 0 input (entry_in queued) (omega arith) refl)
