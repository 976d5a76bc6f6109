-- ===== src/Jobs/Shutdown/Tests.antt =====
-- internal/jobs/manager.go: a shutdown while the first run is at its Codex process.
use codex_queue_bot.Base.{ℕ, ◌*◌, ◌≤◌, ◌≡◌, refl, true, arith}
use codex_queue_bot.Jobs.Queue.{start_queue, acquire_target, begin_attempt}
use codex_queue_bot.Jobs.Manager.{commit, take_slot}
use codex_queue_bot.Jobs.Manager.Targets.{begin_shutdown}
use codex_queue_bot.Jobs.Worker.{work}
use codex_queue_bot.Jobs.System.{System, Reach, more, shutting_down, cancelling}
use codex_queue_bot.Jobs.Shutdown.Drain.{IsClosing, Drains, drained, worked, steps_of}
use codex_queue_bot.Jobs.Shutdown.Ending.{AllGone, live_workers, drains-le, shutdown_ends}
use codex_queue_bot.Jobs.Tests.{
  fresh, fresh-IsFresh, input, entry_in, worked as after_step, attempting_system, attempting-Reach,
}

abbrev refusing_system : System
refusing_system = record attempting_system { manager = begin_shutdown attempting_system.manager }

abbrev closing_system : System
closing_system = record refusing_system {
  manager = record refusing_system.manager { root_done = true };
}

closing-Reach : Reach fresh closing_system
closing-Reach =
    more (more attempting-Reach shutting_down)
      (cancelling true refusing_system.manager.cancelled (λ h. refl) (λ context h. h))

ending-IsClosing : IsClosing closing_system
unfolding begin_shutdown start_queue commit work acquire_target take_slot begin_attempt
ending-IsClosing = record { refusing = refl; done = λ i less live. refl }

shutdown_ends_example :
    (n : ℕ) × (u : System) × (d : Drains closing_system n u) × ((j : ℕ) → steps_of j d ≤ 9)
    × (n ≤ 9 * closing_system.spawned)
    × AllGone u
    × (u.manager.slots_in_use ≡ 0)
    × (u.manager.current_processes ≡ 0)
shutdown_ends_example =
    shutdown_ends fresh closing_system fresh-IsFresh closing-Reach ending-IsClosing

one_step : Drains closing_system 1 (after_step closing_system)
unfolding begin_shutdown start_queue commit work acquire_target take_slot begin_attempt
one_step = worked 0 input (entry_in closing_system) (omega arith) refl refl refl drained

drains-le_example : ((j : ℕ) → steps_of j one_step ≤ 9) × (1 ≤ 9 * live_workers closing_system)
drains-le_example = drains-le one_step ending-IsClosing
