-- ===== src/Jobs/Invariant/Flags.antt =====
-- What a worker of internal/jobs/manager.go holds at each point of its code.
use codex_queue_bot.Base.{ℕ, Bool, true, false, not, ◌&&◌, ◌==◌, if◌then◌else◌}
use codex_queue_bot.Jobs.State.{
  Owner, nobody, queue, keepalive, adhoc, Entry, is_running, is_stopped, queue_active,
  keepalive_active, KeepaliveState, waiting_queue,
}
use codex_queue_bot.Jobs.Worker.{
  Pc, seek_target, seek_slot, slot_held, attempting, attempted, drop_slot, drop_target,
  queue_cancelled, queue_cancelled_owning, queue_leaving, claiming, back_off, give_up_slot,
  requesting, requested, keepalive_cancelled_owning, keepalive_leaving, adhoc_seek_slot,
  adhoc_slot_held, adhoc_claiming, prompting, adhoc_leaving, gone,
}

abbrev pub one_if : Bool → ℕ
one_if b = if b then 1 else 0

-- A Codex process runs on behalf of the worker.
abbrev pub has_process : Pc → Bool
has_process attempting = true
has_process requesting = true
has_process prompting = true
has_process (adhoc_leaving _ process) = process
has_process _ = false

-- The worker holds one of the slots.
abbrev pub has_slot : Pc → Bool
has_slot slot_held = true
has_slot attempting = true
has_slot drop_slot = true
has_slot claiming = true
has_slot back_off = true
has_slot give_up_slot = true
has_slot requesting = true
has_slot adhoc_slot_held = true
has_slot adhoc_claiming = true
has_slot prompting = true
has_slot (adhoc_leaving slot _) = slot
has_slot _ = false

-- The worker owns its target.
abbrev pub owns : Pc → Bool
owns seek_slot = true
owns slot_held = true
owns attempting = true
owns (attempted _) = true
owns drop_slot = true
owns drop_target = true
owns queue_cancelled_owning = true
owns requesting = true
owns (requested _) = true
owns keepalive_cancelled_owning = true
owns adhoc_seek_slot = true
owns adhoc_slot_held = true
owns adhoc_claiming = true
owns prompting = true
owns (adhoc_leaving _ _) = true
owns _ = false

-- The kind of run whose code has this point; `nobody` for a worker that is gone.
abbrev pub kind_at : Pc → Owner
kind_at seek_target = queue
kind_at seek_slot = queue
kind_at slot_held = queue
kind_at attempting = queue
kind_at (attempted _) = queue
kind_at drop_slot = queue
kind_at drop_target = queue
kind_at queue_cancelled = queue
kind_at queue_cancelled_owning = queue
kind_at queue_leaving = queue
kind_at adhoc_seek_slot = adhoc
kind_at adhoc_slot_held = adhoc
kind_at adhoc_claiming = adhoc
kind_at prompting = adhoc
kind_at (adhoc_leaving _ _) = adhoc
kind_at gone = nobody
kind_at _ = keepalive

-- The points after which the run is over, whoever ended it.
abbrev pub is_past : Pc → Bool
is_past drop_slot = true
is_past drop_target = true
is_past queue_leaving = true
is_past keepalive_leaving = true
is_past _ = false

abbrev pub is_live : Pc → Bool
is_live gone = false
is_live _ = true

abbrev pub queue_worker : Pc → ℕ
queue_worker pc = elim (kind_at pc) [ queue ↦ 1 | _ ↦ 0 ]

abbrev pub keepalive_worker : Pc → ℕ
keepalive_worker pc = elim (kind_at pc) [ keepalive ↦ 1 | _ ↦ 0 ]

-- The run of this kind and number is the one that is on.
abbrev pub is_on : Owner → ℕ → Entry → Bool
is_on queue run_id e = e.job.run_id == run_id && is_running e.job.state
is_on keepalive run_id e = e.keepalive.run_id == run_id && not (is_stopped e.keepalive.state)
is_on _ run_id e = false

abbrev waits_for_queue : KeepaliveState → Bool
waits_for_queue waiting_queue = true
waits_for_queue _ = false

-- Queue and keepalive are never both active on a target, and keepalive never waits for a queue.
abbrev pub one_mode : Entry → Bool
one_mode e = not (queue_active e && keepalive_active e) && not (waits_for_queue e.keepalive.state)
