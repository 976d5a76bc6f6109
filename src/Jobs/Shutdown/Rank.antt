-- ===== src/Jobs/Shutdown/Rank.antt =====
-- internal/jobs/manager.go: how far a worker whose context is done is from its end.
use codex_queue_bot.Base.{ℕ, ◌≤◌, ◌<◌, ◌≡◌, inl, inr, true, false, arith, Option-cases}
use codex_queue_bot.Jobs.State.{Entry}
use codex_queue_bot.Jobs.Queue.{acquire_target, begin_attempt}
use codex_queue_bot.Jobs.Keepalive.{claim_request, check_request, next_turn}
use codex_queue_bot.Jobs.Manager.{Manager, take_slot}
use codex_queue_bot.Jobs.Worker.{
  Run, Pc, Input, work, context_done, seek_target, seek_slot, slot_held, attempting, attempted,
  drop_slot, drop_target, queue_cancelled, queue_cancelled_owning, queue_leaving, checking,
  keepalive_waiting, keepalive_seek_slot, claiming, back_off, give_up_slot, requested, resting,
  keepalive_cancelled, keepalive_cancelled_owning, keepalive_leaving, adhoc_seek_slot,
  adhoc_slot_held, adhoc_claiming, prompting, adhoc_leaving, gone,
}
use codex_queue_bot.Jobs.Invariant.Flags.{is_live}

-- How many steps a worker takes at most, if its waits end by its context.
abbrev pub rank : Pc → ℕ
rank seek_target = 8
rank seek_slot = 7
rank slot_held = 6
rank attempting = 5
rank (attempted _) = 4
rank drop_slot = 3
rank drop_target = 2
rank queue_cancelled = 2
rank queue_cancelled_owning = 2
rank queue_leaving = 1
rank checking = 8
rank keepalive_waiting = 4
rank keepalive_seek_slot = 7
rank claiming = 6
rank back_off = 5
rank give_up_slot = 3
rank Pc.requesting = 5
rank (requested _) = 4
rank resting = 9
rank keepalive_cancelled = 2
rank keepalive_cancelled_owning = 2
rank keepalive_leaving = 1
rank adhoc_seek_slot = 5
rank adhoc_slot_held = 4
rank adhoc_claiming = 3
rank prompting = 2
rank (adhoc_leaving _ _) = 1
rank gone = 0

pub rank_bound : (pc : Pc) → rank pc ≤ 9
rank_bound pc = ground arith

pub rank_live : (pc : Pc) → is_live pc ≡ true → 0 < rank pc
rank_live pc h = ground arith

pub rank_gone : (pc : Pc) → is_live pc ≡ false → rank pc ≡ 0
rank_gone pc h = ground arith

module _ (input : Input) (m : Manager) (run : Run) (e : Entry) (done : context_done m run ≡ true)
    (slept : input.woken ≡ false) where
  -- Each step of a worker whose context is done brings it closer to its end.
  pub work-rank : (pc : Pc) → is_live pc ≡ true → rank (work input m run e pc).1 < rank pc
  unfolding work acquire_target begin_attempt claim_request check_request next_turn
  work-rank seek_target live = ground arith
  work-rank seek_slot live = elim (Option-cases (take_slot m)) [
    | inl full ↦ rw (full, done, slept) (omega arith)
    | inr (m', h) ↦ rw h (omega arith)
  ]
  work-rank slot_held live = ground arith
  work-rank attempting live = ground arith
  work-rank (attempted result) live = ground arith
  work-rank drop_slot live = ground arith
  work-rank drop_target live = ground arith
  work-rank queue_cancelled live = ground arith
  work-rank queue_cancelled_owning live = ground arith
  work-rank queue_leaving live = ground arith
  work-rank checking live = ground arith
  work-rank keepalive_waiting live = ground arith
  work-rank keepalive_seek_slot live = elim (Option-cases (take_slot m)) [
    | inl full ↦ rw (full, done, slept) (omega arith)
    | inr (m', h) ↦ rw h (omega arith)
  ]
  work-rank claiming live = ground arith
  work-rank back_off live = ground arith
  work-rank give_up_slot live = ground arith
  work-rank Pc.requesting live = ground arith
  work-rank (requested result) live = ground arith
  work-rank resting live = ground arith
  work-rank keepalive_cancelled live = ground arith
  work-rank keepalive_cancelled_owning live = ground arith
  work-rank keepalive_leaving live = ground arith
  work-rank adhoc_seek_slot live = elim (Option-cases (take_slot m)) [
    | inl full ↦ rw (full, done, slept) (omega arith)
    | inr (m', h) ↦ rw h (omega arith)
  ]
  work-rank adhoc_slot_held live = ground arith
  work-rank adhoc_claiming live = ground arith
  work-rank prompting live = ground arith
  work-rank (adhoc_leaving slot process) live = ground arith
  work-rank gone live = ground arith
