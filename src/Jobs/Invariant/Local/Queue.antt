-- ===== src/Jobs/Invariant/Local/Queue.antt =====
-- internal/jobs/manager.go: the steps of `run`, as local steps.
use codex_queue_bot.Base.{◌≡◌, refl, inl, inr, false, Bool-cases, Option-cases, arith}
use codex_queue_bot.Jobs.State.{queue, Entry, RunResult, release_target}
use codex_queue_bot.Jobs.Queue.{
  acquire_target, begin_attempt, mark_failure, mark_success, mark_queue_cancelled,
  finish_queue_worker,
}
use codex_queue_bot.Jobs.Manager.{Manager, take_slot}
use codex_queue_bot.Jobs.Worker.{
  Run, Pc, Input, work, seek_target, seek_slot, slot_held, attempting, attempted, drop_slot,
  drop_target, queue_cancelled, queue_cancelled_owning, queue_leaving, context_done,
}
use codex_queue_bot.Jobs.Invariant.Flags.{kind_at}
use codex_queue_bot.Jobs.Invariant.Local.{Before, Stepped}
use codex_queue_bot.Jobs.Invariant.Local.Counts.{
  commit-ManagerStep, same-ManagerStep, release_slot-ManagerStep, finish_process-ManagerStep,
  take_slot-ManagerStep, count_process-ManagerStep,
}

module _ (input : Input) (run : Run) (m : Manager) (e : Entry) where
  seek_target-LocalStep : Before run m e seek_target → Stepped input run m e seek_target
  unfolding work acquire_target
  seek_target-LocalStep b = record {
    after = (acquire_target run.run_id e).0.entry;
    entry_step = ground arith;
    manager_step = commit-ManagerStep run m e _ _ _ (ground arith) (ground arith);
  }

  seek_slot-LocalStep : Before run m e seek_slot → Stepped input run m e seek_slot
  unfolding work
  seek_slot-LocalStep b = elim (Option-cases (take_slot m)) [
    | inl full ↦ rw full (record {
      after = e;
      entry_step = ground arith;
      manager_step = same-ManagerStep run m e _ _ b.entry (ground arith) (ground arith);
    })
    | inr (m', taken) ↦ rw taken (record {
      after = e;
      entry_step = ground arith;
      manager_step = take_slot-ManagerStep run m e _ _ m' taken b.entry refl refl refl;
    })
  ]

  slot_held-LocalStep : Before run m e slot_held → Stepped input run m e slot_held
  unfolding work begin_attempt
  slot_held-LocalStep b = elim (Option-cases (begin_attempt run.run_id input.now e).1) [
    | inl over ↦ rw over (record {
      after = (begin_attempt run.run_id input.now e).0.entry;
      entry_step = ground arith;
      manager_step = commit-ManagerStep run m e _ _ _ refl refl;
    })
    | inr (attempt, on) ↦ rw on (record {
      after = (begin_attempt run.run_id input.now e).0.entry;
      entry_step = ground arith;
      manager_step = count_process-ManagerStep run m e _ _ _ refl refl refl;
    })
  ]

  attempting-LocalStep : Before run m e attempting → Stepped input run m e attempting
  unfolding work
  attempting-LocalStep b = record {
    after = e;
    entry_step = ground arith;
    manager_step =
        finish_process-ManagerStep run m e _ _ b.entry refl refl refl refl b.slot_counted
          b.process_counted;
  }

  failed-LocalStep :
      (result : RunResult)
      → Before run m e (attempted result)
      → result.success ≡ false
      → Stepped input run m e (attempted result)
  unfolding work mark_failure
  failed-LocalStep result b failed = elim (Bool-cases (context_done m run)) [
    | inl done ↦
        rw (failed, done)
          (record {
            after = e;
            entry_step = ground arith;
            manager_step = same-ManagerStep run m e _ _ b.entry refl refl;
          })
    | inr running_on ↦
        rw (failed, running_on)
          (record {
            after = (mark_failure run.run_id (input.sanitize e.target result.error) e).0.entry;
            entry_step = ground arith;
            manager_step = commit-ManagerStep run m e _ _ _ (ground arith) (ground arith);
          })
  ]

  attempted-LocalStep :
      (result : RunResult)
      → Before run m e (attempted result)
      → Stepped input run m e (attempted result)
  unfolding work mark_success
  attempted-LocalStep result b = elim (Bool-cases result.success) [
    | inl done ↦ rw done (record {
      after = (mark_success run.run_id input.now e).0.entry;
      entry_step = ground arith;
      manager_step = commit-ManagerStep run m e _ _ _ refl refl;
    })
    | inr failed ↦ failed-LocalStep result b failed
  ]

  drop_slot-LocalStep : Before run m e drop_slot → Stepped input run m e drop_slot
  unfolding work
  drop_slot-LocalStep b = record {
    after = e;
    entry_step = ground arith;
    manager_step = release_slot-ManagerStep run m e _ _ b.entry refl refl refl b.slot_counted;
  }

  drop_target-LocalStep : Before run m e drop_target → Stepped input run m e drop_target
  unfolding work
  drop_target-LocalStep b = record {
    after = release_target queue run.run_id e;
    entry_step = ground arith;
    manager_step = commit-ManagerStep run m e _ _ _ refl refl;
  }

  queue_cancelled-LocalStep : Before run m e queue_cancelled → Stepped input run m e queue_cancelled
  unfolding work mark_queue_cancelled
  queue_cancelled-LocalStep b = record {
    after = (mark_queue_cancelled run.run_id input.now e).entry;
    entry_step = ground arith;
    manager_step = commit-ManagerStep run m e _ _ _ refl refl;
  }

  queue_cancelled_owning-LocalStep :
      Before run m e queue_cancelled_owning → Stepped input run m e queue_cancelled_owning
  unfolding work mark_queue_cancelled
  queue_cancelled_owning-LocalStep b = record {
    after = (mark_queue_cancelled run.run_id input.now e).entry;
    entry_step = ground arith;
    manager_step = commit-ManagerStep run m e _ _ _ refl refl;
  }

  queue_leaving-LocalStep : Before run m e queue_leaving → Stepped input run m e queue_leaving
  unfolding work finish_queue_worker
  queue_leaving-LocalStep b = record {
    after = (finish_queue_worker e).entry;
    entry_step = ground arith;
    manager_step = commit-ManagerStep run m e _ _ _ refl refl;
  }

  pub run-LocalStep : (pc : Pc) → Before run m e pc → kind_at pc ≡ queue → Stepped input run m e pc
  run-LocalStep seek_target b h = seek_target-LocalStep b
  run-LocalStep seek_slot b h = seek_slot-LocalStep b
  run-LocalStep slot_held b h = slot_held-LocalStep b
  run-LocalStep attempting b h = attempting-LocalStep b
  run-LocalStep (attempted result) b h = attempted-LocalStep result b
  run-LocalStep drop_slot b h = drop_slot-LocalStep b
  run-LocalStep drop_target b h = drop_target-LocalStep b
  run-LocalStep queue_cancelled b h = queue_cancelled-LocalStep b
  run-LocalStep queue_cancelled_owning b h = queue_cancelled_owning-LocalStep b
  run-LocalStep queue_leaving b h = queue_leaving-LocalStep b
  run-LocalStep _ b h = cc
