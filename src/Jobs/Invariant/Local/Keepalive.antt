-- ===== src/Jobs/Invariant/Local/Keepalive.antt =====
-- internal/jobs/manager.go: the steps of `runKeepalive`, as local steps.
use codex_queue_bot.Base.{◌≡◌, refl, ◌⊎◌, inl, inr, Bool-cases, Option-cases, arith}
use codex_queue_bot.Jobs.State.{keepalive, Entry, RunResult}
use codex_queue_bot.Jobs.Keepalive.{
  Turn, give_up, wait_change, go_ahead, check_request, claim_request, finish_request,
  mark_keepalive_cancelled, finish_keepalive_worker, next_turn,
}
use codex_queue_bot.Jobs.Manager.{Manager, take_slot}
use codex_queue_bot.Jobs.Worker.{
  Run, Pc, Input, work, checking, keepalive_waiting, keepalive_seek_slot, claiming, back_off,
  give_up_slot, requesting, requested, resting, keepalive_cancelled, keepalive_cancelled_owning,
  keepalive_leaving, context_done,
}
use codex_queue_bot.Jobs.Invariant.Flags.{kind_at}
use codex_queue_bot.Jobs.Invariant.Local.{Before, Stepped}
use codex_queue_bot.Jobs.Invariant.Local.Counts.{
  commit-ManagerStep, same-ManagerStep, release_slot-ManagerStep, finish_process-ManagerStep,
  take_slot-ManagerStep, count_process-ManagerStep,
}

pub Turn-cases : (turn : Turn) → (turn ≡ go_ahead) ⊎ ((turn ≡ give_up) ⊎ (turn ≡ wait_change))
Turn-cases go_ahead = inl refl
Turn-cases give_up = inr (inl refl)
Turn-cases wait_change = inr (inr refl)

module _ (input : Input) (run : Run) (m : Manager) (e : Entry) where
  checking-LocalStep : Before run m e checking → Stepped input run m e checking
  unfolding work check_request
  checking-LocalStep b = record {
    after = (check_request run.run_id e).0.entry;
    entry_step = ground arith;
    manager_step = commit-ManagerStep run m e _ _ _ (ground arith) (ground arith);
  }

  keepalive_waiting-LocalStep :
      Before run m e keepalive_waiting → Stepped input run m e keepalive_waiting
  unfolding work
  keepalive_waiting-LocalStep b = record {
    after = e;
    entry_step = ground arith;
    manager_step = same-ManagerStep run m e _ _ b.entry (ground arith) (ground arith);
  }

  keepalive_seek_slot-LocalStep :
      Before run m e keepalive_seek_slot → Stepped input run m e keepalive_seek_slot
  unfolding work
  keepalive_seek_slot-LocalStep b = elim (Option-cases (take_slot m)) [
    | inl full ↦ rw full (record {
      after = e;
      entry_step = ground arith;
      manager_step = same-ManagerStep run m e _ _ b.entry (ground arith) (ground arith);
    })
    | inr (m', taken) ↦ rw taken (record {
      after = e;
      entry_step = ground arith;
      manager_step = take_slot-ManagerStep run m e _ _ m' taken b.entry refl refl refl;
    })
  ]

  claiming-LocalStep : Before run m e claiming → Stepped input run m e claiming
  unfolding work claim_request
  claiming-LocalStep b = elim (Turn-cases (claim_request run.run_id input.now e).1) [
    | inl ahead ↦ rw ahead (record {
      after = (claim_request run.run_id input.now e).0.entry;
      entry_step = ground arith;
      manager_step = count_process-ManagerStep run m e _ _ _ refl refl refl;
    })
    | inr (inl over) ↦ rw over (record {
      after = (claim_request run.run_id input.now e).0.entry;
      entry_step = ground arith;
      manager_step = commit-ManagerStep run m e _ _ _ refl refl;
    })
    | inr (inr taken) ↦ rw taken (record {
      after = (claim_request run.run_id input.now e).0.entry;
      entry_step = ground arith;
      manager_step = commit-ManagerStep run m e _ _ _ refl refl;
    })
  ]

  back_off-LocalStep : Before run m e back_off → Stepped input run m e back_off
  unfolding work
  back_off-LocalStep b = record {
    after = e;
    entry_step = ground arith;
    manager_step = release_slot-ManagerStep run m e _ _ b.entry refl refl refl b.slot_counted;
  }

  give_up_slot-LocalStep : Before run m e give_up_slot → Stepped input run m e give_up_slot
  unfolding work
  give_up_slot-LocalStep b = record {
    after = e;
    entry_step = ground arith;
    manager_step = release_slot-ManagerStep run m e _ _ b.entry refl refl refl b.slot_counted;
  }

  requesting-LocalStep : Before run m e requesting → Stepped input run m e requesting
  unfolding work
  requesting-LocalStep b = record {
    after = e;
    entry_step = ground arith;
    manager_step =
        finish_process-ManagerStep run m e _ _ b.entry refl refl refl refl b.slot_counted
          b.process_counted;
  }

  requested-LocalStep :
      (result : RunResult)
      → Before run m e (requested result)
      → Stepped input run m e (requested result)
  unfolding work finish_request
  requested-LocalStep result b = elim (Bool-cases (context_done m run)) [
    | inl done ↦ rw done (record {
      after = e;
      entry_step = ground arith;
      manager_step = same-ManagerStep run m e _ _ b.entry refl refl;
    })
    | inr running_on ↦ rw running_on (record {
      after =
          (finish_request run.run_id input.now input.delay result.success
            (input.sanitize e.target result.error) e).0.entry;
      entry_step = ground arith;
      manager_step = commit-ManagerStep run m e _ _ _ (ground arith) (ground arith);
    })
  ]

  resting-LocalStep : Before run m e resting → Stepped input run m e resting
  unfolding work next_turn
  resting-LocalStep b = record {
    after = e;
    entry_step = ground arith;
    manager_step = same-ManagerStep run m e _ _ b.entry (ground arith) (ground arith);
  }

  keepalive_cancelled-LocalStep :
      Before run m e keepalive_cancelled → Stepped input run m e keepalive_cancelled
  unfolding work mark_keepalive_cancelled
  keepalive_cancelled-LocalStep b = record {
    after = (mark_keepalive_cancelled run.run_id input.now e).entry;
    entry_step = ground arith;
    manager_step = commit-ManagerStep run m e _ _ _ refl refl;
  }

  keepalive_cancelled_owning-LocalStep :
      Before run m e keepalive_cancelled_owning → Stepped input run m e keepalive_cancelled_owning
  unfolding work mark_keepalive_cancelled
  keepalive_cancelled_owning-LocalStep b = record {
    after = (mark_keepalive_cancelled run.run_id input.now e).entry;
    entry_step = ground arith;
    manager_step = commit-ManagerStep run m e _ _ _ refl refl;
  }

  keepalive_leaving-LocalStep :
      Before run m e keepalive_leaving → Stepped input run m e keepalive_leaving
  unfolding work finish_keepalive_worker
  keepalive_leaving-LocalStep b = record {
    after = (finish_keepalive_worker e).entry;
    entry_step = ground arith;
    manager_step = commit-ManagerStep run m e _ _ _ refl refl;
  }

  pub run_keepalive-LocalStep :
      (pc : Pc) → Before run m e pc → kind_at pc ≡ keepalive → Stepped input run m e pc
  run_keepalive-LocalStep checking b h = checking-LocalStep b
  run_keepalive-LocalStep keepalive_waiting b h = keepalive_waiting-LocalStep b
  run_keepalive-LocalStep keepalive_seek_slot b h = keepalive_seek_slot-LocalStep b
  run_keepalive-LocalStep claiming b h = claiming-LocalStep b
  run_keepalive-LocalStep back_off b h = back_off-LocalStep b
  run_keepalive-LocalStep give_up_slot b h = give_up_slot-LocalStep b
  run_keepalive-LocalStep requesting b h = requesting-LocalStep b
  run_keepalive-LocalStep (requested result) b h = requested-LocalStep result b
  run_keepalive-LocalStep resting b h = resting-LocalStep b
  run_keepalive-LocalStep keepalive_cancelled b h = keepalive_cancelled-LocalStep b
  run_keepalive-LocalStep keepalive_cancelled_owning b h = keepalive_cancelled_owning-LocalStep b
  run_keepalive-LocalStep keepalive_leaving b h = keepalive_leaving-LocalStep b
  run_keepalive-LocalStep _ b h = cc
