-- ===== src/Jobs/Invariant/Local/Adhoc.antt =====
-- internal/jobs/manager.go: the steps of `RunAdhoc` after its reservation, as local steps.
use codex_queue_bot.Base.{◌≡◌, refl, inl, inr, Bool, Bool-cases, Option-cases, arith}
use codex_queue_bot.Jobs.State.{adhoc, Entry}
use codex_queue_bot.Jobs.Adhoc.{reservation_lost, finish_adhoc}
use codex_queue_bot.Jobs.Manager.{Manager, take_slot}
use codex_queue_bot.Jobs.Worker.{
  Run, Pc, Input, work, adhoc_seek_slot, adhoc_slot_held, adhoc_claiming, prompting, adhoc_leaving,
}
use codex_queue_bot.Jobs.Invariant.Flags.{kind_at}
use codex_queue_bot.Jobs.Invariant.Local.{Before, Stepped}
use codex_queue_bot.Jobs.Invariant.Local.Counts.{
  same-ManagerStep, take_slot-ManagerStep, count_process_only-ManagerStep, give_back-ManagerStep,
}

module _ (input : Input) (run : Run) (m : Manager) (e : Entry) where
  adhoc_seek_slot-LocalStep : Before run m e adhoc_seek_slot → Stepped input run m e adhoc_seek_slot
  unfolding work
  adhoc_seek_slot-LocalStep b = elim (Option-cases (take_slot m)) [
    | inl full ↦ rw full (record {
      after = e;
      entry_step = ground arith;
      manager_step = same-ManagerStep run m e _ _ b.entry (ground arith) (ground arith);
    })
    | inr (m', taken) ↦ rw taken (record {
      after = e;
      entry_step = ground arith;
      manager_step = take_slot-ManagerStep run m e _ _ m' taken b.entry refl refl refl;
    })
  ]

  adhoc_slot_held-LocalStep : Before run m e adhoc_slot_held → Stepped input run m e adhoc_slot_held
  unfolding work
  adhoc_slot_held-LocalStep b = record {
    after = e;
    entry_step = ground arith;
    manager_step = same-ManagerStep run m e _ _ b.entry (ground arith) (ground arith);
  }

  adhoc_claiming-LocalStep : Before run m e adhoc_claiming → Stepped input run m e adhoc_claiming
  unfolding work reservation_lost
  adhoc_claiming-LocalStep b = elim (Bool-cases (reservation_lost run.run_id e)) [
    | inl lost ↦ rw lost (record {
      after = e;
      entry_step = ground arith;
      manager_step = same-ManagerStep run m e _ _ b.entry refl refl;
    })
    | inr held ↦ rw held (record {
      after = e;
      entry_step = ground arith;
      manager_step = count_process_only-ManagerStep run m e _ _ b.entry refl refl refl;
    })
  ]

  prompting-LocalStep : Before run m e prompting → Stepped input run m e prompting
  unfolding work
  prompting-LocalStep b = record {
    after = e;
    entry_step = ground arith;
    manager_step = same-ManagerStep run m e _ _ b.entry refl refl;
  }

  adhoc_leaving-LocalStep :
      (slot process : Bool)
      → Before run m e (adhoc_leaving slot process)
      → Stepped input run m e (adhoc_leaving slot process)
  unfolding work finish_adhoc
  adhoc_leaving-LocalStep slot process b = record {
    after = (finish_adhoc run.run_id e).entry;
    entry_step = ground arith;
    manager_step = give_back-ManagerStep run m _ slot process b.slot_counted b.process_counted;
  }

  pub run_adhoc-LocalStep :
      (pc : Pc) → Before run m e pc → kind_at pc ≡ adhoc → Stepped input run m e pc
  run_adhoc-LocalStep adhoc_seek_slot b h = adhoc_seek_slot-LocalStep b
  run_adhoc-LocalStep adhoc_slot_held b h = adhoc_slot_held-LocalStep b
  run_adhoc-LocalStep adhoc_claiming b h = adhoc_claiming-LocalStep b
  run_adhoc-LocalStep prompting b h = prompting-LocalStep b
  run_adhoc-LocalStep (adhoc_leaving slot process) b h = adhoc_leaving-LocalStep slot process b
  run_adhoc-LocalStep _ b h = cc
