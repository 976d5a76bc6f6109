-- ===== src/Jobs/Invariant/Local.antt =====
-- What one step of a worker may do to the entry of its target and to the manager's counts.
pub mod Counts
pub mod Queue
pub mod Keepalive
pub mod Adhoc
use codex_queue_bot.Base.{
  ℕ, ◌+◌, ◌≤◌, ◌<◌, ◌≡◌, refl, ◌≢◌, ◌⊎◌, inl, inr, Bool, true, false, not, ◌&&◌, ◌||◌, Text, Option,
  none, some, arith,
}
use codex_queue_bot.Jobs.State.{Owner, nobody, queue, keepalive, Entry}
use codex_queue_bot.Jobs.Manager.{Manager, put}
use codex_queue_bot.Jobs.Worker.{Run, Pc, Input, work}
use codex_queue_bot.Jobs.Invariant.Flags.{
  one_if, has_process, has_slot, owns, kind_at, is_past, is_live, queue_worker, keepalive_worker,
  is_on, one_mode,
}

-- What holds of the worker and its target before the step.
pub record Before (run : Run) (m : Manager) (e : Entry) (pc : Pc) : Type 0 where
  pub entry : m.entries run.key ≡ some e
  pub home : kind_at pc ≡ run.kind
  pub mine : owns pc ≡ true → (e.arbiter.owner ≡ run.kind) × (e.arbiter.owner_run_id ≡ run.run_id)
  pub not_mine :
      owns pc ≡ false → e.arbiter.owner ≡ run.kind → e.arbiter.owner_run_id ≡ run.run_id → ⊥
  pub queue_counted : queue_worker pc ≤ e.job.workers
  pub keepalive_counted : keepalive_worker pc ≤ e.keepalive.workers
  pub slot_counted : one_if (has_slot pc) ≤ m.slots_in_use
  pub process_counted : one_if (has_process pc) ≤ m.current_processes
  pub past : is_past pc ≡ true → is_on run.kind run.run_id e ≡ false
  -- the target is owned by a queue run only while a queue worker is there
  pub one_mode_before : one_mode e ≡ true
  pub queue_owner : e.arbiter.owner ≡ queue → 0 < e.job.workers

-- How the step changes the owner of the target.
abbrev pub Ownership : Run → Entry → Entry → Pc → Pc → Type 0
Ownership run e e' pc pc' =
    ((e'.arbiter.owner ≡ e.arbiter.owner)
      × (e'.arbiter.owner_run_id ≡ e.arbiter.owner_run_id)
      × (owns pc' ≡ owns pc))
    ⊎ (((e.arbiter.owner ≡ nobody)
          × (e'.arbiter.owner ≡ run.kind)
          × (e'.arbiter.owner_run_id ≡ run.run_id)
          × (owns pc' ≡ true))
        ⊎ ((owns pc ≡ true) × (e'.arbiter.owner ≡ nobody) × (owns pc' ≡ false)))

-- The effect on the entry.
pub record EntryStep (run : Run) (e e' : Entry) (pc pc' : Pc) : Type 0 where
  pub owner : Ownership run e e' pc pc'
  pub home : (kind_at pc' ≡ run.kind) ⊎ (is_live pc' ≡ false)
  pub queue_run : e'.job.run_id ≡ e.job.run_id
  pub keepalive_run : e'.keepalive.run_id ≡ e.keepalive.run_id
  pub queue_count : e'.job.workers + queue_worker pc ≡ e.job.workers + queue_worker pc'
  pub keepalive_count :
      e'.keepalive.workers + keepalive_worker pc ≡ e.keepalive.workers + keepalive_worker pc'
  pub one_mode_after : one_mode e' ≡ true
  pub past_after : is_past pc' ≡ true → is_on run.kind run.run_id e' ≡ false
  pub stays_off :
      (kind : Owner) (run_id : ℕ) → is_on kind run_id e ≡ false → is_on kind run_id e' ≡ false
  pub leaves_past : is_live pc' ≡ false → is_on run.kind run.run_id e ≡ false

-- The effect on the rest of the manager.
pub record ManagerStep (run : Run) (m m' : Manager) (e' : Entry) (pc pc' : Pc) : Type 0 where
  pub entries : (key : Text) → m'.entries key ≡ put run.key (some e') m.entries key
  pub slots : m'.slots_in_use + one_if (has_slot pc) ≡ m.slots_in_use + one_if (has_slot pc')
  pub processes :
      m'.current_processes + one_if (has_process pc)
      ≡ m.current_processes + one_if (has_process pc')
  pub capacity : (m'.slots_in_use ≤ m.slots_in_use) ⊎ (m'.slots_in_use ≤ m.max_parallel)
  pub max_parallel : m'.max_parallel ≡ m.max_parallel
  pub adhoc_runs : m'.next_adhoc_run_id ≡ m.next_adhoc_run_id

pub record LocalStep (run : Run) (m m' : Manager) (e : Entry) (pc pc' : Pc) : Type 0 where
  pub after : Entry
  pub entry_step : EntryStep run e after pc pc'
  pub manager_step : ManagerStep run m m' after pc pc'

abbrev pub Stepped : Input → Run → Manager → Entry → Pc → Type 0
Stepped input run m e pc = LocalStep run m (work input m run e pc).0 e pc (work input m run e pc).1
