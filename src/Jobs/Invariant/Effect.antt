-- ===== src/Jobs/Invariant/Effect.antt =====
-- What a step that concerns one target and one worker may do, whoever takes it: a worker, a start of
-- a run, whose worker is then counted as gone before, or a caller, with a worker that stays gone.
use codex_queue_bot.Base.{ℕ, ◌+◌, ◌≤◌, ◌<◌, ◌≡◌, ◌⊎◌, true, false, Text, some, arith}
use codex_queue_bot.Jobs.State.{Owner, nobody, queue, keepalive, adhoc, Entry}
use codex_queue_bot.Jobs.Manager.{Manager, put}
use codex_queue_bot.Jobs.Worker.{Run, Pc}
use codex_queue_bot.Jobs.Invariant.Flags.{
  one_if, has_process, has_slot, kind_at, is_past, is_live, queue_worker, keepalive_worker, is_on,
  one_mode,
}
use codex_queue_bot.Jobs.Invariant.Local.{Ownership, LocalStep}

-- The number of the latest run of a kind.
abbrev pub latest : Owner → Entry → Manager → ℕ
latest queue e m = e.job.run_id
latest keepalive e m = e.keepalive.run_id
latest adhoc e m = m.next_adhoc_run_id
latest nobody e m = 0

pub record Effect (run : Run) (m m' : Manager) (e e' : Entry) (pc pc' : Pc) : Type 0 where
  pub owner : Ownership run e e' pc pc'
  pub home : (kind_at pc' ≡ run.kind) ⊎ (is_live pc' ≡ false)
  pub queue_run : e.job.run_id ≤ e'.job.run_id
  pub keepalive_run : e.keepalive.run_id ≤ e'.keepalive.run_id
  pub adhoc_run : m.next_adhoc_run_id ≤ m'.next_adhoc_run_id
  pub queue_count : e'.job.workers + queue_worker pc ≡ e.job.workers + queue_worker pc'
  pub keepalive_count :
      e'.keepalive.workers + keepalive_worker pc ≡ e.keepalive.workers + keepalive_worker pc'
  pub one_mode_after : one_mode e' ≡ true
  pub past_after : is_past pc' ≡ true → is_on run.kind run.run_id e' ≡ false
  pub stays_off :
      (kind : Owner) (run_id : ℕ)
      → run_id ≤ latest kind e m
      → is_on kind run_id e ≡ false
      → is_on kind run_id e' ≡ false
  -- a worker that comes to life has a new number, and no number is ahead of the latest
  pub begun :
      is_live pc ≡ false
      → is_live pc' ≡ true
      → (latest run.kind e m < run.run_id) × (run.run_id ≤ latest run.kind e' m')
  pub entries : (key : Text) → m'.entries key ≡ put run.key (some e') m.entries key
  pub slots : m'.slots_in_use + one_if (has_slot pc) ≡ m.slots_in_use + one_if (has_slot pc')
  pub processes :
      m'.current_processes + one_if (has_process pc)
      ≡ m.current_processes + one_if (has_process pc')
  pub capacity : (m'.slots_in_use ≤ m.slots_in_use) ⊎ (m'.slots_in_use ≤ m.max_parallel)
  pub max_parallel : m'.max_parallel ≡ m.max_parallel

-- A worker that is gone stays gone.
pub LocalStep-Effect :
    (run : Run) (m m' : Manager) (e : Entry) (pc pc' : Pc) (step : LocalStep run m m' e pc pc')
    → is_live pc ≡ true
    → Effect run m m' e step.after pc pc'
LocalStep-Effect run m m' e pc pc' step live =
    let es = step.entry_step in
    let ms = step.manager_step in
    record {
      owner = es.owner;
      home = es.home;
      queue_run = omega (arith, es.queue_run);
      keepalive_run = omega (arith, es.keepalive_run);
      adhoc_run = omega (arith, ms.adhoc_runs);
      queue_count = es.queue_count;
      keepalive_count = es.keepalive_count;
      one_mode_after = es.one_mode_after;
      past_after = es.past_after;
      stays_off = λ kind run_id known off. es.stays_off kind run_id off;
      begun = λ dead alive. cc;
      entries = ms.entries;
      slots = ms.slots;
      processes = ms.processes;
      capacity = ms.capacity;
      max_parallel = ms.max_parallel;
    }
