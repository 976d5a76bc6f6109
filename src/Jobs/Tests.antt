-- ===== src/Jobs/Tests.antt =====
-- internal/jobs/manager.go at work on one target: a queue run up to its first Codex process, and back
-- to rest.
use codex_queue_bot.Base.{
  ℕ, zero, suc, ◌≡◌, ◌≢◌, ◌≤◌, ◌<◌, refl, true, false, [], ◌∷◌, none, some, Text, codes, text_eq,
  if◌then◌else◌, arith,
}
use codex_queue_bot.Jobs.State.{
  Target, Entry, Subscriber, new_entry, new_job, new_arbiter, running, queue, queue_active,
  keepalive_active, nobody, KeepaliveState,
}
use codex_queue_bot.Jobs.Queue.{
  start_queue, acquire_target, begin_attempt, mark_success, finish_queue_worker,
}
use codex_queue_bot.Jobs.Manager.{Manager, commit, take_slot, finish_process}
use codex_queue_bot.Jobs.Worker.{Pc, Input, Run, seek_target, attempted, work}
use codex_queue_bot.Jobs.System.{
  System, Reach, IsFresh, working, starting_queue, here, more, advance, spawn,
}
use codex_queue_bot.Jobs.Invariant.Flags.{has_process, has_slot, is_live, one_if}
use codex_queue_bot.Jobs.Invariant.Totals.{total}
use codex_queue_bot.Jobs.Invariant.Reached.{
  process_unique, modes-exclusive, idle-no_worker, gone-frees,
}
use codex_queue_bot.Jobs.Invariant.Stale.{Leaves, stale_step-Spares}
use codex_queue_bot.Jobs.Invariant.Capacity.{processes-le-max_parallel}

abbrev primary : Target
primary = record {
  id = 1;
  sort_order = 0;
  name = codes "primary";
  api_base_url = codes "https://api.example.com/v1";
  api_key = codes "key";
  api_key_env = [];
  model = codes "m";
  wire_api = codes "responses";
  config_overrides = [];
}

abbrev key : Text
key = codes "primary"

abbrev manager : Manager
manager = record {
  keepalive_min = 60;
  keepalive_max = 120;
  success_message = codes "ok";
  max_parallel = 1;
  entries = λ name. if text_eq key name then some (new_entry primary) else none;
  order = key ∷ [];
  current_processes = 0;
  slots_in_use = 0;
  next_event_id = 0;
  next_observer_id = 0;
  next_adhoc_run_id = 0;
  observers = [];
  shutting_down = false;
  parallel_changed = 0;
  root_done = false;
  cancelled = λ context. false;
}

abbrev pub fresh : System
fresh = record {
  manager = manager;
  spawned = 0;
  workers = λ i. record {
    run = record { key = []; kind = nobody; run_id = 0; context = 0 };
    pc = Pc.gone;
  };
}

pub fresh-IsFresh : IsFresh fresh
fresh-IsFresh = record {
  no_worker = refl;
  no_slot = refl;
  no_process = refl;
  new_entries = λ name e at. ground arith;
}

abbrev somebody : Subscriber
somebody = record { recipient = codes "u"; trace_id = []; key = []; messenger = none }

abbrev pub input : Input
input = record {
  now = 5;
  result = record { success = true; error = [] };
  delay = 60;
  woken = false;
  sanitize = λ target text. text;
}

-- What the entry of the target is, and a step of the first worker.
abbrev pub entry_in : System → Entry
entry_in s = elim (s.manager.entries key) [ none ↦ new_entry primary | some e ↦ e ]

abbrev pub worked : System → System
worked s =
    let (m, pc) = work input s.manager (s.workers 0).run (entry_in s) (s.workers 0).pc in
    advance s 0 m pc

abbrev pub queued : System
queued =
    spawn fresh (commit key (start_queue somebody 0 5 (new_entry primary)).0 manager)
      (record { key = key; kind = queue; run_id = 1; context = 0 }) seek_target

pub queued-Reach : Reach fresh queued
unfolding start_queue
queued-Reach = more here (starting_queue key (new_entry primary) somebody 5 refl refl refl)

worked-Reach :
    (s : System)
    → Reach fresh s
    → 0 < s.spawned
    → s.manager.entries (s.workers 0).run.key ≡ some (entry_in s)
    → Reach fresh (worked s)
worked-Reach s r less at = more r (working 0 input (entry_in s) less at)

-- The first worker runs Codex.
abbrev pub attempting_system : System
attempting_system = worked (worked (worked queued))

pub attempting-Reach : Reach fresh attempting_system
unfolding start_queue commit work acquire_target take_slot
attempting-Reach =
    worked-Reach (worked (worked queued))
      (worked-Reach (worked queued) (worked-Reach queued queued-Reach (omega arith) refl)
        (omega arith) refl)
      (omega arith) refl

-- The run has succeeded and its worker is gone.
abbrev finished_system : System
finished_system = worked (worked (worked attempting_system))

finished-Reach : Reach fresh finished_system
unfolding start_queue commit work acquire_target take_slot begin_attempt mark_success finish_process
finished-Reach =
    worked-Reach (worked (worked attempting_system))
      (worked-Reach (worked attempting_system)
        (worked-Reach attempting_system attempting-Reach (omega arith) refl) (omega arith) refl)
      (omega arith) refl

process_unique_example : ◌≡◌ {A = ℕ} 0 0
unfolding start_queue commit work acquire_target take_slot begin_attempt
process_unique_example =
    process_unique fresh attempting_system fresh-IsFresh attempting-Reach 0 0 (omega arith)
      (omega arith) refl refl refl

modes-exclusive_example :
    (queue_active (entry_in attempting_system) ≡ true
      → keepalive_active (entry_in attempting_system) ≡ true
      → ⊥)
    × ((entry_in attempting_system).keepalive.state ≢ KeepaliveState.waiting_queue)
unfolding start_queue commit work acquire_target take_slot begin_attempt
modes-exclusive_example =
    modes-exclusive fresh attempting_system fresh-IsFresh attempting-Reach key
      (entry_in attempting_system) refl

processes-le-max_parallel_example :
    (attempting_system.manager.current_processes
      ≡ total (λ w. one_if (has_process w.pc)) attempting_system.workers attempting_system.spawned)
    × (attempting_system.manager.slots_in_use
        ≡ total (λ w. one_if (has_slot w.pc)) attempting_system.workers attempting_system.spawned)
    × (attempting_system.manager.current_processes ≤ attempting_system.manager.slots_in_use)
    × (attempting_system.manager.slots_in_use ≤ attempting_system.manager.max_parallel)
processes-le-max_parallel_example =
    processes-le-max_parallel fresh attempting_system fresh-IsFresh attempting-Reach

idle-no_worker_example : is_live (finished_system.workers 0).pc ≡ false
unfolding start_queue commit work acquire_target take_slot begin_attempt mark_success finish_process
    finish_queue_worker
idle-no_worker_example =
    idle-no_worker fresh finished_system fresh-IsFresh finished-Reach key (entry_in finished_system)
      refl refl 0 (omega arith) refl

all_gone : (i : ℕ) → i < finished_system.spawned → is_live (finished_system.workers i).pc ≡ false
unfolding start_queue commit work acquire_target take_slot begin_attempt mark_success finish_process
    finish_queue_worker
all_gone zero less = refl
all_gone (suc i) less = absurd (omega arith)

gone-frees_example :
    (finished_system.manager.slots_in_use ≡ 0)
    × (finished_system.manager.current_processes ≡ 0)
    × ((name : Text) (e : Entry)
        → finished_system.manager.entries name ≡ some e
        → (e.job.workers ≡ 0) × (e.keepalive.workers ≡ 0) × (e.arbiter.owner ≡ nobody))
gone-frees_example = gone-frees fresh finished_system fresh-IsFresh finished-Reach all_gone

-- The queue was stopped and started anew while the first run was under way.
abbrev renewed : Entry
renewed = record (new_entry primary) {
  job = record new_job { state = running; attempts = 3; run_id = 2; workers = 2 };
  arbiter = record new_arbiter { owner = queue; owner_run_id = 2 };
}

abbrev busy_manager : Manager
busy_manager = record manager { entries = λ name. if text_eq key name then some renewed else none }

abbrev old_run : Run
old_run = record { key = key; kind = queue; run_id = 1; context = 0 }

abbrev succeeded_late : Pc
succeeded_late = attempted (record { success = true; error = [] })

stale_step-Spares_example :
    Leaves queue 1 key renewed (work input busy_manager old_run renewed succeeded_late).0
stale_step-Spares_example =
    stale_step-Spares input busy_manager old_run renewed refl succeeded_late refl
