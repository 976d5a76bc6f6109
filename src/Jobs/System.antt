-- ===== src/Jobs/System.antt =====
-- The job manager of internal/jobs/manager.go at work: its state, its workers, and every step that a
-- worker or a caller of its operations can take, in any order. Callers are modelled by the sections
-- that they run under the lock, each at any time; so is what a retry loop or a wait of 10 seconds
-- does between two sections. The list of targets stays as it is.
use codex_queue_bot.Base.{ℕ, suc, ◌<◌, ◌≡◌, ◌≢◌, Bool, true, false, Text, some, if◌then◌else◌, ◌==◌}
use codex_queue_bot.Jobs.State.{
  Owner, queue, keepalive, adhoc, Entry, Subscriber, Change, new_job, new_keepalive, new_arbiter,
}
use codex_queue_bot.Jobs.Queue.{start_queue, started}
use codex_queue_bot.Jobs.Keepalive.{start_keepalive}
use codex_queue_bot.Jobs.Manager.{Manager, commit, stop_entry, prepare_entry}
use codex_queue_bot.Jobs.Manager.Targets.{quiesce, reserve_adhoc, begin_shutdown, ok}
use codex_queue_bot.Jobs.Worker.{Run, Pc, seek_target, checking, adhoc_seek_slot, Input, work}

pub record Worker : Type 0 where
  pub run : Run
  pub pc : Pc

-- Workers are numbered in the order of their start.
pub record System : Type 0 where
  pub manager : Manager
  pub spawned : ℕ
  pub workers : ℕ → Worker

abbrev pub update {ℓ} : {A : Type ℓ} → (ℕ → A) → ℕ → A → ℕ → A
update f i a j = if i == j then a else f j

-- The worker with this number is now at this point.
abbrev pub advance : System → ℕ → Manager → Pc → System
advance s i m pc = record s {
  manager = m;
  workers = update s.workers i (record { run = (s.workers i).run; pc = pc });
}

-- A new worker.
abbrev pub spawn : System → Manager → Run → Pc → System
spawn s m run pc = record {
  manager = m;
  spawned = suc s.spawned;
  workers = update s.workers s.spawned (record { run = run; pc = pc });
}

-- What a caller does to the entry of one target, with no worker started. `prepareMode` does nothing
-- once the manager is shutting down.
pub data Section (closing : Bool) (e : Entry) : Change → Type 0 where
  stopping : (now : ℕ) → Section closing e (stop_entry now e).0
  preparing :
      (mode : Owner) (now : ℕ) → closing ≡ false → Section closing e (prepare_entry mode now e).0
  quiescing : (now : ℕ) → Section closing e (quiesce now e)
  joining_queue :
      (subscriber : Subscriber) (context now : ℕ)
      → (start_queue subscriber context now e).1 ≢ started
      → Section closing e (start_queue subscriber context now e).0

-- One step of the system: of a worker, of a caller who starts a run or changes a target's entry, or
-- of the world, which cancels contexts. The settings and the list of targets stay as they are.
pub data Step (s : System) : System → Type 0 where
  working :
      (i : ℕ) (input : Input) (e : Entry)
      → i < s.spawned
      → s.manager.entries (s.workers i).run.key ≡ some e
      → Step s (
          let (m, pc) = work input s.manager (s.workers i).run e (s.workers i).pc in
          advance s i m pc)
  calling :
      (key : Text) (e : Entry) (change : Change)
      → s.manager.entries key ≡ some e
      → Section s.manager.shutting_down e change
      → Step s (record s { manager = commit key change s.manager })
  starting_queue :
      (key : Text) (e : Entry) (subscriber : Subscriber) (now : ℕ)
      → s.manager.shutting_down ≡ false
      → s.manager.entries key ≡ some e
      → (start_queue subscriber s.spawned now e).1 ≡ started
      → Step s (
          spawn s
            (commit key (start_queue subscriber s.spawned now e).0 s.manager)
            (record { key = key; kind = queue; run_id = suc e.job.run_id; context = s.spawned })
            seek_target)
  starting_keepalive :
      (key : Text) (e : Entry) (now : ℕ)
      → s.manager.shutting_down ≡ false
      → s.manager.entries key ≡ some e
      → (start_keepalive s.spawned now e).1 ≡ started
      → Step s (
          spawn s
            (commit key (start_keepalive s.spawned now e).0 s.manager)
            (record {
              key = key;
              kind = keepalive;
              run_id = suc e.keepalive.run_id;
              context = s.spawned;
            })
            checking)
  starting_adhoc :
      (id : ℕ) (m : Manager) (key : Text) (run_id : ℕ)
      → reserve_adhoc s.spawned id s.manager ≡ (m, ok (key, run_id))
      → Step s (
          spawn s m
            (record { key = key; kind = adhoc; run_id = run_id; context = s.spawned })
            adhoc_seek_slot)
  shutting_down : Step s (record s { manager = begin_shutdown s.manager })
  -- A context that is done stays so.
  cancelling :
      (root : Bool) (cancelled : ℕ → Bool)
      → (s.manager.root_done ≡ true → root ≡ true)
      → ((context : ℕ) → s.manager.cancelled context ≡ true → cancelled context ≡ true)
      → Step s (record s { manager = record s.manager { root_done = root; cancelled = cancelled } })

-- What the manager comes to from the state `s`.
pub data Reach (s : System) : System → Type 0 where
  here : Reach s s
  more : {t u : System} → Reach s t → Step t u → Reach s u

-- The manager as `New` makes it has no worker and no process.
pub record IsFresh (s : System) : Type 0 where
  pub no_worker : s.spawned ≡ 0
  pub no_slot : s.manager.slots_in_use ≡ 0
  pub no_process : s.manager.current_processes ≡ 0
  pub new_entries :
      (key : Text) (e : Entry)
      → s.manager.entries key ≡ some e
      → (e.job ≡ new_job) × (e.keepalive ≡ new_keepalive) × (e.arbiter ≡ new_arbiter)
