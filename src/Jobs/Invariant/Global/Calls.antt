-- ===== src/Jobs/Invariant/Global/Calls.antt =====
-- internal/jobs/manager.go: the sections that callers run, as effects on the target and on a worker
-- that is gone or comes to life.
use codex_queue_bot.Base.{
  Bool, ℕ, suc, ◌≤◌, ◌≡◌, refl, ◌∙◌, ap, ◌≢◌, inl, inr, true, false, Text, arith, Bool-cases,
}
use codex_queue_bot.Jobs.State.{
  Owner, nobody, queue, keepalive, adhoc, Entry, Change, Subscriber, target_busy, is_running,
  is_stopped,
}
use codex_queue_bot.Jobs.Queue.{start_queue, stop_queue, started}
use codex_queue_bot.Jobs.Keepalive.{start_keepalive, stop_keepalive}
use codex_queue_bot.Jobs.Adhoc.{reserve, stop_adhoc}
use codex_queue_bot.Jobs.Manager.{Manager, commit, stop_entry, prepare_entry}
use codex_queue_bot.Jobs.Manager.Targets.{quiesce}
use codex_queue_bot.Jobs.Worker.{Run, seek_target, checking, adhoc_seek_slot, gone}
use codex_queue_bot.Jobs.System.{Section, stopping, preparing, quiescing, joining_queue}
use codex_queue_bot.Jobs.Invariant.Flags.{one_mode, is_on}
use codex_queue_bot.Jobs.Invariant.Local.Counts.{commit-ManagerStep}
use codex_queue_bot.Jobs.Invariant.Effect.{latest, Effect}

-- What a caller may do to an entry without a start.
pub record Retires (e e' : Entry) : Type 0 where
  pub owner : e'.arbiter.owner ≡ e.arbiter.owner
  pub owner_run_id : e'.arbiter.owner_run_id ≡ e.arbiter.owner_run_id
  pub queue_run : e.job.run_id ≤ e'.job.run_id
  pub keepalive_run : e.keepalive.run_id ≤ e'.keepalive.run_id
  pub queue_count : e'.job.workers ≡ e.job.workers
  pub keepalive_count : e'.keepalive.workers ≡ e.keepalive.workers
  pub modes : one_mode e ≡ true → one_mode e' ≡ true
  pub stays_off :
      (kind : Owner) (run_id : ℕ) → is_on kind run_id e ≡ false → is_on kind run_id e' ≡ false

stop_queue-Retires : (now : ℕ) (e : Entry) → Retires e (stop_queue now e).entry
unfolding stop_queue
stop_queue-Retires now e = ground arith

stop_keepalive-Retires : (now : ℕ) (e : Entry) → Retires e (stop_keepalive now e).entry
unfolding stop_keepalive
stop_keepalive-Retires now e = ground arith

stop_adhoc-Retires : (e : Entry) → Retires e (stop_adhoc e).entry
unfolding stop_adhoc
stop_adhoc-Retires e = ground arith

joining_queue-Retires :
    (subscriber : Subscriber) (context now : ℕ) (e : Entry)
    → (start_queue subscriber context now e).1 ≢ started
    → Retires e (start_queue subscriber context now e).0.entry
unfolding start_queue
joining_queue-Retires subscriber context now e h = ground arith

Retires-trans : (a b c : Entry) → Retires a b → Retires b c → Retires a c
Retires-trans a b c x y = record {
  owner = y.owner ∙ x.owner;
  owner_run_id = y.owner_run_id ∙ x.owner_run_id;
  queue_run = omega (arith, x.queue_run, y.queue_run);
  keepalive_run = omega (arith, x.keepalive_run, y.keepalive_run);
  queue_count = y.queue_count ∙ x.queue_count;
  keepalive_count = y.keepalive_count ∙ x.keepalive_count;
  modes = λ h. y.modes (x.modes h);
  stays_off = λ kind run_id h. y.stays_off kind run_id (x.stays_off kind run_id h);
}

same-Retires : (e : Entry) → Retires e e
same-Retires e = ground arith

stop_all-Retires :
    (now : ℕ) (e : Entry)
    → Retires e (stop_adhoc (stop_keepalive now (stop_queue now e).entry).entry).entry
stop_all-Retires now e =
    Retires-trans _ _ _ (stop_queue-Retires now e)
      (Retires-trans _ _ _ (stop_keepalive-Retires now _) (stop_adhoc-Retires _))

prepare_entry-Retires :
    (mode : Owner) (now : ℕ) (e : Entry) → Retires e (prepare_entry mode now e).0.entry
unfolding prepare_entry
prepare_entry-Retires nobody now e = stop_adhoc-Retires e
prepare_entry-Retires adhoc now e = stop_adhoc-Retires e
prepare_entry-Retires queue now e = elim (Bool-cases (is_running e.job.state)) [
  | inl on ↦ rw on (same-Retires e)
  | inr off ↦ rw off (Retires-trans _ _ _ (stop_adhoc-Retires e) (stop_keepalive-Retires now _))
]
prepare_entry-Retires keepalive now e = elim (Bool-cases (is_stopped e.keepalive.state)) [
  | inl on ↦ rw on (Retires-trans _ _ _ (stop_adhoc-Retires e) (stop_queue-Retires now _))
  | inr off ↦ rw off (same-Retires e)
]

quiesce-Retires : (now : ℕ) (e : Entry) → Retires e (quiesce now e).entry
unfolding quiesce
quiesce-Retires now e = elim (Bool-cases (target_busy e)) [
  | inl busy ↦ rw busy (stop_all-Retires now e)
  | inr free ↦ rw free (same-Retires e)
]

Section-Retires :
    (closing : Bool) (e : Entry) (change : Change)
    → Section closing e change
    → Retires e change.entry
unfolding stop_entry
Section-Retires closing e change (stopping now) = stop_all-Retires now e
Section-Retires closing e change (preparing mode now open_now) = prepare_entry-Retires mode now e
Section-Retires closing e change (quiescing now) = quiesce-Retires now e
Section-Retires closing e change (joining_queue subscriber context now h) =
    joining_queue-Retires subscriber context now e h

pub calling-Effect :
    (run : Run) (m : Manager) (e : Entry) (change : Change)
    → Section m.shutting_down e change
    → one_mode e ≡ true
    → Effect run m (commit run.key change m) e change.entry gone gone
calling-Effect run m e change section mode =
    let r = Section-Retires m.shutting_down e change section in
    let ms = commit-ManagerStep run m e gone gone change refl refl in
    record {
      owner = inl (r.owner, r.owner_run_id, refl);
      home = inr refl;
      queue_run = r.queue_run;
      keepalive_run = r.keepalive_run;
      adhoc_run = omega (arith, ms.adhoc_runs);
      queue_count = omega (arith, r.queue_count);
      keepalive_count = omega (arith, r.keepalive_count);
      one_mode_after = r.modes mode;
      past_after = λ over. cc;
      stays_off = λ kind run_id known off. r.stays_off kind run_id off;
      begun = λ dead alive. cc;
      entries = ms.entries;
      slots = ms.slots;
      processes = ms.processes;
      capacity = ms.capacity;
      max_parallel = ms.max_parallel;
    }

start_queue-stays_off :
    (subscriber : Subscriber) (context now : ℕ) (e : Entry) (m : Manager) (kind : Owner)
    (run_id : ℕ)
    → run_id ≤ latest kind e m
    → is_on kind run_id e ≡ false
    → is_on kind run_id (start_queue subscriber context now e).0.entry ≡ false
unfolding start_queue
start_queue-stays_off subscriber context now e m kind run_id known off = ground arith

start_keepalive-stays_off :
    (context now : ℕ) (e : Entry) (m : Manager) (kind : Owner) (run_id : ℕ)
    → run_id ≤ latest kind e m
    → is_on kind run_id e ≡ false
    → is_on kind run_id (start_keepalive context now e).0.entry ≡ false
unfolding start_keepalive
start_keepalive-stays_off context now e m kind run_id known off = ground arith

start_queue-began :
    (subscriber : Subscriber) (context now : ℕ) (e : Entry)
    → one_mode e ≡ true
    → (start_queue subscriber context now e).1 ≡ started
    → let e' = (start_queue subscriber context now e).0.entry in
      (e'.arbiter.owner ≡ e.arbiter.owner)
      × (e'.arbiter.owner_run_id ≡ e.arbiter.owner_run_id)
      × (e'.job.run_id ≡ suc e.job.run_id)
      × (e'.keepalive ≡ e.keepalive)
      × (e'.job.workers ≡ suc e.job.workers)
      × (one_mode e' ≡ true)
unfolding start_queue
start_queue-began subscriber context now e mode h = ground arith

start_keepalive-began :
    (context now : ℕ) (e : Entry)
    → one_mode e ≡ true
    → (start_keepalive context now e).1 ≡ started
    → let e' = (start_keepalive context now e).0.entry in
      (e'.arbiter.owner ≡ e.arbiter.owner)
      × (e'.arbiter.owner_run_id ≡ e.arbiter.owner_run_id)
      × (e'.keepalive.run_id ≡ suc e.keepalive.run_id)
      × (e'.job ≡ e.job)
      × (e'.keepalive.workers ≡ suc e.keepalive.workers)
      × (one_mode e' ≡ true)
unfolding start_keepalive
start_keepalive-began context now e mode h = ground arith

abbrev pub queue_run : Text → Entry → ℕ → Run
queue_run key e context = record {
  key = key;
  kind = queue;
  run_id = suc e.job.run_id;
  context = context;
}

abbrev pub keepalive_run : Text → Entry → ℕ → Run
keepalive_run key e context = record {
  key = key;
  kind = keepalive;
  run_id = suc e.keepalive.run_id;
  context = context;
}

abbrev pub adhoc_run : Text → ℕ → ℕ → Run
adhoc_run key run_id context = record {
  key = key;
  kind = adhoc;
  run_id = run_id;
  context = context;
}

pub starting_queue-Effect :
    (key : Text) (subscriber : Subscriber) (context now : ℕ) (e : Entry) (m : Manager)
    → one_mode e ≡ true
    → (start_queue subscriber context now e).1 ≡ started
    → Effect
        (queue_run key e context)
        m
        (commit key (start_queue subscriber context now e).0 m)
        e
        (start_queue subscriber context now e).0.entry
        gone
        seek_target
starting_queue-Effect key subscriber context now e m mode h =
    let ms =
      commit-ManagerStep (queue_run key e context) m e gone seek_target
        (start_queue subscriber context now e).0 refl refl in
    let (same_owner, same_run, next_run, same_keepalive, next_count, mode') =
      start_queue-began subscriber context now e mode h in
    record {
      owner = inl (same_owner, same_run, refl);
      home = inl refl;
      queue_run = omega (arith, next_run);
      keepalive_run = omega (arith, ap (λ k. k.run_id) same_keepalive);
      adhoc_run = omega (arith, ms.adhoc_runs);
      queue_count = omega (arith, next_count);
      keepalive_count = omega (arith, ap (λ k. k.workers) same_keepalive);
      one_mode_after = mode';
      past_after = λ over. cc;
      stays_off = start_queue-stays_off subscriber context now e m;
      begun = λ dead alive. (omega arith, omega (arith, next_run));
      entries = ms.entries;
      slots = ms.slots;
      processes = ms.processes;
      capacity = ms.capacity;
      max_parallel = ms.max_parallel;
    }

pub starting_keepalive-Effect :
    (key : Text) (context now : ℕ) (e : Entry) (m : Manager)
    → one_mode e ≡ true
    → (start_keepalive context now e).1 ≡ started
    → Effect
        (keepalive_run key e context)
        m
        (commit key (start_keepalive context now e).0 m)
        e
        (start_keepalive context now e).0.entry
        gone
        checking
starting_keepalive-Effect key context now e m mode h =
    let ms =
      commit-ManagerStep (keepalive_run key e context) m e gone checking
        (start_keepalive context now e).0 refl refl in
    let (same_owner, same_run, next_run, same_job, next_count, mode') =
      start_keepalive-began context now e mode h in
    record {
      owner = inl (same_owner, same_run, refl);
      home = inl refl;
      queue_run = omega (arith, ap (λ k. k.run_id) same_job);
      keepalive_run = omega (arith, next_run);
      adhoc_run = omega (arith, ms.adhoc_runs);
      queue_count = omega (arith, ap (λ k. k.workers) same_job);
      keepalive_count = omega (arith, next_count);
      one_mode_after = mode';
      past_after = λ over. cc;
      stays_off = start_keepalive-stays_off context now e m;
      begun = λ dead alive. (omega arith, omega (arith, next_run));
      entries = ms.entries;
      slots = ms.slots;
      processes = ms.processes;
      capacity = ms.capacity;
      max_parallel = ms.max_parallel;
    }

pub starting_adhoc-Effect :
    (key : Text) (context : ℕ) (e : Entry) (m : Manager)
    → one_mode e ≡ true
    → e.arbiter.owner ≡ nobody
    → Effect
        (adhoc_run key (suc m.next_adhoc_run_id) context)
        m
        (commit key
          (reserve (suc m.next_adhoc_run_id) context e)
          (record m { next_adhoc_run_id = suc m.next_adhoc_run_id }))
        e
        (reserve (suc m.next_adhoc_run_id) context e).entry
        gone
        adhoc_seek_slot
unfolding reserve
starting_adhoc-Effect key context e m mode free =
    let ms =
      commit-ManagerStep (adhoc_run key (suc m.next_adhoc_run_id) context)
        (record m { next_adhoc_run_id = suc m.next_adhoc_run_id }) e gone adhoc_seek_slot
        (reserve (suc m.next_adhoc_run_id) context e) refl refl in
    record {
      owner = inr (inl (free, refl, refl, refl));
      home = inl refl;
      queue_run = omega arith;
      keepalive_run = omega arith;
      adhoc_run = omega (arith, ms.adhoc_runs);
      queue_count = omega arith;
      keepalive_count = omega arith;
      one_mode_after = mode;
      past_after = λ over. cc;
      stays_off = λ kind run_id known off. ground arith;
      begun = λ dead alive. (omega arith, omega (arith, ms.adhoc_runs));
      entries = ms.entries;
      slots = ms.slots;
      processes = ms.processes;
      capacity = ms.capacity;
      max_parallel = ms.max_parallel;
    }
