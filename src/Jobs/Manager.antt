-- ===== src/Jobs/Manager.antt =====
-- internal/jobs/manager.go: `Manager`, its bookkeeping of slots, processes and observers, and the
-- sections of its public operations that run under its lock.
pub mod Targets
use codex_queue_bot.Base.{
  ℕ, zero, suc, ◌+◌, ◌-◌, Bool, true, false, not, ◌&&◌, ◌||◌, List, [], ◌∷◌, ◌++◌, map, Option,
  none, some, Text, text_eq, if◌then◌else◌, ltb, leb, ◌==◌, length, is_some,
}
use codex_queue_bot.Jobs.State.{
  QueueState, KeepaliveState, waiting_next, Target, Job, KeepaliveJob, Entry, Owner, nobody, queue,
  keepalive, adhoc, same_owner, is_running, is_stopped, queue_active, keepalive_active, target_busy,
  Change, quietly, and_then, new_entry,
}
use codex_queue_bot.Jobs.Queue.{stop_queue}
use codex_queue_bot.Jobs.Keepalive.{stop_keepalive, same_state}
use codex_queue_bot.Jobs.Adhoc.{stop_adhoc}
use codex_queue_bot.Jobs.Names.{resolve, Resolved}

-- What `snapshotLocked` reports of one target; the API host is left out.
pub record TargetSnapshot : Type 0 where
  pub target : Target
  pub busy : Bool
  pub adhoc_running : Bool
  pub queue : Job
  pub keepalive : KeepaliveJob

pub record ManagerSnapshot : Type 0 where
  pub targets : List TargetSnapshot
  pub current_processes : ℕ
  pub max_parallel : ℕ

pub record StateEvent : Type 0 where
  pub id : ℕ
  pub snapshot : ManagerSnapshot

-- An observer, with the size of its buffer and what waits there.
pub record Observer : Type 0 where
  pub id : ℕ
  pub buffer : ℕ
  pub events : List StateEvent

pub record Manager : Type 0 where
  pub keepalive_min : ℕ
  pub keepalive_max : ℕ
  pub success_message : Text
  pub max_parallel : ℕ
  pub entries : Text → Option Entry
  pub order : List Text
  pub current_processes : ℕ
  pub slots_in_use : ℕ
  pub next_event_id : ℕ
  pub next_observer_id : ℕ
  pub next_adhoc_run_id : ℕ
  pub observers : List Observer
  pub shutting_down : Bool
  pub parallel_changed : ℕ
  -- contexts: the root, and those made from it
  pub root_done : Bool
  pub cancelled : ℕ → Bool

snapshot_entry : Entry → TargetSnapshot
snapshot_entry e = record {
  target = e.target;
  busy = target_busy e;
  adhoc_running = same_owner e.arbiter.owner adhoc;
  queue = e.job;
  keepalive = e.keepalive;
}

snapshot_targets : (Text → Option Entry) → List Text → List TargetSnapshot
unfolding snapshot_entry
snapshot_targets entries [] = []
snapshot_targets entries (key ∷ order) =
    let rest = snapshot_targets entries order in
    elim (entries key) [ none ↦ rest | some e ↦ snapshot_entry e ∷ rest ]

-- `snapshotLocked`
pub snapshot : Manager → ManagerSnapshot
unfolding snapshot_targets
snapshot m = record {
  targets = snapshot_targets m.entries m.order;
  current_processes = m.current_processes;
  max_parallel = m.max_parallel;
}

-- `publishLocked`: an observer whose buffer is full is dropped.
publish : StateEvent → List Observer → List Observer
publish event [] = []
publish event (observer ∷ rest) =
    let others = publish event rest in
    if ltb (length observer.events) observer.buffer
    then record observer { events = observer.events ++ (event ∷ []) } ∷ others
    else others

-- `broadcastStateLocked`
unfoldable pub broadcast : Manager → Manager
unfolding publish snapshot
broadcast m = record m {
  next_event_id = suc m.next_event_id;
  observers = publish (record { id = suc m.next_event_id; snapshot = snapshot m }) m.observers;
}

abbrev pub put : Text → Option Entry → (Text → Option Entry) → Text → Option Entry
put key e entries other = if text_eq key other then e else entries other

cancel_all : List ℕ → (ℕ → Bool) → ℕ → Bool
cancel_all contexts cancelled context = has contexts || cancelled context
  where
    has : List ℕ → Bool
    has [] = false
    has (one ∷ rest) = one == context || has rest

-- The rest of a section under the lock, given what it does to the entry of its target.
unfoldable pub commit : Text → Change → Manager → Manager
unfolding broadcast cancel_all
commit key change m =
    let next = record m {
      entries = put key (some change.entry) m.entries;
      cancelled = cancel_all change.cancels m.cancelled;
    } in
    if change.broadcast then broadcast next else next

-- `acquire`: one round of its loop takes a slot or finds none.
unfoldable pub take_slot : Manager → Option Manager
take_slot m =
    if ltb m.slots_in_use m.max_parallel
    then some (record m { slots_in_use = suc m.slots_in_use })
    else none

-- `signalParallelLocked`
abbrev signal_parallel : Manager → Manager
signal_parallel m = record m { parallel_changed = suc m.parallel_changed }

-- `releaseSlot`
unfoldable pub release_slot : Manager → Manager
release_slot m = signal_parallel (record m { slots_in_use = m.slots_in_use - 1 })

-- `finishProcess`; a count of 0 stays 0.
unfoldable pub finish_process : Manager → Manager
unfolding broadcast
finish_process m = broadcast (
    signal_parallel
      (record m { current_processes = m.current_processes - 1; slots_in_use = m.slots_in_use - 1 }))

-- `finishAdhocRequest` but for the entry: what it gives back.
unfoldable pub give_back : Bool → Bool → Manager → Manager
give_back slot process m =
    let counted = if process then record m { current_processes = m.current_processes - 1 } else m in
    if slot
    then signal_parallel (record counted { slots_in_use = counted.slots_in_use - 1 })
    else counted

unfoldable pub count_process : Manager → Manager
count_process m = record m { current_processes = suc m.current_processes }

-- `stop`, for one target: what it does, and whether there was anything to stop.
unfoldable pub stop_entry : ℕ → Entry → Change × Bool
unfolding stop_queue stop_keepalive stop_adhoc
stop_entry now e = (
  and_then (and_then (stop_queue now e) (stop_keepalive now)) stop_adhoc,
  queue_active e || (keepalive_active e || same_owner e.arbiter.owner adhoc),
)

pub data Prepared : Type 0 where
  refused busy ready : Prepared

stop_other : Owner → ℕ → Entry → Change
stop_other queue now e = stop_keepalive now e
stop_other keepalive now e = stop_queue now e
stop_other _ now e = quietly e

-- `desired` is the mode that is on already.
already_on : Owner → Entry → Bool
already_on queue e = is_running e.job.state
already_on keepalive e = not (is_stopped e.keepalive.state)
already_on _ e = false

other_active : Owner → Entry → Bool
other_active queue e = keepalive_active e
other_active keepalive e = queue_active e
other_active _ e = false

-- One round of `prepareMode`, for a target that exists, while the manager is not shutting down.
unfoldable pub prepare_entry : Owner → ℕ → Entry → Change × Prepared
unfolding stop_other already_on other_active stop_queue stop_keepalive stop_adhoc
prepare_entry desired now e =
    let change = and_then (stop_adhoc e) (stop_other desired now) in
    let changed = same_owner e.arbiter.owner adhoc || other_active desired e in
    if already_on desired e
    then (quietly e, refused)
    else (record change { broadcast = changed }, if target_busy change.entry then busy else ready)

pub record StopResult : Type 0 where
  pub stopped : List Text
  pub inactive : List Text
  pub unknown : List Text

-- The loop of `stop` over the keys, with what to tell about each.
stop_each : ℕ → List Text → Manager → Manager × (List Text × List Text)
unfolding stop_entry
stop_each now [] m = (m, ([], []))
stop_each now (key ∷ keys) m = elim (m.entries key) [
  | none ↦ stop_each now keys m
  | some e ↦
      let (change, stopped) = stop_entry now e in
      let (after, (names, idle_names)) = stop_each now keys (commit key change m) in
      if stopped
      then (after, (e.target.name ∷ names, idle_names))
      else (after, (names, e.target.name ∷ idle_names))
]

abbrev exists_in : Manager → Text → Bool
exists_in m key = is_some (m.entries key)

-- `stop`, which `Stop`, `StopTask` and `StopKeepalive` call.
pub stop : (ℕ → ℕ) → ℕ → List Text → Manager → Manager × StopResult
unfolding stop_each broadcast
stop lower now names m =
    let resolved = resolve (exists_in m) lower m.order names in
    let (after, (stopped, inactive)) = stop_each now resolved.keys m in
    (
      if ltb 0 (length stopped) then broadcast after else after,
      record { stopped = stopped; inactive = inactive; unknown = resolved.unknown },
    )
