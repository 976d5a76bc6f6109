-- ===== src/Jobs/State.antt =====
-- internal/jobs/manager.go: the state that the manager keeps for one target. The four maps of
-- `Manager` (targets, jobs, keepalives, arbiters) always have the same keys, so that one entry
-- stands for the four values of a key. A time is a number, and 0 is the zero time. A channel that
-- is closed and made anew to wake its waiters is the count of how often that happened. A cancel
-- function is the number of the context that it cancels.
use codex_queue_bot.Base.{
  ℕ, suc, Bool, true, false, not, ◌&&◌, ◌||◌, List, [], ◌∷◌, ◌++◌, Option, none, some, Text,
  if◌then◌else◌, ltb, ◌==◌,
}

-- config.Target
pub record Target : Type 0 where
  pub id : ℕ
  pub sort_order : ℕ
  pub name : Text
  pub api_base_url : Text
  pub api_key : Text
  pub api_key_env : Text
  pub model : Text
  pub wire_api : Text
  pub config_overrides : List Text

-- codex.Result, as far as the manager reads it.
pub record RunResult : Type 0 where
  pub success : Bool
  pub error : Text

pub data QueueState : Type 0 where
  idle running succeeded stopped : QueueState

pub data KeepaliveState : Type 0 where
  requesting waiting_queue waiting_next stopped : KeepaliveState

pub record Subscriber : Type 0 where
  pub recipient : Text
  pub trace_id : Text
  pub key : Text
  pub messenger : Option ℕ

pub record Job : Type 0 where
  pub state : QueueState
  pub attempts : ℕ
  pub started_at : ℕ
  pub last_attempt : ℕ
  pub next_attempt : ℕ
  pub finished_at : ℕ
  pub last_error : Text
  pub run_id : ℕ
  pub cancel : Option ℕ
  pub subscribers : List (Text × Subscriber)
  pub workers : ℕ

pub record KeepaliveJob : Type 0 where
  pub state : KeepaliveState
  pub requests : ℕ
  pub started_at : ℕ
  pub last_request : ℕ
  pub last_success : ℕ
  pub last_failure : ℕ
  pub next_request : ℕ
  pub stopped_at : ℕ
  pub last_error : Text
  pub run_id : ℕ
  pub cancel : Option ℕ
  pub schedule_changed : ℕ
  pub workers : ℕ

pub data Owner : Type 0 where
  nobody queue keepalive adhoc : Owner

pub record Arbiter : Type 0 where
  pub owner : Owner
  pub owner_run_id : ℕ
  pub cancel : Option ℕ
  pub changed : ℕ

pub record Entry : Type 0 where
  pub target : Target
  pub job : Job
  pub keepalive : KeepaliveJob
  pub arbiter : Arbiter

abbrev pub new_job : Job
new_job = record {
  state = idle;
  attempts = 0;
  started_at = 0;
  last_attempt = 0;
  next_attempt = 0;
  finished_at = 0;
  last_error = [];
  run_id = 0;
  cancel = none;
  subscribers = [];
  workers = 0;
}

abbrev pub new_keepalive : KeepaliveJob
new_keepalive = record {
  state = KeepaliveState.stopped;
  requests = 0;
  started_at = 0;
  last_request = 0;
  last_success = 0;
  last_failure = 0;
  next_request = 0;
  stopped_at = 0;
  last_error = [];
  run_id = 0;
  cancel = none;
  schedule_changed = 0;
  workers = 0;
}

abbrev pub new_arbiter : Arbiter
new_arbiter = record { owner = nobody; owner_run_id = 0; cancel = none; changed = 0 }

-- The entry that `New` and `CreateTarget` make for a target.
abbrev pub new_entry : Target → Entry
new_entry target = record {
  target = target;
  job = new_job;
  keepalive = new_keepalive;
  arbiter = new_arbiter;
}

abbrev pub is_running : QueueState → Bool
is_running running = true
is_running _ = false

abbrev pub is_stopped : KeepaliveState → Bool
is_stopped KeepaliveState.stopped = true
is_stopped _ = false

abbrev pub same_owner : Owner → Owner → Bool
same_owner nobody nobody = true
same_owner queue queue = true
same_owner keepalive keepalive = true
same_owner adhoc adhoc = true
same_owner _ _ = false

-- `state == StateRunning || workers > 0`, and the same of keepalive
abbrev pub queue_active : Entry → Bool
queue_active e = is_running e.job.state || ltb 0 e.job.workers

abbrev pub keepalive_active : Entry → Bool
keepalive_active e = not (is_stopped e.keepalive.state) || ltb 0 e.keepalive.workers

-- `targetBusyLocked`
abbrev pub target_busy : Entry → Bool
target_busy e = queue_active e || (keepalive_active e || not (same_owner e.arbiter.owner nobody))

-- `signalTargetLocked`
abbrev pub signal_target : Entry → Entry
signal_target e = record e { arbiter = record e.arbiter { changed = suc e.arbiter.changed } }

-- `releaseTargetLocked`
abbrev pub release_target : Owner → ℕ → Entry → Entry
release_target owner run_id e =
    if same_owner e.arbiter.owner owner && e.arbiter.owner_run_id == run_id
    then record e {
      arbiter = record {
        owner = nobody;
        owner_run_id = 0;
        cancel = none;
        changed = suc e.arbiter.changed;
      };
    }
    else e

-- What a section of code under the manager's lock does to an entry: the new entry, the contexts
-- that it cancels, and whether it broadcasts the state.
pub record Change : Type 0 where
  pub entry : Entry
  pub cancels : List ℕ
  pub broadcast : Bool

abbrev pub quietly : Entry → Change
quietly e = record { entry = e; cancels = []; broadcast = false }

abbrev pub announced : Entry → Change
announced e = record { entry = e; cancels = []; broadcast = true }

abbrev pub context_of : Option ℕ → List ℕ
context_of none = []
context_of (some context) = context ∷ []

-- Two changes under one hold of the lock.
abbrev pub and_then : Change → (Entry → Change) → Change
and_then first second =
    let next = second first.entry in
    record {
      entry = next.entry;
      cancels = first.cancels ++ next.cancels;
      broadcast = first.broadcast || next.broadcast;
    }
