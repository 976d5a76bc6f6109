-- ===== src/Jobs/Queue.antt =====
-- internal/jobs/manager.go: the sections of code under the manager's lock that belong to a queue
-- task, each as what it does to the entry of its target. A run is known by its number.
use codex_queue_bot.Base.{
  ℕ, suc, ◌-◌, Bool, true, false, not, ◌&&◌, ◌||◌, List, [], ◌∷◌, map, Option, none, some, Text,
  text_eq, is_empty, if◌then◌else◌, ltb, ◌==◌,
}
use codex_queue_bot.Base.Trim.{trim}
use codex_queue_bot.Jobs.State.{
  QueueState, running, succeeded, Job, Subscriber, Entry, nobody, queue, same_owner, is_running,
  queue_active, keepalive_active, signal_target, release_target, Change, context_of, quietly,
  announced,
}
use codex_queue_bot.Jobs.Names.{go_space}

insert_subscriber : Text → Subscriber → List (Text × Subscriber) → List (Text × Subscriber)
insert_subscriber key subscriber [] = (key, subscriber) ∷ []
insert_subscriber key subscriber ((other, old) ∷ rest) =
    if text_eq other key
    then (key, subscriber) ∷ rest
    else (other, old) ∷ insert_subscriber key subscriber rest

-- `addSubscriberLocked`: one with no recipient is not kept, and the recipient stands in for a
-- blank key.
pub add_subscriber : Subscriber → Job → Job
unfolding insert_subscriber
add_subscriber subscriber job =
    let key = trim go_space subscriber.key in
    if is_empty subscriber.recipient then job else record job {
      subscribers =
          insert_subscriber (if is_empty key then subscriber.recipient else key) subscriber
            job.subscribers;
    }

-- What the last section of a start does: it starts a worker, finds one at work, or finds that the
-- other mode has come in between and tries again.
pub data Started : Type 0 where
  started already again : Started

-- The last section of `startQueue`, which starts a run in the context of the new worker.
unfoldable pub start_queue : Subscriber → ℕ → ℕ → Entry → Change × Started
unfolding add_subscriber
start_queue subscriber context now e =
    if is_running e.job.state
    then (quietly (record e { job = add_subscriber subscriber e.job }), already)
    else if keepalive_active e
    then (quietly e, again)
    else (
      announced (signal_target (record e { job = new_run (add_subscriber subscriber e.job) })),
      started,
    )
  where
    new_run : Job → Job
    new_run job = record job {
      state = running;
      attempts = 0;
      started_at = now;
      last_attempt = 0;
      next_attempt = 0;
      finished_at = 0;
      last_error = [];
      run_id = suc job.run_id;
      cancel = some context;
      workers = suc job.workers;
    }

-- `stopQueueLocked`
unfoldable pub stop_queue : ℕ → Entry → Change
stop_queue now e = if not (queue_active e) then quietly e else record {
  entry = signal_target (record e { job = stopped_job });
  cancels = context_of e.job.cancel;
  broadcast = false;
}
  where
    retired : Job
    retired = record e.job { run_id = suc e.job.run_id; cancel = none }

    stopped_job : Job
    stopped_job =
        if is_running e.job.state
        then record retired {
          state = QueueState.stopped;
          finished_at = now;
          next_attempt = 0;
          subscribers = [];
        }
        else retired

pub data Claim : Type 0 where
  refused claimed wait : Claim

-- One round of `acquireQueueTarget`
unfoldable pub acquire_target : ℕ → Entry → Change × Claim
acquire_target run_id e =
    if not (e.job.run_id == run_id) || not (is_running e.job.state)
    then (quietly e, refused)
    else if same_owner e.arbiter.owner nobody
    then (
      quietly (record e { arbiter = record e.arbiter { owner = queue; owner_run_id = run_id } }),
      claimed,
    )
    else (quietly e, wait)

-- `beginAttempt`: the number of the attempt, or `none` if the run is over.
unfoldable pub begin_attempt : ℕ → ℕ → Entry → Change × Option ℕ
begin_attempt run_id now e =
    if not (e.job.run_id == run_id)
      || not (is_running e.job.state)
      || not (same_owner e.arbiter.owner queue)
      || not (e.arbiter.owner_run_id == run_id)
    then (quietly e, none)
    else (
      announced (record e {
        job = record e.job { attempts = suc e.job.attempts; last_attempt = now; next_attempt = 0 };
      }),
      some (suc e.job.attempts),
    )

-- `markFailure`; the text of the error has been through `sanitizeTargetError`.
unfoldable pub mark_failure : ℕ → Text → Entry → Change × Bool
mark_failure run_id last_error e =
    if e.job.run_id == run_id && is_running e.job.state
    then (
      announced (
          release_target queue run_id
            (record e { job = record e.job { last_error = last_error; next_attempt = 0 } })),
      true,
    )
    else (quietly (release_target queue run_id e), false)

-- `markSuccess`: the subscribers to notify and the time that the run took, or `none`.
unfoldable pub mark_success : ℕ → ℕ → Entry → Change × Option (List Subscriber × ℕ)
mark_success run_id now e =
    if not (e.job.run_id == run_id) || not (is_running e.job.state)
    then (quietly (release_target queue run_id e), none)
    else (
      record {
        entry = release_target queue run_id (record e { job = succeeded_job });
        cancels = context_of e.job.cancel;
        broadcast = true;
      },
      some (map (λ item. item.1) e.job.subscribers, now - e.job.started_at),
    )
  where
    succeeded_job : Job
    succeeded_job = record e.job {
      state = succeeded;
      finished_at = now;
      next_attempt = 0;
      last_error = [];
      cancel = none;
      subscribers = [];
    }

-- `markQueueCancelled`
unfoldable pub mark_queue_cancelled : ℕ → ℕ → Entry → Change
mark_queue_cancelled run_id now e =
    let released = release_target queue run_id e in
    if not (e.job.run_id == run_id) || not (is_running e.job.state)
    then quietly released
    else announced (signal_target (record released { job = cancelled_job }))
  where
    cancelled_job : Job
    cancelled_job = record e.job {
      state = QueueState.stopped;
      finished_at = now;
      next_attempt = 0;
      cancel = none;
      subscribers = [];
    }

-- `finishQueueWorker`
unfoldable pub finish_queue_worker : Entry → Change
finish_queue_worker e =
    if ltb 0 e.job.workers
    then announced (record e { job = record e.job { workers = e.job.workers - 1 } })
    else quietly e
