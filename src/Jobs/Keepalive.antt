-- ===== src/Jobs/Keepalive.antt =====
-- internal/jobs/manager.go: the sections of code under the manager's lock that belong to a
-- keepalive task, each as what it does to the entry of its target.
use codex_queue_bot.Base.{
  ℕ, suc, ◌+◌, ◌-◌, Bool, true, false, not, ◌||◌, none, some, Text, [], if◌then◌else◌, ltb, leb,
  ◌==◌,
}
use codex_queue_bot.Jobs.State.{
  KeepaliveState, requesting, waiting_queue, waiting_next, KeepaliveJob, Entry, nobody, queue,
  keepalive, same_owner, is_running, is_stopped, queue_active, keepalive_active, signal_target,
  release_target, Change, context_of, quietly, announced,
}
use codex_queue_bot.Jobs.Queue.{Started, started, already, again}

-- The last section of `startKeepalive`
unfoldable pub start_keepalive : ℕ → ℕ → Entry → Change × Started
start_keepalive context now e =
    if not (is_stopped e.keepalive.state)
    then (quietly e, already)
    else if queue_active e
    then (quietly e, again)
    else (announced (signal_target (record e { keepalive = new_run e.keepalive })), started)
  where
    new_run : KeepaliveJob → KeepaliveJob
    new_run job = record job {
      state = requesting;
      requests = 0;
      started_at = now;
      last_request = 0;
      last_success = 0;
      last_failure = 0;
      next_request = 0;
      stopped_at = 0;
      last_error = [];
      run_id = suc job.run_id;
      cancel = some context;
      workers = suc job.workers;
    }

-- `stopKeepaliveLocked`
unfoldable pub stop_keepalive : ℕ → Entry → Change
stop_keepalive now e = if not (keepalive_active e) then quietly e else record {
  entry = signal_target (record e { keepalive = stopped_job });
  cancels = context_of e.keepalive.cancel;
  broadcast = false;
}
  where
    retired : KeepaliveJob
    retired = record e.keepalive { run_id = suc e.keepalive.run_id; cancel = none }

    stopped_job : KeepaliveJob
    stopped_job =
        if is_stopped e.keepalive.state
        then retired
        else record retired { state = KeepaliveState.stopped; stopped_at = now; next_request = 0 }

-- How a section of `beginKeepaliveRequest` goes on: it gives up, waits for the target to change,
-- or goes ahead.
pub data Turn : Type 0 where
  give_up wait_change go_ahead : Turn

abbrev pub same_state : KeepaliveState → KeepaliveState → Bool
same_state requesting requesting = true
same_state waiting_queue waiting_queue = true
same_state waiting_next waiting_next = true
same_state KeepaliveState.stopped KeepaliveState.stopped = true
same_state _ _ = false

-- Whether the run with this number is over.
abbrev pub is_over : ℕ → Entry → Bool
is_over run_id e = not (e.keepalive.run_id == run_id) || is_stopped e.keepalive.state

-- `queue.state == StateRunning || arbiter.owner != requestOwnerNone`
abbrev pub is_taken : Entry → Bool
is_taken e = is_running e.job.state || not (same_owner e.arbiter.owner nobody)

abbrev set_state : KeepaliveState → Entry → Change
set_state state e = record {
  entry = record e { keepalive = record e.keepalive { state = state } };
  cancels = [];
  broadcast = not (same_state state e.keepalive.state);
}

-- The first section of `beginKeepaliveRequest`
unfoldable pub check_request : ℕ → Entry → Change × Turn
check_request run_id e =
    if is_over run_id e
    then (quietly e, give_up)
    else if is_taken e
    then (
      set_state
          (if is_running e.job.state || same_owner e.arbiter.owner queue
            then waiting_queue
            else requesting)
          e,
      wait_change,
    )
    else (set_state requesting e, go_ahead)

-- The second section, with a slot in hand: the number of the request if it goes ahead. The manager
-- counts the process.
unfoldable pub claim_request : ℕ → ℕ → Entry → Change × Turn
claim_request run_id now e =
    if is_over run_id e
    then (quietly e, give_up)
    else if is_taken e
    then (
      set_state
          (if is_running e.job.state || same_owner e.arbiter.owner queue
            then waiting_queue
            else e.keepalive.state)
          e,
      wait_change,
    )
    else (
      announced (record e {
        arbiter = record e.arbiter { owner = keepalive; owner_run_id = run_id };
        keepalive = record e.keepalive {
          state = requesting;
          requests = suc e.keepalive.requests;
          last_request = now;
          next_request = 0;
        };
      }),
      go_ahead,
    )

-- `finishKeepaliveRequest`; the delay is `randomDuration` of the two bounds, and the text of the
-- error has been through `sanitizeTargetError`.
unfoldable pub finish_request : ℕ → ℕ → ℕ → Bool → Text → Entry → Change × Bool
finish_request run_id now delay success last_error e =
    if is_over run_id e
    then (quietly (release_target keepalive run_id e), false)
    else (announced (release_target keepalive run_id (record e { keepalive = waiting })), true)
  where
    judged : KeepaliveJob
    judged =
        if success
        then record e.keepalive { last_success = now }
        else record e.keepalive { last_failure = now; last_error = last_error }

    waiting : KeepaliveJob
    waiting = record judged { state = waiting_next; next_request = now + delay }

-- `markKeepaliveCancelled`
unfoldable pub mark_keepalive_cancelled : ℕ → ℕ → Entry → Change
mark_keepalive_cancelled run_id now e =
    let released = release_target keepalive run_id e in
    if is_over run_id e
    then quietly released
    else announced (signal_target (record released { keepalive = cancelled_job }))
  where
    cancelled_job : KeepaliveJob
    cancelled_job = record e.keepalive {
      state = KeepaliveState.stopped;
      stopped_at = now;
      next_request = 0;
      cancel = none;
    }

-- `finishKeepaliveWorker`
unfoldable pub finish_keepalive_worker : Entry → Change
finish_keepalive_worker e =
    if ltb 0 e.keepalive.workers
    then announced
        (record e { keepalive = record e.keepalive { workers = e.keepalive.workers - 1 } })
    else quietly e

-- One round of `waitKeepaliveNext`
unfoldable pub next_turn : ℕ → ℕ → Entry → Turn
next_turn run_id now e =
    if is_over run_id e
    then give_up
    else if leb e.keepalive.next_request now
    then go_ahead
    else wait_change
