-- ===== src/Jobs/Worker.antt =====
-- internal/jobs/manager.go: the goroutines `run` and `runKeepalive` with their deferred sections,
-- and the request of `RunAdhoc`, cut where they take the manager's lock or call the runner.
use codex_queue_bot.Base.{
  ℕ, Bool, true, false, not, ◌&&◌, ◌||◌, Option, none, some, Text, if◌then◌else◌,
}
use codex_queue_bot.Jobs.State.{Owner, queue, RunResult, Target, Entry, quietly, release_target}
use codex_queue_bot.Jobs.Queue.{
  acquire_target, Claim, refused, claimed, wait, begin_attempt, mark_failure, mark_success,
  mark_queue_cancelled, finish_queue_worker,
}
use codex_queue_bot.Jobs.Keepalive.{
  Turn, give_up, wait_change, go_ahead, check_request, claim_request, finish_request,
  mark_keepalive_cancelled, finish_keepalive_worker, next_turn,
}
use codex_queue_bot.Jobs.Adhoc.{reservation_lost, finish_adhoc}
use codex_queue_bot.Jobs.Manager.{
  Manager, commit, take_slot, release_slot, finish_process, count_process, give_back, broadcast,
}

-- Which run a worker carries out, for which target; its context has the worker's own number.
pub record Run : Type 0 where
  pub key : Text
  pub kind : Owner
  pub run_id : ℕ
  pub context : ℕ

-- Where a worker stands.
pub data Pc : Type 0 where
  -- `run`: acquireQueueTarget, acquire, beginAttempt, the runner, what follows it
  seek_target seek_slot slot_held attempting : Pc
  attempted : RunResult → Pc
  -- `run` after a refused beginAttempt: releaseSlot, releaseTarget
  drop_slot drop_target : Pc
  -- markQueueCancelled, before and after the target was acquired
  queue_cancelled queue_cancelled_owning : Pc
  queue_leaving : Pc  -- finishQueueWorker
  -- `runKeepalive`: the two sections of beginKeepaliveRequest with `acquire` between them
  checking keepalive_waiting keepalive_seek_slot claiming : Pc
  -- releaseSlot, and then a wait or the end
  back_off give_up_slot : Pc
  requesting : Pc
  requested : RunResult → Pc
  resting : Pc  -- waitKeepaliveNext
  keepalive_cancelled keepalive_cancelled_owning : Pc
  keepalive_leaving : Pc  -- finishKeepaliveWorker
  -- `RunAdhoc` after its reservation
  adhoc_seek_slot adhoc_slot_held adhoc_claiming prompting : Pc
  -- finishAdhocRequest, with the flags slotAcquired and processStarted
  adhoc_leaving : (slot process : Bool) → Pc
  gone : Pc

-- What the world brings to a step: the time, what the runner returned, the random delay, and
-- whether a wait ends because its channel was closed although the context is done too.
pub record Input : Type 0 where
  pub now : ℕ
  pub result : RunResult
  pub delay : ℕ
  pub woken : Bool
  pub sanitize : Target → Text → Text

-- `ctx.Err() != nil`
abbrev pub context_done : Manager → Run → Bool
context_done m run = m.root_done || m.cancelled run.context

-- The end of a `select` on the context: `cancelled` if that was what ended it.
select : Bool → Input → Pc → Pc → Pc
select done input cancelled again = if done && not input.woken then cancelled else again

after_claim : Manager → Run → Input → Claim → Pc
unfolding select
after_claim m run input refused = queue_cancelled
after_claim m run input claimed = seek_slot
after_claim m run input wait = select (context_done m run) input queue_cancelled seek_target

after_check : Turn → Pc
after_check give_up = keepalive_cancelled
after_check wait_change = keepalive_waiting
after_check go_ahead = keepalive_seek_slot

after_claim_request : Turn → Pc
after_claim_request give_up = give_up_slot
after_claim_request wait_change = back_off
after_claim_request go_ahead = requesting

count_if_ahead : Turn → Manager → Manager
unfolding count_process
count_if_ahead go_ahead m = count_process m
count_if_ahead _ m = m

after_rest : Manager → Run → Input → Turn → Pc
unfolding select
after_rest m run input give_up = keepalive_cancelled
after_rest m run input go_ahead = checking
after_rest m run input wait_change = select (context_done m run) input keepalive_cancelled resting

-- One round of `acquire`: it takes a slot if there is one, without a look at the context.
seek : Option Manager → Manager → Run → Input → (taken cancelled again : Pc) → Manager × Pc
unfolding select
seek (some after) m run input taken cancelled again = (after, taken)
seek none m run input taken cancelled again = (m, select (context_done m run) input cancelled again)

count_attempt : Option ℕ → Manager → Manager
unfolding count_process
count_attempt none m = m
count_attempt (some _) m = count_process m

after_attempt : Option ℕ → Pc
after_attempt none = drop_slot
after_attempt (some _) = attempting

-- One step of a worker, given the entry of its target.
unfoldable pub work : Input → Manager → Run → Entry → Pc → Manager × Pc
unfolding after_claim after_check after_claim_request count_if_ahead after_rest seek count_attempt
    after_attempt select
work input m run e seek_target =
    let (change, claim) = acquire_target run.run_id e in
    (commit run.key change m, after_claim m run input claim)
work input m run e seek_slot =
    seek (take_slot m) m run input slot_held queue_cancelled_owning seek_slot
work input m run e slot_held =
    let (change, attempt) = begin_attempt run.run_id input.now e in
    (commit run.key change (count_attempt attempt m), after_attempt attempt)
work input m run e attempting = (finish_process m, attempted input.result)
work input m run e (attempted result) =
    let (success_change, _) = mark_success run.run_id input.now e in
    let (failure_change, failed_on) =
      mark_failure run.run_id (input.sanitize e.target result.error) e in
    if result.success
    then (commit run.key success_change m, queue_leaving)
    else if context_done m run
    then (m, queue_cancelled_owning)
    else (commit run.key failure_change m, if failed_on then seek_target else queue_leaving)
work input m run e drop_slot = (release_slot m, drop_target)
work input m run e drop_target =
    (commit run.key (quietly (release_target queue run.run_id e)) m, queue_leaving)
work input m run e queue_cancelled =
    (commit run.key (mark_queue_cancelled run.run_id input.now e) m, queue_leaving)
work input m run e queue_cancelled_owning =
    (commit run.key (mark_queue_cancelled run.run_id input.now e) m, queue_leaving)
work input m run e queue_leaving = (commit run.key (finish_queue_worker e) m, gone)
work input m run e checking =
    let (change, turn) = check_request run.run_id e in (commit run.key change m, after_check turn)
work input m run e keepalive_waiting =
    (m, select (context_done m run) input keepalive_cancelled checking)
work input m run e keepalive_seek_slot =
    seek (take_slot m) m run input claiming keepalive_cancelled keepalive_seek_slot
work input m run e claiming =
    let (change, turn) = claim_request run.run_id input.now e in
    (commit run.key change (count_if_ahead turn m), after_claim_request turn)
work input m run e back_off = (release_slot m, keepalive_waiting)
work input m run e give_up_slot = (release_slot m, keepalive_cancelled)
work input m run e requesting = (finish_process m, requested input.result)
work input m run e (requested result) =
    let (change, going_on) =
      finish_request run.run_id input.now input.delay result.success
        (input.sanitize e.target result.error) e in
    if context_done m run
    then (m, keepalive_cancelled_owning)
    else (commit run.key change m, if going_on then resting else keepalive_leaving)
work input m run e resting = (m, after_rest m run input (next_turn run.run_id input.now e))
work input m run e keepalive_cancelled =
    (commit run.key (mark_keepalive_cancelled run.run_id input.now e) m, keepalive_leaving)
work input m run e keepalive_cancelled_owning =
    (commit run.key (mark_keepalive_cancelled run.run_id input.now e) m, keepalive_leaving)
work input m run e keepalive_leaving = (commit run.key (finish_keepalive_worker e) m, gone)
work input m run e adhoc_seek_slot =
    seek (take_slot m) m run input adhoc_slot_held (adhoc_leaving false false) adhoc_seek_slot
work input m run e adhoc_slot_held =
    (m, if context_done m run then adhoc_leaving true false else adhoc_claiming)
work input m run e adhoc_claiming =
    if reservation_lost run.run_id e
    then (m, adhoc_leaving true false)
    else (broadcast (count_process m), prompting)
work input m run e prompting = (m, adhoc_leaving true true)
work input m run e (adhoc_leaving slot process) =
    (commit run.key (finish_adhoc run.run_id e) (give_back slot process m), gone)
work input m run e gone = (m, gone)
