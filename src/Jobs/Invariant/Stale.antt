-- ===== src/Jobs/Invariant/Stale.antt =====
-- internal/jobs/manager.go: a worker whose run is over, or was replaced by a later one.
use codex_queue_bot.Base.{
  ℕ, ◌≡◌, refl, ap, ◌∙◌, ◌⊎◌, inl, inr, Bool, false, none, some, Text, arith, Bool-cases,
  Option-cases, text_eq_refl,
}
use codex_queue_bot.Jobs.State.{
  Owner, nobody, queue, keepalive, adhoc, Entry, Change, release_target,
}
use codex_queue_bot.Jobs.Queue.{
  acquire_target, begin_attempt, mark_failure, mark_success, mark_queue_cancelled,
  finish_queue_worker,
}
use codex_queue_bot.Jobs.Keepalive.{
  check_request, claim_request, finish_request, give_up, mark_keepalive_cancelled,
  finish_keepalive_worker,
}
use codex_queue_bot.Jobs.Adhoc.{finish_adhoc, reservation_lost}
use codex_queue_bot.Jobs.Manager.{
  Manager, commit, broadcast, take_slot, release_slot, finish_process, count_process, give_back,
}
use codex_queue_bot.Jobs.Worker.{
  Run, Pc, Input, work, context_done, seek_target, seek_slot, slot_held, attempting, attempted,
  drop_slot, drop_target, queue_cancelled, queue_cancelled_owning, queue_leaving, checking,
  keepalive_waiting, keepalive_seek_slot, claiming, back_off, give_up_slot, requested, resting,
  keepalive_cancelled, keepalive_cancelled_owning, keepalive_leaving, adhoc_seek_slot,
  adhoc_slot_held, adhoc_claiming, prompting, adhoc_leaving, gone,
}
use codex_queue_bot.Jobs.Invariant.Flags.{kind_at, is_on}

-- The entry differs at most in how many workers are there and, where the run of this kind and number
-- owned the target, in its arbiter.
pub record Spares (kind : Owner) (run_id : ℕ) (e e' : Entry) : Type 0 where
  pub target : e'.target ≡ e.target
  pub job : record e'.job { workers = 0 } ≡ record e.job { workers = 0 }
  pub keepalive_job : record e'.keepalive { workers = 0 } ≡ record e.keepalive { workers = 0 }
  pub arbiter :
      (e'.arbiter ≡ e.arbiter) ⊎ ((e.arbiter.owner ≡ kind) × (e.arbiter.owner_run_id ≡ run_id))

-- What a step leaves of the entry of its target.
abbrev pub Leaves : Owner → ℕ → Text → Entry → Manager → Type 0
Leaves kind run_id key e m = (e' : Entry) × (m.entries key ≡ some e') × Spares kind run_id e e'

same-Spares : (kind : Owner) (run_id : ℕ) (e : Entry) → Spares kind run_id e e
same-Spares kind run_id e = record {
  target = refl;
  job = refl;
  keepalive_job = refl;
  arbiter = inl refl;
}

released-Spares :
    (kind : Owner) (run_id : ℕ) (e : Entry) → Spares kind run_id e (release_target kind run_id e)
released-Spares kind run_id e = ground arith

committed :
    (kind : Owner) (run_id : ℕ) (key : Text) (e : Entry) (change : Change) (m : Manager)
    → Spares kind run_id e change.entry
    → Leaves kind run_id key e (commit key change m)
unfolding commit broadcast
committed kind run_id key e change m s = elim (Bool-cases change.broadcast) [
  | inl told ↦ rw told (change.entry, rw (text_eq_refl key) refl, s)
  | inr quiet ↦ rw quiet (change.entry, rw (text_eq_refl key) refl, s)
]

module _ (run_id now : ℕ) (e : Entry) (over : is_on queue run_id e ≡ false) where
  acquire_target-Spares : Spares queue run_id e (acquire_target run_id e).0.entry
  unfolding acquire_target
  acquire_target-Spares = ground arith

  begin_attempt-Spares : Spares queue run_id e (begin_attempt run_id now e).0.entry
  unfolding begin_attempt
  begin_attempt-Spares = ground arith

  mark_failure-Spares : (text : Text) → Spares queue run_id e (mark_failure run_id text e).0.entry
  unfolding mark_failure
  mark_failure-Spares text = ground arith

  mark_success-Spares : Spares queue run_id e (mark_success run_id now e).0.entry
  unfolding mark_success
  mark_success-Spares = ground arith

  mark_queue_cancelled-Spares : Spares queue run_id e (mark_queue_cancelled run_id now e).entry
  unfolding mark_queue_cancelled
  mark_queue_cancelled-Spares = ground arith

finish_queue_worker-Spares :
    (kind : Owner) (run_id : ℕ) (e : Entry) → Spares kind run_id e (finish_queue_worker e).entry
unfolding finish_queue_worker
finish_queue_worker-Spares kind run_id e = ground arith

module _ (run_id now : ℕ) (e : Entry) (over : is_on keepalive run_id e ≡ false) where
  check_request-Spares : Spares keepalive run_id e (check_request run_id e).0.entry
  unfolding check_request
  check_request-Spares = ground arith

  claim_request-Spares : Spares keepalive run_id e (claim_request run_id now e).0.entry
  unfolding claim_request
  claim_request-Spares = ground arith

  finish_request-Spares :
      (delay : ℕ) (success : Bool) (text : Text)
      → Spares keepalive run_id e (finish_request run_id now delay success text e).0.entry
  unfolding finish_request
  finish_request-Spares delay success text = ground arith

  mark_keepalive_cancelled-Spares :
      Spares keepalive run_id e (mark_keepalive_cancelled run_id now e).entry
  unfolding mark_keepalive_cancelled
  mark_keepalive_cancelled-Spares = ground arith

finish_keepalive_worker-Spares :
    (kind : Owner) (run_id : ℕ) (e : Entry) → Spares kind run_id e (finish_keepalive_worker e).entry
unfolding finish_keepalive_worker
finish_keepalive_worker-Spares kind run_id e = ground arith

counted :
    (kind : Owner) (run_id : ℕ) (key : Text) (e : Entry) (m : Manager)
    → Leaves kind run_id key e m
    → Leaves kind run_id key e (count_process m)
unfolding count_process
counted kind run_id key e m l = l

module _ (input : Input) (m : Manager) (run : Run) (e : Entry)
    (at : m.entries run.key ≡ some e) where
  -- A step that does not write to the table.
  stays :
      (kind : Owner) (m' : Manager) → m'.entries ≡ m.entries → Leaves kind run.run_id run.key e m'
  stays kind m' same = (e, ap (λ entries. entries run.key) same ∙ at, same-Spares kind run.run_id e)

  taken :
      (kind : Owner) (m' : Manager) → take_slot m ≡ some m' → Leaves kind run.run_id run.key e m'
  unfolding take_slot
  taken kind m' h = stays kind m' (ground arith)

  writes :
      (kind : Owner) (change : Change)
      → Spares kind run.run_id e change.entry
      → Leaves kind run.run_id run.key e (commit run.key change m)
  writes kind change s = committed kind run.run_id run.key e change m s

  attempt_refused :
      is_on queue run.run_id e ≡ false → (begin_attempt run.run_id input.now e).1 ≡ none
  unfolding begin_attempt
  attempt_refused over = ground arith

  request_refused :
      is_on keepalive run.run_id e ≡ false → (claim_request run.run_id input.now e).1 ≡ give_up
  unfolding claim_request
  request_refused over = ground arith

  -- Whatever a worker does whose run is over, because it was stopped, ended or replaced by a later
  -- run, it leaves the target and both tasks as they are, but for the counts of workers that are
  -- there, and it touches the arbiter only where its own run owns the target.
  pub stale_step-Spares :
      (pc : Pc)
      → is_on (kind_at pc) run.run_id e ≡ false
      → Leaves (kind_at pc) run.run_id run.key e (work input m run e pc).0
  unfolding work release_slot finish_process broadcast finish_adhoc
  stale_step-Spares seek_target over = writes queue _ (acquire_target-Spares run.run_id 0 e over)
  stale_step-Spares seek_slot over = elim (Option-cases (take_slot m)) [
    | inl full ↦ rw full (stays queue m refl)
    | inr (m', h) ↦ rw h (taken queue m' h)
  ]
  stale_step-Spares slot_held over =
      rw (attempt_refused over) (writes queue _ (begin_attempt-Spares run.run_id input.now e over))
  stale_step-Spares attempting over = stays queue (finish_process m) refl
  stale_step-Spares (attempted result) over = elim (Bool-cases result.success) [
    | inl good ↦ rw good (writes queue _ (mark_success-Spares run.run_id input.now e over))
    | inr bad ↦ rw bad (elim (Bool-cases (context_done m run)) [
      | inl done ↦ rw done (stays queue m refl)
      | inr alive ↦ rw alive (
          writes queue _
            (mark_failure-Spares run.run_id 0 e over (input.sanitize e.target result.error)))
    ])
  ]
  stale_step-Spares drop_slot over = stays queue (release_slot m) refl
  stale_step-Spares drop_target over = writes queue _ (released-Spares queue run.run_id e)
  stale_step-Spares queue_cancelled over =
      writes queue _ (mark_queue_cancelled-Spares run.run_id input.now e over)
  stale_step-Spares queue_cancelled_owning over =
      writes queue _ (mark_queue_cancelled-Spares run.run_id input.now e over)
  stale_step-Spares queue_leaving over =
      writes queue _ (finish_queue_worker-Spares queue run.run_id e)
  stale_step-Spares checking over = writes keepalive _ (check_request-Spares run.run_id 0 e over)
  stale_step-Spares keepalive_waiting over = stays keepalive m refl
  stale_step-Spares keepalive_seek_slot over = elim (Option-cases (take_slot m)) [
    | inl full ↦ rw full (stays keepalive m refl)
    | inr (m', h) ↦ rw h (taken keepalive m' h)
  ]
  stale_step-Spares claiming over =
      rw (request_refused over)
        (writes keepalive _ (claim_request-Spares run.run_id input.now e over))
  stale_step-Spares back_off over = stays keepalive (release_slot m) refl
  stale_step-Spares give_up_slot over = stays keepalive (release_slot m) refl
  stale_step-Spares Pc.requesting over = stays keepalive (finish_process m) refl
  stale_step-Spares (requested result) over = elim (Bool-cases (context_done m run)) [
    | inl done ↦ rw done (stays keepalive m refl)
    | inr alive ↦ rw alive (
        writes keepalive _ (
          finish_request-Spares run.run_id input.now e over input.delay result.success
            (input.sanitize e.target result.error)))
  ]
  stale_step-Spares resting over = stays keepalive m refl
  stale_step-Spares keepalive_cancelled over =
      writes keepalive _ (mark_keepalive_cancelled-Spares run.run_id input.now e over)
  stale_step-Spares keepalive_cancelled_owning over =
      writes keepalive _ (mark_keepalive_cancelled-Spares run.run_id input.now e over)
  stale_step-Spares keepalive_leaving over =
      writes keepalive _ (finish_keepalive_worker-Spares keepalive run.run_id e)
  stale_step-Spares adhoc_seek_slot over = elim (Option-cases (take_slot m)) [
    | inl full ↦ rw full (stays adhoc m refl)
    | inr (m', h) ↦ rw h (taken adhoc m' h)
  ]
  stale_step-Spares adhoc_slot_held over = stays adhoc m refl
  stale_step-Spares adhoc_claiming over = elim (Bool-cases (reservation_lost run.run_id e)) [
    | inl lost ↦ rw lost (stays adhoc m refl)
    | inr held ↦ rw held (counted adhoc run.run_id run.key e m (stays adhoc m refl))
  ]
  stale_step-Spares prompting over = stays adhoc m refl
  stale_step-Spares (adhoc_leaving slot process) over =
      committed adhoc run.run_id run.key e _ (give_back slot process m)
        (released-Spares adhoc run.run_id e)
  stale_step-Spares gone over = stays nobody m refl
