-- ===== src/Jobs/Shutdown/Contexts.antt =====
-- internal/jobs/manager.go: contexts that are done, and the flag `shuttingDown`, from state to state.
use codex_queue_bot.Base.{
  ℕ, ◌≡◌, refl, ap, ◌∙◌, inl, inr, Bool, true, false, some, Text, arith, Bool-cases, Option-cases,
}
use codex_queue_bot.Jobs.State.{Entry, Change}
use codex_queue_bot.Jobs.Manager.{
  Manager, commit, broadcast, take_slot, release_slot, finish_process, count_process, give_back,
}
use codex_queue_bot.Jobs.Manager.Targets.{begin_shutdown}
use codex_queue_bot.Jobs.Worker.{
  Run, Pc, Input, work, context_done, seek_target, seek_slot, slot_held, attempting, attempted,
  drop_slot, drop_target, queue_cancelled, queue_cancelled_owning, queue_leaving, checking,
  keepalive_waiting, keepalive_seek_slot, claiming, back_off, give_up_slot, requested, resting,
  keepalive_cancelled, keepalive_cancelled_owning, keepalive_leaving, adhoc_seek_slot,
  adhoc_slot_held, adhoc_claiming, prompting, adhoc_leaving, gone,
}
use codex_queue_bot.Jobs.Invariant.Local.Keepalive.{Turn-cases}
use codex_queue_bot.Jobs.Adhoc.{reservation_lost}
use codex_queue_bot.Jobs.Queue.{begin_attempt}
use codex_queue_bot.Jobs.Keepalive.{claim_request}

-- No context comes back to life, and the flag stays as it is.
pub record Persists (m m' : Manager) : Type 0 where
  pub root : m.root_done ≡ true → m'.root_done ≡ true
  pub contexts : (context : ℕ) → m.cancelled context ≡ true → m'.cancelled context ≡ true
  pub shutting : m.shutting_down ≡ true → m'.shutting_down ≡ true

pub same-Persists :
    (m m' : Manager)
    → m'.root_done ≡ m.root_done
    → m'.cancelled ≡ m.cancelled
    → m'.shutting_down ≡ m.shutting_down
    → Persists m m'
same-Persists m m' r c s = record {
  root = λ h. r ∙ h;
  contexts = λ context h. ap (λ f. f context) c ∙ h;
  shutting = λ h. s ∙ h;
}

pub commit-Persists :
    (m : Manager) (key : Text) (change : Change) → Persists m (commit key change m)
unfolding commit broadcast
commit-Persists m key change = elim (Bool-cases change.broadcast) [
  | inl told ↦
      rw told (record { root = λ h. h; contexts = λ context h. ground arith; shutting = λ h. h })
  | inr quiet ↦
      rw quiet (record { root = λ h. h; contexts = λ context h. ground arith; shutting = λ h. h })
]

trans-Persists : (a b c : Manager) → Persists a b → Persists b c → Persists a c
trans-Persists a b c p q = record {
  root = λ h. q.root (p.root h);
  contexts = λ context h. q.contexts context (p.contexts context h);
  shutting = λ h. q.shutting (p.shutting h);
}

pub context_done-Persists :
    (m m' : Manager) (run : Run)
    → Persists m m'
    → context_done m run ≡ true
    → context_done m' run ≡ true
context_done-Persists m m' run p h = ground (arith, p.root, p.contexts run.context)

give_back-Persists : (m : Manager) (slot process : Bool) → Persists m (give_back slot process m)
unfolding give_back finish_process release_slot broadcast
give_back-Persists m true true = same-Persists _ _ refl refl refl
give_back-Persists m true false = same-Persists _ _ refl refl refl
give_back-Persists m false true = same-Persists _ _ refl refl refl
give_back-Persists m false false = same-Persists _ _ refl refl refl

pub begin_shutdown-Persists : (m : Manager) → Persists m (begin_shutdown m)
unfolding begin_shutdown
begin_shutdown-Persists m = elim (Bool-cases m.shutting_down) [
  | inl on ↦ rw on (same-Persists _ _ refl refl refl)
  | inr off ↦
      rw off (record { root = λ h. h; contexts = λ context h. ground arith; shutting = λ h. refl })
]

module _ (input : Input) (m : Manager) (run : Run) (e : Entry) where
  taken : (m' : Manager) → take_slot m ≡ some m' → Persists m m'
  unfolding take_slot
  taken m' h = same-Persists m m' (ground arith) (ground arith) (ground arith)

  counted : (change : Change) → Persists m (commit run.key change (count_process m))
  unfolding count_process
  counted change =
      trans-Persists m (count_process m) _ (same-Persists m (count_process m) refl refl refl)
        (commit-Persists (count_process m) run.key change)

  pub work-Persists : (pc : Pc) → Persists m (work input m run e pc).0
  unfolding work finish_process release_slot broadcast count_process
  work-Persists seek_target = commit-Persists m run.key _
  work-Persists seek_slot = elim (Option-cases (take_slot m)) [
    | inl full ↦ rw full (same-Persists m m refl refl refl)
    | inr (m', h) ↦ rw h (taken m' h)
  ]
  work-Persists slot_held = elim (Option-cases (begin_attempt run.run_id input.now e).1) [
    | inl over ↦ rw over (commit-Persists m run.key _)
    | inr (attempt, on) ↦ rw on (counted _)
  ]
  work-Persists attempting = same-Persists m (finish_process m) refl refl refl
  work-Persists (attempted result) = elim (Bool-cases result.success) [
    | inl good ↦ rw good (commit-Persists m run.key _)
    | inr bad ↦ rw bad (elim (Bool-cases (context_done m run)) [
      | inl done ↦ rw done (same-Persists m m refl refl refl)
      | inr alive ↦ rw alive (commit-Persists m run.key _)
    ])
  ]
  work-Persists drop_slot = same-Persists m (release_slot m) refl refl refl
  work-Persists drop_target = commit-Persists m run.key _
  work-Persists queue_cancelled = commit-Persists m run.key _
  work-Persists queue_cancelled_owning = commit-Persists m run.key _
  work-Persists queue_leaving = commit-Persists m run.key _
  work-Persists checking = commit-Persists m run.key _
  work-Persists keepalive_waiting = same-Persists m m refl refl refl
  work-Persists keepalive_seek_slot = elim (Option-cases (take_slot m)) [
    | inl full ↦ rw full (same-Persists m m refl refl refl)
    | inr (m', h) ↦ rw h (taken m' h)
  ]
  work-Persists claiming = elim (Turn-cases (claim_request run.run_id input.now e).1) [
    | inl ahead ↦ rw ahead (counted _)
    | inr (inl over) ↦ rw over (commit-Persists m run.key _)
    | inr (inr busy) ↦ rw busy (commit-Persists m run.key _)
  ]
  work-Persists back_off = same-Persists m (release_slot m) refl refl refl
  work-Persists give_up_slot = same-Persists m (release_slot m) refl refl refl
  work-Persists Pc.requesting = same-Persists m (finish_process m) refl refl refl
  work-Persists (requested result) = elim (Bool-cases (context_done m run)) [
    | inl done ↦ rw done (same-Persists m m refl refl refl)
    | inr alive ↦ rw alive (commit-Persists m run.key _)
  ]
  work-Persists resting = same-Persists m m refl refl refl
  work-Persists keepalive_cancelled = commit-Persists m run.key _
  work-Persists keepalive_cancelled_owning = commit-Persists m run.key _
  work-Persists keepalive_leaving = commit-Persists m run.key _
  work-Persists adhoc_seek_slot = elim (Option-cases (take_slot m)) [
    | inl full ↦ rw full (same-Persists m m refl refl refl)
    | inr (m', h) ↦ rw h (taken m' h)
  ]
  work-Persists adhoc_slot_held = same-Persists m m refl refl refl
  work-Persists adhoc_claiming = elim (Bool-cases (reservation_lost run.run_id e)) [
    | inl lost ↦ rw lost (same-Persists m m refl refl refl)
    | inr held ↦ rw held (same-Persists m (broadcast (count_process m)) refl refl refl)
  ]
  work-Persists prompting = same-Persists m m refl refl refl
  work-Persists (adhoc_leaving slot process) =
      trans-Persists m (give_back slot process m) _ (give_back-Persists m slot process)
        (commit-Persists (give_back slot process m) run.key _)
  work-Persists gone = same-Persists m m refl refl refl
