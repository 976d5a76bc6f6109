-- ===== src/Jobs/Invariant/Move/Counts.antt =====
-- internal/jobs/manager.go: after a step, slots, processes and workers are counted.
use codex_queue_bot.Base.{
  ℕ, ◌+◌, ◌≤◌, ◌≡◌, refl, subst, ◌∙◌, ◌≢◌, inl, inr, true, Text, some, arith, text_eq, text_eq_iff,
  if◌then◌else◌, Bool-cases,
}
use codex_queue_bot.Jobs.State.{Entry}
use codex_queue_bot.Jobs.Worker.{Pc}
use codex_queue_bot.Jobs.System.{Worker, System}
use codex_queue_bot.Jobs.Invariant.Flags.{queue_worker, keepalive_worker, one_mode}
use codex_queue_bot.Jobs.Invariant.Totals.{total, total-update}
use codex_queue_bot.Jobs.Invariant.Global.{slot_of, process_of, queue_at, keepalive_at}
use codex_queue_bot.Jobs.Invariant.Move.{Move, after, moved_by, lookup-cases}

module _ (s : System) (c : Move s) where
  open c use {v, i, e, e', m', pc', counted, at, step}

  abbrev next : System
  next = after s c

  abbrev moved : Worker
  moved = moved_by s c

  pub slots-next : m'.slots_in_use ≡ total slot_of next.workers s.spawned
  slots-next =
      omega (arith, step.slots, v.slots, total-update slot_of s.workers i s.spawned moved counted)

  pub processes-next : m'.current_processes ≡ total process_of next.workers s.spawned
  processes-next = omega (
    arith,
    step.processes,
    v.processes,
    total-update process_of s.workers i s.spawned moved counted,
  )

  pub capacity-next : m'.slots_in_use ≤ m'.max_parallel
  capacity-next = ground (arith, step.capacity, step.max_parallel, v.capacity)

  -- A count of one target's workers goes with the workers.
  count-here :
      (f : Pc → ℕ) (before now : ℕ)
      → now + f (s.workers i).pc ≡ before + f pc'
      → before
        ≡ total
            (λ w. if text_eq w.run.key (s.workers i).run.key then f w.pc else 0)
            s.workers
            s.spawned
      → now
        ≡ total
            (λ w. if text_eq w.run.key (s.workers i).run.key then f w.pc else 0)
            next.workers
            s.spawned
  count-here f before now change h =
      let change_total =
        total-update (λ w. if text_eq w.run.key (s.workers i).run.key then f w.pc else 0) s.workers
          i s.spawned moved counted in
      let self = (text_eq_iff (s.workers i).run.key (s.workers i).run.key).1 refl in
      ground (arith, change_total, self)

  count-other :
      (f : Pc → ℕ) (key : Text)
      → (s.workers i).run.key ≢ key
      → total (λ w. if text_eq w.run.key key then f w.pc else 0) s.workers s.spawned
        ≡ total (λ w. if text_eq w.run.key key then f w.pc else 0) next.workers s.spawned
  count-other f key differs =
      let change_total =
        total-update (λ w. if text_eq w.run.key key then f w.pc else 0) s.workers i s.spawned moved
          counted in
      elim (Bool-cases (text_eq (s.workers i).run.key key)) [
        | inl same ↦ absurd (differs ((text_eq_iff _ _).0 same))
        | inr apart ↦ ground (arith, change_total, apart)
      ]

  pub queue_counted-next :
      (key : Text) (d : Entry)
      → m'.entries key ≡ some d
      → d.job.workers ≡ total (queue_at key) next.workers s.spawned
  queue_counted-next key d h = elim (lookup-cases s c key d h) [
    | inl (same, eq) ↦
        subst (λ key. d.job.workers ≡ total (queue_at key) next.workers s.spawned) same
          (subst
            (λ d. d.job.workers ≡ total (queue_at (s.workers i).run.key) next.workers s.spawned) eq
            (count-here queue_worker e.job.workers e'.job.workers step.queue_count
              (v.queue_counted _ e at)))
    | inr (differs, before) ↦ v.queue_counted key d before ∙ count-other queue_worker key differs
  ]

  pub keepalive_counted-next :
      (key : Text) (d : Entry)
      → m'.entries key ≡ some d
      → d.keepalive.workers ≡ total (keepalive_at key) next.workers s.spawned
  keepalive_counted-next key d h = elim (lookup-cases s c key d h) [
    | inl (same, eq) ↦
        subst (λ key. d.keepalive.workers ≡ total (keepalive_at key) next.workers s.spawned) same
          (subst
            (λ d.
              d.keepalive.workers
              ≡ total (keepalive_at (s.workers i).run.key) next.workers s.spawned)
            eq
            (count-here keepalive_worker e.keepalive.workers e'.keepalive.workers
              step.keepalive_count (v.keepalive_counted _ e at)))
    | inr (differs, before) ↦
        v.keepalive_counted key d before ∙ count-other keepalive_worker key differs
  ]

  pub modes-next : (key : Text) (d : Entry) → m'.entries key ≡ some d → one_mode d ≡ true
  modes-next key d h = elim (lookup-cases s c key d h) [
    | inl (same, eq) ↦ subst (λ d. one_mode d ≡ true) eq step.one_mode_after
    | inr (differs, before) ↦ v.modes key d before
  ]
