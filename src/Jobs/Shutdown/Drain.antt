-- ===== src/Jobs/Shutdown/Drain.antt =====
-- internal/jobs/manager.go: the workers after `BeginShutdown`, once their contexts are done.
use codex_queue_bot.Base.{
  ℕ, suc, ◌+◌, ◌==◌, ap, if◌then◌else◌, ℕ_discrete, ◌≤◌, ◌<◌, ◌≡◌, ◌≢◌, refl, inl, inr, true, false,
  Text, some, arith, Option-cases,
}
use codex_queue_bot.Jobs.State.{Entry}
use codex_queue_bot.Jobs.Manager.{Manager}
use codex_queue_bot.Jobs.Manager.Targets.{reserve_adhoc, ok, key_by_id}
use codex_queue_bot.Jobs.Worker.{Pc, Input, work, context_done}
use codex_queue_bot.Jobs.System.{
  Worker, System, update, advance, Step, working, calling, starting_queue, starting_keepalive,
  starting_adhoc, shutting_down, cancelling,
}
use codex_queue_bot.Jobs.Invariant.Flags.{is_live}
use codex_queue_bot.Jobs.Invariant.Totals.{
  total, total-update, update-ind, update-here, update-other,
}
use codex_queue_bot.Jobs.Shutdown.Contexts.{
  Persists, commit-Persists, begin_shutdown-Persists, work-Persists, context_done-Persists,
}
use codex_queue_bot.Jobs.Shutdown.Rank.{rank, work-rank}

abbrev pub rank_of : Worker → ℕ
rank_of w = rank w.pc

-- How many steps the workers take at most until they are gone.
abbrev pub work_left : System → ℕ
work_left s = total rank_of s.workers s.spawned

-- No run starts any more, and the context of every worker that is there is done.
pub record IsClosing (s : System) : Type 0 where
  pub refusing : s.manager.shutting_down ≡ true
  pub done :
      (i : ℕ)
      → i < s.spawned
      → is_live (s.workers i).pc ≡ true
      → context_done s.manager (s.workers i).run ≡ true

-- A step of the callers or of the world.
abbrev pub IsOther : {s t : System} → Step s t → Type 0
IsOther (working i input e less at) = ⊥
IsOther _ = Unit

-- A run of the system in which the waits of workers end by their contexts, with the number of steps
-- of its workers.
pub data Drains : System → ℕ → System → Type 0 where
  drained : {s : System} → Drains s 0 s
  worked :
      {s t : System} {n : ℕ} (i : ℕ) (input : Input) (e : Entry)
      → i < s.spawned
      → s.manager.entries (s.workers i).run.key ≡ some e
      → is_live (s.workers i).pc ≡ true
      → input.woken ≡ false
      → Drains
          (let (m, pc) = work input s.manager (s.workers i).run e (s.workers i).pc in
            advance s i m pc)
          n
          t
      → Drains s (suc n) t
  between : {s t u : System} {n : ℕ} (step : Step s u) → IsOther step → Drains u n t → Drains s n t

-- How many of its steps are those of one worker.
pub steps_of : {s t : System} {n : ℕ} → ℕ → Drains s n t → ℕ
steps_of j drained = 0
steps_of j (worked i input e less at live unwoken d) =
    let rest = steps_of j d in if i == j then suc rest else rest
steps_of j (between step o d) = steps_of j d

reserve_adhoc-refuses :
    (context id : ℕ) (m m' : Manager) (key : Text) (run_id : ℕ)
    → m.shutting_down ≡ true
    → reserve_adhoc context id m ≡ (m', ok (key, run_id))
    → ⊥
unfolding reserve_adhoc
reserve_adhoc-refuses context id m m' key run_id off h =
    elim (Option-cases (key_by_id m.entries id m.order)) [
      | inl missing ↦ ground arith
      | inr (found, at) ↦ elim (Option-cases (m.entries found)) [
        | inl missing ↦ ground arith
        | inr (e, there) ↦ ground arith
      ]
    ]

-- The workers stay as they are, and no context comes back to life.
persisting-IsClosing :
    (s : System) (m : Manager)
    → Persists s.manager m
    → IsClosing s
    → IsClosing (record s { manager = m })
persisting-IsClosing s m p c = record {
  refusing = p.shutting c.refusing;
  done = λ i less live. context_done-Persists s.manager m (s.workers i).run p (c.done i less live);
}

other-IsClosing :
    (s t : System) (step : Step s t)
    → IsOther step
    → IsClosing s
    → IsClosing t × (t.workers ≡ s.workers) × (work_left t ≡ work_left s)
other-IsClosing s t (working i input e less at) o c = absurd o
other-IsClosing s t (calling key e change at section) o c =
    (persisting-IsClosing s _ (commit-Persists s.manager key change) c, refl, refl)
other-IsClosing s t (starting_queue key e subscriber now open_now at h) o c =
    absurd (ground (arith, c.refusing))
other-IsClosing s t (starting_keepalive key e now open_now at h) o c =
    absurd (ground (arith, c.refusing))
other-IsClosing s t (starting_adhoc id m key run_id h) o c =
    absurd (reserve_adhoc-refuses s.spawned id s.manager m key run_id c.refusing h)
other-IsClosing s t shutting_down o c =
    (persisting-IsClosing s _ (begin_shutdown-Persists s.manager) c, refl, refl)
other-IsClosing s t (cancelling root cancelled r k) o c =
    (persisting-IsClosing s _ (record { root = r; contexts = k; shutting = λ h. h }) c, refl, refl)

pub worked-IsClosing :
    (s : System) (i : ℕ) (m : Manager) (pc : Pc)
    → Persists s.manager m
    → is_live (s.workers i).pc ≡ true
    → i < s.spawned
    → IsClosing s
    → IsClosing (advance s i m pc)
worked-IsClosing s i m pc p was counted c = record {
  refusing = p.shutting c.refusing;
  done =
      update-ind (λ j w. j < s.spawned → is_live w.pc ≡ true → context_done m w.run ≡ true)
        s.workers i (record { run = (s.workers i).run; pc = pc })
        (λ less live. context_done-Persists s.manager m (s.workers i).run p (c.done i counted was))
        (λ j other less live.
          context_done-Persists s.manager m (s.workers j).run p (c.done j less live));
}

pub worked-left :
    (s : System) (i : ℕ) (m : Manager) (pc : Pc)
    → i < s.spawned
    → rank pc < rank (s.workers i).pc
    → work_left (advance s i m pc) < work_left s
worked-left s i m pc less down = omega (
  arith,
  total-update rank_of s.workers i s.spawned (record { run = (s.workers i).run; pc = pc }) less,
)

-- However the system goes on: its workers take no more steps than were left.
pub drains_bound :
    {s t : System} {n : ℕ}
    → Drains s n t
    → IsClosing s
    → IsClosing t × (n + work_left t ≤ work_left s)
drains_bound drained c = (c, omega arith)
drains_bound (worked {s} {t} {n} i input e less at live unwoken d) c =
    let (m, pc) = work input s.manager (s.workers i).run e (s.workers i).pc in
    let down : rank pc < rank (s.workers i).pc =
      work-rank input s.manager (s.workers i).run e (c.done i less live) unwoken (s.workers i).pc
        live in
    let p = work-Persists input s.manager (s.workers i).run e (s.workers i).pc in
    let (c', left) = drains_bound d (worked-IsClosing s i m pc p live less c) in
    (c', omega (arith, left, worked-left s i m pc less down))
drains_bound (between {s} {t} {u} step o d) c =
    let (c', workers, same) = other-IsClosing s u step o c in
    let (c'', left) = drains_bound d c' in (c'', omega (arith, left, same))

-- A step of one worker is paid by its own rank, and by no other's.
advanced_by :
    (s : System) (i j : ℕ) (m : Manager) (pc : Pc) (taken left : ℕ)
    → rank pc < rank (s.workers i).pc
    → taken + left ≤ rank_of ((advance s i m pc).workers j)
    → (if i == j then suc taken else taken) + left ≤ rank_of (s.workers j)
advanced_by s i j m pc taken left down below = elim (ℕ_discrete i j) [
  | yes same ↦ omega (
    arith,
    down,
    below,
    ap (λ k. rank_of (update s.workers i there k)) same,
    ap rank_of (update-here s.workers i there),
    ap (λ k. rank_of (s.workers k)) same,
    counted.0,
  )
  | no other ↦
      omega (arith, below, ap rank_of (update-other s.workers i j there other), counted.1 other)
]
  where
    counted :
        ((if i == j then suc taken else taken) ≤ suc taken)
        × (i ≢ j → (if i == j then suc taken else taken) ≤ taken)
    counted = (ground arith, λ other. ground arith)

    there : Worker
    there = record { run = (s.workers i).run; pc = pc }

-- Each worker takes no more steps than its own way to the end is long.
pub steps_of-bound :
    {s t : System} {n : ℕ} (j : ℕ) (d : Drains s n t)
    → IsClosing s
    → steps_of j d + rank_of (t.workers j) ≤ rank_of (s.workers j)
unfolding steps_of
steps_of-bound j drained c = omega arith
steps_of-bound j (worked {s} {t} {n} i input e less at live unwoken d) c =
    let (m, pc) = work input s.manager (s.workers i).run e (s.workers i).pc in
    let down : rank pc < rank (s.workers i).pc =
      work-rank input s.manager (s.workers i).run e (c.done i less live) unwoken (s.workers i).pc
        live in
    let p = work-Persists input s.manager (s.workers i).run e (s.workers i).pc in
    let below = steps_of-bound j d (worked-IsClosing s i m pc p live less c) in
    advanced_by s i j m pc (steps_of j d) (rank_of (t.workers j)) down below
steps_of-bound j (between {s} {t} {u} step o d) c =
    let (c', workers, same) = other-IsClosing s u step o c in
    omega (arith, steps_of-bound j d c', ap (λ (w : ℕ → Worker). rank_of (w j)) workers)
