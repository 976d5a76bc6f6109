-- ===== src/Jobs/Shutdown/Ending.antt =====
-- internal/jobs/manager.go: `Wait` after `BeginShutdown`, where every context is done.
use codex_queue_bot.Base.{
  ℕ, zero, suc, ◌*◌, ◌≤◌, ◌<◌, ◌≡◌, refl, sym, ◌⊎◌, inl, inr, true, false, [], arith, Bool-cases,
  subst, ℕ_discrete, if◌then◌else◌,
}
use codex_queue_bot.Jobs.Worker.{Input, work}
use codex_queue_bot.Jobs.System.{Worker, System, advance, working, Reach, IsFresh, more}
use codex_queue_bot.Jobs.Invariant.Flags.{is_live}
use codex_queue_bot.Jobs.Invariant.Totals.{total, le-total}
use codex_queue_bot.Jobs.Invariant.Reached.{Reach-Inv, gone-frees}
use codex_queue_bot.Jobs.Shutdown.Contexts.{work-Persists}
use codex_queue_bot.Jobs.Shutdown.Rank.{rank, rank_bound, rank_live, rank_gone, work-rank}
use codex_queue_bot.Jobs.Shutdown.Drain.{
  rank_of, work_left, IsClosing, Drains, drained, worked, worked-IsClosing, worked-left,
  drains_bound, steps_of, steps_of-bound,
}

-- How many workers are there.
abbrev pub live_workers : System → ℕ
live_workers s = total (λ (w : Worker). if is_live w.pc then 1 else 0) s.workers s.spawned

total_rank_bound :
    (w : ℕ → Worker) (n : ℕ)
    → total rank_of w n ≤ 9 * total (λ (one : Worker). if is_live one.pc then 1 else 0) w n
unfolding total
total_rank_bound w zero = omega arith
total_rank_bound w (suc n) = elim (Bool-cases (is_live (w n).pc)) [
  | inl live ↦ rw live (omega (arith, total_rank_bound w n, rank_bound (w n).pc))
  | inr dead ↦ rw dead (omega (arith, total_rank_bound w n, rank_gone (w n).pc dead))
]

live_workers-le :
    (w : ℕ → Worker) (n : ℕ) → total (λ (one : Worker). if is_live one.pc then 1 else 0) w n ≤ n
unfolding total
live_workers-le w zero = omega arith
live_workers-le w (suc n) = ground (arith, live_workers-le w n)

-- Once no run starts any more and all contexts are done, each worker takes at most nine steps,
-- whatever else happens in between, if the waits of the workers end by their contexts. All of them
-- together take at most nine times as many steps as there are workers then, and those that are gone
-- do not count.
pub drains-le :
    {s t : System} {n : ℕ} (d : Drains s n t)
    → IsClosing s
    → ((j : ℕ) → steps_of j d ≤ 9) × (n ≤ 9 * live_workers s)
drains-le {s} d c =
    let (c', left) = drains_bound d c in
    (
      λ j. omega (arith, steps_of-bound j d c, rank_bound (s.workers j).pc),
      omega (arith, left, total_rank_bound s.workers s.spawned),
    )

-- A worker that is there, or none.
find_live :
    (s : System) (n : ℕ)
    → ((i : ℕ) × (i < n) × (is_live (s.workers i).pc ≡ true))
      ⊎ ((i : ℕ) → i < n → is_live (s.workers i).pc ≡ false)
find_live s zero = inr (λ i less. absurd (omega arith))
find_live s (suc n) = elim (Bool-cases (is_live (s.workers n).pc)) [
  | inl live ↦ inl (n, omega arith, live)
  | inr dead ↦ elim (find_live s n) [
    | inl (i, less, live) ↦ inl (i, omega arith, live)
    | inr none_before ↦ inr (λ i less. elim (ℕ_discrete i n) [
      | yes here ↦ subst (λ j. is_live (s.workers j).pc ≡ false) (sym here) dead
      | no other ↦ none_before i (omega arith)
    ])
  ]
]

abbrev pub AllGone : System → Type 0
AllGone s = (i : ℕ) → i < s.spawned → is_live (s.workers i).pc ≡ false

abbrev idle_input : Input
idle_input = record {
  now = 0;
  result = record { success = false; error = [] };
  delay = 0;
  woken = false;
  sanitize = λ target text. text;
}

no_work-AllGone : (s : System) → work_left s ≤ 0 → AllGone s
no_work-AllGone s none_left i less = elim (Bool-cases (is_live (s.workers i).pc)) [
  | inl live ↦
      absurd (
        omega (arith, le-total rank_of s.workers i s.spawned less, rank_live (s.workers i).pc live))
  | inr dead ↦ dead
]

drain :
    (fuel : ℕ) (s t : System)
    → IsFresh s
    → Reach s t
    → IsClosing t
    → work_left t ≤ fuel
    → (n : ℕ) × (u : System) × Drains t n u × Reach s u × AllGone u
drain zero s t f r c enough = (0, t, drained, r, no_work-AllGone t enough)
drain (suc fuel) s t f r c enough = elim (find_live t t.spawned) [
  | inr all ↦ (0, t, drained, r, all)
  | inl (i, less, live) ↦
      let (e, at) = (Reach-Inv s t f r).found i (less, live) in
      let (m, pc) = work idle_input t.manager (t.workers i).run e (t.workers i).pc in
      let down : rank pc < rank (t.workers i).pc =
        work-rank idle_input t.manager (t.workers i).run e (c.done i less live) refl
          (t.workers i).pc live in
      let p = work-Persists idle_input t.manager (t.workers i).run e (t.workers i).pc in
      let (n, u, d, r', all) =
        drain fuel s (advance t i m pc) f (more r (working i idle_input e less at))
          (worked-IsClosing t i m pc p live less c)
          (omega (arith, enough, worked-left t i m pc less down)) in
      (suc n, u, worked i idle_input e less at live refl d, r', all)
]

-- From every state that the manager reaches in which no run starts any more and all contexts are
-- done, the workers can go on until all of them are gone, in at most nine steps each, and so in at
-- most nine times as many as have ever started; then all slots are free, and no process is counted.
pub shutdown_ends :
    (s t : System)
    → IsFresh s
    → Reach s t
    → IsClosing t
    → (n : ℕ) × (u : System) × (d : Drains t n u) × ((j : ℕ) → steps_of j d ≤ 9)
      × (n ≤ 9 * t.spawned)
      × AllGone u
      × (u.manager.slots_in_use ≡ 0)
      × (u.manager.current_processes ≡ 0)
shutdown_ends s t f r c =
    let (n, u, d, r', all) = drain (work_left t) s t f r c (omega arith) in
    let free = gone-frees s u f r' all in
    let (each, together) = drains-le d c in
    (
      n,
      u,
      d,
      each,
      omega (arith, together, live_workers-le t.workers t.spawned),
      all,
      free.0,
      free.1,
    )
