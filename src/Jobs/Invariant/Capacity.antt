-- ===== src/Jobs/Invariant/Capacity.antt =====
-- internal/jobs/manager.go: the processes that the manager counts, against its slots.
use codex_queue_bot.Base.{ℕ, zero, suc, ◌≤◌, ◌<◌, ◌≡◌, sym, subst, ◌≢◌, arith, ℕ_discrete}
use codex_queue_bot.Jobs.State.{Entry}
use codex_queue_bot.Jobs.Manager.{Manager}
use codex_queue_bot.Jobs.Worker.{Run, Pc, work, Input, seek_target}
use codex_queue_bot.Jobs.System.{
  Worker, System, Step, Reach, IsFresh, working, calling, starting_queue, starting_keepalive,
  starting_adhoc, shutting_down, cancelling, here, more, update,
}
use codex_queue_bot.Jobs.Invariant.Flags.{one_if, has_process, has_slot}
use codex_queue_bot.Jobs.Invariant.Totals.{total, update-here, update-other}
use codex_queue_bot.Jobs.Invariant.Global.{slot_of, process_of}
use codex_queue_bot.Jobs.Invariant.Reached.{Reach-Inv}

-- A process runs only in a slot.
abbrev Paired : Pc → Type 0
Paired pc = one_if (has_process pc) ≤ one_if (has_slot pc)

work-Paired :
    (input : Input) (run : Run) (m : Manager) (e : Entry) (pc : Pc)
    → Paired (work input m run e pc).1
unfolding work
work-Paired input run m e seek_target = ground arith
work-Paired input run m e _ = ground arith

abbrev AllPaired : System → Type 0
AllPaired s = (i : ℕ) → i < s.spawned → Paired (s.workers i).pc

update-Paired :
    (w : ℕ → Worker) (i : ℕ) (a : Worker) (j : ℕ)
    → Paired a.pc
    → (i ≢ j → Paired (w j).pc)
    → Paired (update w i a j).pc
update-Paired w i a j h k = elim (ℕ_discrete i j) [
  | yes same ↦
      subst (λ j. Paired (update w i a j).pc) same
        (subst (λ w. Paired w.pc) (sym (update-here w i a)) h)
  | no other ↦ subst (λ w. Paired w.pc) (sym (update-other w i j a other)) (k other)
]

Step-AllPaired : (s t : System) → Step s t → AllPaired s → AllPaired t
Step-AllPaired s t (working i input e counted at) h j less =
    update-Paired s.workers i _ j (work-Paired input (s.workers i).run s.manager e (s.workers i).pc)
      (λ other. h j less)
Step-AllPaired s t (calling key e change at section) h j less = h j less
Step-AllPaired s t (starting_queue key e subscriber now open_now at started) h j less =
    update-Paired s.workers s.spawned _ j (omega arith) (λ other. h j (omega arith))
Step-AllPaired s t (starting_keepalive key e now open_now at started) h j less =
    update-Paired s.workers s.spawned _ j (omega arith) (λ other. h j (omega arith))
Step-AllPaired s t (starting_adhoc id m key run_id started) h j less =
    update-Paired s.workers s.spawned _ j (omega arith) (λ other. h j (omega arith))
Step-AllPaired s t shutting_down h j less = h j less
Step-AllPaired s t (cancelling root cancelled r c) h j less = h j less

Reach-AllPaired : (s t : System) → IsFresh s → Reach s t → AllPaired t
Reach-AllPaired s t f here = λ j less. absurd (omega (arith, f.no_worker))
Reach-AllPaired s t f (more {t = u} r step) = Step-AllPaired u t step (Reach-AllPaired s u f r)

total-le :
    (f g : Worker → ℕ) (w : ℕ → Worker) (n : ℕ)
    → ((i : ℕ) → i < n → f (w i) ≤ g (w i))
    → total f w n ≤ total g w n
unfolding total
total-le f g w zero h = omega arith
total-le f g w (suc n) h =
    omega (arith, total-le f g w n (λ i less. h i (omega arith)), h n (omega arith))

-- In every state that the manager reaches with its settings as they are at the start,
-- `currentProcesses` is the number of the workers that run a Codex process and `slotsInUse` the
-- number of those that hold a slot; there are at most as many processes as slots in use, and at
-- most `maxParallel` slots in use.
pub processes-le-max_parallel :
    (s t : System)
    → IsFresh s
    → Reach s t
    → (t.manager.current_processes ≡ total (λ w. one_if (has_process w.pc)) t.workers t.spawned)
      × (t.manager.slots_in_use ≡ total (λ w. one_if (has_slot w.pc)) t.workers t.spawned)
      × (t.manager.current_processes ≤ t.manager.slots_in_use)
      × (t.manager.slots_in_use ≤ t.manager.max_parallel)
processes-le-max_parallel s t f r =
    let v = Reach-Inv s t f r in
    let le = total-le process_of slot_of t.workers t.spawned (Reach-AllPaired s t f r) in
    (v.processes, v.slots, omega (arith, v.processes, v.slots, le), v.capacity)
