-- ===== src/Jobs/Invariant/Reached.antt =====
-- internal/jobs/manager.go: the states that the manager and its workers reach from a manager as
-- `New` makes it.
use codex_queue_bot.Base.{
  ℕ, zero, suc, ◌≤◌, ◌<◌, ◌≡◌, refl, sym, ◌∙◌, ap, ◌≢◌, Bool-cases, if◌then◌else◌, inl, inr, true,
  false, Text, some, arith, text_eq, text_eq_iff,
}
use codex_queue_bot.Jobs.State.{
  nobody, Entry, KeepaliveState, queue_active, keepalive_active, target_busy, new_job,
  new_keepalive, new_arbiter,
}
use codex_queue_bot.Jobs.Worker.{Run, Pc}
use codex_queue_bot.Jobs.System.{Worker, System, Reach, IsFresh, here, more}
use codex_queue_bot.Jobs.Invariant.Flags.{
  one_if, has_process, has_slot, owns, kind_at, is_live, queue_worker, keepalive_worker, one_mode,
}
use codex_queue_bot.Jobs.Invariant.Totals.{total, le-total}
use codex_queue_bot.Jobs.Invariant.Global.{
  Inv, Works, At, slot_of, process_of, queue_at, keepalive_at,
}
use codex_queue_bot.Jobs.Invariant.Global.Steps.{Step-Inv}

fresh-one_mode :
    (e : Entry)
    → (e.job ≡ new_job) × (e.keepalive ≡ new_keepalive) × (e.arbiter ≡ new_arbiter)
    → one_mode e ≡ true
fresh-one_mode e h = ground (arith, h.0, h.1, h.2)

no_worker : (s : System) → IsFresh s → (i : ℕ) → i < s.spawned → ⊥
no_worker s f i less = absurd (omega (arith, f.no_worker))

fresh-total : (s : System) → IsFresh s → (f : _) → total f s.workers s.spawned ≡ 0
unfolding total
fresh-total s f g = rw f.no_worker

fresh-Inv : (s : System) → IsFresh s → Inv s
fresh-Inv s f = record {
  slots = f.no_slot ∙ sym (fresh-total s f slot_of);
  processes = f.no_process ∙ sym (fresh-total s f process_of);
  capacity = omega (arith, f.no_slot);
  home = λ i works. absurd (no_worker s f i works.0);
  found = λ i works. absurd (no_worker s f i works.0);
  mine = λ i e works at own. absurd (no_worker s f i works.0);
  held = λ key e at. inl (ap (λ a. a.owner) (f.new_entries key e at).2);
  fresh = λ i e works at. absurd (no_worker s f i works.0);
  unique = λ i j works. absurd (no_worker s f i works.0);
  queue_counted = λ key e at.
      ap (λ j. j.workers) (f.new_entries key e at).0 ∙ sym (fresh-total s f (queue_at key));
  keepalive_counted = λ key e at.
      ap (λ j. j.workers) (f.new_entries key e at).1 ∙ sym (fresh-total s f (keepalive_at key));
  modes = λ key e at. fresh-one_mode e (f.new_entries key e at);
  past = λ i e works at over. absurd (no_worker s f i works.0);
}

pub Reach-Inv : (s t : System) → IsFresh s → Reach s t → Inv t
Reach-Inv s t f here = fresh-Inv s f
Reach-Inv s t f (more {t = u} r step) = Step-Inv u t step (Reach-Inv s u f r)

module _ (t : System) (v : Inv t) where
  -- Two workers that own one target are one.
  owner_unique :
      (i j : ℕ)
      → Works t i
      → Works t j
      → owns (t.workers i).pc ≡ true
      → owns (t.workers j).pc ≡ true
      → (t.workers i).run.key ≡ (t.workers j).run.key
      → i ≡ j
  owner_unique i j works works' own own' same =
      let (e, at) = v.found i works in
      let (kind, run_id) = v.mine i e works at own in
      let (kind', run_id') = v.mine j e works' (ap t.manager.entries (sym same) ∙ at) own' in
      v.unique i j works works' same (sym kind ∙ kind') (sym run_id ∙ run_id')

  queue_counts :
      (i : ℕ) (e : Entry) → Works t i → At t i e → queue_worker (t.workers i).pc ≤ e.job.workers
  queue_counts i e works at =
      let key = (t.workers i).run.key in
      ground (
        arith,
        (text_eq_iff key key).1 refl,
        v.queue_counted key e at,
        le-total (queue_at key) t.workers i t.spawned works.0,
      )

  keepalive_counts :
      (i : ℕ) (e : Entry)
      → Works t i
      → At t i e
      → keepalive_worker (t.workers i).pc ≤ e.keepalive.workers
  keepalive_counts i e works at =
      let key = (t.workers i).run.key in
      ground (
        arith,
        (text_eq_iff key key).1 refl,
        v.keepalive_counted key e at,
        le-total (keepalive_at key) t.workers i t.spawned works.0,
      )

process-owns : (pc : Pc) → has_process pc ≡ true → (owns pc ≡ true) × (is_live pc ≡ true)
process-owns pc h = ground arith

-- In every state that the manager reaches, no two workers run a Codex process for the same target.
pub process_unique :
    (s t : System)
    → IsFresh s
    → Reach s t
    → (i j : ℕ) → i < t.spawned
    → j < t.spawned
    → has_process (t.workers i).pc ≡ true
    → has_process (t.workers j).pc ≡ true
    → (t.workers i).run.key ≡ (t.workers j).run.key
    → i ≡ j
process_unique s t f r i j less less' runs runs' same =
    let (own, live) = process-owns (t.workers i).pc runs in
    let (own', live') = process-owns (t.workers j).pc runs' in
    owner_unique t (Reach-Inv s t f r) i j (less, live) (less', live') own own' same

-- In every state that the manager reaches, a target is not in queue mode and in keepalive mode at
-- once, where a mode counts as on as long as a worker of it is there; and no keepalive waits for
-- a queue.
pub modes-exclusive :
    (s t : System)
    → IsFresh s
    → Reach s t
    → (key : Text) (e : Entry) → t.manager.entries key ≡ some e
    → (queue_active e ≡ true → keepalive_active e ≡ true → ⊥)
      × (e.keepalive.state ≢ KeepaliveState.waiting_queue)
modes-exclusive s t f r key e at =
    let mode = (Reach-Inv s t f r).modes key e at in (λ q k. ground arith, λ waits. ground arith)

idle-worker :
    (pc : Pc) (e : Entry) (run : Run)
    → target_busy e ≡ false
    → is_live pc ≡ true
    → kind_at pc ≡ run.kind
    → queue_worker pc ≤ e.job.workers
    → keepalive_worker pc ≤ e.keepalive.workers
    → (owns pc ≡ true → e.arbiter.owner ≡ run.kind)
    → ⊥
idle-worker pc e run idle live home q k own = ground arith

-- In every state that the manager reaches, a target that `targetBusyLocked` takes for idle has no
-- worker left, of whichever kind: each that was started for it is gone.
pub idle-no_worker :
    (s t : System)
    → IsFresh s
    → Reach s t
    → (key : Text) (e : Entry) → t.manager.entries key ≡ some e
    → target_busy e ≡ false
    → (i : ℕ) → i < t.spawned
    → (t.workers i).run.key ≡ key
    → is_live (t.workers i).pc ≡ false
idle-no_worker s t f r key e at idle i less same = elim (Bool-cases (is_live (t.workers i).pc)) [
  | inl live ↦
      let v = Reach-Inv s t f r in
      let works : Works t i = (less, live) in
      let there = ap t.manager.entries same ∙ at in
      absurd (
        idle-worker (t.workers i).pc e (t.workers i).run idle live (v.home i works)
          (queue_counts t v i e works there) (keepalive_counts t v i e works there)
          (λ own. (v.mine i e works there own).0))
  | inr gone_by ↦ gone_by
]

total-none :
    (f : Worker → ℕ) (w : ℕ → Worker) (n : ℕ) → ((i : ℕ) → i < n → f (w i) ≡ 0) → total f w n ≡ 0
unfolding total
total-none f w zero h = refl
total-none f w (suc n) h =
    omega (arith, total-none f w n (λ i less. h i (omega arith)), h n (omega arith))

none_at :
    (f : Pc → ℕ) (key : Text) (w : Worker)
    → f w.pc ≡ 0
    → (if text_eq w.run.key key then f w.pc else 0) ≡ 0
none_at f key w h = ground arith

dead-none : (pc : Pc) → is_live pc ≡ false → (queue_worker pc ≡ 0) × (keepalive_worker pc ≡ 0)
dead-none pc h = ground arith

dead-frees :
    (pc : Pc) → is_live pc ≡ false → (one_if (has_slot pc) ≡ 0) × (one_if (has_process pc) ≡ 0)
dead-frees pc h = ground arith

-- Nothing leaks: in every state that the manager reaches in which all workers are gone, all slots
-- are free, no process is counted, and every target has no worker and no owner.
pub gone-frees :
    (s t : System)
    → IsFresh s
    → Reach s t
    → ((i : ℕ) → i < t.spawned → is_live (t.workers i).pc ≡ false)
    → (t.manager.slots_in_use ≡ 0)
      × (t.manager.current_processes ≡ 0)
      × ((key : Text) (e : Entry)
          → t.manager.entries key ≡ some e
          → (e.job.workers ≡ 0) × (e.keepalive.workers ≡ 0) × (e.arbiter.owner ≡ nobody))
gone-frees s t f r all =
    let v = Reach-Inv s t f r in
    (
      v.slots ∙ total-none slot_of t.workers t.spawned (λ i less. (dead-frees _ (all i less)).0),
      v.processes
          ∙ total-none process_of t.workers t.spawned (λ i less. (dead-frees _ (all i less)).1),
      λ key e at. (
        v.queue_counted key e at
            ∙ total-none (queue_at key) t.workers t.spawned
                (λ i less. none_at queue_worker key (t.workers i) (dead-none _ (all i less)).0),
        v.keepalive_counted key e at
            ∙ total-none (keepalive_at key) t.workers t.spawned
                (λ i less. none_at keepalive_worker key (t.workers i) (dead-none _ (all i less)).1),
        elim (v.held key e at) [
          | inl free ↦ free
          | inr (i, ((less, live), rest)) ↦ absurd (dead (t.workers i).pc live (all i less))
        ],
      ),
    )
  where
    dead : (pc : Pc) → is_live pc ≡ true → is_live pc ≡ false → ⊥
    dead pc h k = cc (h, k)
