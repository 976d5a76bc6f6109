-- ===== src/Jobs/Invariant/Global/Steps.antt =====
-- internal/jobs/manager.go: the steps of the system, and the agreement of the manager with its
-- workers.
use codex_queue_bot.Base.{
  ℕ, suc, ◌≤◌, ◌<◌, ◌≡◌, refl, sym, subst, ◌∙◌, ap, fun_ext, ◌≢◌, inl, inr, Bool, true, false, Text,
  some, arith, Bool-cases, ◌==◌, text_eq, text_eq_iff, if◌then◌else◌, ℕ_discrete,
}
use codex_queue_bot.Jobs.State.{Owner, nobody, queue, keepalive, adhoc, Entry, Change}
use codex_queue_bot.Jobs.Manager.{Manager, commit}
use codex_queue_bot.Jobs.Manager.Targets.{reserve_adhoc, begin_shutdown, ok}
use codex_queue_bot.Jobs.Worker.{Run, Pc, seek_target, checking, adhoc_seek_slot, gone, work, Input}
use codex_queue_bot.Jobs.System.{
  Worker, System, update, advance, spawn, Step, working, calling, starting_queue,
  starting_keepalive, starting_adhoc, shutting_down, cancelling, Section,
}
use codex_queue_bot.Jobs.Invariant.Flags.{owns, kind_at, is_live, queue_worker, keepalive_worker}
use codex_queue_bot.Jobs.Invariant.Local.{Before, Stepped}
use codex_queue_bot.Jobs.Invariant.Local.Queue.{run-LocalStep}
use codex_queue_bot.Jobs.Invariant.Local.Keepalive.{run_keepalive-LocalStep}
use codex_queue_bot.Jobs.Invariant.Local.Adhoc.{run_adhoc-LocalStep}
use codex_queue_bot.Jobs.Invariant.Totals.{total, le-total, update-here, update-other}
use codex_queue_bot.Jobs.Invariant.Effect.{latest, Effect, LocalStep-Effect}
use codex_queue_bot.Jobs.Invariant.Global.{Inv, Works, At, slot_of, process_of, queue_at}
use codex_queue_bot.Jobs.Invariant.Global.Preservation.{effect-Inv}
use codex_queue_bot.Jobs.Invariant.Global.Reserving.{idle-unowned, reserve_adhoc-eq_ok}
use codex_queue_bot.Jobs.Invariant.Global.Counted.{grow-Inv, shrink-Inv}
use codex_queue_bot.Jobs.Invariant.Global.Calls.{
  calling-Effect, starting_queue-Effect, starting_keepalive-Effect, starting_adhoc-Effect,
  queue_run, adhoc_run,
}

kind-queue_worker : (pc : Pc) → kind_at pc ≡ queue → queue_worker pc ≡ 1
kind-queue_worker pc h = ground arith

module _ (s : System) (v : Inv s) (i : ℕ) (works : Works s i) (e : Entry) (at : At s i e) where
  abbrev run : Run
  run = (s.workers i).run

  abbrev pc : Pc
  pc = (s.workers i).pc

  count-le :
      (f : Pc → ℕ) (all : ℕ)
      → all ≡ total (λ w. if text_eq w.run.key run.key then f w.pc else 0) s.workers s.spawned
      → f pc ≤ all
  count-le f all h =
      let self = (text_eq_iff run.key run.key).1 refl in
      let le =
        le-total (λ w. if text_eq w.run.key run.key then f w.pc else 0) s.workers i s.spawned
          works.0 in
      ground (arith, self, le)

  not_mine-Inv :
      owns pc ≡ false → e.arbiter.owner ≡ run.kind → e.arbiter.owner_run_id ≡ run.run_id → ⊥
  not_mine-Inv apart kind run_id = elim (v.held run.key e at) [
    | inl free ↦ kind_lives pc works.1 (v.home i works ∙ sym kind ∙ free)
    | inr (j, (works', (same, own))) ↦
        let (kind', run_id') = v.mine j e works' (ap s.manager.entries same ∙ at) own in
        let eq = v.unique i j works works' (sym same) (sym kind ∙ kind') (sym run_id ∙ run_id') in
        cc (apart, own, ap (λ k. owns (s.workers k).pc) eq)
  ]
    where
      kind_lives : (pc : Pc) → is_live pc ≡ true → kind_at pc ≢ nobody
      kind_lives pc h = ground arith

  queue_owner-Inv : e.arbiter.owner ≡ queue → 0 < e.job.workers
  queue_owner-Inv h = elim (v.held run.key e at) [
    | inl free ↦ cc
    | inr (j, (works', (same, own))) ↦
        let (kind', _) = v.mine j e works' (ap s.manager.entries same ∙ at) own in
        let one = kind-queue_worker (s.workers j).pc (v.home j works' ∙ sym kind' ∙ h) in
        let le = le-total (queue_at run.key) s.workers j s.spawned works'.0 in
        let self = (text_eq_iff (s.workers j).run.key run.key).1 same in
        ground (arith, one, le, self, v.queue_counted run.key e at)
  ]

  pub Inv-Before : Before run s.manager e pc
  Inv-Before = record {
    entry = at;
    home = v.home i works;
    mine = v.mine i e works at;
    not_mine = not_mine-Inv;
    queue_counted = count-le queue_worker e.job.workers (v.queue_counted run.key e at);
    keepalive_counted =
        count-le keepalive_worker e.keepalive.workers (v.keepalive_counted run.key e at);
    slot_counted = omega (arith, v.slots, le-total slot_of s.workers i s.spawned works.0);
    process_counted = omega (arith, v.processes, le-total process_of s.workers i s.spawned works.0);
    past = v.past i e works at;
    one_mode_before = v.modes run.key e at;
    queue_owner = queue_owner-Inv;
  }

-- Every step of a worker, whatever its kind.
pub work-LocalStep :
    (input : Input) (run : Run) (m : Manager) (e : Entry) (pc : Pc) (kind : Owner)
    → Before run m e pc
    → is_live pc ≡ true
    → kind_at pc ≡ kind
    → Stepped input run m e pc
work-LocalStep input run m e pc nobody b live h = absurd (kind_lives pc live h)
  where
    kind_lives : (pc : Pc) → is_live pc ≡ true → kind_at pc ≢ nobody
    kind_lives pc h = ground arith
work-LocalStep input run m e pc queue b live h = run-LocalStep input run m e pc b h
work-LocalStep input run m e pc keepalive b live h = run_keepalive-LocalStep input run m e pc b h
work-LocalStep input run m e pc adhoc b live h = run_adhoc-LocalStep input run m e pc b h

pub is_gone : (pc : Pc) → is_live pc ≡ false → pc ≡ gone
is_gone pc h = ground arith

pub work-gone :
    (input : Input) (run : Run) (m : Manager) (e : Entry) → work input m run e gone ≡ (m, gone)
unfolding work
work-gone input _ m e = refl

workers-update-same : (w : ℕ → Worker) (i : ℕ) (a : Worker) → w i ≡ a → update w i a ≡ w
workers-update-same w i a h = fun_ext (λ j. at j)
  where
    at : (j : ℕ) → update w i a j ≡ w j
    at j = elim (ℕ_discrete i j) [
      | yes same ↦ subst (λ k. update w i a k ≡ w k) same (update-here w i a ∙ sym h)
      | no other ↦ update-other w i j a other
    ]

advance-gone : (s : System) (i : ℕ) → (s.workers i).pc ≡ gone → advance s i s.manager gone ≡ s
advance-gone s i h =
    let same =
      workers-update-same s.workers i (record { run = (s.workers i).run; pc = gone })
        (λ k. record { run = (s.workers i).run; pc = h k }) in
    λ k. record { manager = s.manager; spawned = s.spawned; workers = same k }

working-Inv :
    (s : System) (v : Inv s) (i : ℕ) (input : Input) (e : Entry)
    → i < s.spawned
    → At s i e
    → let (m, pc) = work input s.manager (s.workers i).run e (s.workers i).pc in
      Inv (advance s i m pc)
working-Inv s v i input e counted at = elim (Bool-cases (is_live (s.workers i).pc)) [
  | inl live ↦
      let step =
        work-LocalStep input (s.workers i).run s.manager e (s.workers i).pc _
          (Inv-Before s v i (counted, live) e at) live refl in
      effect-Inv s (record {
        v = v;
        i = i;
        e = e;
        e' = step.after;
        m' = (work input s.manager (s.workers i).run e (s.workers i).pc).0;
        pc' = (work input s.manager (s.workers i).run e (s.workers i).pc).1;
        counted = counted;
        at = at;
        step = LocalStep-Effect _ _ _ _ _ _ step live;
      })
  | inr dead ↦
      let idle = is_gone (s.workers i).pc dead in
      subst (λ (next : Manager × Pc). Inv (advance s i next.0 next.1))
        (sym (
          ap (work input s.manager (s.workers i).run e) idle
          ∙ work-gone input (s.workers i).run s.manager e))
        (subst Inv (sym (advance-gone s i idle)) v)
]

-- A step that starts a worker: it is counted as gone first.
module _ (s : System) (run : Run) (m' : Manager) (pc' : Pc) where
  abbrev unborn : Worker
  unborn = record { run = run; pc = gone }

  abbrev enlarged : System
  enlarged = spawn s s.manager run gone

  enlarged-here : enlarged.workers s.spawned ≡ unborn
  enlarged-here = update-here s.workers s.spawned unborn

  enlarged-Inv : Inv s → Inv enlarged
  enlarged-Inv =
      grow-Inv s.manager s.spawned s.workers enlarged.workers
        (λ j less. sym (update-other s.workers s.spawned j unborn (λ eq. absurd (omega arith))))
        (ap (λ w. w.pc) enlarged-here)

  spawn-advance : advance enlarged s.spawned m' pc' ≡ spawn s m' run pc'
  spawn-advance = λ k. record { manager = m'; spawned = suc s.spawned; workers = fun_ext at k }
    where
      at : (j : ℕ) → (advance enlarged s.spawned m' pc').workers j ≡ (spawn s m' run pc').workers j
      at j = elim (Bool-cases (s.spawned == j)) [
        | inl same ↦ rw same (ap (λ w. record { run = w.run; pc = pc' }) enlarged-here)
        | inr other ↦ rw other
      ]

  spawning-Inv :
      Inv s
      → (e e' : Entry) → s.manager.entries run.key ≡ some e
      → Effect run s.manager m' e e' gone pc'
      → Inv (spawn s m' run pc')
  spawning-Inv v e e' at step = subst Inv spawn-advance (
      effect-Inv enlarged (record {
        v = enlarged-Inv v;
        i = s.spawned;
        e = e;
        e' = e';
        m' = m';
        pc' = pc';
        counted = omega arith;
        at = ap (λ w. s.manager.entries w.run.key) enlarged-here ∙ at;
        step = subst (λ w. Effect w.run s.manager m' e e' w.pc pc') (sym enlarged-here) step;
      }))

-- A section that a caller runs is a step of a worker that was never there.
calling-Inv :
    (s : System) (v : Inv s) (key : Text) (e : Entry) (change : Change)
    → s.manager.entries key ≡ some e
    → Section s.manager.shutting_down e change
    → Inv (record s { manager = commit key change s.manager })
calling-Inv s v key e change at section =
    let run = queue_run key e 0 in
    let m' = commit key change s.manager in
    let after =
      spawning-Inv s run m' gone v e change.entry at
        (calling-Effect run s.manager e change section (v.modes key e at)) in
    shrink-Inv m' s.spawned s.workers (spawn s m' run gone).workers
      (λ j less. sym (update-other s.workers s.spawned j _ (λ eq. absurd (omega arith))))
      (ap (λ w. w.pc) (update-here s.workers s.spawned (unborn s run m' gone))) after

latest-same :
    (kind : Owner) (e : Entry) (m : Manager) (root shutting : Bool) (cancelled : ℕ → Bool)
    → latest kind e (record m { root_done = root; shutting_down = shutting; cancelled = cancelled })
      ≡ latest kind e m
latest-same nobody e m root shutting cancelled = refl
latest-same _ e m root shutting cancelled = refl

-- Neither contexts nor the shutdown flag matter to the agreement.
cancelling-Inv :
    (s : System) (v : Inv s) (root shutting : Bool) (cancelled : ℕ → Bool)
    → Inv (record s {
      manager = record s.manager {
        root_done = root;
        shutting_down = shutting;
        cancelled = cancelled;
      };
    })
cancelling-Inv s v root shutting cancelled = record {
  slots = v.slots;
  processes = v.processes;
  capacity = v.capacity;
  home = v.home;
  found = v.found;
  mine = v.mine;
  held = v.held;
  fresh = λ i e works at. omega (
    arith,
    v.fresh i e works at,
    latest-same (s.workers i).run.kind e s.manager root shutting cancelled,
  );
  unique = v.unique;
  queue_counted = v.queue_counted;
  keepalive_counted = v.keepalive_counted;
  modes = v.modes;
  past = v.past;
}

begin_shutdown-same :
    (m : Manager)
    → begin_shutdown m ≡ record m {
      root_done = m.root_done;
      shutting_down = (begin_shutdown m).shutting_down;
      cancelled = (begin_shutdown m).cancelled;
    }
unfolding begin_shutdown
begin_shutdown-same m = ground arith

shutting_down-Inv : (s : System) (v : Inv s) → Inv (record s { manager = begin_shutdown s.manager })
shutting_down-Inv s v =
    subst (λ m. Inv (record s { manager = m })) (sym (begin_shutdown-same s.manager))
      (cancelling-Inv s v s.manager.root_done _ _)

starting_adhoc-Inv :
    (s : System) (v : Inv s) (id : ℕ) (m : Manager) (key : Text) (run_id : ℕ)
    → reserve_adhoc s.spawned id s.manager ≡ (m, ok (key, run_id))
    → Inv (spawn s m (adhoc_run key run_id s.spawned) adhoc_seek_slot)
starting_adhoc-Inv s v id m key run_id h =
    let (e, (at, (idle, (number, after)))) =
      reserve_adhoc-eq_ok s.spawned id run_id key s.manager m h in
    subst (λ n. Inv (spawn s m (adhoc_run key n s.spawned) adhoc_seek_slot)) (sym number)
      (subst
        (λ m.
          Inv
            (spawn s m (adhoc_run key (suc s.manager.next_adhoc_run_id) s.spawned) adhoc_seek_slot))
        (sym after)
        (spawning-Inv s _ _ adhoc_seek_slot v e _ at (
          starting_adhoc-Effect key s.spawned e s.manager (v.modes key e at)
            (idle-unowned e idle))))

-- Every step of the system keeps the agreement.
pub Step-Inv : (s t : System) → Step s t → Inv s → Inv t
Step-Inv s t (working i input e counted at) v = working-Inv s v i input e counted at
Step-Inv s t (calling key e change at section) v = calling-Inv s v key e change at section
Step-Inv s t (starting_queue key e subscriber now open_now at h) v =
    spawning-Inv s _ _ seek_target v e _ at
      (starting_queue-Effect key subscriber s.spawned now e s.manager (v.modes key e at) h)
Step-Inv s t (starting_keepalive key e now open_now at h) v =
    spawning-Inv s _ _ checking v e _ at
      (starting_keepalive-Effect key s.spawned now e s.manager (v.modes key e at) h)
Step-Inv s t (starting_adhoc id m key run_id h) v = starting_adhoc-Inv s v id m key run_id h
Step-Inv s t shutting_down v = shutting_down-Inv s v
Step-Inv s t (cancelling root cancelled r c) v =
    cancelling-Inv s v root s.manager.shutting_down cancelled
