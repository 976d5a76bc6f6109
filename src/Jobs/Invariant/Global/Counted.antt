-- ===== src/Jobs/Invariant/Global/Counted.antt =====
-- internal/jobs/manager.go: workers that are gone, in the sums over the workers.
use codex_queue_bot.Base.{
  ℕ, suc, ◌+◌, ◌≤◌, ◌<◌, ◌≡◌, refl, sym, subst, ◌∙◌, ap, ap₂, zero, ◌≢◌, inl, inr, true, false,
  Text, arith, ℕ_discrete, some,
}
use codex_queue_bot.Jobs.State.{Entry}
use codex_queue_bot.Jobs.Manager.{Manager}
use codex_queue_bot.Jobs.Worker.{Run, gone}
use codex_queue_bot.Jobs.System.{Worker, System}
use codex_queue_bot.Jobs.Invariant.Flags.{owns, kind_at, is_past, is_live, is_on}
use codex_queue_bot.Jobs.Invariant.Totals.{total}
use codex_queue_bot.Jobs.Invariant.Effect.{latest}
use codex_queue_bot.Jobs.Invariant.Global.{Inv, Works, slot_of, process_of, queue_at, keepalive_at}

total-agree :
    (f : Worker → ℕ) (w u : ℕ → Worker) (n : ℕ)
    → ((j : ℕ) → j < n → w j ≡ u j)
    → total f w n ≡ total f u n
unfolding total
total-agree f w u zero h = refl
total-agree f w u (suc n) h =
    ap₂ (λ a b. a + f b) (total-agree f w u n (λ j small. h j (omega arith))) (h n (omega arith))

-- The same workers do the work in two systems with the same manager.
module _ (s t : System) (same : s.manager ≡ t.manager)
    (back : (j : ℕ) → Works t j → Works s j × (s.workers j ≡ t.workers j))
    (forth : (j : ℕ) → Works s j → Works t j × (s.workers j ≡ t.workers j))
    (totals : (f : Worker → ℕ)
      → ((run : Run) → f (record { run = run; pc = gone }) ≡ 0)
      → total f s.workers s.spawned ≡ total f t.workers t.spawned) where
  entry_back :
      (key : Text) (e : Entry) → t.manager.entries key ≡ some e → s.manager.entries key ≡ some e
  entry_back key e h = ap (λ m. m.entries key) same ∙ h

  pub transfer-Inv : Inv s → Inv t
  transfer-Inv v = record {
    slots = sym (ap (λ m. m.slots_in_use) same) ∙ v.slots ∙ totals slot_of (λ run. refl);
    processes =
        sym (ap (λ m. m.current_processes) same) ∙ v.processes ∙ totals process_of (λ run. refl);
    capacity = subst (λ m. m.slots_in_use ≤ m.max_parallel) same v.capacity;
    home = λ j works.
        let (before, eq) = back j works in
        subst (λ w. kind_at w.pc ≡ w.run.kind) eq (v.home j before);
    found = λ j works.
        let (before, eq) = back j works in
        subst (λ w. (e : Entry) × (t.manager.entries w.run.key ≡ some e)) eq
          (subst (λ m. (e : Entry) × (m.entries (s.workers j).run.key ≡ some e)) same
            (v.found j before));
    mine = λ j e works at.
        let (before, eq) = back j works in
        subst
          (λ w.
            owns w.pc ≡ true
            → (e.arbiter.owner ≡ w.run.kind) × (e.arbiter.owner_run_id ≡ w.run.run_id))
          eq (v.mine j e before (entry_back _ e (ap (λ w. t.manager.entries w.run.key) eq ∙ at)));
    held = λ key e at. elim (v.held key e (entry_back key e at)) [
      | inl free ↦ inl free
      | inr (j, (works, rest)) ↦
          let (after, eq) = forth j works in
          inr (j, (after, subst (λ w. (w.run.key ≡ key) × (owns w.pc ≡ true)) eq rest))
    ];
    fresh = λ j e works at.
        let (before, eq) = back j works in
        subst (λ w. w.run.run_id ≤ latest w.run.kind e t.manager) eq
          (subst (λ m. (s.workers j).run.run_id ≤ latest (s.workers j).run.kind e m) same
            (v.fresh j e before (entry_back _ e (ap (λ w. t.manager.entries w.run.key) eq ∙ at))));
    unique = λ j k works works' key kind run_id.
        let (before, eq) = back j works in
        let (before', eq') = back k works' in
        v.unique j k before before' (ap (λ w. w.run.key) eq ∙ key ∙ sym (ap (λ w. w.run.key) eq'))
          (ap (λ w. w.run.kind) eq ∙ kind ∙ sym (ap (λ w. w.run.kind) eq'))
          (ap (λ w. w.run.run_id) eq ∙ run_id ∙ sym (ap (λ w. w.run.run_id) eq'));
    queue_counted = λ key e at.
        v.queue_counted key e (entry_back key e at) ∙ totals (queue_at key) (λ run. ground arith);
    keepalive_counted = λ key e at.
        v.keepalive_counted key e (entry_back key e at)
        ∙ totals (keepalive_at key) (λ run. ground arith);
    modes = λ key e at. v.modes key e (entry_back key e at);
    past = λ j e works at.
        let (before, eq) = back j works in
        subst (λ w. is_past w.pc ≡ true → is_on w.run.kind w.run.run_id e ≡ false) eq
          (v.past j e before (entry_back _ e (ap (λ w. t.manager.entries w.run.key) eq ∙ at)));
  }

-- One more worker that is gone.
module _ (m : Manager) (n : ℕ) (w u : ℕ → Worker) (agree : (j : ℕ) → j < n → w j ≡ u j)
    (last : (u n).pc ≡ gone) where
  abbrev small : System
  small = record { manager = m; spawned = n; workers = w }

  abbrev large : System
  large = record { manager = m; spawned = suc n; workers = u }

  not_last : (j : ℕ) → Works large j → j < n
  not_last j works = elim (ℕ_discrete j n) [
    | yes eq ↦ absurd (dead (subst (λ j. is_live (u j).pc ≡ true) eq works.1))
    | no apart ↦ omega (arith, works.0)
  ]
    where
      dead : is_live (u n).pc ≢ true
      dead = rw last (λ h. cc)

  back : (j : ℕ) → Works large j → Works small j × (w j ≡ u j)
  back j works =
      let less = not_last j works in
      ((less, ap (λ w. is_live w.pc) (agree j less) ∙ works.1), agree j less)

  forth : (j : ℕ) → Works small j → Works large j × (w j ≡ u j)
  forth j works = (
    (omega (arith, works.0), sym (ap (λ w. is_live w.pc) (agree j works.0)) ∙ works.1),
    agree j works.0,
  )

  totals :
      (f : Worker → ℕ)
      → ((run : Run) → f (record { run = run; pc = gone }) ≡ 0)
      → total f w n ≡ total f u (suc n)
  unfolding total
  totals f h = omega (
    arith,
    total-agree f w u n agree,
    h (u n).run,
    ap (λ pc. f (record { run = (u n).run; pc = pc })) last,
  )

  pub grow-Inv : Inv small → Inv large
  grow-Inv = transfer-Inv small large refl back forth totals

  pub shrink-Inv : Inv large → Inv small
  shrink-Inv =
      transfer-Inv large small refl (λ j works. let (after, eq) = forth j works in (after, sym eq))
        (λ j works. let (before, eq) = back j works in (before, sym eq)) (λ f h. sym (totals f h))
