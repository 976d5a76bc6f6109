-- ===== src/Jobs/Invariant/Move/Runs.antt =====
-- internal/jobs/manager.go: after a step, no two workers have one run, and runs that are over stay so.
use codex_queue_bot.Base.{
  ℕ, ◌≤◌, ◌<◌, ◌≡◌, refl, sym, subst, ◌∙◌, ap, ◌≢◌, inl, inr, true, false, some, arith, Bool-cases,
}
use codex_queue_bot.Jobs.State.{Owner, nobody, queue, keepalive, adhoc, Entry}
use codex_queue_bot.Jobs.Worker.{Run}
use codex_queue_bot.Jobs.System.{Worker, System}
use codex_queue_bot.Jobs.Invariant.Flags.{is_past, is_live, is_on}
use codex_queue_bot.Jobs.Invariant.Totals.{update-ind}
use codex_queue_bot.Jobs.Invariant.Effect.{latest}
use codex_queue_bot.Jobs.Invariant.Global.{Works, At}
use codex_queue_bot.Jobs.Invariant.Move.{Move, after, moved_by, at-cases, here-at}

module _ (s : System) (c : Move s) where
  open c use {v, i, e, e', m', pc', counted, at, step}

  abbrev next : System
  next = after s c

  abbrev moved : Worker
  moved = moved_by s c

  latest_mono : (kind : Owner) → latest kind e s.manager ≤ latest kind e' m'
  latest_mono nobody = omega arith
  latest_mono queue = step.queue_run
  latest_mono keepalive = step.keepalive_run
  latest_mono adhoc = step.adhoc_run

  latest-other : (kind : Owner) (d : Entry) → latest kind d s.manager ≤ latest kind d m'
  latest-other nobody d = omega arith
  latest-other queue d = omega arith
  latest-other keepalive d = omega arith
  latest-other adhoc d = step.adhoc_run

  fresh-here : is_live pc' ≡ true → (s.workers i).run.run_id ≤ latest (s.workers i).run.kind e' m'
  fresh-here live = elim (Bool-cases (is_live (s.workers i).pc)) [
    | inl before ↦
        omega (arith, v.fresh i e (counted, before) at, latest_mono (s.workers i).run.kind)
    | inr dead ↦ (step.begun dead live).1
  ]

  pub fresh-next :
      (j : ℕ) (d : Entry)
      → Works next j
      → At next j d
      → (next.workers j).run.run_id ≤ latest (next.workers j).run.kind d m'
  fresh-next =
      update-ind
        (λ j w.
          (d : Entry)
          → (j < s.spawned) × (is_live w.pc ≡ true)
          → m'.entries w.run.key ≡ some d
          → w.run.run_id ≤ latest w.run.kind d m')
        s.workers i moved
        (λ d works h.
          subst (λ d. (s.workers i).run.run_id ≤ latest (s.workers i).run.kind d m')
            (here-at s c d h) (fresh-here works.1))
        (λ j other d works h. elim (at-cases s c (s.workers j).run d h) [
          | inl (same, eq, before) ↦
              subst (λ d. (s.workers j).run.run_id ≤ latest (s.workers j).run.kind d m') eq
                (omega (arith, v.fresh j e works before, latest_mono (s.workers j).run.kind))
          | inr before ↦
              omega (arith, v.fresh j d works before, latest-other (s.workers j).run.kind d)
        ])

  abbrev pub SameRun : Run → Run → Type 0
  SameRun a b = (a.key ≡ b.key) × ((a.kind ≡ b.kind) × (a.run_id ≡ b.run_id))

  unique-here :
      (j : ℕ)
      → i ≢ j
      → is_live pc' ≡ true
      → Works s j
      → SameRun (s.workers i).run (s.workers j).run
      → i ≡ j
  unique-here j other live works (key, (kind, run_id)) =
      elim (Bool-cases (is_live (s.workers i).pc)) [
        | inl before ↦ v.unique i j (counted, before) works key kind run_id
        | inr dead ↦
            let known = v.fresh j e works (ap s.manager.entries (sym key) ∙ at) in
            absurd (
              omega (
                arith,
                (step.begun dead live).0,
                known,
                run_id,
                ap (λ k. latest k e s.manager) kind,
              ))
      ]

  pub unique-next :
      (j k : ℕ)
      → Works next j
      → Works next k
      → SameRun (next.workers j).run (next.workers k).run
      → j ≡ k
  unique-next =
      update-ind
        (λ j w.
          (k : ℕ)
          → (j < s.spawned) × (is_live w.pc ≡ true)
          → Works next k
          → SameRun w.run (next.workers k).run
          → j ≡ k)
        s.workers i moved
        (update-ind
          (λ k w.
            (i < s.spawned) × (is_live pc' ≡ true)
            → (k < s.spawned) × (is_live w.pc ≡ true)
            → SameRun (s.workers i).run w.run
            → i ≡ k)
          s.workers i moved (λ works works' same. refl)
          (λ k other works works' same. unique-here k other works.1 works' same))
        (λ j other.
          update-ind
            (λ k w.
              (j < s.spawned) × (is_live (s.workers j).pc ≡ true)
              → (k < s.spawned) × (is_live w.pc ≡ true)
              → SameRun (s.workers j).run w.run
              → j ≡ k)
            s.workers i moved
            (λ works works' same.
              sym (unique-here j other works'.1 works (sym same.0, (sym same.1.0, sym same.1.1))))
            (λ k _ works works' same. v.unique j k works works' same.0 same.1.0 same.1.1))

  pub past-next :
      (j : ℕ) (d : Entry)
      → Works next j
      → At next j d
      → is_past (next.workers j).pc ≡ true
      → is_on (next.workers j).run.kind (next.workers j).run.run_id d ≡ false
  past-next =
      update-ind
        (λ j w.
          (d : Entry)
          → (j < s.spawned) × (is_live w.pc ≡ true)
          → m'.entries w.run.key ≡ some d
          → is_past w.pc ≡ true
          → is_on w.run.kind w.run.run_id d ≡ false)
        s.workers i moved
        (λ d works h over.
          subst (λ d. is_on (s.workers i).run.kind (s.workers i).run.run_id d ≡ false)
            (here-at s c d h) (step.past_after over))
        (λ j other d works h over. elim (at-cases s c (s.workers j).run d h) [
          | inl (same, eq, before) ↦
              subst (λ d. is_on (s.workers j).run.kind (s.workers j).run.run_id d ≡ false) eq
                (step.stays_off _ _ (v.fresh j e works before) (v.past j e works before over))
          | inr before ↦ v.past j d works before over
        ])
