-- ===== src/Jobs/Invariant/Move/Owners.antt =====
-- internal/jobs/manager.go: after a step, a worker that owns a target is the owner that the arbiter knows.
use codex_queue_bot.Base.{ℕ, ◌<◌, ◌≡◌, sym, subst, ◌∙◌, ◌≢◌, inl, inr, true, some, arith}
use codex_queue_bot.Jobs.State.{nobody, Entry}
use codex_queue_bot.Jobs.Worker.{Pc}
use codex_queue_bot.Jobs.System.{Worker, System}
use codex_queue_bot.Jobs.Invariant.Flags.{owns, kind_at, is_live}
use codex_queue_bot.Jobs.Invariant.Totals.{update-ind}
use codex_queue_bot.Jobs.Invariant.Global.{Works, At}
use codex_queue_bot.Jobs.Invariant.Move.{
  owns-live, Move, after, moved_by, lookup-next, at-cases, here-at,
}

live-kind : (pc : Pc) → is_live pc ≡ true → kind_at pc ≢ nobody
live-kind pc h = ground arith

module _ (s : System) (c : Move s) where
  open c use {v, i, e, e', m', pc', counted, at, step}

  abbrev next : System
  next = after s c

  abbrev moved : Worker
  moved = moved_by s c

  pub home-next : (j : ℕ) → Works next j → kind_at (next.workers j).pc ≡ (next.workers j).run.kind
  home-next =
      update-ind (λ j w. (j < s.spawned) × (is_live w.pc ≡ true) → kind_at w.pc ≡ w.run.kind)
        s.workers i moved (λ works. ground (arith, step.home)) (λ j other works. v.home j works)

  pub found-next : (j : ℕ) → Works next j → (d : Entry) × At next j d
  found-next =
      update-ind
        (λ j w.
          (j < s.spawned) × (is_live w.pc ≡ true) → (d : Entry) × (m'.entries w.run.key ≡ some d))
        s.workers i moved (λ works. lookup-next s c _ e at)
        (λ j other works. let (d, h) = v.found j works in lookup-next s c _ d h)

  -- Two workers that own one target are one.
  owners-agree :
      (j : ℕ)
      → Works s j
      → owns (s.workers j).pc ≡ true
      → s.manager.entries (s.workers j).run.key ≡ some e
      → (s.workers i).run.key ≡ (s.workers j).run.key
      → owns (s.workers i).pc ≡ true
      → i ≡ j
  owners-agree j works o h same own =
      let live = owns-live (s.workers i).pc own in
      let (ki, ri) = v.mine i e (counted, live) at own in
      let (kj, rj) = v.mine j e works h o in
      v.unique i j (counted, live) works same (sym ki ∙ kj) (sym ri ∙ rj)

  mine-other :
      (j : ℕ)
      → i ≢ j
      → Works s j
      → owns (s.workers j).pc ≡ true
      → s.manager.entries (s.workers j).run.key ≡ some e
      → (s.workers i).run.key ≡ (s.workers j).run.key
      → (e'.arbiter.owner ≡ (s.workers j).run.kind)
        × (e'.arbiter.owner_run_id ≡ (s.workers j).run.run_id)
  mine-other j other works o h same =
      let (kj, rj) = v.mine j e works h o in
      elim step.owner [
        | inl (kept, kept_run, _) ↦ (kept ∙ kj, kept_run ∙ rj)
        | inr (inl (free, _, _, _)) ↦
            absurd (live-kind (s.workers j).pc works.1 (v.home j works ∙ sym kj ∙ free))
        | inr (inr (own, _, _)) ↦ absurd (other (owners-agree j works o h same own))
      ]

  mine-here :
      is_live pc' ≡ true
      → owns pc' ≡ true
      → (e'.arbiter.owner ≡ (s.workers i).run.kind)
        × (e'.arbiter.owner_run_id ≡ (s.workers i).run.run_id)
  mine-here live own = elim step.owner [
    | inl (kept, kept_run, same) ↦
        let before = sym same ∙ own in
        let (k, r) = v.mine i e (counted, owns-live _ before) at before in (kept ∙ k, kept_run ∙ r)
    | inr (inl (_, taken, taken_run, _)) ↦ (taken, taken_run)
    | inr (inr (_, _, lost)) ↦ cc
  ]

  pub mine-next :
      (j : ℕ) (d : Entry)
      → Works next j
      → At next j d
      → owns (next.workers j).pc ≡ true
      → (d.arbiter.owner ≡ (next.workers j).run.kind)
        × (d.arbiter.owner_run_id ≡ (next.workers j).run.run_id)
  mine-next =
      update-ind
        (λ j w.
          (d : Entry)
          → (j < s.spawned) × (is_live w.pc ≡ true)
          → m'.entries w.run.key ≡ some d
          → owns w.pc ≡ true
          → (d.arbiter.owner ≡ w.run.kind) × (d.arbiter.owner_run_id ≡ w.run.run_id))
        s.workers i moved
        (λ d works h own.
          subst
            (λ d.
              (d.arbiter.owner ≡ (s.workers i).run.kind)
              × (d.arbiter.owner_run_id ≡ (s.workers i).run.run_id))
            (here-at s c d h) (mine-here works.1 own))
        (λ j other d works h own. elim (at-cases s c (s.workers j).run d h) [
          | inl (same, eq, before) ↦
              subst
                (λ d.
                  (d.arbiter.owner ≡ (s.workers j).run.kind)
                  × (d.arbiter.owner_run_id ≡ (s.workers j).run.run_id))
                eq (mine-other j other works own before same)
          | inr before ↦ v.mine j d works before own
        ])
