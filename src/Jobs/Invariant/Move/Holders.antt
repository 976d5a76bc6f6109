-- ===== src/Jobs/Invariant/Move/Holders.antt =====
-- internal/jobs/manager.go: after a step, the owner that an arbiter knows is a worker.
use codex_queue_bot.Base.{
  ℕ, ◌<◌, ◌≡◌, refl, sym, subst, ◌∙◌, ap, ◌≢◌, ◌⊎◌, inl, inr, true, Text, some, ℕ_discrete,
}
use codex_queue_bot.Jobs.State.{nobody, Entry}
use codex_queue_bot.Jobs.System.{Worker, System}
use codex_queue_bot.Jobs.Invariant.Flags.{owns, is_live}
use codex_queue_bot.Jobs.Invariant.Totals.{update-here, update-other}
use codex_queue_bot.Jobs.Invariant.Global.{Works}
use codex_queue_bot.Jobs.Invariant.Move.{owns-live, Move, after, moved_by, lookup-cases}

module _ (s : System) (c : Move s) where
  open c use {v, i, e, e', m', pc', counted, at, step}

  abbrev next : System
  next = after s c

  abbrev moved : Worker
  moved = moved_by s c

  abbrev pub Holder : ℕ → Text → Type 0
  Holder j key =
      Works next j × (((next.workers j).run.key ≡ key) × (owns (next.workers j).pc ≡ true))

  Holder-here : (key : Text) → (s.workers i).run.key ≡ key → owns pc' ≡ true → Holder i key
  Holder-here key same own =
      subst
        (λ w. ((i < s.spawned) × (is_live w.pc ≡ true)) × ((w.run.key ≡ key) × (owns w.pc ≡ true)))
        (sym (update-here s.workers i moved)) ((counted, owns-live pc' own), (same, own))

  Holder-other :
      (j : ℕ) (key : Text)
      → i ≢ j
      → Works s j
      → (s.workers j).run.key ≡ key
      → owns (s.workers j).pc ≡ true
      → Holder j key
  Holder-other j key other works same own =
      subst
        (λ w. ((j < s.spawned) × (is_live w.pc ≡ true)) × ((w.run.key ≡ key) × (owns w.pc ≡ true)))
        (sym (update-other s.workers i j moved other)) (works, (same, own))

  held-here : (e'.arbiter.owner ≡ nobody) ⊎ ((j : ℕ) × Holder j (s.workers i).run.key)
  held-here = elim step.owner [
    | inl (kept, _, same) ↦ elim (v.held _ e at) [
      | inl free ↦ inl (kept ∙ free)
      | inr (j, (works, (key, own))) ↦ elim (ℕ_discrete i j) [
        | yes here ↦ inr (i, Holder-here _ refl (same ∙ ap (λ k. owns (s.workers k).pc) here ∙ own))
        | no other ↦ inr (j, Holder-other j _ other works key own)
      ]
    ]
    | inr (inl (_, _, _, own)) ↦ inr (i, Holder-here _ refl own)
    | inr (inr (_, free, _)) ↦ inl free
  ]

  pub held-next :
      (key : Text) (d : Entry)
      → m'.entries key ≡ some d
      → (d.arbiter.owner ≡ nobody) ⊎ ((j : ℕ) × Holder j key)
  held-next key d h = elim (lookup-cases s c key d h) [
    | inl (same, eq) ↦
        subst (λ d. (d.arbiter.owner ≡ nobody) ⊎ ((j : ℕ) × Holder j key)) eq
          (subst (λ key. (e'.arbiter.owner ≡ nobody) ⊎ ((j : ℕ) × Holder j key)) same held-here)
    | inr (differs, before) ↦ elim (v.held key d before) [
      | inl free ↦ inl free
      | inr (j, (works, (same, own))) ↦ inr (
        j,
        Holder-other j key (λ eq. differs (ap (λ k. (s.workers k).run.key) eq ∙ same)) works same
            own,
      )
    ]
  ]
