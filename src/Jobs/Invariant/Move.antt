-- ===== src/Jobs/Invariant/Move.antt =====
-- internal/jobs/manager.go: a step that concerns one target and one worker.
pub mod Owners
pub mod Holders
pub mod Runs
pub mod Counts
use codex_queue_bot.Base.{
  ℕ, ◌+◌, ◌≤◌, ◌<◌, ◌≡◌, refl, sym, subst, ◌∙◌, ap, ◌≢◌, ◌⊎◌, inl, inr, true, false, Text, Option,
  some, arith, text_eq, text_eq_iff, if◌then◌else◌, Bool-cases, ℕ_discrete,
}
use codex_queue_bot.Jobs.State.{Owner, nobody, queue, keepalive, adhoc, Entry}
use codex_queue_bot.Jobs.Manager.{Manager, put}
use codex_queue_bot.Jobs.Worker.{Run, Pc}
use codex_queue_bot.Jobs.System.{Worker, System, advance}
use codex_queue_bot.Jobs.Invariant.Flags.{
  owns, kind_at, is_past, is_live, queue_worker, keepalive_worker, is_on, one_mode,
}
use codex_queue_bot.Jobs.Invariant.Totals.{
  total, total-update, update-here, update-other, update-ind,
}
use codex_queue_bot.Jobs.Invariant.Effect.{latest, Effect}
use codex_queue_bot.Jobs.Invariant.Global.{
  Inv, Works, At, slot_of, process_of, queue_at, keepalive_at,
}

put-cases :
    (key other : Text) (e d : Entry) (entries : Text → Option Entry)
    → put key (some e) entries other ≡ some d
    → ((key ≡ other) × (e ≡ d)) ⊎ ((key ≢ other) × (entries other ≡ some d))
put-cases key other e d entries h = elim (Bool-cases (text_eq key other)) [
  | inl same ↦ inl ((text_eq_iff key other).0 same, ground arith)
  | inr differs ↦ inr (λ eq. cc (differs, (text_eq_iff key other).1 eq), ground arith)
]

pub owns-live : (pc : Pc) → owns pc ≡ true → is_live pc ≡ true
owns-live pc h = ground arith

-- A worker of a state where the manager agrees with its workers, the entry of its target, and what a
-- step makes of them.
pub record Move (s : System) : Type 0 where
  pub v : Inv s
  pub i : ℕ
  pub e : Entry
  pub e' : Entry
  pub m' : Manager
  pub pc' : Pc
  pub counted : i < s.spawned
  pub at : At s i e
  pub step : Effect (s.workers i).run s.manager m' e e' (s.workers i).pc pc'

module _ (s : System) (c : Move s) where
  open c use {v, i, e, e', m', pc', counted, at, step}

  abbrev pub after : System
  after = advance s i m' pc'

  abbrev pub moved_by : Worker
  moved_by = record { run = (s.workers i).run; pc = pc' }

  pub lookup-cases :
      (key : Text) (d : Entry)
      → m'.entries key ≡ some d
      → (((s.workers i).run.key ≡ key) × (e' ≡ d))
        ⊎ (((s.workers i).run.key ≢ key) × (s.manager.entries key ≡ some d))
  lookup-cases key d h =
      put-cases (s.workers i).run.key key e' d s.manager.entries (sym (step.entries key) ∙ h)

  pub lookup-next :
      (key : Text) (d : Entry)
      → s.manager.entries key ≡ some d
      → (d' : Entry) × (m'.entries key ≡ some d')
  lookup-next key d h = elim (Bool-cases (text_eq (s.workers i).run.key key)) [
    | inl same ↦ (e', step.entries key ∙ ground arith)
    | inr differs ↦ (d, step.entries key ∙ ground arith)
  ]

  -- What is at a worker's target after the step, by what was there before.
  pub at-cases :
      (run : Run) (d : Entry)
      → m'.entries run.key ≡ some d
      → (((s.workers i).run.key ≡ run.key) × (e' ≡ d) × (s.manager.entries run.key ≡ some e))
        ⊎ (s.manager.entries run.key ≡ some d)
  at-cases run d h = elim (lookup-cases run.key d h) [
    | inl (same, eq) ↦ inl (same, eq, ap s.manager.entries (sym same) ∙ at)
    | inr (differs, before) ↦ inr before
  ]

  pub here-at : (d : Entry) → m'.entries (s.workers i).run.key ≡ some d → e' ≡ d
  here-at d h = elim (lookup-cases _ d h) [
    | inl (same, eq) ↦ eq
    | inr (differs, before) ↦ absurd (differs refl)
  ]
