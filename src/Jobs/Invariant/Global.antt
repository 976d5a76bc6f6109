-- ===== src/Jobs/Invariant/Global.antt =====
-- internal/jobs/manager.go: the manager's counts and arbiters against its workers.
pub mod Preservation
pub mod Counted
pub mod Calls
pub mod Reserving
pub mod Steps
use codex_queue_bot.Base.{
  ℕ, zero, suc, ◌+◌, ◌≤◌, ◌<◌, ◌≡◌, refl, sym, ◌∙◌, ap, ◌≢◌, ◌⊎◌, inl, inr, Bool, true, false, Text,
  Option, none, some, arith, text_eq, text_eq_iff, if◌then◌else◌, Bool-cases, is_some, ◌==◌,
}
use codex_queue_bot.Jobs.State.{Owner, nobody, queue, keepalive, adhoc, Entry}
use codex_queue_bot.Jobs.Manager.{Manager, put}
use codex_queue_bot.Jobs.Worker.{Run, Pc, gone}
use codex_queue_bot.Jobs.System.{Worker, System, update, advance, spawn}
use codex_queue_bot.Jobs.Invariant.Flags.{
  one_if, has_process, has_slot, owns, kind_at, is_past, is_live, queue_worker, keepalive_worker,
  is_on, one_mode,
}
use codex_queue_bot.Jobs.Invariant.Totals.{total, total-update, le-total, update-here, update-other}
use codex_queue_bot.Jobs.Invariant.Effect.{latest, Effect}

abbrev pub slot_of : Worker → ℕ
slot_of w = one_if (has_slot w.pc)

abbrev pub process_of : Worker → ℕ
process_of w = one_if (has_process w.pc)

abbrev pub queue_at : Text → Worker → ℕ
queue_at key w = if text_eq w.run.key key then queue_worker w.pc else 0

abbrev pub keepalive_at : Text → Worker → ℕ
keepalive_at key w = if text_eq w.run.key key then keepalive_worker w.pc else 0

-- A worker that is counted and not gone.
abbrev pub Works : System → ℕ → Type 0
Works s i = (i < s.spawned) × (is_live (s.workers i).pc ≡ true)

abbrev pub At : System → ℕ → Entry → Type 0
At s i e = s.manager.entries (s.workers i).run.key ≡ some e

pub record Inv (s : System) : Type 0 where
  pub slots : s.manager.slots_in_use ≡ total slot_of s.workers s.spawned
  pub processes : s.manager.current_processes ≡ total process_of s.workers s.spawned
  pub capacity : s.manager.slots_in_use ≤ s.manager.max_parallel
  pub home : (i : ℕ) → Works s i → kind_at (s.workers i).pc ≡ (s.workers i).run.kind
  pub found : (i : ℕ) → Works s i → (e : Entry) × At s i e
  pub mine :
      (i : ℕ) (e : Entry)
      → Works s i
      → At s i e
      → owns (s.workers i).pc ≡ true
      → (e.arbiter.owner ≡ (s.workers i).run.kind)
        × (e.arbiter.owner_run_id ≡ (s.workers i).run.run_id)
  pub held :
      (key : Text) (e : Entry)
      → s.manager.entries key ≡ some e
      → (e.arbiter.owner ≡ nobody)
        ⊎ ((i : ℕ) × (Works s i × (((s.workers i).run.key ≡ key) × (owns (s.workers i).pc ≡ true))))
  pub fresh :
      (i : ℕ) (e : Entry)
      → Works s i
      → At s i e
      → (s.workers i).run.run_id ≤ latest (s.workers i).run.kind e s.manager
  pub unique :
      (i j : ℕ)
      → Works s i
      → Works s j
      → (s.workers i).run.key ≡ (s.workers j).run.key
      → (s.workers i).run.kind ≡ (s.workers j).run.kind
      → (s.workers i).run.run_id ≡ (s.workers j).run.run_id
      → i ≡ j
  pub queue_counted :
      (key : Text) (e : Entry)
      → s.manager.entries key ≡ some e
      → e.job.workers ≡ total (queue_at key) s.workers s.spawned
  pub keepalive_counted :
      (key : Text) (e : Entry)
      → s.manager.entries key ≡ some e
      → e.keepalive.workers ≡ total (keepalive_at key) s.workers s.spawned
  pub modes : (key : Text) (e : Entry) → s.manager.entries key ≡ some e → one_mode e ≡ true
  pub past :
      (i : ℕ) (e : Entry)
      → Works s i
      → At s i e
      → is_past (s.workers i).pc ≡ true
      → is_on (s.workers i).run.kind (s.workers i).run.run_id e ≡ false
