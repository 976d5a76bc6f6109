-- ===== src/Jobs/Locks.antt =====
-- The abstract view of the arbiters of internal/jobs/manager.go: a lock for each target, and what may
-- happen to locks.
pub mod Refinement
mod Tests
use codex_queue_bot.Base.{ℕ, ◌≡◌, Option, none, some, Text, text_eq, if◌then◌else◌}
use codex_queue_bot.Jobs.State.{Owner}

-- Who holds a lock: a run, known by its kind and number.
abbrev pub Holder : Type 0
Holder = Owner × ℕ

abbrev pub set_lock : Text → Option Holder → (Text → Option Holder) → Text → Option Holder
set_lock key lock f other = if text_eq key other then lock else f other

-- What becomes of the locks in one step: nothing, one that is free is taken, or one is let go.
pub data LockStep (f g : Text → Option Holder) : Type 0 where
  stays : ((key : Text) → g key ≡ f key) → LockStep f g
  takes :
      (key : Text) (holder : Holder)
      → f key ≡ none
      → ((other : Text) → g other ≡ set_lock key (some holder) f other)
      → LockStep f g
  lets_go :
      (key : Text) (holder : Holder)
      → f key ≡ some holder
      → ((other : Text) → g other ≡ set_lock key none f other)
      → LockStep f g
