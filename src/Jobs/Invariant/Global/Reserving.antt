-- ===== src/Jobs/Invariant/Global/Reserving.antt =====
-- internal/jobs/manager.go: the reservation of `RunAdhoc`.
use codex_queue_bot.Base.{ℕ, suc, ◌≡◌, inl, inr, false, Text, some, arith, Bool-cases, Option-cases}
use codex_queue_bot.Jobs.State.{nobody, Entry, target_busy}
use codex_queue_bot.Jobs.Adhoc.{reserve}
use codex_queue_bot.Jobs.Manager.{Manager, commit}
use codex_queue_bot.Jobs.Manager.Targets.{reserve_adhoc, key_by_id, ok}

pub idle-unowned : (e : Entry) → target_busy e ≡ false → e.arbiter.owner ≡ nobody
idle-unowned e h = ground arith

pub reserve_adhoc-eq_ok :
    (context id run_id : ℕ) (key : Text) (m m' : Manager)
    → reserve_adhoc context id m ≡ (m', ok (key, run_id))
    → (e : Entry) × ((m.entries key ≡ some e)
        × ((target_busy e ≡ false)
            × ((run_id ≡ suc m.next_adhoc_run_id)
                × (m'
                    ≡ commit key
                        (reserve (suc m.next_adhoc_run_id) context e)
                        (record m { next_adhoc_run_id = suc m.next_adhoc_run_id })))))
unfolding reserve_adhoc
reserve_adhoc-eq_ok context id run_id key m m' h =
    elim (Option-cases (key_by_id m.entries id m.order)) [
      | inl missing ↦ ground arith
      | inr (found, at) ↦ elim (Option-cases (m.entries found)) [
        | inl missing ↦ ground arith
        | inr (e, there) ↦ elim (Bool-cases (target_busy e)) [
          | inl busy ↦ ground arith
          | inr free ↦ (e, ground arith)
        ]
      ]
    ]
