-- ===== src/Jobs/Adhoc.antt =====
-- internal/jobs/manager.go: the sections of `RunAdhoc` under the manager's lock, each as what it
-- does to the entry of its target.
use codex_queue_bot.Base.{ℕ, Bool, false, not, ◌||◌, none, some, if◌then◌else◌, ◌==◌}
use codex_queue_bot.Jobs.State.{
  Entry, adhoc, same_owner, release_target, Change, context_of, quietly, announced,
}

-- A manual request takes the arbiter of an idle target.
unfoldable pub reserve : ℕ → ℕ → Entry → Change
reserve run_id context e = announced (record e {
  arbiter = record e.arbiter { owner = adhoc; owner_run_id = run_id; cancel = some context };
})

-- `arbiter.owner != requestOwnerAdhoc || arbiter.ownerRunID != runID`, seen with a slot in hand
unfoldable pub reservation_lost : ℕ → Entry → Bool
reservation_lost run_id e =
    not (same_owner e.arbiter.owner adhoc) || not (e.arbiter.owner_run_id == run_id)

-- `stopAdhocLocked`
unfoldable pub stop_adhoc : Entry → Change
stop_adhoc e =
    if same_owner e.arbiter.owner adhoc
    then record {
      entry = record e { arbiter = record e.arbiter { cancel = none } };
      cancels = context_of e.arbiter.cancel;
      broadcast = false;
    }
    else quietly e

-- What `finishAdhocRequest` does to the entry.
unfoldable pub finish_adhoc : ℕ → Entry → Change
finish_adhoc run_id e = announced (release_target adhoc run_id e)
