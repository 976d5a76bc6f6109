-- ===== src/Jobs/Invariant/Global/Preservation.antt =====
-- internal/jobs/manager.go: a step that concerns one target and one worker, and the agreement of the
-- manager with its workers.
use codex_queue_bot.Jobs.System.{System}
use codex_queue_bot.Jobs.Invariant.Global.{Inv}
use codex_queue_bot.Jobs.Invariant.Move.{Move, after}
use codex_queue_bot.Jobs.Invariant.Move.Owners.{home-next, found-next, mine-next}
use codex_queue_bot.Jobs.Invariant.Move.Holders.{held-next}
use codex_queue_bot.Jobs.Invariant.Move.Runs.{fresh-next, unique-next, past-next}
use codex_queue_bot.Jobs.Invariant.Move.Counts.{
  slots-next, processes-next, capacity-next, queue_counted-next, keepalive_counted-next, modes-next,
}

module _ (s : System) (c : Move s) where
  pub effect-Inv : Inv (after s c)
  effect-Inv = record {
    slots = slots-next s c;
    processes = processes-next s c;
    capacity = capacity-next s c;
    home = home-next s c;
    found = found-next s c;
    mine = λ j d works h own. mine-next s c j d works h own;
    held = λ key d h. held-next s c key d h;
    fresh = λ j d works h. fresh-next s c j d works h;
    unique =
        λ j k works works' key kind run_id. unique-next s c j k works works' (key, (kind, run_id));
    queue_counted = queue_counted-next s c;
    keepalive_counted = keepalive_counted-next s c;
    modes = modes-next s c;
    past = λ j d works h over. past-next s c j d works h over;
  }
