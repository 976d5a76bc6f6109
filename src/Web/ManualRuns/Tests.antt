-- ===== src/Web/ManualRuns/Tests.antt =====
-- internal/web/server.go, `runAdhoc`: a prompt for the one target of a manager that was just started.
use codex_queue_bot.Base.{◌≡◌, refl, true, some, codes}
use codex_queue_bot.Base.Trim.{trim}
use codex_queue_bot.Jobs.Names.{go_space}
use codex_queue_bot.Jobs.Manager.{commit}
use codex_queue_bot.Jobs.Manager.Targets.{reserve_adhoc}
use codex_queue_bot.Jobs.Tests.{fresh}
use codex_queue_bot.Console.Api.Routes.{target}
use codex_queue_bot.Web.ManualRuns.{begin_run, run_adhoc, running, replied}
use codex_queue_bot.Web.ManualRuns.Outcomes.{Outcome, run_adhoc_outcome}

run_adhoc_outcome_example :
    Outcome true
      (target 1)
      (some (codes " hi "))
      fresh
      (run_adhoc true 0 (target 1) (some (codes " hi ")) fresh.manager)
run_adhoc_outcome_example = run_adhoc_outcome true fresh (target 1) (some (codes " hi "))

runs :
    (run_adhoc true 0 (target 1) (some (codes " hi ")) fresh.manager).1
    ≡ running (codes "primary") 1 (codes "hi")
unfolding run_adhoc begin_run reserve_adhoc commit trim go_space
runs = refl

blank : (run_adhoc true 0 (target 1) (some (codes " ")) fresh.manager).1 ≡ replied 400
unfolding run_adhoc trim go_space
blank = refl
