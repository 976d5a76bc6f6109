-- ===== src/Web/Actions/Tests.antt =====
-- internal/web/server.go, `actions`: what the dashboard asks after its one target was selected.
use codex_queue_bot.Base.{◌≡◌, refl, List, [], ◌∷◌, some, codes}
use codex_queue_bot.Base.Trim.{trim}
use codex_queue_bot.Jobs.Names.{go_space}
use codex_queue_bot.Console.Dashboard.{
  Event, stream, snapshot, all_toggled, toolbar, start_selected, initial, run, targets,
  selected_all,
}
use codex_queue_bot.Console.Tests.{shown}
use codex_queue_bot.Web.Actions.{decide, refused}

abbrev events : List Event
events = stream (snapshot shown) ∷ all_toggled ∷ toolbar start_selected ∷ []

sent_one : (run events initial).sent ≡ (codes "queue.start", codes "main" ∷ []) ∷ []
unfolding run initial selected_all targets
sent_one = refl

blank_refused :
    decide (some (record { action = codes "queue.start"; targets = codes " " ∷ [] })) ≡ refused
unfolding decide trim go_space
blank_refused = refl
