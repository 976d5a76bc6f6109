-- ===== src/Web/Actions/Requested.antt =====
-- internal/web/server.go, `actions`, for what the dashboard of frontend/src/App.tsx asks.
use codex_queue_bot.Base.{ℕ, ◌≤◌, ◌≡◌, ◌⊎◌, false, List, some, Text, codes, length, is_empty, All}
use codex_queue_bot.Base.Trim.{trim}
use codex_queue_bot.Jobs.Names.{go_space}
use codex_queue_bot.Console.Api.Types.{Target}
use codex_queue_bot.Console.Dashboard.Selection.{names}
use codex_queue_bot.Jobs.Manager.{Manager, stop}
use codex_queue_bot.Web.Actions.{Action, start_queue, start_keepalive, ActionResponse, actions}

-- A name as the configuration keeps it.
abbrev pub IsName : Text → Type 0
IsName name = (trim go_space name ≡ name) × (is_empty name ≡ false)

-- The targets of a dashboard of the server, when there are no more of them than one request may name.
abbrev pub IsListable : List Target → Type 0
IsListable shown = All IsName (names shown) × (length shown ≤ 100)

-- The server acts on the very targets that were asked for, as the name of the action says: it starts
-- their queues, or their keepalives, or stops what runs on them. Only a stop may name none, and so mean
-- all. Each such request succeeds, with what the manager says of it.
abbrev pub IsGranted : Text × List Text → Type 0
IsGranted (name, chosen) =
    (lower : ℕ → ℕ) (now : ℕ) (start : Action → List Text → Manager → Manager × ActionResponse)
    (m : Manager)
    → ((name ≡ codes "queue.start")
        × (is_empty chosen ≡ false)
        × (actions lower now start (some (record { action = name; targets = chosen })) m ≡ (
            let (after, response) = start start_queue chosen m in (after, (200, some response)))))
      ⊎ (((name ≡ codes "keepalive.start")
            × (is_empty chosen ≡ false)
            × (actions lower now start (some (record { action = name; targets = chosen })) m ≡ (
                let (after, response) = start start_keepalive chosen m in
                (after, (200, some response)))))
          ⊎ ((name ≡ codes "task.stop")
              × (actions lower now start (some (record { action = name; targets = chosen })) m ≡ (
                  let (after, result) = stop lower now chosen m in
                  (
                    after,
                    (
                      200,
                      some (record {
                        changed = result.stopped;
                        unchanged = result.inactive;
                        unknown = result.unknown;
                      }),
                    ),
                  )))))
