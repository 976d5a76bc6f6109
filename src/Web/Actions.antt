-- ===== src/Web/Actions.antt =====
-- internal/web/server.go: the handler `actions`. How the manager starts tasks, which takes several of its
-- steps, is an argument; stopping them is a section of the manager.
pub mod Requested
mod Tests
use codex_queue_bot.Base.{
  ℕ, Bool, ◌||◌, List, [], ◌∷◌, map, Option, none, some, Text, codes, text_eq, if◌then◌else◌, ltb,
  any, length, is_empty,
}
use codex_queue_bot.Base.Trim.{trim}
use codex_queue_bot.Jobs.Names.{go_space}
use codex_queue_bot.Jobs.Manager.{Manager, stop, StopResult}

pub data Action : Type 0 where
  start_queue start_keepalive stop_task : Action

-- The cases of the switch in `actions`.
pub action_named : Text → Option Action
action_named name =
    if text_eq name (codes "queue.start")
    then some start_queue
    else if text_eq name (codes "keepalive.start")
    then some start_keepalive
    else if text_eq name (codes "task.stop")
        || (text_eq name (codes "queue.stop") || text_eq name (codes "keepalive.stop"))
    then some stop_task
    else none

pub record ActionRequest : Type 0 where
  pub action : Text
  pub targets : List Text

-- `actionResponse`, which the results of the manager's operations are copied to.
pub record ActionResponse : Type 0 where
  pub changed : List Text
  pub unchanged : List Text
  pub unknown : List Text

-- What the handler makes of a request: it refuses it, or acts on some targets.
pub data Decision : Type 0 where
  refused : Decision
  granted : Action → List Text → Decision

abbrev grant : Option Action → List Text → Decision
grant none targets = refused
grant (some action) targets = granted action targets

unfoldable pub decide : Option ActionRequest → Decision
unfolding action_named
decide none = refused
decide (some request) =
    let targets = map (trim go_space) request.targets in
    if ltb 100 (length request.targets) || any is_empty targets
    then refused
    else grant (action_named (trim go_space request.action)) targets

abbrev stopped_response : StopResult → ActionResponse
stopped_response result = record {
  changed = result.stopped;
  unchanged = result.inactive;
  unknown = result.unknown;
}

-- The rest of `actions`: the status, and the response of one that succeeds.
abbrev pub perform :
    (ℕ → ℕ)
    → ℕ
    → (Action → List Text → Manager → Manager × ActionResponse)
    → Decision
    → Manager
    → Manager × (ℕ × Option ActionResponse)
perform lower now start refused m = (m, (400, none))
perform lower now start (granted stop_task targets) m =
    let (after, result) = stop lower now targets m in (after, (200, some (stopped_response result)))
perform lower now start (granted action targets) m =
    let (after, response) = start action targets m in (after, (200, some response))

unfoldable pub actions :
    (ℕ → ℕ)
    → ℕ
    → (Action → List Text → Manager → Manager × ActionResponse)
    → Option ActionRequest
    → Manager
    → Manager × (ℕ × Option ActionResponse)
actions lower now start body m = perform lower now start (decide body) m
