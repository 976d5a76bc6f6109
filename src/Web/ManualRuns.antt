-- ===== src/Web/ManualRuns.antt =====
-- internal/web/server.go: the handler `runAdhoc`, up to the reservation of `RunAdhoc` in
-- internal/jobs/manager.go; the request itself is a worker of the manager. The texts of the errors are left
-- out.
pub mod Outcomes
mod Tests
use codex_queue_bot.Base.{
  ℕ, ◌*◌, Bool, true, false, not, Option, none, some, Text, if◌then◌else◌, ltb, length, is_empty,
}
use codex_queue_bot.Base.Trim.{trim}
use codex_queue_bot.Jobs.Names.{go_space}
use codex_queue_bot.Jobs.Manager.{Manager}
use codex_queue_bot.Jobs.Manager.Targets.{
  reserve_adhoc, Error, target_busy_error, target_not_found, target_conflict, shutting_down,
  not_persisted, Result, ok, err,
}
use codex_queue_bot.Console.Api.Routes.{TargetRef, target}

abbrev pub max_adhoc_prompt_runes : ℕ
max_adhoc_prompt_runes = 32 * 1024

-- The handler answers at once, or a run has the target and is given the prompt.
pub data Reply : Type 0 where
  replied : ℕ → Reply
  running : (key : Text) (run_id : ℕ) (prompt : Text) → Reply

-- The switch over the errors of `RunAdhoc`.
abbrev pub error_status : Error → ℕ
error_status target_not_found = 404
error_status target_busy_error = 409
error_status shutting_down = 503
error_status _ = 500

abbrev reserved : Text → Manager × Result (Text × ℕ) → Manager × Reply
reserved prompt (m, err error) = (m, replied (error_status error))
reserved prompt (m, ok (key, run_id)) = (m, running key run_id prompt)

-- `RunAdhoc` up to its reservation; not every runner takes a prompt.
unfoldable pub begin_run : (supported : Bool) (context id : ℕ) → Text → Manager → Manager × Reply
begin_run supported context id prompt m =
    if not supported then (m, replied 503) else reserved prompt (reserve_adhoc context id m)

abbrev pub too_long : Text → Bool
too_long prompt = ltb max_adhoc_prompt_runes (length prompt)

-- `runAdhoc`, for the target of the path, and a body that may not be read.
unfoldable pub run_adhoc :
    (supported : Bool) (context : ℕ) → TargetRef → Option Text → Manager → Manager × Reply
run_adhoc supported context (target id) (some text) m =
    let prompt = trim go_space text in
    if is_empty prompt
    then (m, replied 400)
    else if too_long prompt
    then (m, replied 400)
    else begin_run supported context id prompt m
run_adhoc supported context _ _ m = (m, replied 400)
