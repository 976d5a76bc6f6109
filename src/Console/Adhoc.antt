-- ===== src/Console/Adhoc.antt =====
-- frontend/src/components/adhoc-run-dialog.tsx: `AdhocRunDialog`, with its abort controllers. A
-- controller is known by its number, and a request by its controller.
pub mod Requests
use codex_queue_bot.Base.{
  ℕ, zero, suc, Bool, true, false, not, ◌&&◌, ◌||◌, List, [], ◌∷◌, Option, none, some, Text, codes,
  if◌then◌else◌, is_empty, any, keep, ◌==◌,
}
use codex_queue_bot.Base.Trim.{trim}
use codex_queue_bot.Console.Lines.{js_space}
use codex_queue_bot.Console.Api.{Settled, returned, failed, Failure, aborted, error, thrown}
use codex_queue_bot.Console.Api.Types.{AdhocRunResult}
use codex_queue_bot.Console.Api.Calls
use codex_queue_bot.Console.Api.Calls.{HttpRequest}

pub record Dialog : Type 0 where
  -- the props: the number of the target, and whether the dialog is open
  pub target : Option ℕ
  pub open_now : Bool
  pub prompt : Text
  pub result : Option AdhocRunResult
  pub error : Text
  pub busy : Bool
  pub controller : Option ℕ
  -- outside the component: how many controllers there are, which were aborted, which requests are
  -- under way, and all requests so far, the latest first
  pub controllers : ℕ
  pub aborted_ones : List ℕ
  pub pending : List ℕ
  pub sent : List HttpRequest

unfoldable pub initial : Dialog
initial = record {
  target = none;
  open_now = false;
  prompt = [];
  result = none;
  error = [];
  busy = false;
  controller = none;
  controllers = 0;
  aborted_ones = [];
  pending = [];
  sent = [];
}

-- `controller.current?.abort()`
abort_current : Dialog → Dialog
abort_current dialog = elim dialog.controller [
  | none ↦ dialog
  | some one ↦ record dialog { aborted_ones = one ∷ dialog.aborted_ones }
]

-- The effect on `open` and the target's number.
reset : Dialog → Dialog
unfolding abort_current
reset dialog =
    if dialog.open_now
    then record (abort_current dialog) {
      prompt = [];
      result = none;
      error = [];
      busy = false;
      controller = none;
    }
    else dialog

-- The parent opens the dialog for a target: `setAdhocTarget(target)`, from a row of the page, which
-- lies below the overlay while the dialog is open.
open_for : ℕ → Dialog → Dialog
unfolding reset
open_for target dialog = reset (record dialog { target = some target; open_now = true })

-- `changeOpen(false)`, and the parent's `setAdhocTarget(null)`
close : Dialog → Dialog
unfolding abort_current
close dialog = record (abort_current dialog) { target = none; open_now = false }

typed : Text → Dialog → Dialog
typed text dialog = record dialog { prompt = text }

-- `!prompt.trim()`
blank : Text → Bool
blank text = is_empty (trim js_space text)

-- `submit` up to its call of `runAdhoc`
submit : ℕ → Dialog → Dialog
unfolding blank
submit target dialog =
    if blank dialog.prompt then record dialog { error = codes "Prompt 不能为空" } else record dialog {
      controller = some dialog.controllers;
      controllers = suc dialog.controllers;
      busy = true;
      error = [];
      result = none;
      pending = dialog.controllers ∷ dialog.pending;
      sent = Calls.run_adhoc target dialog.prompt (some dialog.controllers) ∷ dialog.sent;
    }

-- The message of a failure. An `AbortError` has its own.
failure_text : Failure → Text
failure_text (aborted _) = codes "请求已取消"
failure_text (error message) = message
failure_text thrown = codes "手动请求失败"

forget : ℕ → Option ℕ → Option ℕ
forget one none = none
forget one (some current) = if current == one then none else some current

show : Settled AdhocRunResult → Dialog → Dialog
unfolding failure_text
show (returned result) dialog = record dialog { result = some result }
show (failed failure) dialog = record dialog { error = failure_text failure }

-- The rest of `submit`, for the request of this controller.
settled : ℕ → Settled AdhocRunResult → Dialog → Dialog
unfolding show forget
settled one outcome dialog = record (show outcome dialog) {
  controller = forget one dialog.controller;
  busy = false;
  pending = keep (λ other. not (other == one)) dialog.pending;
}

pub data Event : Type 0 where
  opened : ℕ → Event
  prompt_typed : Text → Event
  submitted abort_clicked closed : Event
  request_settled : ℕ → Settled AdhocRunResult → Event

unfoldable pub has : ℕ → List ℕ → Bool
has one items = any (λ other. other == one) items

-- The text area is disabled while busy. The submit button is disabled for a blank prompt, and while
-- busy the abort button stands in its place.
submit_event : Option ℕ → Dialog → Dialog
unfolding blank submit
submit_event none dialog = dialog
submit_event (some target) dialog =
    if dialog.busy || blank dialog.prompt then dialog else submit target dialog

handle : Event → Dialog → Dialog
unfolding open_for close typed submit_event settled abort_current has
handle (opened target) dialog = if dialog.open_now then dialog else open_for target dialog
handle (prompt_typed text) dialog =
    if dialog.open_now && not dialog.busy then typed text dialog else dialog
handle submitted dialog = submit_event dialog.target dialog
handle abort_clicked dialog =
    if dialog.open_now && dialog.busy then abort_current dialog else dialog
handle closed dialog = if dialog.open_now then close dialog else dialog
handle (request_settled one outcome) dialog =
    if has one dialog.pending then settled one outcome dialog else dialog

unfoldable pub step : Event → Dialog → Dialog
unfolding handle
step event dialog = handle event dialog

unfoldable pub run : List Event → Dialog → Dialog
unfolding step
run [] dialog = dialog
run (event ∷ events) dialog = run events (step event dialog)
