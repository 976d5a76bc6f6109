-- ===== src/Console/Dashboard.antt =====
-- frontend/src/App.tsx, `DashboardPage`: its state, and one function for each of its handlers. Each
-- handler that awaits a call is cut at the await: the part before, and the part given the outcome.
pub mod Selection
pub mod Requests
use codex_queue_bot.Base.{
  ℕ, Bool, true, false, not, ◌&&◌, List, [], ◌∷◌, ◌++◌, map, Option, none, some, Text, codes,
  text_eq, if◌then◌else◌, leb, ltb, any, keep, length, is_empty, get_elem?, ◌||◌, ◌==◌, includes,
}
use codex_queue_bot.Base.Decimal.{print_number}
use codex_queue_bot.Console.Api.{Settled, returned, failed, Failure, message_of}
use codex_queue_bot.Console.Api.Types.{Target, Dashboard, ActionResult}
use codex_queue_bot.Console.Labels.{
  Connection, connecting, connected, reconnecting, closed, RowButton, start_queue, start_keepalive,
  stop_task, row_disabled,
}

pub record DashboardPage : Type 0 where
  pub dashboard : Option Dashboard
  pub connection : Connection
  pub selected : List Text
  pub notice : Text
  pub busy : Bool
  pub confirm_stop : Bool
  pub adhoc_target : Option Target
  pub logged_out : Bool
  -- the arguments of the calls of `action` so far, the latest first
  pub sent : List (Text × List Text)

unfoldable pub initial : DashboardPage
initial = record {
  dashboard = none;
  connection = connecting;
  selected = [];
  notice = [];
  busy = false;
  confirm_stop = false;
  adhoc_target = none;
  logged_out = false;
  sent = [];
}

-- `targets.some(target => target.name === name)`
pub listed : List Target → Text → Bool
listed targets name = any (λ target. text_eq target.name name) targets

-- `setData` of a new dashboard, and the effect on `data?.targets` that follows it: names that are
-- no longer listed leave the selection.
set_dashboard : Dashboard → DashboardPage → DashboardPage
unfolding listed
set_dashboard next page = record page {
  dashboard = some next;
  selected = keep (listed next.targets) page.selected;
}

abbrev not_logged_in : Text
not_logged_in = codes "未登录"

-- `load`, given what `dashboard()` settled to.
loaded : Settled Dashboard → DashboardPage → DashboardPage
unfolding set_dashboard
loaded (returned next) page = set_dashboard next page
loaded (failed failure) page =
    if includes not_logged_in (message_of failure [])
    then record page { logged_out = true }
    else record page { notice = message_of failure (codes "加载失败") }

-- The events of the stream: `state` carries every field of the dashboard, so that the merge with
-- the previous one is the new one.
pub data StreamEvent : Type 0 where
  snapshot state : Dashboard → StreamEvent
  auth_expired stream_error unmounted : StreamEvent

streamed : StreamEvent → DashboardPage → DashboardPage
unfolding set_dashboard
streamed (snapshot next) page = record (set_dashboard next page) { connection = connected }
streamed (state next) page = record (set_dashboard next page) { connection = connected }
streamed auth_expired page = record page { logged_out = true }
streamed stream_error page = record page { connection = reconnecting }
streamed unmounted page = record page { connection = closed }

-- `runAction` up to its call of `action`
action_began : Text → List Text → DashboardPage → DashboardPage
action_began name targets page = record page {
  busy = true;
  notice = [];
  sent = (name, targets) ∷ page.sent;
}

counts : ActionResult → Text
counts result =
    codes "已变更 "
    ++ (print_number (length result.changed)
        ++ (codes " · 未变更 "
            ++ (print_number (length result.unchanged)
                ++ (codes " · 未知 " ++ print_number (length result.unknown)))))

-- `runAction` from there to its `load`: a failure ends it.
action_settled : Settled ActionResult → DashboardPage → DashboardPage
unfolding counts
action_settled (returned result) page = record page { notice = counts result }
action_settled (failed failure) page = record page {
  notice = message_of failure (codes "操作失败");
  busy = false;
}

-- The rest of `runAction`, once its `load` has settled.
action_reloaded : Settled Dashboard → DashboardPage → DashboardPage
unfolding loaded
action_reloaded outcome page = record (loaded outcome page) { busy = false }

targets_of : Option Dashboard → List Target
targets_of none = []
targets_of (some dashboard) = dashboard.targets

-- `visibleTargets`
unfoldable pub targets : DashboardPage → List Target
unfolding targets_of
targets page = targets_of page.dashboard

unfoldable pub selected_all : DashboardPage → Bool
unfolding targets
selected_all page = ltb 0 (length (targets page)) && length page.selected == length (targets page)

select_all : DashboardPage → DashboardPage
unfolding selected_all targets
select_all page = record page {
  selected = if selected_all page then [] else map (λ target. target.name) (targets page);
}

-- The checkbox of the row of a target.
toggle : Text → DashboardPage → DashboardPage
toggle name page = record page {
  selected =
      if any (text_eq name) page.selected
      then keep (λ item. not (text_eq item name)) page.selected
      else page.selected ++ (name ∷ []);
}

-- `openAdhoc` of a row, and `onOpenChange` of the dialog
open_adhoc : Target → DashboardPage → DashboardPage
open_adhoc target page = record page { adhoc_target = some target }

adhoc_open_changed : Bool → DashboardPage → DashboardPage
adhoc_open_changed open_now page = if open_now then page else record page { adhoc_target = none }

set_confirm_stop : Bool → DashboardPage → DashboardPage
set_confirm_stop shown page = record page { confirm_stop = shown }

-- The four buttons of a row.
row_clicked : RowButton → Target → DashboardPage → DashboardPage
unfolding action_began open_adhoc
row_clicked start_queue target = action_began (codes "queue.start") (target.name ∷ [])
row_clicked start_keepalive target = action_began (codes "keepalive.start") (target.name ∷ [])
row_clicked RowButton.open_adhoc target = open_adhoc target
row_clicked stop_task target = action_began (codes "task.stop") (target.name ∷ [])

-- The three buttons of the toolbar that act on the selection, and the one that asks whether to stop
-- everything.
pub data ToolbarButton : Type 0 where
  start_selected keep_selected_alive stop_selected stop_all : ToolbarButton

-- The toolbar has buttons only where there are targets.
toolbar_disabled : ToolbarButton → DashboardPage → Bool
unfolding targets
toolbar_disabled stop_all page = is_empty (targets page) || page.busy
toolbar_disabled _ page = is_empty (targets page) || (is_empty page.selected || page.busy)

toolbar_clicked : ToolbarButton → DashboardPage → DashboardPage
unfolding action_began set_confirm_stop
toolbar_clicked start_selected page = action_began (codes "queue.start") page.selected page
toolbar_clicked keep_selected_alive page = action_began (codes "keepalive.start") page.selected page
toolbar_clicked stop_selected page = action_began (codes "task.stop") page.selected page
toolbar_clicked stop_all page = set_confirm_stop true page

-- `onConfirm` of the dialog that stops everything; it stands in the toolbar, and does not look at
-- `busy`.
stop_confirmed : DashboardPage → DashboardPage
unfolding action_began set_confirm_stop targets
stop_confirmed page =
    if page.confirm_stop && not (is_empty (targets page))
    then set_confirm_stop false (action_began (codes "task.stop") [] page)
    else page

-- What can happen to the page. Rows are known by their place in the list of targets, and a button
-- that is disabled cannot be clicked.
pub data Event : Type 0 where
  load_settled : Settled Dashboard → Event
  stream : StreamEvent → Event
  row : RowButton → ℕ → Event
  toolbar : ToolbarButton → Event
  stop_all_confirmed : Event
  act_settled : Settled ActionResult → Event
  act_reloaded : Settled Dashboard → Event
  toggled : ℕ → Event
  all_toggled : Event
  adhoc_changed confirm_changed : Bool → Event

row_event : RowButton → Option Target → DashboardPage → DashboardPage
unfolding row_clicked row_disabled
row_event button none page = page
row_event button (some target) page =
    if row_disabled target button then page else row_clicked button target page

toggle_event : Option Target → DashboardPage → DashboardPage
unfolding toggle
toggle_event none page = page
toggle_event (some target) page = toggle target.name page

unfoldable pub step : Event → DashboardPage → DashboardPage
unfolding loaded streamed action_settled action_reloaded select_all targets row_event toggle_event
    adhoc_open_changed set_confirm_stop toolbar_disabled toolbar_clicked stop_confirmed
step (load_settled outcome) page = loaded outcome page
step (stream event) page = streamed event page
step (row button index) page = row_event button (get_elem? (targets page) index) page
step (toolbar button) page =
    if toolbar_disabled button page then page else toolbar_clicked button page
step stop_all_confirmed page = stop_confirmed page
step (act_settled outcome) page = action_settled outcome page
step (act_reloaded outcome) page = action_reloaded outcome page
step (toggled index) page = toggle_event (get_elem? (targets page) index) page
step all_toggled page = select_all page
step (adhoc_changed open_now) page = adhoc_open_changed open_now page
step (confirm_changed shown) page = set_confirm_stop shown page

unfoldable pub run : List Event → DashboardPage → DashboardPage
unfolding step
run [] page = page
run (event ∷ events) page = run events (step event page)
