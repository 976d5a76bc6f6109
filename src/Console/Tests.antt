-- ===== src/Console/Tests.antt =====
-- The console at work on concrete inputs.
use codex_queue_bot.Base.{
  ℕ, ◌&&◌, ◌≡◌, ◌≢◌, ◌≤◌, ◌↔◌, ◌⊎◌, inl, refl, true, false, List, [], ◌∷◌, none, some, codes, arith,
  All, length,
}
use codex_queue_bot.Base.Trim.{trim}
use codex_queue_bot.Console.Lines.{js_space}
use codex_queue_bot.Console.Api.{
  returned, failed, error, aborted, Response, request, Ends, request_outcome,
}
use codex_queue_bot.Console.Api.Types.{Target, Dashboard, QueueState, KeepaliveState, Configuration}
use codex_queue_bot.Console.Api.Calls
use codex_queue_bot.Console.Format.{countdown}
use codex_queue_bot.Console.Format.Bounds.{Shows, countdown-Shows}
use codex_queue_bot.Console.Dashboard as Board
use codex_queue_bot.Console.Dashboard.{DashboardPage, targets as shown_targets}
use codex_queue_bot.Console.Dashboard.Selection.{run-initial-Inv, selected_all-All, Inv, names}
use codex_queue_bot.Base.Sets.{In}
use codex_queue_bot.Console.Access
use codex_queue_bot.Console.Access.Grants.{console_needs_grant, setup_submitted-sent, IsReady}
use codex_queue_bot.Console.Adhoc
use codex_queue_bot.Console.Adhoc.Requests
use codex_queue_bot.Console.Settings.Secret
use codex_queue_bot.Console.Settings.Editor
use codex_queue_bot.Console.Settings.Page
use codex_queue_bot.Console.Settings.Events
use codex_queue_bot.Console.Settings.Events.Sent.{run-initial-IsChecked, IsChecked}
use codex_queue_bot.Console.Settings.Events.Flags.{AllFitting}
use codex_queue_bot.Console.Settings.Events.Clearing.{requests-IsClear, IsClear}

abbrev pub main_target : Target
main_target = record {
  id = 1;
  name = codes "main";
  model = codes "m";
  api_host = codes "api.example.test";
  busy = false;
  adhoc_running = false;
  queue = record {
    state = QueueState.idle;
    attempts = 0;
    started_at = none;
    last_attempt = none;
    next_attempt = none;
    finished_at = none;
    last_error = none;
  };
  keepalive = record {
    state = KeepaliveState.stopped;
    requests = 0;
    started_at = none;
    last_request = none;
    last_success = none;
    last_failure = none;
    next_request = none;
    stopped_at = none;
    last_error = none;
  };
}

abbrev pub shown : Dashboard
shown = record {
  version = codes "test";
  generated_at = [];
  config_revision = 3;
  restart_required = false;
  restart_fields = [];
  openilink = record { state = codes "disabled"; error = none; updated_at = none };
  telegram = record { state = codes "disabled"; error = none; updated_at = none };
  concurrency = record { current = 0; max = 2 };
  targets = main_target ∷ [];
}

-- 125 seconds away: 2 minutes.
countdown-Shows_example : Shows (countdown (λ text. some 135000) 10000 (some (codes "t"))) 125000
countdown-Shows_example =
    countdown-Shows (λ text. some 135000) 10000 135000 125000 (codes "t") refl refl (inl refl)

abbrev refusal : Response ℕ
refusal = record {
  ok = false;
  status = 409;
  json = returned (record { error_text = returned (codes "conflict"); value = none });
}

request_outcome_example : Ends refusal (request (returned refusal))
request_outcome_example = request_outcome refusal

refused_as_told : request (returned refusal) ≡ failed (error (codes "conflict"))
unfolding request
refused_as_told = refl

abbrev clicks : List Board.Event
clicks =
    Board.stream (Board.snapshot shown)
    ∷ Board.toggled 0
    ∷ Board.toolbar Board.start_selected
    ∷ Board.act_settled
        (returned (record { changed = codes "main" ∷ []; unchanged = []; unknown = [] }))
    ∷ Board.act_reloaded (returned shown)
    ∷ []

run-initial-Inv_example : Inv (Board.run clicks Board.initial)
run-initial-Inv_example = run-initial-Inv clicks (refl, (tt, (tt, (tt, (refl, tt)))))

abbrev all_selected : DashboardPage
all_selected =
    Board.run (Board.stream (Board.snapshot shown) ∷ Board.all_toggled ∷ []) Board.initial

selected_all-All_example : All (In all_selected.selected) (names (shown_targets all_selected))
unfolding Board.run Board.initial Board.selected_all
selected_all-All_example =
    selected_all-All all_selected
      (run-initial-Inv (Board.stream (Board.snapshot shown) ∷ Board.all_toggled ∷ [])
        (refl, (tt, tt)))
      refl

abbrev refused_login : List Access.Event
refused_login =
    Access.boot_settled (returned (record { required = false; suggested_username = [] }))
      (failed (error (codes "未登录")))
    ∷ Access.login_typed Access.password (codes "wrong")
    ∷ Access.login_submitted
    ∷ Access.login_done (failed (error (codes "refused")))
    ∷ []

console_needs_grant_example :
    Access.screen (Access.run refused_login Access.initial) ≢ Access.console
unfolding Access.initial
console_needs_grant_example =
    console_needs_grant refused_login Access.initial refl (refl, (refl, (refl, (refl, tt))))

abbrev owner_form : Access.Form
owner_form = record {
  username = codes "owner";
  password = codes "12345";
  confirm = codes "12345";
  busy = false;
  error = [];
}

abbrev setting_up : Access.App
setting_up = record Access.initial {
  booting = false;
  setup_required = true;
  setup_form = owner_form;
}

setup_submitted-sent_example :
    (IsReady owner_form
      × ((Access.step Access.setup_submitted setting_up).sent
          ≡ Calls.setup (codes "owner") (codes "12345") ∷ setting_up.sent))
    ⊎ ((¬ IsReady owner_form)
        × ((Access.step Access.setup_submitted setting_up).sent ≡ setting_up.sent))
unfolding Access.screen Access.initial
setup_submitted-sent_example = setup_submitted-sent setting_up refl

abbrev asked : List Adhoc.Event
asked = Adhoc.opened 1 ∷ Adhoc.prompt_typed (codes "hi") ∷ Adhoc.submitted ∷ []

abbrev asking : Adhoc.Dialog
asking = Adhoc.run asked Adhoc.initial

asked-AllTimely : Requests.AllTimely asked Adhoc.initial
unfolding Adhoc.step Adhoc.initial
asked-AllTimely = (refl, (refl, (refl, tt)))

requests-IsControlled_example :
    (length asking.pending ≤ 1)
    × ((asking.busy ≡ true) ↔ (length asking.pending ≡ 1))
    × All (Requests.IsControlled asking) asking.pending
requests-IsControlled_example = Requests.requests-IsControlled asked asked-AllTimely

abbrev hidden : Secret.SecretInput
hidden = record { visible = false; loading = false; value = []; revealing = true }

run-IsProper_example : Secret.IsProper (
    Secret.run (Secret.toggled ∷ Secret.reveal_settled (returned (some (codes "key"))) ∷ []) hidden)
run-IsProper_example =
    Secret.run-IsProper
      (Secret.toggled ∷ Secret.reveal_settled (returned (some (codes "key"))) ∷ []) hidden
      (ground arith)

abbrev adding : List Events.Event
adding =
    Events.add_clicked
    ∷ Events.editor_edited (Editor.name (codes "main"))
    ∷ Events.editor_edited (Editor.api_key (codes "key"))
    ∷ Events.editor_edited (Editor.overrides (codes " a=1 \r\n\nb=2"))
    ∷ Events.editor_submitted
    ∷ []

run-initial-IsChecked_example :
    All
      (λ request. IsChecked request.method request.body)
      (Events.run adding (Page.initial (codes "admin"))).sent
run-initial-IsChecked_example = run-initial-IsChecked adding (codes "admin")

abbrev stored : Configuration
stored = record {
  revision = 3;
  loaded_startup_revision = 3;
  restart_required = false;
  restart_fields = [];
  codex = record {
    binary = codes "codex";
    prompts_file = [];
    prompts = [];
    request_timeout_seconds = 180;
    retry_min_seconds = 3;
    retry_max_seconds = 8;
    keepalive_min_seconds = 2700;
    keepalive_max_seconds = 3300;
    max_parallel = 2;
    success_message = [];
    reasoning_effort = codes "low";
    config_overrides = [];
  };
  openilink = record {
    enabled = true;
    base_url = [];
    token_set = true;
    allowed_user_ids = [];
    http_timeout_seconds = 15;
  };
  telegram = record {
    enabled = false;
    base_url = [];
    token_set = false;
    allowed_user_ids = [];
    http_timeout_seconds = 45;
    poll_timeout_seconds = 30;
  };
  web = record {
    listen_address = [];
    cookie_secure = false;
    trusted_proxies = [];
    activity_limit = 0;
  };
  account = record { username = codes "admin" };
  targets = [];
}

-- OpenILink is turned off on the page, and its token is to be cleared.
abbrev clearing : List Events.Event
clearing =
    Events.load_settled (returned stored)
    ∷ Events.openilink_enabled_set false
    ∷ Events.clear_token_set true
    ∷ Events.save_clicked Page.save_openilink 0
    ∷ []

abbrev cleared : Page.Page
cleared = Events.run clearing (Page.initial (codes "admin"))

clearing-AllFitting : AllFitting clearing (Page.initial (codes "admin"))
unfolding Events.step Page.initial
clearing-AllFitting = (ground arith, (tt, (tt, (tt, tt))))

requests-IsClear_example :
    All (λ request. IsClear request.body) cleared.sent
    × (Events.openilink_enabled cleared.configuration && cleared.clear_token ≡ false)
    × (Events.telegram_enabled cleared.configuration && cleared.clear_telegram_token ≡ false)
requests-IsClear_example = requests-IsClear (codes "admin") clearing clearing-AllFitting

-- Saving another section in between brings back `enabled` and leaves the check box as it is.
clearing_enabled :
    let page = Events.step (Events.save_done Page.save_web (returned stored)) (
      Events.step (Events.clear_token_set true) (
        Events.step
          (Events.openilink_enabled_set false)
          (Events.step (Events.load_settled (returned stored)) (Page.initial (codes "admin"))))) in
    (Events.openilink_enabled page.configuration ≡ true) × (page.clear_token ≡ true)
unfolding Events.step Page.initial Page.loaded Page.save_settled
clearing_enabled = (refl, refl)

-- The dialog is closed and opened again before its aborted request has settled, and asks anew. Once
-- the first request settles, the form can be submitted a third time while the second is under way.
abbrev overtaken : Adhoc.Dialog
overtaken = Adhoc.step Adhoc.submitted (
    Adhoc.step (Adhoc.prompt_typed (codes "hi")) (
      Adhoc.step (Adhoc.request_settled 0 (failed (aborted []))) (
        Adhoc.step Adhoc.submitted (
          Adhoc.step (Adhoc.prompt_typed (codes "hi"))
            (Adhoc.step (Adhoc.opened 1) (Adhoc.step Adhoc.closed asking))))))

overtaken_pending : (overtaken.pending ≡ 2 ∷ 1 ∷ []) × (overtaken.aborted_ones ≡ 0 ∷ 0 ∷ [])
unfolding Adhoc.run Adhoc.step Adhoc.initial trim js_space
overtaken_pending = (refl, refl)
