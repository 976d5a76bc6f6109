-- ===== src/Console/Access.antt =====
-- frontend/src/App.tsx: `App`, `SetupPage` and `LoginPage`, which decide who sees the console. Each
-- handler that awaits a call is cut at the await. A page that is shown anew starts from its initial
-- state.
pub mod Grants
use codex_queue_bot.Base.{
  ℕ, zero, suc, ◌-◌, Bool, true, false, not, ◌&&◌, ◌||◌, List, [], ◌∷◌, Option, none, some, Text,
  codes, text_eq, if◌then◌else◌, ltb, length, is_empty, is_some,
}
use codex_queue_bot.Console.Api.{Settled, returned, failed, message_of}
use codex_queue_bot.Console.Api.Calls
use codex_queue_bot.Console.Api.Calls.{HttpRequest}

abbrev pub minimum_admin_password_length : ℕ
minimum_admin_password_length = 5

-- What the fields of `SetupPage` or `LoginPage` hold; the latter has no field `confirm`.
pub record Form : Type 0 where
  pub username : Text
  pub password : Text
  pub confirm : Text
  pub busy : Bool
  pub error : Text

new_form : Text → Form
new_form username = record {
  username = username;
  password = [];
  confirm = [];
  busy = false;
  error = [];
}

pub record App : Type 0 where
  pub booting : Bool
  pub setup_required : Bool
  pub suggested_username : Text
  pub auth : Option Text
  pub setup_form : Form
  pub login_form : Form
  -- the calls of `logout` that have not settled, and every request so far, the latest first
  pub leaving : ℕ
  pub sent : List HttpRequest

unfoldable pub initial : App
unfolding new_form
initial = record {
  booting = true;
  setup_required = false;
  suggested_username = codes "admin";
  auth = none;
  setup_form = new_form (codes "admin");
  login_form = new_form (codes "admin");
  leaving = 0;
  sent = [];
}

pub data Screen : Type 0 where
  loading setup_page login_page console : Screen

unfoldable pub screen : App → Screen
screen app =
    if app.booting
    then loading
    else if is_some app.auth
    then console
    else if app.setup_required
    then setup_page
    else login_page

abbrev or_admin : Text → Text
or_admin name = if is_empty name then codes "admin" else name

-- The answer of `setupStatus`.
pub record SetupStatus : Type 0 where
  pub required : Bool
  pub suggested_username : Text

user_of : Settled Text → Option Text
user_of (returned username) = some username
user_of (failed _) = none

-- The effect of `App`: what `setupStatus` and then `session` settled to. The latter is not called
-- where a setup is required.
booted : Settled SetupStatus → Settled Text → App → App
unfolding user_of new_form
booted (failed _) user app = record app { booting = false }
booted (returned status) user app = record app {
  booting = false;
  setup_required = status.required;
  suggested_username = or_admin status.suggested_username;
  setup_form = new_form (or_admin (or_admin status.suggested_username));
  auth = if status.required then app.auth else user_of user;
}

-- `submit` of `SetupPage`, up to its call of `setup`
submit_setup : App → App
submit_setup app =
    let form = app.setup_form in
    if ltb (length form.password) minimum_admin_password_length
    then record app { setup_form = record form { error = codes "密码至少需要 5 个字符" } }
    else if not (text_eq form.password form.confirm)
    then record app { setup_form = record form { error = codes "两次输入的密码不一致" } }
    else record app {
      setup_form = record form { busy = true; error = [] };
      sent = Calls.setup form.username form.password ∷ app.sent;
    }

-- The rest of it, and `onComplete`
setup_settled : Settled Text → App → App
setup_settled (returned username) app = record app {
  setup_required = false;
  auth = some username;
  setup_form = record app.setup_form { busy = false };
}
setup_settled (failed failure) app = record app {
  setup_form = record app.setup_form { error = message_of failure (codes "初始化失败"); busy = false };
}

-- `submit` of `LoginPage`
submit_login : App → App
submit_login app = record app {
  login_form = record app.login_form { busy = true; error = [] };
  sent = Calls.login app.login_form.username app.login_form.password ∷ app.sent;
}

login_settled : Settled Text → App → App
login_settled (returned username) app = record app {
  auth = some username;
  login_form = record app.login_form { busy = false };
}
login_settled (failed failure) app = record app {
  login_form = record app.login_form { error = message_of failure (codes "登录失败"); busy = false };
}

-- `doLogout`: with nobody logged in there is no call.
log_out : App → App
unfolding new_form
log_out app =
    if is_some app.auth
    then record app { leaving = suc app.leaving; sent = Calls.logout ∷ app.sent }
    else app

logout_settled : App → App
unfolding new_form
logout_settled app = record app {
  leaving = app.leaving - 1;
  auth = none;
  login_form = if is_some app.auth then new_form (codes "admin") else app.login_form;
}

-- The submit button of a page is disabled while a call is under way or a field is empty.
setup_disabled : Form → Bool
setup_disabled form =
    form.busy || (is_empty form.username || (is_empty form.password || is_empty form.confirm))

login_disabled : Form → Bool
login_disabled form = form.busy || (is_empty form.username || is_empty form.password)

pub data Field : Type 0 where
  username password confirm : Field

typed : Field → Text → Form → Form
typed username text form = record form { username = text }
typed password text form = record form { password = text }
typed confirm text form = record form { confirm = text }

pub data Event : Type 0 where
  boot_settled : Settled SetupStatus → Settled Text → Event
  setup_typed login_typed : Field → Text → Event
  setup_submitted login_submitted : Event
  setup_done login_done : Settled Text → Event
  logout_requested logout_done : Event

abbrev same_screen : Screen → Screen → Bool
same_screen loading loading = true
same_screen setup_page setup_page = true
same_screen login_page login_page = true
same_screen console console = true
same_screen _ _ = false

-- An event takes place on its screen, and a call settles that was made.
enabled : Event → App → Bool
unfolding screen setup_disabled login_disabled
enabled (boot_settled status user) app = app.booting
enabled (setup_typed field text) app = same_screen (screen app) setup_page
enabled (login_typed field text) app = same_screen (screen app) login_page
enabled setup_submitted app =
    same_screen (screen app) setup_page && not (setup_disabled app.setup_form)
enabled login_submitted app =
    same_screen (screen app) login_page && not (login_disabled app.login_form)
enabled (setup_done outcome) app = app.setup_form.busy
enabled (login_done outcome) app = app.login_form.busy
enabled logout_requested app = same_screen (screen app) console
enabled logout_done app = ltb 0 app.leaving

handle : Event → App → App
unfolding booted submit_setup setup_settled submit_login login_settled log_out logout_settled typed
handle (boot_settled status user) app = booted status user app
handle (setup_typed field text) app = record app { setup_form = typed field text app.setup_form }
handle (login_typed field text) app = record app { login_form = typed field text app.login_form }
handle setup_submitted app = submit_setup app
handle login_submitted app = submit_login app
handle (setup_done outcome) app = setup_settled outcome app
handle (login_done outcome) app = login_settled outcome app
handle logout_requested app = log_out app
handle logout_done app = logout_settled app

unfoldable pub step : Event → App → App
unfolding enabled handle
step event app = if enabled event app then handle event app else app

unfoldable pub run : List Event → App → App
unfolding step
run [] app = app
run (event ∷ events) app = run events (step event app)
