-- ===== src/Console/Settings/Page.antt =====
-- frontend/src/App.tsx: the state of `ConfigurationPage` and its handlers, each cut at its await. The
-- page is shown once the configuration is there.
use codex_queue_bot.Base.{
  ℕ, Bool, true, false, not, ◌&&◌, List, [], ◌∷◌, Option, none, some, Text, codes, text_eq,
  if◌then◌else◌, ltb, is_empty, length, get_elem?,
}
use codex_queue_bot.Console.Access.{minimum_admin_password_length}
use codex_queue_bot.Console.Api.{Settled, returned, failed, Failure, message_of}
use codex_queue_bot.Console.Api.Types.{
  Configuration, ConfigurationTarget, ConfigurationSecrets, TargetInput, OpenilinkUpdate,
  TelegramUpdate,
}
use codex_queue_bot.Console.Api.Calls
use codex_queue_bot.Console.Api.Calls.{HttpRequest}
use codex_queue_bot.Console.Settings.Editor.{Editor, submit}

pub data ConfigSection : Type 0 where
  targets tasks openilink runtime account : ConfigSection

pub record Account : Type 0 where
  pub username : Text
  pub current : Text
  pub password : Text
  pub confirm : Text

pub record Page : Type 0 where
  pub configuration : Option Configuration
  pub section : ConfigSection
  pub notice : Text
  pub error : Text
  pub busy : Bool
  pub editing : Option Editor
  pub token : Text
  pub clear_token : Bool
  pub telegram_token : Text
  pub clear_telegram_token : Bool
  pub secrets : Option ConfigurationSecrets
  pub secrets_busy : Bool
  pub account : Account
  pub logged_out : Bool
  -- every request so far, the latest first
  pub sent : List HttpRequest

unfoldable pub initial : Text → Page
initial username = record {
  configuration = none;
  section = targets;
  notice = [];
  error = [];
  busy = false;
  editing = none;
  token = [];
  clear_token = false;
  telegram_token = [];
  clear_telegram_token = false;
  secrets = none;
  secrets_busy = false;
  account = record { username = username; current = []; password = []; confirm = [] };
  logged_out = false;
  sent = [];
}

-- `load`
unfoldable pub loaded : Settled Configuration → Page → Page
loaded (returned next) page = record page {
  configuration = some next;
  account = record page.account { username = next.account.username };
}
loaded (failed failure) page = record page { error = message_of failure (codes "加载配置失败") }

-- `applyResult`
unfoldable pub apply_result : Configuration → Text → Page → Page
apply_result next message page = record page {
  configuration = some next;
  notice = message;
  error = [];
}

-- `runSave` up to the call that it makes.
unfoldable pub save_began : HttpRequest → Page → Page
save_began request page = record page {
  busy = true;
  notice = [];
  error = [];
  sent = request ∷ page.sent;
}

-- The operations that `runSave` carries out.
pub data Save : Type 0 where
  save_codex save_web save_openilink save_telegram remove_target : Save

save_message : Save → Text
save_message save_codex = codes "Codex 配置已保存"
save_message save_web = codes "Web 配置已保存"
save_message save_openilink = codes "OpenILink 配置已保存并热重载"
save_message save_telegram = codes "Telegram 配置已保存并热重载"
save_message remove_target = codes "target 已删除"

-- What an operation does after its call has succeeded.
unfoldable pub after_save : Save → Page → Page
after_save save_openilink page = record page { token = []; clear_token = false; secrets = none }
after_save save_telegram page = record page {
  telegram_token = [];
  clear_telegram_token = false;
  secrets = none;
}
after_save _ page = page

-- The rest of `runSave`
unfoldable pub save_settled : Save → Settled Configuration → Page → Page
unfolding after_save apply_result save_message
save_settled save (returned next) page =
    record (apply_result next (save_message save) (after_save save page)) { busy = false }
save_settled save (failed failure) page = record page {
  error = message_of failure (codes "保存失败");
  busy = false;
}

-- `saveCodex`, which two sections offer.
unfoldable pub start_save_codex : Configuration → Page → Page
unfolding save_began
start_save_codex data_now page =
    if ltb data_now.codex.keepalive_max_seconds data_now.codex.keepalive_min_seconds
    then record page { error = codes "保活最小秒数不能大于最大秒数" }
    else save_began (Calls.update_codex data_now.codex) page

unfoldable pub openilink_update : Configuration → Page → OpenilinkUpdate
openilink_update data_now page = record {
  enabled = data_now.openilink.enabled;
  base_url = data_now.openilink.base_url;
  token = page.token;
  clear_token = page.clear_token;
  allowed_user_ids = data_now.openilink.allowed_user_ids;
  http_timeout_seconds = data_now.openilink.http_timeout_seconds;
}

unfoldable pub telegram_update : Configuration → Page → TelegramUpdate
telegram_update data_now page = record {
  enabled = data_now.telegram.enabled;
  base_url = data_now.telegram.base_url;
  token = page.telegram_token;
  clear_token = page.clear_telegram_token;
  allowed_user_ids = data_now.telegram.allowed_user_ids;
  http_timeout_seconds = data_now.telegram.http_timeout_seconds;
  poll_timeout_seconds = data_now.telegram.poll_timeout_seconds;
}

-- The button that deletes the target of a row.
unfoldable pub remove : Option ConfigurationTarget → Page → Page
unfolding save_began
remove none page = page
remove (some target) page = save_began (Calls.delete_target target.id) page

-- The button of an operation; the target to delete is the one in the row of the click, which the
-- administrator has confirmed.
unfoldable pub start_save : Save → ℕ → Configuration → Page → Page
unfolding start_save_codex save_began openilink_update telegram_update remove
start_save save_codex row data_now page = start_save_codex data_now page
start_save save_web row data_now page = save_began (Calls.update_web data_now.web) page
start_save save_openilink row data_now page =
    save_began (Calls.update_openilink (openilink_update data_now page)) page
start_save save_telegram row data_now page =
    save_began (Calls.update_telegram (telegram_update data_now page)) page
start_save remove_target row data_now page = remove (get_elem? data_now.targets row) page

-- `saveTarget` up to its call: what the editor hands to it is created or replaces its target.
unfoldable pub save_target : Option ConfigurationTarget → TargetInput → Page → Page
save_target none value page = record page {
  busy = true;
  error = [];
  sent = Calls.create_target value ∷ page.sent;
}
save_target (some target) value page = record page {
  busy = true;
  error = [];
  sent = Calls.update_target target.id value ∷ page.sent;
}

-- The form of the editor is submitted.
unfoldable pub submitted : Option TargetInput → Editor → Page → Page
unfolding save_target
submitted none editor page = record page { editing = some editor }
submitted (some value) editor page =
    save_target editor.initial value (record page { editing = some editor })

unfoldable pub submit_editor : Option Editor → Page → Page
unfolding submitted
submit_editor none page = page
submit_editor (some editor) page = let (after, value) = submit editor in submitted value after page

-- The rest of `saveTarget`, for a new target or an old one.
unfoldable pub target_settled : Bool → Settled Configuration → Page → Page
unfolding apply_result
target_settled created (returned next) page =
    record (apply_result next (if created then codes "target 已添加并立即生效" else codes "target 已更新并立即生效")
      page) { secrets = none; editing = none; busy = false }
target_settled created (failed failure) page = record page {
  error = message_of failure (codes "保存 target 失败");
  busy = false;
}

-- The button that saves the account.
unfoldable pub save_account : Page → Page
save_account page =
    let form = page.account in
    if not (is_empty form.password) && ltb (length form.password) minimum_admin_password_length
    then record page { error = codes "新密码至少需要 5 个字符" }
    else if not (text_eq form.password form.confirm)
    then record page { error = codes "两次输入的新密码不一致" }
    else record page {
      busy = true;
      error = [];
      sent =
          Calls.update_account (record {
            username = form.username;
            current_password = form.current;
            new_password = form.password;
          })
          ∷ page.sent;
    }

unfoldable pub account_settled : Option Failure → Page → Page
account_settled none page = record page { logged_out = true; busy = false }
account_settled (some failure) page = record page {
  error = message_of failure (codes "账号保存失败");
  busy = false;
}
