-- ===== src/Console/Settings/Events.antt =====
-- frontend/src/App.tsx: what can happen to `ConfigurationPage`. A control that is disabled is not
-- used; the sections and their controls are there once the configuration is.
pub mod Sent
pub mod Flags
pub mod Clearing
use codex_queue_bot.Base.{
  ℕ, ◌≡◌, Bool, true, false, not, ◌&&◌, ◌||◌, List, [], ◌∷◌, Option, none, some, Text, codes,
  if◌then◌else◌, ◌==◌, is_some, find_first, get_elem?, includes,
}
use codex_queue_bot.Console.Api.{Settled, returned, failed, Failure, message_of}
use codex_queue_bot.Console.Api.Types.{
  Configuration, ConfigurationTarget, ConfigurationSecrets, TargetSecret, TargetInput,
}
use codex_queue_bot.Console.Api.Calls
use codex_queue_bot.Console.Settings.Editor.{Editor, Edit, new_editor, edited, submit}
use codex_queue_bot.Console.Settings.Fields.{
  CodexEdit, WebEdit, OpenilinkEdit, TelegramEdit, codex_field, web_field, openilink_field,
  telegram_field,
}
use codex_queue_bot.Console.Settings.Page.{
  Page, ConfigSection, Account, Save, loaded, save_settled, start_save, submit_editor,
  target_settled, save_account, account_settled,
}

-- The fields whose secret can be revealed; that of a target is known by the target's number.
pub data Secret : Type 0 where
  openilink_token telegram_token : Secret
  api_key : ℕ → Secret

unfoldable pub edits_target : ℕ → Editor → Bool
edits_target id editor = elim editor.initial [ none ↦ false | some target ↦ target.id == id ]

-- The reveal of a key captures the value that the editor has at the click, in `onChange`.
ask_key : ℕ → Option Editor → Option Editor
unfolding edits_target
ask_key id none = none
ask_key id (some editor) =
    if edits_target id editor
    then some (record editor { asked = some editor.value })
    else some editor

asking : Secret → Option Editor → Option Editor
unfolding ask_key
asking (api_key id) editing = ask_key id editing
asking _ editing = editing

abbrev ask : Secret → Page → Page
ask secret page = record page { editing = asking secret page.editing }

-- `setValue({ ...value, api_key })`, with the value that was captured: what was typed in between is
-- lost. An editor that was mounted since then has not asked.
fill_key : Option TargetInput → TargetSecret → Editor → Editor
fill_key none secret editor = editor
fill_key (some captured) secret editor = record editor {
  value = record captured { api_key = secret.api_key };
  asked = none;
}

-- `result.targets.find(target => target.id === id)?.api_key` goes to the editor of that target.
deliver_key : ℕ → Option TargetSecret → Option Editor → Option Editor
unfolding edits_target fill_key
deliver_key id none editing = editing
deliver_key id (some secret) none = none
deliver_key id (some secret) (some editor) =
    if edits_target id editor then some (fill_key editor.asked secret editor) else some editor

-- `onChange` with the secret that was revealed.
deliver : Secret → ConfigurationSecrets → Page → Page
unfolding deliver_key
deliver openilink_token secrets page = record page { token = secrets.openilink_token }
deliver telegram_token secrets page = record page { telegram_token = secrets.telegram_token }
deliver (api_key id) secrets page = record page {
  editing = deliver_key id (find_first (λ secret. secret.id == id) secrets.targets) page.editing;
}

-- `revealSecrets` up to its call: secrets that are there are not read again.
reveal_from : Option ConfigurationSecrets → Secret → Page → Page
unfolding deliver
reveal_from (some secrets) secret page = deliver secret secrets page
reveal_from none secret page = record page {
  secrets_busy = true;
  sent = Calls.get_configuration_secrets ∷ page.sent;
}

reveal : Secret → Page → Page
unfolding reveal_from asking
reveal secret page = reveal_from page.secrets secret (ask secret page)

abbrev reveal_error : Secret → Text
reveal_error openilink_token = codes "读取 OpenILink Token 失败"
reveal_error telegram_token = codes "读取 Telegram Token 失败"
reveal_error (api_key id) = codes "读取 API Key 失败"

-- The rest of it, and `onRevealError`
revealed : Secret → Settled ConfigurationSecrets → Page → Page
unfolding deliver
revealed secret (returned secrets) page =
    deliver secret secrets (record page { secrets = some secrets; secrets_busy = false })
revealed secret (failed failure) page = record page {
  secrets_busy = false;
  logged_out = page.logged_out || includes (codes "未登录") (message_of failure []);
  error = message_of failure (reveal_error secret);
}

edit_configuration : (Configuration → Configuration) → Page → Page
edit_configuration f page = elim page.configuration [
  | none ↦ page
  | some now ↦ record page { configuration = some (f now) }
]

-- The check box that enables an entry, for `openField("enabled", …)` and its twin.
enable_openilink : Bool → Page → Page
unfolding edit_configuration
enable_openilink on page =
    let after =
      edit_configuration (λ now. record now { openilink = record now.openilink { enabled = on } })
        page in
    if on then record after { clear_token = false } else after

enable_telegram : Bool → Page → Page
unfolding edit_configuration
enable_telegram on page =
    let after =
      edit_configuration (λ now. record now { telegram = record now.telegram { enabled = on } })
        page in
    if on then record after { clear_telegram_token = false } else after

abbrev pub openilink_enabled : Option Configuration → Bool
openilink_enabled none = true
openilink_enabled (some now) = now.openilink.enabled

abbrev pub telegram_enabled : Option Configuration → Bool
telegram_enabled none = true
telegram_enabled (some now) = now.telegram.enabled

set_section : ConfigSection → Page → Page
set_section section page = record page {
  section = section;
  editing = none;
  notice = [];
  error = [];
}

-- The button that edits the target of a row, or adds one.
edit_row : Option ConfigurationTarget → Page → Page
edit_row none page = page
edit_row (some target) page = record page { editing = some (new_editor (some target)) }

rows : Option Configuration → List ConfigurationTarget
rows none = []
rows (some now) = now.targets

pub data Event : Type 0 where
  load_settled : Settled Configuration → Event
  section_chosen : ConfigSection → Event
  codex_edited : CodexEdit → Event
  web_edited : WebEdit → Event
  openilink_edited : OpenilinkEdit → Event
  telegram_edited : TelegramEdit → Event
  openilink_enabled_set telegram_enabled_set clear_token_set clear_telegram_token_set : Bool → Event
  token_typed telegram_token_typed : Text → Event
  save_clicked : Save → ℕ → Event
  save_done : Save → Settled Configuration → Event
  add_clicked edit_cancelled editor_submitted account_saved : Event
  edit_clicked : ℕ → Event
  editor_edited : Edit → Event
  target_done : Bool → Settled Configuration → Event
  account_typed : Account → Event
  account_done : Option Failure → Event
  reveal_clicked : Secret → Event
  reveal_done : Secret → Settled ConfigurationSecrets → Event

edit_editor : Edit → Option Editor → Option Editor
edit_editor edit none = none
edit_editor edit (some editor) = some (edited edit editor)

start_save_at : Save → ℕ → Option Configuration → Page → Page
start_save_at save row none page = page
start_save_at save row (some now) page = start_save save row now page

unfoldable pub step : Event → Page → Page
unfolding edit_configuration enable_openilink enable_telegram set_section edit_row rows edit_editor
    start_save_at reveal revealed
step (load_settled outcome) page = loaded outcome page
step (section_chosen section) page = set_section section page
step (codex_edited edit) page =
    edit_configuration (λ now. record now { codex = codex_field edit now.codex }) page
step (web_edited edit) page =
    edit_configuration (λ now. record now { web = web_field edit now.web }) page
step (openilink_edited edit) page =
    edit_configuration (λ now. record now { openilink = openilink_field edit now.openilink }) page
step (telegram_edited edit) page =
    edit_configuration (λ now. record now { telegram = telegram_field edit now.telegram }) page
step (openilink_enabled_set on) page = enable_openilink on page
step (telegram_enabled_set on) page = enable_telegram on page
step (clear_token_set on) page =
    if openilink_enabled page.configuration then page else record page { clear_token = on }
step (clear_telegram_token_set on) page =
    if telegram_enabled page.configuration then page else record page { clear_telegram_token = on }
step (token_typed text) page = if page.secrets_busy then page else record page { token = text }
step (telegram_token_typed text) page =
    if page.secrets_busy then page else record page { telegram_token = text }
step (save_clicked save row) page =
    if page.busy then page else start_save_at save row page.configuration page
step (save_done save outcome) page = save_settled save outcome page
step add_clicked page =
    if is_some page.editing then page else record page { editing = some (new_editor none) }
step (edit_clicked row) page =
    if is_some page.editing then page else edit_row (get_elem? (rows page.configuration) row) page
step (editor_edited edit) page = record page { editing = edit_editor edit page.editing }
step edit_cancelled page = record page { editing = none }
step editor_submitted page = if page.busy then page else submit_editor page.editing page
step (target_done created outcome) page = target_settled created outcome page
step (account_typed account) page = record page { account = account }
step account_saved page = if page.busy then page else save_account page
step (account_done failure) page = account_settled failure page
step (reveal_clicked secret) page = reveal secret page
step (reveal_done secret outcome) page = revealed secret outcome page

unfoldable pub run : List Event → Page → Page
unfolding step
run [] page = page
run (event ∷ events) page = run events (step event page)
