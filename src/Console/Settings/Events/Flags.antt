-- ===== src/Console/Settings/Events/Flags.antt =====
-- frontend/src/App.tsx: the check boxes of the configuration page that clear a saved token.
use codex_queue_bot.Base.{
  ℕ, ◌≡◌, refl, inl, inr, Bool, true, false, List, [], ◌∷◌, Option, none, some, arith,
  if◌then◌else◌, is_some, get_elem?, Option-cases,
}
use codex_queue_bot.Console.Api.{Settled, returned, failed}
use codex_queue_bot.Console.Api.Types.{
  Configuration, ConfigurationTarget, ConfigurationSecrets, TargetInput,
}
use codex_queue_bot.Console.Settings.Editor.{Editor, submit}
use codex_queue_bot.Console.Settings.Fields.{openilink_field, telegram_field}
use codex_queue_bot.Console.Settings.Page.{
  Page, Save, save_codex, save_web, save_openilink, save_telegram, remove_target, loaded,
  save_settled, start_save, remove, submit_editor, save_target, target_settled, save_account,
  account_settled, after_save,
}
use codex_queue_bot.Console.Settings.Events.{
  Event, load_settled, save_clicked, save_done, editor_submitted, account_saved, target_done,
  reveal_clicked, reveal_done, Secret, openilink_token, telegram_token, api_key, step, reveal,
  reveal_from, revealed, deliver, ask, openilink_enabled, telegram_enabled, start_save_at,
  edit_clicked, edit_row, rows,
}

-- No entry is turned on while its check box for clearing the token is set.
abbrev pub Flags : Option Configuration → Bool → Bool → Type 0
Flags now clear clear_telegram =
    (openilink_enabled now ≡ true → clear ≡ false)
    × (telegram_enabled now ≡ true → clear_telegram ≡ false)

abbrev pub PageFlags : Page → Type 0
PageFlags page = Flags page.configuration page.clear_token page.clear_telegram_token

-- A configuration that arrives turns on no entry whose check box for clearing is set: none whose
-- unsaved change on the page was to turn it off.
abbrev pub IsFitting : Event → Page → Type 0
IsFitting (load_settled (returned next)) page =
    Flags (some next) page.clear_token page.clear_telegram_token
IsFitting (save_done save (returned next)) page =
    Flags (some next) (after_save save page).clear_token (after_save save page).clear_telegram_token
IsFitting (target_done created (returned next)) page =
    Flags (some next) page.clear_token page.clear_telegram_token
IsFitting _ page = Unit

abbrev pub AllFitting : List Event → Page → Type 0
AllFitting [] page = Unit
AllFitting (event ∷ events) page = IsFitting event page × AllFitting events (step event page)

-- The handlers that leave the configuration and the check boxes alone.
abbrev Keeps : Page → Page → Type 0
Keeps page next =
    (next.configuration ≡ page.configuration)
    × (next.clear_token ≡ page.clear_token)
    × (next.clear_telegram_token ≡ page.clear_telegram_token)

Keeps-PageFlags : (page next : Page) → Keeps page next → PageFlags page → PageFlags next
Keeps-PageFlags page next (configuration, clear, clear_telegram) h = ground arith

remove-Keeps : (target : Option ConfigurationTarget) (page : Page) → Keeps page (remove target page)
unfolding remove
remove-Keeps none page = (refl, refl, refl)
remove-Keeps (some target) page = (refl, refl, refl)

start_save-Keeps :
    (save : Save) (row : ℕ) (now : Configuration) (page : Page)
    → Keeps page (start_save save row now page)
unfolding start_save
start_save-Keeps save_codex row now page = ground arith
start_save-Keeps save_web row now page = (refl, refl, refl)
start_save-Keeps save_openilink row now page = (refl, refl, refl)
start_save-Keeps save_telegram row now page = (refl, refl, refl)
start_save-Keeps remove_target row now page = remove-Keeps (get_elem? now.targets row) page

start_save_at-Keeps :
    (save : Save) (row : ℕ) (now : Option Configuration) (page : Page)
    → Keeps page (start_save_at save row now page)
unfolding start_save_at
start_save_at-Keeps save row none page = (refl, refl, refl)
start_save_at-Keeps save row (some now) page = start_save-Keeps save row now page

save_target-Keeps :
    (old : Option ConfigurationTarget) (value : TargetInput) (page : Page)
    → Keeps page (save_target old value page)
unfolding save_target
save_target-Keeps none value page = (refl, refl, refl)
save_target-Keeps (some target) value page = (refl, refl, refl)

submit_editor-Keeps :
    (editing : Option Editor) (page : Page) → Keeps page (submit_editor editing page)
unfolding submit_editor
submit_editor-Keeps none page = (refl, refl, refl)
submit_editor-Keeps (some editor) page = elim (Option-cases (submit editor).1) [
  | inl refused ↦ rw refused (refl, refl, refl)
  | inr (value, at) ↦ rw at (
      save_target-Keeps (submit editor).0.initial value
        (record page { editing = some (submit editor).0 }))
]

deliver-Keeps :
    (secret : Secret) (secrets : ConfigurationSecrets) (page : Page)
    → Keeps page (deliver secret secrets page)
unfolding deliver
deliver-Keeps openilink_token secrets page = (refl, refl, refl)
deliver-Keeps telegram_token secrets page = (refl, refl, refl)
deliver-Keeps (api_key id) secrets page = (refl, refl, refl)

reveal_from-Keeps :
    (secrets : Option ConfigurationSecrets) (secret : Secret) (page : Page)
    → Keeps page (reveal_from secrets secret page)
unfolding reveal_from
reveal_from-Keeps none secret page = (refl, refl, refl)
reveal_from-Keeps (some secrets) secret page = deliver-Keeps secret secrets page

revealed-Keeps :
    (secret : Secret) (outcome : Settled ConfigurationSecrets) (page : Page)
    → Keeps page (revealed secret outcome page)
unfolding revealed
revealed-Keeps secret (returned secrets) page =
    deliver-Keeps secret secrets (record page { secrets = some secrets; secrets_busy = false })
revealed-Keeps secret (failed failure) page = (refl, refl, refl)

edit_row-Keeps :
    (target : Option ConfigurationTarget) (page : Page) → Keeps page (edit_row target page)
unfolding edit_row
edit_row-Keeps none page = (refl, refl, refl)
edit_row-Keeps (some target) page = (refl, refl, refl)

save_account-Keeps : (page : Page) → Keeps page (save_account page)
unfolding save_account
save_account-Keeps page = ground arith

guarded-PageFlags :
    (b : Bool) (page next : Page)
    → Keeps page next
    → PageFlags page
    → PageFlags (if b then page else next)
guarded-PageFlags true page next k h = h
guarded-PageFlags false page next k h = Keeps-PageFlags page next k h

pub step-PageFlags :
    (event : Event) (page : Page)
    → IsFitting event page
    → PageFlags page
    → PageFlags (step event page)
unfolding step reveal loaded save_settled after_save target_settled account_settled openilink_field
    telegram_field
step-PageFlags (load_settled (returned next)) page fit h = fit
step-PageFlags (load_settled (failed failure)) page fit h = h
step-PageFlags (save_done save (returned next)) page fit h = fit
step-PageFlags (save_done save (failed failure)) page fit h = h
step-PageFlags (target_done created (returned next)) page fit h = fit
step-PageFlags (target_done created (failed failure)) page fit h = h
step-PageFlags (save_clicked save row) page fit h =
    guarded-PageFlags page.busy page (start_save_at save row page.configuration page)
      (start_save_at-Keeps save row page.configuration page) h
step-PageFlags editor_submitted page fit h =
    guarded-PageFlags page.busy page (submit_editor page.editing page)
      (submit_editor-Keeps page.editing page) h
step-PageFlags account_saved page fit h =
    guarded-PageFlags page.busy page (save_account page) (save_account-Keeps page) h
step-PageFlags (reveal_clicked secret) page fit h =
    Keeps-PageFlags page (reveal secret page)
      (reveal_from-Keeps page.secrets secret (ask secret page)) h
step-PageFlags (reveal_done secret outcome) page fit h =
    Keeps-PageFlags page (revealed secret outcome page) (revealed-Keeps secret outcome page) h
step-PageFlags (edit_clicked row) page fit h =
    guarded-PageFlags (is_some page.editing) page
      (edit_row (get_elem? (rows page.configuration) row) page)
      (edit_row-Keeps (get_elem? (rows page.configuration) row) page) h
step-PageFlags _ page fit h = ground arith
