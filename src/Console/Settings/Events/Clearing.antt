-- ===== src/Console/Settings/Events/Clearing.antt =====
-- frontend/src/App.tsx: the message entries that the configuration page sends, with their `enabled`
-- and `clear_token`.
use codex_queue_bot.Base.{
  ℕ, ◌≡◌, refl, subst, inl, inr, Bool, true, false, not, ◌&&◌, List, [], ◌∷◌, Option, none, some,
  Text, arith, if◌then◌else◌, text_eq, ltb, get_elem?, is_empty, length, All, Bool-cases,
  Option-cases,
}
use codex_queue_bot.Console.Api.{Settled, returned, failed}
use codex_queue_bot.Console.Api.Types.{
  Configuration, ConfigurationTarget, ConfigurationSecrets, TargetInput,
}
use codex_queue_bot.Console.Api.Calls
use codex_queue_bot.Console.Api.Calls.{Body, openilink, telegram, HttpRequest}
use codex_queue_bot.Console.Access.{minimum_admin_password_length}
use codex_queue_bot.Console.Settings.Editor.{Editor, submit}
use codex_queue_bot.Console.Settings.Page.{
  Page, Save, save_codex, save_web, save_openilink, save_telegram, remove_target, initial, loaded,
  save_settled, start_save, remove, submit_editor, save_target, target_settled, save_account,
  account_settled,
}
use codex_queue_bot.Console.Settings.Events.{
  Event, save_clicked, editor_submitted, account_saved, reveal_clicked, reveal_done, Secret,
  openilink_token, telegram_token, api_key, step, run, reveal, reveal_from, revealed, deliver, ask,
  openilink_enabled, telegram_enabled, start_save_at,
}
use codex_queue_bot.Console.Settings.Events.Flags.{Flags, PageFlags, AllFitting, step-PageFlags}

-- The server refuses a request that clears the token of an entry that it turns on.
abbrev pub IsClear : Body → Type 0
IsClear (openilink value) = value.enabled ≡ true → value.clear_token ≡ false
IsClear (telegram value) = value.enabled ≡ true → value.clear_token ≡ false
IsClear _ = Unit

abbrev AllClear : List HttpRequest → Type 0
AllClear = All (λ request. IsClear request.body)

remove-AllClear :
    (target : Option ConfigurationTarget) (page : Page)
    → AllClear page.sent
    → AllClear (remove target page).sent
unfolding remove Calls.delete_target
remove-AllClear none page h = h
remove-AllClear (some target) page h = (tt, h)

start_save-AllClear :
    (save : Save) (row : ℕ) (now : Configuration) (page : Page)
    → Flags (some now) page.clear_token page.clear_telegram_token
    → AllClear page.sent
    → AllClear (start_save save row now page).sent
unfolding start_save Calls.update_codex Calls.update_web Calls.update_openilink
    Calls.update_telegram
start_save-AllClear save_codex row now page f h =
    elim (Bool-cases (ltb now.codex.keepalive_max_seconds now.codex.keepalive_min_seconds)) [
      | inl wrong ↦ rw wrong h
      | inr right ↦ rw right (tt, h)
    ]
start_save-AllClear save_web row now page f h = (tt, h)
start_save-AllClear save_openilink row now page f h = (f.0, h)
start_save-AllClear save_telegram row now page f h = (f.1, h)
start_save-AllClear remove_target row now page f h =
    remove-AllClear (get_elem? now.targets row) page h

start_save_at-AllClear :
    (save : Save) (row : ℕ) (now : Option Configuration) (page : Page)
    → Flags now page.clear_token page.clear_telegram_token
    → AllClear page.sent
    → AllClear (start_save_at save row now page).sent
unfolding start_save_at
start_save_at-AllClear save row none page f h = h
start_save_at-AllClear save row (some now) page f h = start_save-AllClear save row now page f h

save_target-AllClear :
    (old : Option ConfigurationTarget) (value : TargetInput) (page : Page)
    → AllClear page.sent
    → AllClear (save_target old value page).sent
unfolding save_target Calls.create_target Calls.update_target
save_target-AllClear none value page h = (tt, h)
save_target-AllClear (some target) value page h = (tt, h)

submit_editor-AllClear :
    (editing : Option Editor) (page : Page)
    → AllClear page.sent
    → AllClear (submit_editor editing page).sent
unfolding submit_editor
submit_editor-AllClear none page h = h
submit_editor-AllClear (some editor) page h = elim (Option-cases (submit editor).1) [
  | inl refused ↦ rw refused h
  | inr (value, at) ↦ rw at (
      save_target-AllClear (submit editor).0.initial value
        (record page { editing = some (submit editor).0 }) h)
]

save_account-AllClear : (page : Page) → AllClear page.sent → AllClear (save_account page).sent
unfolding save_account Calls.update_account
save_account-AllClear page h = elim (Bool-cases (too_short page.account.password)) [
  | inl short ↦ rw short h
  | inr fine ↦ rw fine (elim (Bool-cases (text_eq page.account.password page.account.confirm)) [
    | inl same ↦ rw same (tt, h)
    | inr differs ↦ rw differs h
  ])
]
  where
    too_short : Text → Bool
    too_short password =
        not (is_empty password) && ltb (length password) minimum_admin_password_length

deliver-AllClear :
    (secret : Secret) (secrets : ConfigurationSecrets) (page : Page)
    → AllClear page.sent
    → AllClear (deliver secret secrets page).sent
unfolding deliver
deliver-AllClear openilink_token secrets page h = h
deliver-AllClear telegram_token secrets page h = h
deliver-AllClear (api_key id) secrets page h = h

reveal_from-AllClear :
    (secrets : Option ConfigurationSecrets) (secret : Secret) (page : Page)
    → AllClear page.sent
    → AllClear (reveal_from secrets secret page).sent
unfolding reveal_from Calls.get_configuration_secrets
reveal_from-AllClear none secret page h = (tt, h)
reveal_from-AllClear (some secrets) secret page h = deliver-AllClear secret secrets page h

revealed-AllClear :
    (secret : Secret) (outcome : Settled ConfigurationSecrets) (page : Page)
    → AllClear page.sent
    → AllClear (revealed secret outcome page).sent
unfolding revealed
revealed-AllClear secret (returned secrets) page h =
    deliver-AllClear secret secrets (record page { secrets = some secrets; secrets_busy = false }) h
revealed-AllClear secret (failed failure) page h = h

guarded-AllClear :
    (b : Bool) (page next : Page)
    → AllClear page.sent
    → AllClear next.sent
    → AllClear (if b then page else next).sent
guarded-AllClear true page next h k = h
guarded-AllClear false page next h k = k

step-AllClear :
    (event : Event) (page : Page)
    → PageFlags page
    → AllClear page.sent
    → AllClear (step event page).sent
unfolding step reveal loaded save_settled target_settled account_settled
step-AllClear (save_clicked save row) page f h =
    guarded-AllClear page.busy page (start_save_at save row page.configuration page) h
      (start_save_at-AllClear save row page.configuration page f h)
step-AllClear editor_submitted page f h =
    guarded-AllClear page.busy page (submit_editor page.editing page) h
      (submit_editor-AllClear page.editing page h)
step-AllClear account_saved page f h =
    guarded-AllClear page.busy page (save_account page) h (save_account-AllClear page h)
step-AllClear (reveal_clicked secret) page f h =
    reveal_from-AllClear page.secrets secret (ask secret page) h
step-AllClear (reveal_done secret outcome) page f h = revealed-AllClear secret outcome page h
step-AllClear _ page f h = subst AllClear (ground arith) h

run-AllClear :
    (events : List Event) (page : Page)
    → AllFitting events page
    → PageFlags page
    → AllClear page.sent
    → PageFlags (run events page) × AllClear (run events page).sent
unfolding run
run-AllClear [] page fit f h = (f, h)
run-AllClear (event ∷ events) page fit f h =
    run-AllClear events (step event page) fit.1 (step-PageFlags event page fit.0 f)
      (step-AllClear event page f h)

initial-PageFlags : (username : Text) → PageFlags (initial username)
unfolding initial
initial-PageFlags username = (λ on. refl, λ on. refl)

initial-AllClear : (username : Text) → AllClear (initial username).sent
unfolding initial
initial-AllClear username = tt

not_both : (a b : Bool) → (a ≡ true → b ≡ false) → a && b ≡ false
not_both a b h = ground arith

-- After any events in which no answer of the server turns an entry on whose check box for clearing the token is set, the
-- page never asks to clear the token of an entry that it turns on, for OpenILink or Telegram: it
-- has sent no such request, and shows no such combination.
pub requests-IsClear :
    (username : Text) (events : List Event)
    → AllFitting events (initial username)
    → All (λ request. IsClear request.body) (run events (initial username)).sent
      × (openilink_enabled (run events (initial username)).configuration
            && (run events (initial username)).clear_token
          ≡ false)
      × (telegram_enabled (run events (initial username)).configuration
            && (run events (initial username)).clear_telegram_token
          ≡ false)
requests-IsClear username events fit =
    let (f, h) =
      run-AllClear events (initial username) fit (initial-PageFlags username)
        (initial-AllClear username) in
    (h, not_both _ _ f.0, not_both _ _ f.1)
