-- ===== src/Console/Settings/Events/Sent.antt =====
-- What the configuration page of frontend/src/App.tsx sends to the server.
use codex_queue_bot.Base.{
  ℕ, ◌≡◌, ◌≤◌, refl, sym, subst, ◌⊎◌, inl, inr, Bool, true, false, not, ◌&&◌, List, [], ◌∷◌, Option,
  none, some, Text, arith, text_eq, if◌then◌else◌, ltb, length, is_empty, get_elem?, All,
  Bool-cases, Option-cases,
}
use codex_queue_bot.Console.Lines.RoundTrip.{IsLine, split_lines-IsLine}
use codex_queue_bot.Console.Lines.{split_lines}
use codex_queue_bot.Console.Api.{Settled, returned, failed}
use codex_queue_bot.Console.Api.Types.{
  Configuration, ConfigurationTarget, ConfigurationSecrets, TargetInput,
}
use codex_queue_bot.Console.Api.Calls
use codex_queue_bot.Console.Api.Calls.{
  Method, post, put, Body, empty, credentials, named_action, prompt, codex, openilink, telegram,
  web, account, target, HttpRequest,
}
use codex_queue_bot.Console.Access.{minimum_admin_password_length}
use codex_queue_bot.Console.Settings.Editor.{Editor, submit, blank}
use codex_queue_bot.Console.Settings.Page.{
  Page, Save, save_codex, save_web, save_openilink, save_telegram, remove_target, initial, loaded,
  save_settled, start_save, remove, submit_editor, save_target, target_settled, save_account,
  account_settled,
}
use codex_queue_bot.Console.Settings.Events.{
  Event, save_clicked, editor_submitted, account_saved, reveal_clicked, reveal_done, Secret,
  openilink_token, telegram_token, api_key, step, run, reveal, reveal_from, revealed, deliver, ask,
  start_save_at,
}

-- What the page has checked of the body of a request with this method.
abbrev pub IsChecked : Method → Body → Type 0
IsChecked method (codex value) = value.keepalive_min_seconds ≤ value.keepalive_max_seconds
IsChecked method (target value) =
    All IsLine value.config_overrides × (method ≡ post → blank value.api_key ≡ false)
IsChecked method (account value) =
    (is_empty value.new_password ≡ true)
    ⊎ (minimum_admin_password_length ≤ length value.new_password)
IsChecked method _ = Unit

abbrev AllChecked : Page → Type 0
AllChecked page = All (λ request. IsChecked request.method request.body) page.sent

remove-AllChecked :
    (target : Option ConfigurationTarget) (page : Page)
    → AllChecked page
    → AllChecked (remove target page)
unfolding remove Calls.delete_target
remove-AllChecked none page h = h
remove-AllChecked (some one) page h = (tt, h)

start_save-AllChecked :
    (save : Save) (row : ℕ) (now : Configuration) (page : Page)
    → AllChecked page
    → AllChecked (start_save save row now page)
unfolding start_save Calls.update_codex Calls.update_web Calls.update_openilink
    Calls.update_telegram Calls.delete_target
start_save-AllChecked save_codex row now page h =
    elim (Bool-cases (ltb now.codex.keepalive_max_seconds now.codex.keepalive_min_seconds)) [
      | inl wrong ↦ rw wrong h
      | inr right ↦ rw right (ground (arith, right), h)
    ]
start_save-AllChecked save_web row now page h = (tt, h)
start_save-AllChecked save_openilink row now page h = (tt, h)
start_save-AllChecked save_telegram row now page h = (tt, h)
start_save-AllChecked remove_target row now page h =
    remove-AllChecked (get_elem? now.targets row) page h

-- What the editor hands to its parent.
submit-checked :
    (editor : Editor) (value : TargetInput)
    → (submit editor).1 ≡ some value
    → (value.config_overrides ≡ split_lines editor.overrides)
      × ((submit editor).0.initial ≡ none → blank value.api_key ≡ false)
unfolding submit
submit-checked editor value h = (ground arith, λ new. ground (arith, new))

save_target-AllChecked :
    (old : Option ConfigurationTarget) (value : TargetInput) (page : Page)
    → All IsLine value.config_overrides
    → (old ≡ none → blank value.api_key ≡ false)
    → AllChecked page
    → AllChecked (save_target old value page)
unfolding save_target Calls.create_target Calls.update_target
save_target-AllChecked none value page lines keyed h = ((lines, λ same. keyed refl), h)
save_target-AllChecked (some one) value page lines keyed h = ((lines, λ differs. cc), h)

submit_editor-AllChecked :
    (editing : Option Editor) (page : Page)
    → AllChecked page
    → AllChecked (submit_editor editing page)
unfolding submit_editor
submit_editor-AllChecked none page h = h
submit_editor-AllChecked (some editor) page h = elim (Option-cases (submit editor).1) [
  | inl refused ↦ rw refused h
  | inr (value, at) ↦ rw at (
      let (lines, keyed) = submit-checked editor value at in
      save_target-AllChecked (submit editor).0.initial value
        (record page { editing = some (submit editor).0 })
        (subst (All IsLine) (sym lines) (split_lines-IsLine editor.overrides)) keyed h)
]

save_account-AllChecked : (page : Page) → AllChecked page → AllChecked (save_account page)
unfolding save_account Calls.update_account
save_account-AllChecked page h = elim (Bool-cases (too_short page.account.password)) [
  | inl short ↦ rw short h
  | inr fine ↦ rw fine (elim (Bool-cases (text_eq page.account.password page.account.confirm)) [
    | inl same ↦ rw same (long_enough page.account.password fine, h)
    | inr differs ↦ rw differs h
  ])
]
  where
    too_short : Text → Bool
    too_short password =
        not (is_empty password) && ltb (length password) minimum_admin_password_length

    long_enough :
        (password : Text)
        → too_short password ≡ false
        → (is_empty password ≡ true) ⊎ (minimum_admin_password_length ≤ length password)
    long_enough password fine = ground (arith, fine)

deliver-sent :
    (secret : Secret) (secrets : ConfigurationSecrets) (page : Page)
    → (deliver secret secrets page).sent ≡ page.sent
unfolding deliver
deliver-sent openilink_token secrets page = refl
deliver-sent telegram_token secrets page = refl
deliver-sent (api_key id) secrets page = refl

abbrev Checked : List HttpRequest → Type 0
Checked = All (λ request. IsChecked request.method request.body)

kept-Checked : {old new : List HttpRequest} → new ≡ old → Checked old → Checked new
kept-Checked same h = subst Checked (sym same) h

reveal-AllChecked :
    (secrets : Option ConfigurationSecrets) (secret : Secret) (page : Page)
    → AllChecked page
    → AllChecked (reveal_from secrets secret page)
unfolding reveal_from Calls.get_configuration_secrets
reveal-AllChecked none secret page h = (tt, h)
reveal-AllChecked (some secrets) secret page h = kept-Checked (deliver-sent secret secrets page) h

revealed-AllChecked :
    (secret : Secret) (outcome : Settled ConfigurationSecrets) (page : Page)
    → AllChecked page
    → AllChecked (revealed secret outcome page)
unfolding revealed
revealed-AllChecked secret (returned secrets) page h =
    kept-Checked
      (deliver-sent secret secrets (record page { secrets = some secrets; secrets_busy = false })) h
revealed-AllChecked secret (failed failure) page h = h

start_save_at-AllChecked :
    (save : Save) (row : ℕ) (now : Option Configuration) (page : Page)
    → AllChecked page
    → AllChecked (start_save_at save row now page)
unfolding start_save_at
start_save_at-AllChecked save row none page h = h
start_save_at-AllChecked save row (some now) page h = start_save-AllChecked save row now page h

idle-AllChecked :
    (busy : Bool) (page next : Page)
    → AllChecked page
    → AllChecked next
    → AllChecked (if busy then page else next)
idle-AllChecked true page next h k = h
idle-AllChecked false page next h k = k

step-AllChecked : (event : Event) (page : Page) → AllChecked page → AllChecked (step event page)
unfolding step reveal loaded save_settled target_settled account_settled
step-AllChecked (save_clicked save row) page h =
    idle-AllChecked page.busy page _ h (start_save_at-AllChecked save row page.configuration page h)
step-AllChecked editor_submitted page h =
    idle-AllChecked page.busy page _ h (submit_editor-AllChecked page.editing page h)
step-AllChecked account_saved page h =
    idle-AllChecked page.busy page _ h (save_account-AllChecked page h)
step-AllChecked (reveal_clicked secret) page h =
    reveal-AllChecked page.secrets secret (ask secret page) h
step-AllChecked (reveal_done secret outcome) page h = revealed-AllChecked secret outcome page h
step-AllChecked _ page h = kept-Checked (ground arith) h

run-AllChecked :
    (events : List Event) (page : Page) → AllChecked page → AllChecked (run events page)
unfolding run
run-AllChecked [] page h = h
run-AllChecked (event ∷ events) page h =
    run-AllChecked events (step event page) (step-AllChecked event page h)

-- Whatever happens on the configuration page, every request that it has sent is checked: the Codex
-- section has no minimum of the keepalive interval above its maximum, an account has no new
-- password or one of five characters or more, and the overrides of a target are trimmed lines
-- that are not empty, with an API key where the target is a new one.
pub run-initial-IsChecked :
    (events : List Event) (username : Text)
    → All (λ request. IsChecked request.method request.body) (run events (initial username)).sent
unfolding initial
run-initial-IsChecked events username = run-AllChecked events (initial username) tt
