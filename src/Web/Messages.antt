-- ===== src/Web/Messages.antt =====
-- internal/web/config_api.go: `updateOpenILinkConfig` and `updateTelegramConfig` up to the call of the store,
-- and what the store (internal/storage/storage.go) makes of the token. The validation of
-- internal/config is an argument.
pub mod Tokens
mod Tests
use codex_queue_bot.Base.{
  ℕ, Bool, true, false, not, ◌&&◌, ◌||◌, List, [], map, Option, none, some, Text, if◌then◌else◌,
  keep, is_empty,
}
use codex_queue_bot.Base.Trim.{trim}
use codex_queue_bot.Jobs.Names.{go_space}

-- `cleanStrings`
unfoldable pub clean_strings : List Text → List Text
clean_strings values = keep (λ value. not (is_empty value)) (map (trim go_space) values)

pub record OpenilinkRequest : Type 0 where
  pub enabled : Bool
  pub base_url : Text
  pub token : Text
  pub clear_token : Bool
  pub allowed_user_ids : List Text
  pub http_timeout_seconds : ℕ

pub record TelegramRequest : Type 0 where
  pub enabled : Bool
  pub base_url : Text
  pub token : Text
  pub clear_token : Bool
  pub allowed_user_ids : List Text
  pub http_timeout_seconds : ℕ
  pub poll_timeout_seconds : ℕ

pub record OpenilinkConfig : Type 0 where
  pub enabled : Bool
  pub base_url : Text
  pub token : Text
  pub allowed_user_ids : List Text
  pub http_timeout_seconds : ℕ

pub record TelegramConfig : Type 0 where
  pub enabled : Bool
  pub base_url : Text
  pub token : Text
  pub allowed_user_ids : List Text
  pub http_timeout_seconds : ℕ
  pub poll_timeout_seconds : ℕ

-- A handler refuses, or hands a value and a change of the token to the store.
pub data Choice {ℓ} (A : Type ℓ) : Type ℓ where
  refused : ℕ → Choice A
  save : A → (token : Option Text) → Choice A

-- `token`: the token to set, none to keep the one there is, and an empty one to clear it.
abbrev pub token_change : (token : Text) (clear : Bool) → Option Text
token_change token clear =
    let trimmed = trim go_space token in
    if not (is_empty trimmed) then some trimmed else if clear then some [] else none

-- `effectiveToken`
abbrev pub effective_token : Option Text → Text → Text
effective_token none current = current
effective_token (some token) current = token

-- What both handlers do, given how the value is made from the effective token.
abbrev pub choose {ℓ} :
    {A : Type ℓ} (valid : A → Bool) (enabled clear : Bool) (token current : Text)
    → (Text → A)
    → Choice A
choose valid enabled clear token current build =
    let change = token_change token clear in
    let value = build (effective_token change current) in
    if clear && enabled
    then refused 400
    else if clear && not (is_empty (trim go_space token))
    then refused 400
    else if valid value
    then save value change
    else refused 400

-- `requireConfigStore` and the reading of the body
abbrev when_readable {ℓ κ} : {R : Type ℓ} {A : Type κ} → Bool → Option R → (R → Choice A) → Choice A
when_readable has_store none handler = refused (if has_store then 400 else 404)
when_readable has_store (some request) handler = if has_store then handler request else refused 404

-- `value`, with the effective token
abbrev pub openilink_value : OpenilinkRequest → Text → OpenilinkConfig
openilink_value request token = record {
  enabled = request.enabled;
  base_url = request.base_url;
  token = token;
  allowed_user_ids = clean_strings request.allowed_user_ids;
  http_timeout_seconds = request.http_timeout_seconds;
}

unfoldable pub choose_openilink :
    (valid : OpenilinkConfig → Bool) (current : Text) → OpenilinkRequest → Choice OpenilinkConfig
choose_openilink valid current request =
    choose valid request.enabled request.clear_token request.token current (openilink_value request)

-- `value`, with the effective token
abbrev pub telegram_value : TelegramRequest → Text → TelegramConfig
telegram_value request token = record {
  enabled = request.enabled;
  base_url = request.base_url;
  token = token;
  allowed_user_ids = clean_strings request.allowed_user_ids;
  http_timeout_seconds = request.http_timeout_seconds;
  poll_timeout_seconds = request.poll_timeout_seconds;
}

unfoldable pub choose_telegram :
    (valid : TelegramConfig → Bool) (current : Text) → TelegramRequest → Choice TelegramConfig
choose_telegram valid current request =
    choose valid request.enabled request.clear_token request.token current (telegram_value request)

-- The handlers, for the token that the configuration has.
unfoldable pub update_openilink :
    (valid : OpenilinkConfig → Bool) (has_store : Bool) (current : Text)
    → Option OpenilinkRequest
    → Choice OpenilinkConfig
update_openilink valid has_store current body =
    when_readable has_store body (choose_openilink valid current)

unfoldable pub update_telegram :
    (valid : TelegramConfig → Bool) (has_store : Bool) (current : Text)
    → Option TelegramRequest
    → Choice TelegramConfig
update_telegram valid has_store current body =
    when_readable has_store body (choose_telegram valid current)

-- The token that `UpdateOpenILink` of the store keeps.
unfoldable pub stored_token : Option Text → Text → Text
stored_token none current = current
stored_token (some token) current =
    let trimmed = trim go_space token in
    if not (is_empty trimmed) || is_empty token then trimmed else current

-- The token that `UpdateTelegram` of the store keeps.
unfoldable pub stored_telegram_token : Option Text → Text → Text
stored_telegram_token none current = current
stored_telegram_token (some token) current = trim go_space token
