-- ===== src/Console/Settings/Fields.antt =====
-- frontend/src/App.tsx: the fields of the configuration that `ConfigurationPage` edits in place, by
-- `codexField`, `webField`, `openField` and `telegramField`. A list is edited as the text of its
-- lines. A number that cannot be read is out of the model.
use codex_queue_bot.Base.{ℕ, Bool, Text}
use codex_queue_bot.Console.Api.Types.{CodexSection, WebSection, OpenilinkSection, TelegramSection}
use codex_queue_bot.Console.Lines.{split_lines}

pub data CodexEdit : Type 0 where
  binary prompts_file prompts success_message reasoning_effort config_overrides : Text → CodexEdit
  request_timeout_seconds retry_min_seconds retry_max_seconds : ℕ → CodexEdit
  keepalive_min_seconds keepalive_max_seconds max_parallel : ℕ → CodexEdit

unfoldable pub codex_field : CodexEdit → CodexSection → CodexSection
codex_field (binary text) s = record s { binary = text }
codex_field (prompts_file text) s = record s { prompts_file = text }
codex_field (prompts text) s = record s { prompts = split_lines text }
codex_field (success_message text) s = record s { success_message = text }
codex_field (reasoning_effort text) s = record s { reasoning_effort = text }
codex_field (config_overrides text) s = record s { config_overrides = split_lines text }
codex_field (request_timeout_seconds n) s = record s { request_timeout_seconds = n }
codex_field (retry_min_seconds n) s = record s { retry_min_seconds = n }
codex_field (retry_max_seconds n) s = record s { retry_max_seconds = n }
codex_field (keepalive_min_seconds n) s = record s { keepalive_min_seconds = n }
codex_field (keepalive_max_seconds n) s = record s { keepalive_max_seconds = n }
codex_field (max_parallel n) s = record s { max_parallel = n }

pub data WebEdit : Type 0 where
  listen_address trusted_proxies : Text → WebEdit
  activity_limit : ℕ → WebEdit
  cookie_secure : Bool → WebEdit

unfoldable pub web_field : WebEdit → WebSection → WebSection
web_field (listen_address text) s = record s { listen_address = text }
web_field (trusted_proxies text) s = record s { trusted_proxies = split_lines text }
web_field (activity_limit n) s = record s { activity_limit = n }
web_field (cookie_secure on) s = record s { cookie_secure = on }

pub data OpenilinkEdit : Type 0 where
  base_url allowed_user_ids : Text → OpenilinkEdit
  http_timeout_seconds : ℕ → OpenilinkEdit

unfoldable pub openilink_field : OpenilinkEdit → OpenilinkSection → OpenilinkSection
openilink_field (base_url text) s = record s { base_url = text }
openilink_field (allowed_user_ids text) s = record s { allowed_user_ids = split_lines text }
openilink_field (http_timeout_seconds n) s = record s { http_timeout_seconds = n }

pub data TelegramEdit : Type 0 where
  base_url allowed_user_ids : Text → TelegramEdit
  http_timeout_seconds poll_timeout_seconds : ℕ → TelegramEdit

unfoldable pub telegram_field : TelegramEdit → TelegramSection → TelegramSection
telegram_field (TelegramEdit.base_url text) s = record s { base_url = text }
telegram_field (TelegramEdit.allowed_user_ids text) s = record s {
  allowed_user_ids = split_lines text;
}
telegram_field (TelegramEdit.http_timeout_seconds n) s = record s { http_timeout_seconds = n }
telegram_field (poll_timeout_seconds n) s = record s { poll_timeout_seconds = n }
