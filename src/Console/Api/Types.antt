-- ===== src/Console/Api/Types.antt =====
-- The data types of frontend/src/lib/api.ts. Times are texts, and numbers are naturals.
use codex_queue_bot.Base.{ℕ, ℤ, Bool, List, Option, Text}

pub data QueueState : Type 0 where
  idle running succeeded stopped : QueueState

pub data KeepaliveState : Type 0 where
  requesting waiting_queue waiting_next stopped : KeepaliveState

pub record QueueStatus : Type 0 where
  pub state : QueueState
  pub attempts : ℕ
  pub started_at : Option Text
  pub last_attempt : Option Text
  pub next_attempt : Option Text
  pub finished_at : Option Text
  pub last_error : Option Text

pub record KeepaliveStatus : Type 0 where
  pub state : KeepaliveState
  pub requests : ℕ
  pub started_at : Option Text
  pub last_request : Option Text
  pub last_success : Option Text
  pub last_failure : Option Text
  pub next_request : Option Text
  pub stopped_at : Option Text
  pub last_error : Option Text

pub record Target : Type 0 where
  pub id : ℕ
  pub name : Text
  pub model : Text
  pub api_host : Text
  pub busy : Bool
  pub adhoc_running : Bool
  pub queue : QueueStatus
  pub keepalive : KeepaliveStatus

pub record EntryStatus : Type 0 where
  pub state : Text
  pub error : Option Text
  pub updated_at : Option Text

pub record Concurrency : Type 0 where
  pub current : ℕ
  pub max : ℕ

pub record Dashboard : Type 0 where
  pub version : Text
  pub generated_at : Text
  pub config_revision : ℕ
  pub restart_required : Bool
  pub restart_fields : List Text
  pub openilink : EntryStatus
  pub telegram : EntryStatus
  pub concurrency : Concurrency
  pub targets : List Target

pub record ActionResult : Type 0 where
  pub changed : List Text
  pub unchanged : List Text
  pub unknown : List Text

pub record AdhocRunResult : Type 0 where
  pub target_id : ℕ
  pub target : Text
  pub success : Bool
  pub output : Text
  pub process_output : Text
  pub exit_code : ℤ
  pub error : Option Text
  pub duration_ms : ℕ

pub record ConfigurationTarget : Type 0 where
  pub id : ℕ
  pub sort_order : ℕ
  pub name : Text
  pub api_base_url : Text
  pub api_key_set : Bool
  pub model : Text
  pub wire_api : Text
  pub config_overrides : List Text
  pub busy : Bool

pub record CodexSection : Type 0 where
  pub binary : Text
  pub prompts_file : Text
  pub prompts : List Text
  pub request_timeout_seconds : ℕ
  pub retry_min_seconds : ℕ
  pub retry_max_seconds : ℕ
  pub keepalive_min_seconds : ℕ
  pub keepalive_max_seconds : ℕ
  pub max_parallel : ℕ
  pub success_message : Text
  pub reasoning_effort : Text
  pub config_overrides : List Text

pub record OpenilinkSection : Type 0 where
  pub enabled : Bool
  pub base_url : Text
  pub token_set : Bool
  pub allowed_user_ids : List Text
  pub http_timeout_seconds : ℕ

pub record TelegramSection : Type 0 where
  pub enabled : Bool
  pub base_url : Text
  pub token_set : Bool
  pub allowed_user_ids : List Text
  pub http_timeout_seconds : ℕ
  pub poll_timeout_seconds : ℕ

pub record WebSection : Type 0 where
  pub listen_address : Text
  pub cookie_secure : Bool
  pub trusted_proxies : List Text
  pub activity_limit : ℕ

pub record AccountSection : Type 0 where
  pub username : Text

pub record Configuration : Type 0 where
  pub revision : ℕ
  pub loaded_startup_revision : ℕ
  pub restart_required : Bool
  pub restart_fields : List Text
  pub codex : CodexSection
  pub openilink : OpenilinkSection
  pub telegram : TelegramSection
  pub web : WebSection
  pub account : AccountSection
  pub targets : List ConfigurationTarget

pub record TargetSecret : Type 0 where
  pub id : ℕ
  pub name : Text
  pub api_key : Text

pub record ConfigurationSecrets : Type 0 where
  pub openilink_token : Text
  pub telegram_token : Text
  pub targets : List TargetSecret

pub record TargetInput : Type 0 where
  pub sort_order : Option ℕ
  pub name : Text
  pub api_base_url : Text
  pub api_key : Text
  pub model : Text
  pub wire_api : Text
  pub config_overrides : List Text

-- What the console sends for a message entry: the section without `token_set`, and the token.
pub record OpenilinkUpdate : Type 0 where
  pub enabled : Bool
  pub base_url : Text
  pub token : Text
  pub clear_token : Bool
  pub allowed_user_ids : List Text
  pub http_timeout_seconds : ℕ

pub record TelegramUpdate : Type 0 where
  pub enabled : Bool
  pub base_url : Text
  pub token : Text
  pub clear_token : Bool
  pub allowed_user_ids : List Text
  pub http_timeout_seconds : ℕ
  pub poll_timeout_seconds : ℕ

pub record AccountUpdate : Type 0 where
  pub username : Text
  pub current_password : Text
  pub new_password : Text
