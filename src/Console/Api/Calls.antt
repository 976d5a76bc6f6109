-- ===== src/Console/Api/Calls.antt =====
-- frontend/src/lib/api.ts: the request that each exported function hands to `fetch`.
use codex_queue_bot.Base.{ℕ, Bool, true, false, List, ◌++◌, Option, none, Text, codes}
use codex_queue_bot.Base.Decimal.{print_number}
use codex_queue_bot.Console.Api.Types.{
  CodexSection, OpenilinkUpdate, TelegramUpdate, WebSection, AccountUpdate, TargetInput,
}

pub data Method : Type 0 where
  get post put delete : Method

-- The value that `JSON.stringify` is given.
pub data Body : Type 0 where
  empty : Body
  credentials : (username password : Text) → Body
  named_action : (name : Text) (targets : List Text) → Body
  prompt : Text → Body
  codex : CodexSection → Body
  openilink : OpenilinkUpdate → Body
  telegram : TelegramUpdate → Body
  web : WebSection → Body
  account : AccountUpdate → Body
  target : TargetInput → Body

-- What `fetch` is called with; `same-origin` credentials always go along. The abort signal is the
-- number of its controller.
pub record HttpRequest : Type 0 where
  pub url : Text
  pub method : Method
  pub json_header : Bool
  pub body : Body
  pub signal : Option ℕ

-- `request(url)` and `request(url, { method })`
plain : Text → Method → HttpRequest
plain url method = record {
  url = url;
  method = method;
  json_header = false;
  body = empty;
  signal = none;
}

-- `jsonRequest`, and the calls that write its options out
json_request : Text → Method → Body → HttpRequest
json_request url method body = record {
  url = url;
  method = method;
  json_header = true;
  body = body;
  signal = none;
}

-- Exact for the numbers below 2 ^ 53, which JavaScript represents.
target_url : ℕ → Text
target_url id = codes "/api/v1/targets/" ++ print_number id

unfoldable pub setup_status : HttpRequest
unfolding plain
setup_status = plain (codes "/api/v1/setup/status") get

unfoldable pub setup : Text → Text → HttpRequest
unfolding json_request
setup username password = json_request (codes "/api/v1/setup") post (credentials username password)

unfoldable pub session : HttpRequest
unfolding plain
session = plain (codes "/api/v1/auth/session") get

unfoldable pub login : Text → Text → HttpRequest
unfolding json_request
login username password =
    json_request (codes "/api/v1/auth/login") post (credentials username password)

unfoldable pub logout : HttpRequest
unfolding plain
logout = plain (codes "/api/v1/auth/logout") post

unfoldable pub dashboard : HttpRequest
unfolding plain
dashboard = plain (codes "/api/v1/dashboard") get

unfoldable pub action : Text → List Text → HttpRequest
unfolding json_request
action name targets = json_request (codes "/api/v1/actions") post (named_action name targets)

unfoldable pub run_adhoc : ℕ → Text → Option ℕ → HttpRequest
run_adhoc id text signal = record {
  url = codes "/api/v1/targets/" ++ (print_number id ++ codes "/adhoc");
  method = post;
  json_header = true;
  body = prompt text;
  signal = signal;
}

unfoldable pub get_configuration : HttpRequest
unfolding plain
get_configuration = plain (codes "/api/v1/config") get

unfoldable pub get_configuration_secrets : HttpRequest
unfolding plain
get_configuration_secrets = plain (codes "/api/v1/config/secrets") get

unfoldable pub update_codex : CodexSection → HttpRequest
unfolding json_request
update_codex value = json_request (codes "/api/v1/config/codex") put (codex value)

unfoldable pub update_openilink : OpenilinkUpdate → HttpRequest
unfolding json_request
update_openilink value = json_request (codes "/api/v1/config/openilink") put (openilink value)

unfoldable pub update_telegram : TelegramUpdate → HttpRequest
unfolding json_request
update_telegram value = json_request (codes "/api/v1/config/telegram") put (telegram value)

unfoldable pub update_web : WebSection → HttpRequest
unfolding json_request
update_web value = json_request (codes "/api/v1/config/web") put (web value)

unfoldable pub update_account : AccountUpdate → HttpRequest
unfolding json_request
update_account value = json_request (codes "/api/v1/account") put (account value)

unfoldable pub create_target : TargetInput → HttpRequest
unfolding json_request
create_target value = json_request (codes "/api/v1/targets") post (target value)

unfoldable pub update_target : ℕ → TargetInput → HttpRequest
unfolding json_request target_url
update_target id value = json_request (target_url id) put (target value)

unfoldable pub delete_target : ℕ → HttpRequest
unfolding plain target_url
delete_target id = plain (target_url id) delete
