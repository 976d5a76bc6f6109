-- ===== src/Console/Api/Routes.antt =====
-- internal/web/server.go, `routes`, and `parseTargetID` of internal/web/config_api.go: which handler
-- answers a request, whether behind the session check, and for which target.
pub mod Agreement
use codex_queue_bot.Base.{
  ℕ, ◌^◌, ◌<◌, ◌≡◌, Bool, true, false, ◌&&◌, List, [], ◌∷◌, ◌++◌, Option, none, some, Text, codes,
  text_eq, push_first, if◌then◌else◌, ltb, ◌==◌,
}
use codex_queue_bot.Base.Decimal.{parse_number}
use codex_queue_bot.Console.Api.Calls.{Method, get, post, put, delete, HttpRequest}

pub data Handler : Type 0 where
  healthz setup_status setup login get_session logout dashboard actions events : Handler
  get_config get_config_secrets update_codex_config update_openilink_config : Handler
  update_telegram_config update_web_config update_account create_target run_adhoc : Handler
  update_target delete_target : Handler

-- A segment of a registered path: a text, or the parameter `:id`.
pub data Segment : Type 0 where
  lit : Text → Segment
  id : Segment

pub record Route : Type 0 where
  pub method : Method
  pub path : List Segment
  pub handler : Handler
  pub guarded : Bool

-- The segments of a path, split at `/`.
split_path : Text → List Text
split_path [] = [] ∷ []
split_path (c ∷ s) = let rest = split_path s in if c == b'/' then [] ∷ rest else push_first c rest

abbrev api : List Segment → List Segment
api path = lit [] ∷ lit (codes "api") ∷ lit (codes "v1") ∷ path

abbrev open_route : Method → List Segment → Handler → Route
open_route method path handler = record {
  method = method;
  path = api path;
  handler = handler;
  guarded = false;
}

-- A route of the `authorized` group.
abbrev guarded_route : Method → List Segment → Handler → Route
guarded_route method path handler = record {
  method = method;
  path = api path;
  handler = handler;
  guarded = true;
}

routes : List Route
routes =
    record {
      method = get;
      path = lit [] ∷ lit (codes "healthz") ∷ [];
      handler = healthz;
      guarded = false;
    }
    ∷ open_route get (lit (codes "setup") ∷ lit (codes "status") ∷ []) setup_status
    ∷ open_route post (lit (codes "setup") ∷ []) setup
    ∷ open_route post (lit (codes "auth") ∷ lit (codes "login") ∷ []) login
    ∷ guarded_route get (lit (codes "auth") ∷ lit (codes "session") ∷ []) get_session
    ∷ guarded_route post (lit (codes "auth") ∷ lit (codes "logout") ∷ []) logout
    ∷ guarded_route get (lit (codes "dashboard") ∷ []) dashboard
    ∷ guarded_route post (lit (codes "actions") ∷ []) actions
    ∷ guarded_route get (lit (codes "events") ∷ []) events
    ∷ guarded_route get (lit (codes "config") ∷ []) get_config
    ∷ guarded_route get (lit (codes "config") ∷ lit (codes "secrets") ∷ []) get_config_secrets
    ∷ guarded_route put (lit (codes "config") ∷ lit (codes "codex") ∷ []) update_codex_config
    ∷ guarded_route put (lit (codes "config") ∷ lit (codes "openilink") ∷ [])
        update_openilink_config
    ∷ guarded_route put (lit (codes "config") ∷ lit (codes "telegram") ∷ []) update_telegram_config
    ∷ guarded_route put (lit (codes "config") ∷ lit (codes "web") ∷ []) update_web_config
    ∷ guarded_route put (lit (codes "account") ∷ []) update_account
    ∷ guarded_route post (lit (codes "targets") ∷ []) create_target
    ∷ guarded_route post (lit (codes "targets") ∷ id ∷ lit (codes "adhoc") ∷ []) run_adhoc
    ∷ guarded_route put (lit (codes "targets") ∷ id ∷ []) update_target
    ∷ guarded_route delete (lit (codes "targets") ∷ id ∷ []) delete_target
    ∷ []

same_method : Method → Method → Bool
same_method get get = true
same_method post post = true
same_method put put = true
same_method delete delete = true
same_method _ _ = false

-- The parameter `:id` of a request that fits the path: `no_id` where the path has none.
pub data Params : Type 0 where
  no_id : Params
  with_id : Text → Params

match_path : List Segment → List Text → Option Params
match_path [] [] = some no_id
match_path [] (_ ∷ _) = none
match_path (_ ∷ _) [] = none
match_path (lit text ∷ path) (part ∷ parts) =
    let rest = match_path path parts in if text_eq text part then rest else none
match_path (id ∷ path) (part ∷ parts) = elim (match_path path parts) [
  | none ↦ none
  | some _ ↦ some (with_id part)
]

-- What `parseTargetID` makes of the parameter: an `int64` above 0, or an answer 400.
pub data TargetRef : Type 0 where
  no_target bad_target : TargetRef
  target : ℕ → TargetRef

-- `strconv.ParseInt` takes a plus sign before the digits; a minus sign gives no number above zero.
without_plus : Text → Text
without_plus [] = []
without_plus (c ∷ s) = if c == 0x2b then s else c ∷ s

pub parse_target_id : Text → TargetRef
unfolding without_plus
parse_target_id text = elim (parse_number (without_plus text)) [
  | none ↦ bad_target
  | some n ↦ if ltb 0 n && ltb n (2 ^ 63) then target n else bad_target
]

target_of : Params → TargetRef
target_of no_id = no_target
target_of (with_id text) = parse_target_id text

pub record Served : Type 0 where
  pub handler : Handler
  pub guarded : Bool
  pub target : TargetRef

find_route : List Route → Method → List Text → Option Served
unfolding match_path target_of same_method
find_route [] method parts = none
find_route (route ∷ rest) method parts =
    let later = find_route rest method parts in
    if same_method route.method method
    then elim (match_path route.path parts) [
      | none ↦ later
      | some params ↦
          some
            (record { handler = route.handler; guarded = route.guarded; target = target_of params })
    ]
    else later

-- `none` is `NoRoute`: the embedded user interface answers.
pub serve : HttpRequest → Option Served
unfolding find_route split_path routes
serve request = find_route routes request.method (split_path request.url)
