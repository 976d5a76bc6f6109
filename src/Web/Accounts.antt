-- ===== src/Web/Accounts.antt =====
-- internal/web/server.go and internal/web/config_api.go: the handlers that let users in and out, with
-- `requireSession` before those that need it. What the store, the hash and the source of random bytes
-- answer is an argument; the texts of the errors are left out.
pub mod Updating
pub mod Guards
pub mod Exchanges
mod Tests
use codex_queue_bot.Base.{
  ℕ, suc, Bool, true, false, not, ◌&&◌, ◌||◌, List, [], ◌∷◌, Option, none, some, Text, text_eq,
  if◌then◌else◌, ltb, length, is_empty,
}
use codex_queue_bot.Base.Trim.{trim}
use codex_queue_bot.Jobs.Names.{go_space}
use codex_queue_bot.Web.Sessions.{
  Session, Sessions, establish_session, require_session, remove_session, revoke_sessions,
}

-- What a response does to the session cookie: nothing, clear it, or set it.
pub data Cookie : Type 0 where
  untouched cleared : Cookie
  set_to : Text → Cookie

pub record Response : Type 0 where
  pub status : ℕ
  pub cookie : Cookie
  pub session : Option Session  -- `sessionResponse`

-- What the store's snapshot says of the administrator.
pub record Snapshot : Type 0 where
  pub revision : ℕ
  pub setup_required : Bool
  pub admin_username : Text

pub record Server : Type 0 where
  pub sessions : Sessions
  pub has_store : Bool  -- `configStore` is not nil
  pub snapshot : Snapshot
  pub config_changed : ℕ

-- The errors that `writeConfigurationError` tells apart.
pub data StoreError : Type 0 where
  not_found conflict invalid other : StoreError

pub data Verified : Type 0 where
  failed : StoreError → Verified
  rejected : Verified
  accepted : Text → Verified

-- `ErrAlreadySetup`, another error, or the new snapshot
pub data SetUp : Type 0 where
  already_set_up unable : SetUp
  set_up : Snapshot → SetUp

pub data Updated : Type 0 where
  refused : StoreError → Updated
  updated : Snapshot → Updated

pub record LoginRequest : Type 0 where
  pub username : Text
  pub password : Text

pub record AccountUpdateRequest : Type 0 where
  pub username : Text
  pub password : Text
  pub new_password : Text
  pub current_password : Text

abbrev pub reply : ℕ → Response
reply status = record { status = status; cookie = untouched; session = none }

-- `setConfiguration`
abbrev pub set_configuration : Snapshot → Server → Server
set_configuration snapshot s = record s {
  snapshot = snapshot;
  config_changed = suc s.config_changed;
}

abbrev pub with_sessions : Server → Sessions → Server
with_sessions s sessions = record s { sessions = sessions }

-- The call of `establishSession` that ends a login and a setup, with the token that was made.
abbrev pub let_in : Option Text → Text → ℕ → Server → Server × Response
let_in none username now s = (s, reply 500)
let_in (some id) username now s =
    let (sessions, current) = establish_session id username now s.sessions in
    (with_sessions s sessions, record { status = 200; cookie = set_to id; session = some current })

-- The session of the cookie is dropped at a login.
abbrev pub rotate : Option Text → Server → Server
rotate none s = s
rotate (some previous) s =
    if is_empty previous then s else with_sessions s (remove_session previous s.sessions)

abbrev pub log_in_verified : Verified → Option Text → Option Text → ℕ → Server → Server × Response
log_in_verified (failed error) cookie token now s = (s, reply 500)
log_in_verified rejected cookie token now s = (s, reply 401)
log_in_verified (accepted username) cookie token now s = let_in token username now (rotate cookie s)

-- `login`, for a body that may not be read, the cookie that came along, and the new token. `verify` is
-- what the store answers; with no store, what the comparison with the first name and password does.
unfoldable pub login :
    (Text → Text → Verified)
    → Option LoginRequest
    → Option Text
    → Option Text
    → ℕ
    → Server
    → Server × Response
login verify none cookie token now s = (s, reply 400)
login verify (some request) cookie token now s =
    log_in_verified (verify request.username request.password) cookie token now s

abbrev pub set_up_with : SetUp → Text → Option Text → ℕ → Server → Server × Response
set_up_with already_set_up username token now s = (s, reply 409)
set_up_with unable username token now s = (s, reply 500)
set_up_with (set_up snapshot) username token now s =
    let_in token username now (set_configuration snapshot s)

abbrev pub minimum_admin_password_length : ℕ
minimum_admin_password_length = 5

-- `setup`
unfoldable pub setup :
    (Text → Text → SetUp) → Option LoginRequest → Option Text → ℕ → Server → Server × Response
setup store none token now s = (s, reply (if s.has_store then 400 else 409))
setup store (some request) token now s =
    let username = trim go_space request.username in
    if not s.has_store
    then (s, reply 409)
    else if is_empty username || ltb (length request.password) minimum_admin_password_length
    then (s, reply 400)
    else set_up_with (store username request.password) username token now s

-- `getSession`
abbrev pub get_session : Session → Response
get_session session = record { status = 200; cookie = untouched; session = some session }

-- `logout`, for the token that `requireSession` has let in.
unfoldable pub logout : Text → Server → Server × Response
logout id s = (
  with_sessions s (remove_session id s.sessions),
  record { status = 200; cookie = cleared; session = none },
)

-- `writeConfigurationError`
abbrev pub error_status : StoreError → ℕ
error_status not_found = 404
error_status conflict = 400
error_status invalid = 400
error_status other = 500

abbrev pub fail : StoreError → Server → Server × Response
fail error s = (s, reply (error_status error))

-- The end of `updateAccount`: every session is revoked, also the one that asked.
abbrev pub update_with : Updated → Server → Server × Response
update_with (refused error) s = fail error s
update_with (updated snapshot) s =
    let next = set_configuration snapshot s in
    (
      with_sessions next (revoke_sessions next.sessions),
      record { status = 200; cookie = cleared; session = none },
    )

-- The test of the current password, if it is given, and what goes on after it.
abbrev pub after_check : Verified → Server → Server × Response → Server × Response
after_check (failed error) s next = fail error s
after_check rejected s next = (s, reply 401)
after_check (accepted username) s next = next

abbrev pub default_to : Text → Text → Text
default_to fallback value = if is_empty value then fallback else value

-- `updateAccount`, in the session of the user who asks.
unfoldable pub update_account :
    (Text → Text → Verified)
    → (Text → Text → Updated)
    → Option AccountUpdateRequest
    → Session
    → Server
    → Server × Response
update_account verify store none session s = (s, reply (if s.has_store then 400 else 404))
update_account verify store (some request) session s =
    let username = default_to s.snapshot.admin_username (trim go_space request.username) in
    let new_password = default_to request.password request.new_password in
    let both = not (is_empty request.new_password) && not (is_empty request.password) in
    let save =
      if text_eq username s.snapshot.admin_username && is_empty new_password
      then (s, reply 400)
      else update_with (store username new_password) s in
    if not s.has_store
    then (s, reply 404)
    else if both && not (text_eq request.new_password request.password)
    then (s, reply 400)
    else if not (is_empty new_password) && ltb (length new_password) minimum_admin_password_length
    then (s, reply 400)
    else if is_empty request.current_password
    then save
    else after_check (verify session.username request.current_password) s save

abbrev pub when_found :
    Text
    → Server
    → Option Session
    → (Text → Session → Server → Server × Response)
    → Server × Response
when_found id s none handler = (s, record { status = 401; cookie = cleared; session = none })
when_found id s (some session) handler = handler id session s

-- `requireSession`, before a handler that takes the token and its session.
unfoldable pub with_session :
    Option Text → ℕ → (Text → Session → Server → Server × Response) → Server → Server × Response
with_session none now handler s = (s, reply 401)
with_session (some id) now handler s =
    if is_empty id
    then (s, reply 401)
    else (let (sessions, found) = require_session id now s.sessions in
        when_found id (with_sessions s sessions) found handler)

-- The requests of these handlers, with all that the handlers are told.
pub data Request : Type 0 where
  logging_in : (Text → Text → Verified) → Option LoginRequest → Option Text → Request
  setting_up : (Text → Text → SetUp) → Option LoginRequest → Option Text → Request
  logging_out getting_session : Request
  updating_account :
      (Text → Text → Verified) → (Text → Text → Updated) → Option AccountUpdateRequest → Request

-- `routes`: `requireSession` comes before every handler of the group `authorized`.
unfoldable pub serve : Request → Option Text → ℕ → Server → Server × Response
serve (logging_in verify body token) cookie now s = login verify body cookie token now s
serve (setting_up store body token) cookie now s = setup store body token now s
serve logging_out cookie now s = with_session cookie now (λ id session s'. logout id s') s
serve getting_session cookie now s =
    with_session cookie now (λ id session s'. (s', get_session session)) s
serve (updating_account verify store body) cookie now s =
    with_session cookie now (λ id session s'. update_account verify store body session s') s
