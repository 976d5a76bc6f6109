-- ===== src/Web/Accounts/Exchanges.antt =====
-- internal/web/server.go and internal/web/config_api.go: what may be seen of the handlers from outside,
-- and who is let in by it.
pub mod Soundness
use codex_queue_bot.Base.{
  ℕ, ◌≤◌, ◌≡◌, refl, sym, ap, ◌∙◌, subst, inl, inr, Bool, true, false, not, ◌||◌, List, [], ◌∷◌,
  ◌++◌, Option, none, some, Text, if◌then◌else◌, ltb, ◌==◌, length, is_empty, Bool-cases, if-elim,
}
use codex_queue_bot.Base.Trim.{trim}
use codex_queue_bot.Jobs.Names.{go_space}
use codex_queue_bot.Web.Sessions.{
  Session, Sessions, establish_session, require_session, revoke_sessions, Operation, established,
  required, removed, revoked, apply, no_sessions,
}
use codex_queue_bot.Web.Sessions.History.{
  issued, admitted, Matches, admits, apply-Matches, apply-ttl, later-Matches,
  require_session-Checked,
}
use codex_queue_bot.Web.Accounts.Updating.{Ends, update_account-Ends}
use codex_queue_bot.Web.Accounts.{
  get_session, Cookie, untouched, cleared, set_to, Response, Server, Verified, failed, rejected,
  accepted, SetUp, Updated, LoginRequest, AccountUpdateRequest, let_in, rotate, log_in_verified,
  set_up_with, set_configuration, minimum_admin_password_length, already_set_up, unable, set_up,
  when_found, with_sessions, login, setup, logout, update_account, with_session, Request,
  logging_in, setting_up, logging_out, getting_session, updating_account, serve,
}

-- The password of a login was right.
abbrev pub entered : Verified → Bool
entered (accepted username) = true
entered _ = false

abbrev pub opened : Cookie → Option Session → List Operation
opened (set_to id) (some session) = established id session.username ∷ []
opened _ _ = []

abbrev pub dropped : Option Text → List Operation
dropped none = []
dropped (some id) = if is_empty id then [] else removed id ∷ []

-- What an exchange says of the sessions, the latest first: a response that sets the cookie lets
-- someone in, a login with the right password drops the session of the cookie, and so does a logout
-- that succeeds; a change of the account that succeeds revokes all sessions.
unfoldable pub seen : Request → Option Text → Response → List Operation
seen (logging_in verify none token) cookie response = []
seen (logging_in verify (some request) token) cookie response =
    if entered (verify request.username request.password)
    then opened response.cookie response.session ++ dropped cookie
    else []
seen (setting_up store body token) cookie response = opened response.cookie response.session
seen logging_out cookie response = if response.status == 200 then dropped cookie else []
seen getting_session cookie response = []
seen (updating_account verify store body) cookie response =
    if response.status == 200 then revoked ∷ [] else []

-- A request, with its time and the cookie that came along.
pub record Exchange : Type 0 where
  pub at : ℕ
  pub cookie : Option Text
  pub request : Request

-- The server after some exchanges, the latest first.
unfoldable pub serve_all : List Exchange → Server → Server
serve_all [] s = s
serve_all (one ∷ earlier) s = (serve one.request one.cookie one.at (serve_all earlier s)).0

abbrev pub at_time : ℕ → List Operation → List (ℕ × Operation) → List (ℕ × Operation)
at_time now [] history = history
at_time now (operation ∷ earlier) history = (now, operation) ∷ at_time now earlier history

-- What the exchanges say.
unfoldable pub history_of : List Exchange → Server → List (ℕ × Operation)
history_of [] s = []
history_of (one ∷ earlier) s =
    at_time one.at
      (seen one.request one.cookie (serve one.request one.cookie one.at (serve_all earlier s)).1)
      (history_of earlier s)

abbrev pub InOrder : List Exchange → ℕ → Type 0
InOrder [] now = Unit
InOrder (one ∷ earlier) now = (one.at ≤ now) × InOrder earlier one.at
