-- ===== src/Web/Sessions.antt =====
-- internal/web/server.go: the sessions that the server keeps, by the token that a cookie carries. Times
-- are numbers; tokens are random texts, an argument.
pub mod History
mod Tests
use codex_queue_bot.Base.{
  ℕ, suc, ◌+◌, Bool, true, false, List, [], ◌∷◌, Option, none, some, Text, text_eq, if◌then◌else◌,
  ltb,
}

pub record Session : Type 0 where
  pub username : Text
  pub expires_at : ℕ

pub record Sessions : Type 0 where
  pub sessions : Text → Option Session
  pub session_ttl : ℕ
  pub changed : ℕ  -- how often `sessionsChanged` was closed

-- `current.ExpiresAt.After(now)`
abbrev pub is_current : ℕ → Session → Bool
is_current now session = ltb now session.expires_at

-- An entry of a map is set, or removed.
abbrev pub put_session : Text → Option Session → (Text → Option Session) → Text → Option Session
put_session id entry sessions other = if text_eq id other then entry else sessions other

-- `signalSessionsChangedLocked`
abbrev signal_sessions_changed : Sessions → Sessions
signal_sessions_changed s = record s { changed = suc s.changed }

abbrev pub if_current : ℕ → Option Session → Option Session
if_current now none = none
if_current now (some session) = if is_current now session then some session else none

-- `purgeExpiredSessionsLocked`
abbrev purge_expired_sessions : ℕ → Sessions → Sessions
purge_expired_sessions now s = record s { sessions = λ id. if_current now (s.sessions id) }

-- `establishSession`, given the token that `randomToken` made.
unfoldable pub establish_session : Text → Text → ℕ → Sessions → Sessions × Session
establish_session id username now s =
    let current : Session = record { username = username; expires_at = now + s.session_ttl } in
    (
      signal_sessions_changed (
          purge_expired_sessions now
            (record s { sessions = put_session id (some current) s.sessions })),
      current,
    )

-- One that is not current is removed.
abbrev pub check_found : Text → ℕ → Sessions → Option Session → Sessions × Option Session
check_found id now s none = (s, none)
check_found id now s (some current) =
    if is_current now current
    then (s, some current)
    else (record s { sessions = put_session id none s.sessions }, none)

-- The part of `requireSession` under the lock, for a cookie that is not empty: the session if it is
-- there and current.
unfoldable pub require_session : Text → ℕ → Sessions → Sessions × Option Session
require_session id now s = check_found id now s (s.sessions id)

-- The removal of one session, by `logout`, or by `login` for the session of the cookie.
unfoldable pub remove_session : Text → Sessions → Sessions
remove_session id s =
    signal_sessions_changed (record s { sessions = put_session id none s.sessions })

-- `revokeSessions`
unfoldable pub revoke_sessions : Sessions → Sessions
revoke_sessions s = signal_sessions_changed (record s { sessions = λ id. none })

abbrev pub exists_current : ℕ → Option Session → Bool
exists_current now none = false
exists_current now (some current) = is_current now current

-- `sessionExists`
unfoldable pub session_exists : Text → ℕ → Sessions → Bool
session_exists id now s = exists_current now (s.sessions id)

-- What the handlers do to the sessions.
pub data Operation : Type 0 where
  established : (id username : Text) → Operation
  required removed : Text → Operation
  revoked : Operation

unfoldable pub apply : ℕ → Operation → Sessions → Sessions
apply now (established id username) s = (establish_session id username now s).0
apply now (required id) s = (require_session id now s).0
apply now (removed id) s = remove_session id s
apply now revoked s = revoke_sessions s

-- The sessions after some operations, the latest first.
unfoldable pub after : List (ℕ × Operation) → Sessions → Sessions
after [] s = s
after ((now, operation) ∷ earlier) s = apply now operation (after earlier s)

-- A server that was just started.
unfoldable pub no_sessions : ℕ → Sessions
no_sessions ttl = record { sessions = λ id. none; session_ttl = ttl; changed = 0 }
