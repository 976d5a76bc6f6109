-- ===== src/Web/Accounts/Guards.antt =====
-- internal/web/server.go and internal/web/config_api.go: what the handlers that let users in and out never
-- do.
use codex_queue_bot.Base.{
  ℕ, ◌≤◌, ◌≡◌, refl, sym, ap, ◌∙◌, subst, ◌⊎◌, inl, inr, Bool, true, false, Option, none, some,
  Text, arith, text_eq, text_eq_iff, if◌then◌else◌, ◌==◌, is_empty, Bool-cases, if-elim,
}
use codex_queue_bot.Web.Sessions.{Session, if_current, require_session, revoke_sessions}
use codex_queue_bot.Web.Sessions.History.{require_session-Checked}
use codex_queue_bot.Web.Accounts.{
  cleared, Response, Server, Verified, Updated, updated, AccountUpdateRequest, with_sessions,
  update_with, when_found, update_account, with_session, Request, logging_in, setting_up,
  logging_out, getting_session, updating_account, serve,
}
use codex_queue_bot.Web.Accounts.Updating.{Ends, update_account-Ends}

-- Who is let in with a token.
abbrev pub let_in_with : Text → ℕ → Server → Option Session
let_in_with id now s = (require_session id now s.sessions).1

pub let_in-current :
    (id : Text) (now : ℕ) (s : Server)
    → let_in_with id now s ≡ if_current now (s.sessions.sessions id)
let_in-current id now s = (require_session-Checked id now s.sessions).1

-- A change of the account either succeeds, and lets no one in any more, or leaves it as it was.
abbrev pub Outcome : Server → Server × Response → Type 0
Outcome s (s', response) =
    (((response.status == 200) ≡ true)
      × ((response.cookie ≡ cleared) × ((id : Text) (later : ℕ) → let_in_with id later s' ≡ none)))
    ⊎ (((response.status == 200) ≡ false) × (s'.snapshot ≡ s.snapshot))

updated-Outcome :
    (s s' : Server) (result : Server × Response)
    → s'.snapshot ≡ s.snapshot
    → Ends s' result
    → Outcome s result
unfolding revoke_sessions
updated-Outcome s s' result same (inl (status, failing, is)) =
    subst (Outcome s) (sym is) (inr (failing, same))
updated-Outcome s s' result same (inr (snapshot, is)) =
    subst (Outcome s) (sym is) (
      inl (refl, (refl, λ id later. let_in-current id later (update_with (updated snapshot) s').0)))

-- Whoever asks `updateAccount` for what: if it succeeds, then every session there was is refused from
-- then on, also the one that asked, whose cookie is cleared; in every other case the account is as
-- it was.
pub updating_account-revokes :
    (verify : Text → Text → Verified) (store : Text → Text → Updated)
    (body : Option AccountUpdateRequest) (cookie : Option Text) (now : ℕ) (s : Server)
    → Outcome s (serve (updating_account verify store body) cookie now s)
unfolding serve with_session
updating_account-revokes verify store body none now s = inr (refl, refl)
updating_account-revokes verify store body (some id) now s =
    if-elim (Outcome s) (is_empty id) _ _ (inr (refl, refl))
      (go (require_session id now s.sessions).1)
  where
    checked : Server
    checked = with_sessions s (require_session id now s.sessions).0

    go :
        (found : Option Session)
        → Outcome s (
            when_found id checked found
              (λ id session s'. update_account verify store body session s'))
    go none = inr (refl, refl)
    go (some session) =
        updated-Outcome s checked _ refl (update_account-Ends verify store body session checked)

abbrev pub needs_session : Request → Bool
needs_session (logging_in verify body token) = false
needs_session (setting_up store body token) = false
needs_session _ = true

-- The session of a cookie that came along.
abbrev pub session_of : Option Text → ℕ → Server → Option Session
session_of none now s = none
session_of (some id) now s = let_in_with id now s

later-gone :
    (kept : Option Session) (now later : ℕ)
    → now ≤ later
    → if_current now kept ≡ none
    → if_current later kept ≡ none
later-gone none now later h gone = refl
later-gone (some session) now later h gone = ground (arith, h, gone)

-- What `requireSession` drops was of no use any more.
dropping-same :
    (id : Text) (now : ℕ) (s : Server) (other : Text) (later : ℕ)
    → let_in_with id now s ≡ none
    → now ≤ later
    → let_in_with other later (with_sessions s (require_session id now s.sessions).0)
      ≡ let_in_with other later s
dropping-same id now s other later gone h =
    let after = with_sessions s (require_session id now s.sessions).0 in
    let expired = sym (let_in-current id now s) ∙ gone in
    let_in-current other later after
    ∙ ap (if_current later) ((require_session-Checked id now s.sessions).2 other)
    ∙ same (Bool-cases (text_eq id other)) expired
    ∙ sym (let_in-current other later s)
  where
    same :
        (text_eq id other ≡ true) ⊎ (text_eq id other ≡ false)
        → if_current now (s.sessions.sessions id) ≡ none
        → if_current later (
            if text_eq id other
            then if_current now (s.sessions.sessions id)
            else s.sessions.sessions other)
          ≡ if_current later (s.sessions.sessions other)
    same (inr differs) expired = rw differs refl
    same (inl is) expired = rw is (
        ap (if_current later) expired
        ∙ sym (
            ap (λ i. if_current later (s.sessions.sessions i)) (sym ((text_eq_iff id other).0 is))
            ∙ later-gone (s.sessions.sessions id) now later h expired))

abbrev pub Refused : ℕ → Server → Server × Response → Type 0
Refused now s (s', response) =
    (response.status ≡ 401)
    × ((s'.snapshot ≡ s.snapshot)
        × ((other : Text) (later : ℕ)
            → now ≤ later
            → let_in_with other later s' ≡ let_in_with other later s))

with_session-Refused :
    (cookie : Option Text) (now : ℕ) (handler : Text → Session → Server → Server × Response)
    (s : Server)
    → session_of cookie now s ≡ none
    → Refused now s (with_session cookie now handler s)
unfolding with_session
with_session-Refused none now handler s gone = (refl, (refl, λ other later h. refl))
with_session-Refused (some id) now handler s gone =
    if-elim (Refused now s) (is_empty id) _ _ (refl, (refl, λ other later h. refl))
      (subst
        (λ found.
          Refused now s
            (when_found id (with_sessions s (require_session id now s.sessions).0) found handler))
        (sym gone) (refl, (refl, λ other later h. dropping-same id now s other later gone h)))

-- A request to a handler behind `requireSession` whose cookie is missing, unknown or has run out is
-- answered with 401, and changes neither the account nor who is let in, now or later.
pub serve-Refused :
    (request : Request) (cookie : Option Text) (now : ℕ) (s : Server)
    → needs_session request ≡ true
    → session_of cookie now s ≡ none
    → Refused now s (serve request cookie now s)
unfolding serve
serve-Refused (logging_in verify body token) cookie now s h gone = ground (arith, h)
serve-Refused (setting_up store body token) cookie now s h gone = ground (arith, h)
serve-Refused logging_out cookie now s h gone = with_session-Refused cookie now _ s gone
serve-Refused getting_session cookie now s h gone = with_session-Refused cookie now _ s gone
serve-Refused (updating_account verify store body) cookie now s h gone =
    with_session-Refused cookie now _ s gone
