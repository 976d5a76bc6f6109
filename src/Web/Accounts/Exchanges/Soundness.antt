-- ===== src/Web/Accounts/Exchanges/Soundness.antt =====
-- internal/web/server.go and internal/web/config_api.go: the server lets in whom the exchanges admit.
use codex_queue_bot.Base.{
  ℕ, ◌≤◌, ◌≡◌, refl, sym, ap, ◌∙◌, subst, inl, inr, false, not, ◌||◌, List, [], ◌∷◌, ◌++◌, Option,
  none, some, Text, if◌then◌else◌, ltb, length, is_empty, Bool-cases, if-elim,
}
use codex_queue_bot.Base.Trim.{trim}
use codex_queue_bot.Jobs.Names.{go_space}
use codex_queue_bot.Web.Sessions.{
  Session, Sessions, establish_session, require_session, revoke_sessions, Operation, established,
  required, removed, revoked, apply, no_sessions,
}
use codex_queue_bot.Web.Sessions.History.{
  issued, admitted, Matches, admits, apply-Matches, apply-ttl, later-Matches,
  require_session-Checked,
}
use codex_queue_bot.Web.Accounts.Updating.{Ends, update_account-Ends}
use codex_queue_bot.Web.Accounts.{
  get_session, Cookie, untouched, cleared, Response, Server, Verified, failed, rejected, accepted,
  SetUp, Updated, LoginRequest, AccountUpdateRequest, let_in, rotate, log_in_verified, set_up_with,
  set_configuration, minimum_admin_password_length, already_set_up, unable, set_up, when_found,
  with_sessions, login, setup, logout, update_account, with_session, Request, logging_in,
  setting_up, logging_out, getting_session, updating_account, serve,
}
use codex_queue_bot.Web.Accounts.Exchanges.{
  entered, opened, dropped, seen, Exchange, serve_all, at_time, history_of, InOrder,
}

-- The sessions match a history, for every token.
Tracks : ℕ → ℕ → Sessions → List (ℕ × Operation) → Type 0
Tracks ttl now s history =
    (s.session_ttl ≡ ttl) × ((id : Text) → Matches now (s.sessions id) (issued ttl history id))

apply-Tracks :
    (ttl now : ℕ) (operation : Operation) (s : Sessions) (history : List (ℕ × Operation))
    → Tracks ttl now s history
    → Tracks ttl now (apply now operation s) ((now, operation) ∷ history)
unfolding Tracks
apply-Tracks ttl now operation s history (same, matches) = (
  apply-ttl now operation s ∙ same,
  λ id.
      subst
        (λ n.
          Matches now ((apply now operation s).sessions id)
            (issued n ((now, operation) ∷ history) id))
        same
        (apply-Matches now operation s history id
          (subst (λ n. Matches now (s.sessions id) (issued n history id)) (sym same) (matches id))),
)

-- `requireSession` by itself changes nothing that the history tells.
required-Tracks :
    (ttl now : ℕ) (token : Text) (s : Sessions) (history : List (ℕ × Operation))
    → Tracks ttl now s history
    → Tracks ttl now (require_session token now s).0 history
unfolding Tracks apply issued
required-Tracks ttl now token s history t =
    let u = apply-Tracks ttl now (required token) s history t in (u.0, λ id. u.1 id)

let_in-Tracks :
    (ttl now : ℕ) (token : Option Text) (username : Text) (s : Server)
    (history : List (ℕ × Operation))
    → Tracks ttl now s.sessions history
    → (let (s', response) = let_in token username now s in
        Tracks ttl now s'.sessions (at_time now (opened response.cookie response.session) history))
unfolding establish_session apply
let_in-Tracks ttl now none username s history t = t
let_in-Tracks ttl now (some id) username s history t =
    apply-Tracks ttl now (established id username) s.sessions history t

dropped-Tracks :
    (ttl now : ℕ) (cookie : Option Text) (s : Server) (history : List (ℕ × Operation))
    → Tracks ttl now s.sessions history
    → Tracks ttl now (rotate cookie s).sessions (at_time now (dropped cookie) history)
unfolding apply
dropped-Tracks ttl now none s history t = t
dropped-Tracks ttl now (some id) s history t = elim (Bool-cases (is_empty id)) [
  | inl blank ↦ rw blank t
  | inr filled ↦ rw filled (apply-Tracks ttl now (removed id) s.sessions history t)
]

at_time-append :
    (now : ℕ) (a b : List Operation) (history : List (ℕ × Operation))
    → at_time now (a ++ b) history ≡ at_time now a (at_time now b history)
at_time-append now [] b history = refl
at_time-append now (operation ∷ a) b history =
    ap (λ l. (now, operation) ∷ l) (at_time-append now a b history)

module _ (ttl now : ℕ) (history : List (ℕ × Operation)) where
  -- What a served request does to the sessions is what the exchange says.
  Sound : Request → Option Text → Server × Response → Type 0
  Sound request cookie (s, response) =
      Tracks ttl now s.sessions (at_time now (seen request cookie response) history)

  login-Sound :
      (verify : Text → Text → Verified) (body : Option LoginRequest) (token cookie : Option Text)
      (s : Server)
      → Tracks ttl now s.sessions history
      → Sound (logging_in verify body token) cookie (login verify body cookie token now s)
  unfolding Sound seen login
  login-Sound verify none token cookie s t = t
  login-Sound verify (some request) token cookie s t =
      verified (verify request.username request.password)
    where
      verified :
          (answer : Verified)
          → (let (s', response) = log_in_verified answer cookie token now s in
              Tracks ttl now s'.sessions (
                at_time now
                  (if entered answer
                    then opened response.cookie response.session ++ dropped cookie
                    else [])
                  history))
      verified (failed error) = t
      verified rejected = t
      verified (accepted username) =
          subst (Tracks ttl now _) (sym (at_time-append now _ (dropped cookie) history)) (
            let_in-Tracks ttl now token username (rotate cookie s) _
              (dropped-Tracks ttl now cookie s history t))

  setup-Sound :
      (store : Text → Text → SetUp) (body : Option LoginRequest) (token cookie : Option Text)
      (s : Server)
      → Tracks ttl now s.sessions history
      → Sound (setting_up store body token) cookie (setup store body token now s)
  unfolding Sound seen setup
  setup-Sound store none token cookie s t = t
  setup-Sound store (some request) token cookie s t =
      if-elim (Sound (setting_up store (some request) token) cookie) (not s.has_store) _ _ t (
        if-elim (Sound (setting_up store (some request) token) cookie)
          (is_empty username || ltb (length request.password) minimum_admin_password_length) _ _ t
          (finished (store username request.password)))
    where
      username : Text
      username = trim go_space request.username

      finished :
          (answer : SetUp)
          → (let (s', response) = set_up_with answer username token now s in
              Tracks ttl now s'.sessions
                (at_time now (opened response.cookie response.session) history))
      finished already_set_up = t
      finished unable = t
      finished (set_up snapshot) =
          let_in-Tracks ttl now token username (set_configuration snapshot s) history t

  module _ (P : Server × Response → Type 0)
      (handler : Text → Session → Server → Server × Response) where
    -- `requireSession` turns a request away, or the handler sees the session of the cookie.
    with_session-elim :
        (cookie : Option Text) (s : Server)
        → Tracks ttl now s.sessions history
        → ((s' : Server) (sent : Cookie)
            → Tracks ttl now s'.sessions history
            → P (s', record { status = 401; cookie = sent; session = none }))
        → ((id : Text) (session : Session) (s' : Server)
            → cookie ≡ some id
            → is_empty id ≡ false
            → Tracks ttl now s'.sessions history
            → P (handler id session s'))
        → P (with_session cookie now handler s)
    unfolding with_session
    with_session-elim none s t turn go = turn s untouched t
    with_session-elim (some id) s t turn go = elim (Bool-cases (is_empty id)) [
      | inl blank ↦ rw blank (turn s untouched t)
      | inr filled ↦ rw filled (seeking filled (require_session id now s.sessions).1)
    ]
      where
        checked : Server
        checked = with_sessions s (require_session id now s.sessions).0

        seeking :
            is_empty id ≡ false → (found : Option Session) → P (when_found id checked found handler)
        seeking filled none = turn checked cleared (required-Tracks ttl now id s.sessions history t)
        seeking filled (some session) =
            go id session checked refl filled (required-Tracks ttl now id s.sessions history t)

  logout-Sound :
      (cookie : Option Text) (s : Server)
      → Tracks ttl now s.sessions history
      → Sound logging_out cookie (with_session cookie now (λ id session s'. logout id s') s)
  unfolding Sound seen logout apply
  logout-Sound cookie s t =
      with_session-elim (Sound logging_out cookie) (λ id session s'. logout id s') cookie s t
        (λ s' sent t'. t')
        (λ id session s' h filled t'.
          rw h (rw filled (apply-Tracks ttl now (removed id) s'.sessions history t')))

  update-Sound :
      (verify : Text → Text → Verified) (store : Text → Text → Updated)
      (body : Option AccountUpdateRequest) (cookie : Option Text) (s : Server)
      (result : Server × Response)
      → Tracks ttl now s.sessions history
      → Ends s result
      → Sound (updating_account verify store body) cookie result
  unfolding Sound seen apply revoke_sessions
  update-Sound verify store body cookie s result t (inl (status, failing, is)) =
      subst (Sound (updating_account verify store body) cookie) (sym is) (rw failing t)
  update-Sound verify store body cookie s result t (inr (snapshot, is)) =
      subst (Sound (updating_account verify store body) cookie) (sym is)
        (apply-Tracks ttl now revoked s.sessions history t)

  serve-Sound :
      (request : Request) (cookie : Option Text) (s : Server)
      → Tracks ttl now s.sessions history
      → Sound request cookie (serve request cookie now s)
  unfolding serve Sound seen
  serve-Sound (logging_in verify body token) cookie s t = login-Sound verify body token cookie s t
  serve-Sound (setting_up store body token) cookie s t = setup-Sound store body token cookie s t
  serve-Sound logging_out cookie s t = logout-Sound cookie s t
  serve-Sound getting_session cookie s t =
      with_session-elim (Sound getting_session cookie) (λ id session s'. (s', get_session session))
        cookie s t (λ s' sent t'. t') (λ id session s' h filled t'. t')
  serve-Sound (updating_account verify store body) cookie s t =
      with_session-elim (Sound (updating_account verify store body) cookie)
        (λ id session s'. update_account verify store body session s') cookie s t (λ s' sent t'. t')
        (λ id session s' h filled t'.
          update-Sound verify store body cookie s' _ t'
            (update_account-Ends verify store body session s'))

later-Tracks :
    (ttl now later : ℕ) (s : Sessions) (history : List (ℕ × Operation))
    → now ≤ later
    → Tracks ttl now s history
    → Tracks ttl later s history
unfolding Tracks
later-Tracks ttl now later s history h (same, matches) =
    (same, λ id. later-Matches now later _ _ h (matches id))

serve_all-Tracks :
    (exchanges : List Exchange) (s : Server) (ttl now : ℕ)
    → s.sessions ≡ no_sessions ttl
    → InOrder exchanges now
    → Tracks ttl now (serve_all exchanges s).sessions (history_of exchanges s)
unfolding Tracks Sound serve_all history_of no_sessions issued
serve_all-Tracks [] s ttl now started ordered = rw started (refl, λ id. inl refl)
serve_all-Tracks (one ∷ earlier) s ttl now started (order, ordered) =
    later-Tracks ttl one.at now (serve_all (one ∷ earlier) s).sessions
      (history_of (one ∷ earlier) s) order
      (serve-Sound ttl one.at (history_of earlier s) one.request one.cookie (serve_all earlier s)
        (serve_all-Tracks earlier s ttl one.at started ordered))

-- Whatever requests a server that has just started is sent, in the order of time, `requireSession`
-- then lets in exactly those whom the requests and the responses admit: the one whose token a
-- response to a login or a setup set, unless since then a login or logout with that token dropped it,
-- a change of the account revoked all, or its time ran out.
pub serve_all-refines :
    (exchanges : List Exchange) (s : Server) (ttl now : ℕ) (id : Text)
    → s.sessions ≡ no_sessions ttl
    → InOrder exchanges now
    → (require_session id now (serve_all exchanges s).sessions).1
      ≡ admitted ttl (history_of exchanges s) id now
unfolding Tracks
serve_all-refines exchanges s ttl now id started ordered =
    (require_session-Checked id now (serve_all exchanges s).sessions).1
    ∙ admits now _ _ ((serve_all-Tracks exchanges s ttl now started ordered).1 id)
