-- ===== src/Web/Sessions/History.antt =====
-- internal/web/server.go: the sessions against the history of what was done to them.
use codex_queue_bot.Base.{
  ℕ, ◌+◌, ◌≤◌, ◌≡◌, refl, sym, ap, ◌∙◌, ◌⊎◌, ◌↔◌, inl, inr, true, false, List, [], ◌∷◌, Option,
  none, some, Text, arith, subst, text_eq, text_eq_iff, if◌then◌else◌, Bool-cases,
}
use codex_queue_bot.Web.Sessions.{
  Session, Sessions, is_current, if_current, check_found, exists_current, establish_session,
  require_session, remove_session, revoke_sessions, session_exists, Operation, established,
  required, removed, revoked, apply, after, no_sessions,
}

-- Who was let in under a token, by the history alone: nothing is ever forgotten but what was
-- removed or revoked.
unfoldable pub issued : ℕ → List (ℕ × Operation) → Text → Option Session
issued ttl [] id = none
issued ttl ((at, established token username) ∷ earlier) id =
    if text_eq token id
    then some (record { username = username; expires_at = at + ttl })
    else issued ttl earlier id
issued ttl ((at, required token) ∷ earlier) id = issued ttl earlier id
issued ttl ((at, removed token) ∷ earlier) id =
    if text_eq token id then none else issued ttl earlier id
issued ttl ((at, revoked) ∷ earlier) id = none

-- The one who was let in under the token, and for whom there is time left.
abbrev pub admitted : ℕ → List (ℕ × Operation) → Text → ℕ → Option Session
admitted ttl history id now = if_current now (issued ttl history id)

-- The operations follow one another, and none is after the time.
abbrev pub IsOrdered : List (ℕ × Operation) → ℕ → Type 0
IsOrdered [] now = Unit
IsOrdered ((at, operation) ∷ earlier) now = (at ≤ now) × IsOrdered earlier at

-- The server has the session that was issued, or has forgotten one that is no longer current.
abbrev pub Matches : ℕ → Option Session → Option Session → Type 0
Matches now kept issued_one =
    (kept ≡ issued_one)
    ⊎ ((kept ≡ none)
        × ((session : Session) × (issued_one ≡ some session) × (session.expires_at ≤ now)))

pub later-Matches :
    (now later : ℕ) (a b : Option Session) → now ≤ later → Matches now a b → Matches later a b
later-Matches now later a b h m = ground (arith, m)

past-current :
    (now : ℕ) (session : Session) → session.expires_at ≤ now → is_current now session ≡ false
past-current now session h = ground (arith, h)

current-past :
    (now : ℕ) (session : Session) → is_current now session ≡ false → session.expires_at ≤ now
current-past now session h = ground (arith, h)

forget-Matches :
    (now : ℕ) (kept one : Option Session)
    → Matches now kept one
    → Matches now (if_current now kept) one
forget-Matches now none one m = m
forget-Matches now (some session) one (inr (gone, past_one)) = ground (arith, gone)
forget-Matches now (some session) one (inl same) = elim (Bool-cases (is_current now session)) [
  | inl current ↦ rw current (inl same)
  | inr past ↦ rw past (inr (refl, (session, sym same, current-past now session past)))
]

pub admits :
    (now : ℕ) (kept one : Option Session)
    → Matches now kept one
    → if_current now kept ≡ if_current now one
admits now kept one (inl same) = ap (if_current now) same
admits now kept one (inr (gone, past_one)) =
    let (session, was, past) = past_one in
    ap (if_current now) gone
    ∙ sym (
        ap (if_current now) was
        ∙ ap (λ b. if b then some session else none) (past-current now session past))

-- What the check of a session does: to the whole, for the one that asked, and to each session.
abbrev Checked : Text → ℕ → Sessions → Option Session → Sessions × Option Session → Type 0
Checked id now s kept (s', found) =
    (s'.session_ttl ≡ s.session_ttl)
    × (found ≡ if_current now kept)
    × ((other : Text)
        → s'.sessions other ≡ (if text_eq id other then if_current now kept else s.sessions other))

put-same :
    (id other : Text) (kept : Option Session) (sessions : Text → Option Session)
    → sessions id ≡ kept
    → sessions other ≡ (if text_eq id other then kept else sessions other)
put-same id other kept sessions h = elim (Bool-cases (text_eq id other)) [
  | inl same ↦ rw same (ap sessions (sym ((text_eq_iff id other).0 same)) ∙ h)
  | inr differs ↦ rw differs refl
]

check_found-Checked :
    (id : Text) (now : ℕ) (s : Sessions) (kept : Option Session)
    → s.sessions id ≡ kept
    → Checked id now s kept (check_found id now s kept)
check_found-Checked id now s none h = (refl, refl, λ other. put-same id other none s.sessions h)
check_found-Checked id now s (some session) h = elim (Bool-cases (is_current now session)) [
  | inl current ↦ rw current (refl, refl, λ other. put-same id other (some session) s.sessions h)
  | inr past ↦ rw past (refl, refl, λ other. refl)
]

pub require_session-Checked :
    (id : Text) (now : ℕ) (s : Sessions)
    → Checked id now s (s.sessions id) (require_session id now s)
unfolding require_session
require_session-Checked id now s = check_found-Checked id now s (s.sessions id) refl

pub apply-ttl :
    (now : ℕ) (operation : Operation) (s : Sessions)
    → (apply now operation s).session_ttl ≡ s.session_ttl
unfolding apply establish_session remove_session revoke_sessions
apply-ttl now (established token username) s = refl
apply-ttl now (required token) s = (require_session-Checked token now s).0
apply-ttl now (removed token) s = refl
apply-ttl now revoked s = refl

-- What one operation does to what the server has and to what was issued.
pub apply-Matches :
    (now : ℕ) (operation : Operation) (s : Sessions) (earlier : List (ℕ × Operation)) (id : Text)
    → Matches now (s.sessions id) (issued s.session_ttl earlier id)
    → Matches now
        ((apply now operation s).sessions id)
        (issued s.session_ttl ((now, operation) ∷ earlier) id)
unfolding apply issued establish_session remove_session revoke_sessions
apply-Matches now (established token username) s earlier id m =
    elim (Bool-cases (text_eq token id)) [
      | inl same ↦ rw same (forget-Matches now _ _ (inl refl))
      | inr other ↦ rw other (forget-Matches now _ _ m)
    ]
apply-Matches now (required token) s earlier id m =
    subst (λ kept. Matches now kept (issued s.session_ttl earlier id))
      (sym ((require_session-Checked token now s).2 id))
      (elim (Bool-cases (text_eq token id)) [
        | inl same ↦ rw same (
            forget-Matches now _ _ (
              subst (λ kept. Matches now kept (issued s.session_ttl earlier id))
                (ap s.sessions (sym ((text_eq_iff token id).0 same))) m))
        | inr other ↦ rw other m
      ])
apply-Matches now (removed token) s earlier id m = elim (Bool-cases (text_eq token id)) [
  | inl same ↦ rw same (inl refl)
  | inr other ↦ rw other m
]
apply-Matches now revoked s earlier id m = inl refl

after-ttl :
    (history : List (ℕ × Operation)) (s : Sessions) → (after history s).session_ttl ≡ s.session_ttl
unfolding after
after-ttl [] s = refl
after-ttl ((at, operation) ∷ earlier) s =
    apply-ttl at operation (after earlier s) ∙ after-ttl earlier s

after-Matches :
    (ttl : ℕ) (history : List (ℕ × Operation)) (now : ℕ) (id : Text)
    → IsOrdered history now
    → Matches now ((after history (no_sessions ttl)).sessions id) (issued ttl history id)
unfolding after no_sessions issued
after-Matches ttl [] now id ordered = inl refl
after-Matches ttl ((at, operation) ∷ earlier) now id (order, ordered) =
    let s = after earlier (no_sessions ttl) in
    let same : s.session_ttl ≡ ttl = after-ttl earlier (no_sessions ttl) in
    later-Matches at now _ _ order (
      subst
        (λ n.
          Matches at ((apply at operation s).sessions id) (issued n ((at, operation) ∷ earlier) id))
        same
        (apply-Matches at operation s earlier id (
          subst (λ n. Matches at (s.sessions id) (issued n earlier id)) (sym same)
            (after-Matches ttl earlier at id ordered))))

exists-admits :
    (now : ℕ) (kept : Option Session)
    → (exists_current now kept ≡ true)
      ↔ ((session : Session) × (if_current now kept ≡ some session))
exists-admits now none = (λ h. ground (arith, h), λ (session, h). ground (arith, h))
exists-admits now (some session) =
    (λ h. (session, ap (λ b. if b then some session else none) h), λ (other, h). ground (arith, h))

-- Whatever was done to the sessions, in the order of time, `requireSession` lets in exactly those
-- whom the history admits: who has a token that was issued, that was not removed or revoked since,
-- and for which there is time left. What the server forgets by itself changes nothing. What
-- `sessionExists` tells the event stream agrees with it.
pub require_session-refines :
    (ttl : ℕ) (history : List (ℕ × Operation)) (now : ℕ) (id : Text)
    → IsOrdered history now
    → ((require_session id now (after history (no_sessions ttl))).1 ≡ admitted ttl history id now)
      × ((session_exists id now (after history (no_sessions ttl)) ≡ true)
          ↔ ((session : Session) × (admitted ttl history id now ≡ some session)))
unfolding session_exists
require_session-refines ttl history now id ordered =
    let s = after history (no_sessions ttl) in
    let same = admits now (s.sessions id) _ (after-Matches ttl history now id ordered) in
    let exists = exists-admits now (s.sessions id) in
    (
      (require_session-Checked id now s).1 ∙ same,
      (
        λ found. let (session, h) = exists.0 found in (session, sym same ∙ h),
        λ (session, found). exists.1 (session, same ∙ found),
      ),
    )
