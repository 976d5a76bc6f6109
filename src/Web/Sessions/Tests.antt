-- ===== src/Web/Sessions/Tests.antt =====
-- internal/web/server.go: two users are let in, one is let out, and time goes by.
use codex_queue_bot.Base.{ℕ, ◌≡◌, ◌↔◌, refl, true, List, [], ◌∷◌, none, some, codes, arith}
use codex_queue_bot.Web.Sessions.{
  Session, establish_session, require_session, remove_session, session_exists, Operation,
  established, required, removed, apply, after, no_sessions,
}
use codex_queue_bot.Web.Sessions.History.{IsOrdered, admitted, require_session-refines}

abbrev history : List (ℕ × Operation)
history =
    (9, required (codes "a"))
    ∷ (5, removed (codes "b"))
    ∷ (3, established (codes "b") (codes "bob"))
    ∷ (2, established (codes "a") (codes "ann"))
    ∷ []

history-IsOrdered : IsOrdered history 11
history-IsOrdered = (omega arith, (omega arith, (omega arith, (omega arith, tt))))

require_session-refines_example :
    ((require_session (codes "a") 11 (after history (no_sessions 10))).1
      ≡ admitted 10 history (codes "a") 11)
    × ((session_exists (codes "a") 11 (after history (no_sessions 10)) ≡ true)
        ↔ ((session : Session) × (admitted 10 history (codes "a") 11 ≡ some session)))
require_session-refines_example =
    require_session-refines 10 history 11 (codes "a") history-IsOrdered

ann_in :
    (require_session (codes "a") 11 (after history (no_sessions 10))).1
    ≡ some (record { username = codes "ann"; expires_at = 12 })
unfolding after apply require_session establish_session remove_session no_sessions
ann_in = refl

ann_late : (require_session (codes "a") 12 (after history (no_sessions 10))).1 ≡ none
unfolding after apply require_session establish_session remove_session no_sessions
ann_late = refl

bob_out : (require_session (codes "b") 5 (after history (no_sessions 10))).1 ≡ none
unfolding after apply require_session establish_session remove_session no_sessions
bob_out = refl
