-- ===== src/Web/Accounts/Tests.antt =====
-- internal/web/server.go and internal/web/config_api.go: a login, a look at the session, and a change of the
-- password.
use codex_queue_bot.Base.{
  ◌≡◌, refl, true, false, List, [], ◌∷◌, none, some, Text, codes, arith, text_eq, if◌then◌else◌,
}
use codex_queue_bot.Base.Trim.{trim}
use codex_queue_bot.Web.Sessions.{establish_session, require_session, revoke_sessions, no_sessions}
use codex_queue_bot.Web.Sessions.History.{admitted}
use codex_queue_bot.Web.Accounts.{
  Server, Verified, rejected, accepted, Updated, updated, AccountUpdateRequest, logging_in,
  logging_out, getting_session, updating_account, serve, login, update_account, with_session,
}
use codex_queue_bot.Web.Accounts.Guards.{Outcome, Refused, updating_account-revokes, serve-Refused}
use codex_queue_bot.Web.Accounts.Exchanges.{Exchange, serve_all, history_of, InOrder}
use codex_queue_bot.Web.Accounts.Exchanges.Soundness.{serve_all-refines}

abbrev verify : Text → Text → Verified
verify username password = if text_eq password (codes "secret") then accepted username else rejected

abbrev save : Text → Text → Updated
save username password =
    updated (record { revision = 2; setup_required = false; admin_username = username })

abbrev server : Server
server = record {
  sessions = no_sessions 100;
  has_store = true;
  snapshot = record { revision = 1; setup_required = false; admin_username = codes "ann" };
  config_changed = 0;
}

abbrev entering : Exchange
entering = record {
  at = 1;
  cookie = none;
  request =
      logging_in verify (some (record { username = codes "ann"; password = codes "secret" }))
        (some (codes "t1"));
}

abbrev looking : Exchange
looking = record { at = 2; cookie = some (codes "t1"); request = getting_session }

abbrev change_request : AccountUpdateRequest
change_request = record {
  username = [];
  password = [];
  new_password = codes "longer";
  current_password = codes "secret";
}

abbrev changing : Exchange
changing = record {
  at = 3;
  cookie = some (codes "t1");
  request = updating_account verify save (some change_request);
}

abbrev two : List Exchange
two = looking ∷ entering ∷ []

abbrev exchanges : List Exchange
exchanges = changing ∷ two

exchanges-InOrder : InOrder exchanges 4
exchanges-InOrder = (omega arith, (omega arith, (omega arith, tt)))

serve_all-refines_example :
    (require_session (codes "t1") 4 (serve_all exchanges server).sessions).1
    ≡ admitted 100 (history_of exchanges server) (codes "t1") 4
serve_all-refines_example =
    serve_all-refines exchanges server 100 4 (codes "t1") refl exchanges-InOrder

let_in_before :
    (require_session (codes "t1") 4 (serve_all two server).sessions).1
    ≡ some (record { username = codes "ann"; expires_at = 101 })
unfolding serve_all serve login with_session establish_session require_session no_sessions
let_in_before = refl

out_after : (require_session (codes "t1") 4 (serve_all exchanges server).sessions).1 ≡ none
unfolding serve_all serve login with_session establish_session require_session no_sessions
    update_account revoke_sessions trim
out_after = refl

updating_account-revokes_example : Outcome (serve_all two server) (
    serve
      (updating_account verify save (some change_request))
      (some (codes "t1"))
      3
      (serve_all two server))
updating_account-revokes_example =
    updating_account-revokes verify save (some change_request) (some (codes "t1")) 3
      (serve_all two server)

out_then :
    (serve
      (updating_account verify save (some change_request))
      (some (codes "t1"))
      3
      (serve_all two server)).1.status
    ≡ 200
unfolding serve_all serve login with_session establish_session require_session no_sessions
    update_account revoke_sessions trim
out_then = refl

serve-Refused_example :
    Refused 5
      (serve_all exchanges server)
      (serve logging_out (some (codes "t1")) 5 (serve_all exchanges server))
unfolding serve_all serve login with_session establish_session require_session no_sessions
    update_account revoke_sessions trim
serve-Refused_example =
    serve-Refused logging_out (some (codes "t1")) 5 (serve_all exchanges server) refl refl
