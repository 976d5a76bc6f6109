-- ===== src/Console/Api/Routes/Agreement.antt =====
-- The functions of frontend/src/lib/api.ts against the routes of internal/web/server.go.
use codex_queue_bot.Base.{
  ℕ, ◌^◌, ◌<◌, ◌≡◌, refl, ◌∙◌, ap, Bool, true, false, not, List, [], ◌∷◌, ◌++◌, Option, some, Text,
  codes, arith, any, ◌==◌,
}
use codex_queue_bot.Base.Decimal.{
  print_number, print_number-digits, is_digit, parse_number, parse_number-print_number,
}
use codex_queue_bot.Console.Api.Types.{
  CodexSection, OpenilinkUpdate, TelegramUpdate, WebSection, AccountUpdate, TargetInput,
}
use codex_queue_bot.Console.Api.Calls
use codex_queue_bot.Console.Api.Calls.{HttpRequest}
use codex_queue_bot.Console.Api.Routes.{
  Handler, no_target, target, Served, serve, find_route, split_path, routes, parse_target_id,
  without_plus,
}

-- A call of one of the exported functions.
pub data ApiCall : Type 0 where
  setup_status session logout dashboard get_configuration get_configuration_secrets : ApiCall
  setup login : (username password : Text) → ApiCall
  action : (name : Text) (targets : List Text) → ApiCall
  run_adhoc : (id : ℕ) (prompt : Text) (signal : Option ℕ) → ApiCall
  update_codex : CodexSection → ApiCall
  update_openilink : OpenilinkUpdate → ApiCall
  update_telegram : TelegramUpdate → ApiCall
  update_web : WebSection → ApiCall
  update_account : AccountUpdate → ApiCall
  create_target : TargetInput → ApiCall
  update_target : (id : ℕ) → TargetInput → ApiCall
  delete_target : ℕ → ApiCall

abbrev pub http_request : ApiCall → HttpRequest
http_request setup_status = Calls.setup_status
http_request session = Calls.session
http_request logout = Calls.logout
http_request dashboard = Calls.dashboard
http_request get_configuration = Calls.get_configuration
http_request get_configuration_secrets = Calls.get_configuration_secrets
http_request (setup username password) = Calls.setup username password
http_request (login username password) = Calls.login username password
http_request (action name targets) = Calls.action name targets
http_request (run_adhoc id prompt signal) = Calls.run_adhoc id prompt signal
http_request (update_codex value) = Calls.update_codex value
http_request (update_openilink value) = Calls.update_openilink value
http_request (update_telegram value) = Calls.update_telegram value
http_request (update_web value) = Calls.update_web value
http_request (update_account value) = Calls.update_account value
http_request (create_target value) = Calls.create_target value
http_request (update_target id value) = Calls.update_target id value
http_request (delete_target id) = Calls.delete_target id

abbrev public_call : Handler → Served
public_call handler = record { handler = handler; guarded = false; target = no_target }

abbrev session_call : Handler → Served
session_call handler = record { handler = handler; guarded = true; target = no_target }

abbrev target_call : Handler → ℕ → Served
target_call handler id = record { handler = handler; guarded = true; target = target id }

-- The handler that is meant for a call.
abbrev pub intended : ApiCall → Served
intended setup_status = public_call Handler.setup_status
intended (setup _ _) = public_call Handler.setup
intended (login _ _) = public_call Handler.login
intended session = session_call Handler.get_session
intended logout = session_call Handler.logout
intended dashboard = session_call Handler.dashboard
intended (action _ _) = session_call Handler.actions
intended get_configuration = session_call Handler.get_config
intended get_configuration_secrets = session_call Handler.get_config_secrets
intended (update_codex _) = session_call Handler.update_codex_config
intended (update_openilink _) = session_call Handler.update_openilink_config
intended (update_telegram _) = session_call Handler.update_telegram_config
intended (update_web _) = session_call Handler.update_web_config
intended (update_account _) = session_call Handler.update_account
intended (create_target _) = session_call Handler.create_target
intended (run_adhoc id _ _) = target_call Handler.run_adhoc id
intended (update_target id _) = target_call Handler.update_target id
intended (delete_target id) = target_call Handler.delete_target id

-- The target numbers that the server takes: those of its database.
abbrev IsTargetId : ℕ → Type 0
IsTargetId id = (0 < id) × (id < 2 ^ 63)

abbrev pub HasTargetId : ApiCall → Type 0
HasTargetId (run_adhoc id _ _) = IsTargetId id
HasTargetId (update_target id _) = IsTargetId id
HasTargetId (delete_target id) = IsTargetId id
HasTargetId _ = Unit

abbrev is_slash : ℕ → Bool
is_slash c = c == b'/'

no_slash_in_digits :
    (word : Text) → any (λ c. not (is_digit c)) word ≡ false → any is_slash word ≡ false
no_slash_in_digits [] h = refl
no_slash_in_digits (c ∷ word) h = ground (arith, no_slash_in_digits word)

split_path-segment :
    (word rest : Text)
    → any is_slash word ≡ false
    → split_path (word ++ (b'/' ∷ rest)) ≡ word ∷ split_path rest
unfolding split_path
split_path-segment [] rest h = refl
split_path-segment (c ∷ word) rest h = ground (arith, split_path-segment word rest)

split_path_word : (word : Text) → any is_slash word ≡ false → split_path word ≡ word ∷ []
unfolding split_path
split_path_word [] h = refl
split_path_word (c ∷ word) h = ground (arith, split_path_word word)

without_plus_digits :
    (text : Text) → any (λ c. not (is_digit c)) text ≡ false → without_plus text ≡ text
unfolding without_plus
without_plus_digits [] digits = refl
without_plus_digits (c ∷ s) digits = ground arith

parse_target_id-print_number :
    (id : ℕ) → IsTargetId id → parse_target_id (print_number id) ≡ target id
unfolding parse_target_id
parse_target_id-print_number id h = ground (
  arith,
  parse_number-print_number id,
  ap parse_number (without_plus_digits (print_number id) (print_number-digits id)),
)

abbrev target_parts : Text → List Text → List Text
target_parts word rest = [] ∷ codes "api" ∷ codes "v1" ∷ codes "targets" ∷ word ∷ rest

split_path-targets :
    (rest : Text)
    → split_path (codes "/api/v1/targets/" ++ rest)
      ≡ [] ∷ codes "api" ∷ codes "v1" ∷ codes "targets" ∷ split_path rest
split_path-targets rest =
    split_path-segment [] (codes "api/v1/targets/" ++ rest) refl
    ∙ ap (◌∷◌ []) (
        split_path-segment (codes "api") (codes "v1/targets/" ++ rest) refl
        ∙ ap (◌∷◌ (codes "api")) (
            split_path-segment (codes "v1") (codes "targets/" ++ rest) refl
            ∙ ap (◌∷◌ (codes "v1")) (split_path-segment (codes "targets") rest refl)))

-- The segments of the two kinds of paths that name a target.
update_path :
    (id : ℕ)
    → split_path (codes "/api/v1/targets/" ++ print_number id) ≡ target_parts (print_number id) []
update_path id =
    split_path-targets (print_number id)
    ∙ ap (λ parts. [] ∷ codes "api" ∷ codes "v1" ∷ codes "targets" ∷ parts)
        (split_path_word (print_number id)
          (no_slash_in_digits (print_number id) (print_number-digits id)))

adhoc_path :
    (id : ℕ)
    → split_path (codes "/api/v1/targets/" ++ (print_number id ++ codes "/adhoc"))
      ≡ target_parts (print_number id) (codes "adhoc" ∷ [])
unfolding split_path
adhoc_path id =
    split_path-targets (print_number id ++ codes "/adhoc")
    ∙ ap (λ parts. [] ∷ codes "api" ∷ codes "v1" ∷ codes "targets" ∷ parts)
        (split_path-segment (print_number id) (codes "adhoc")
          (no_slash_in_digits (print_number id) (print_number-digits id)))

-- The routes of a target, whatever text stands for its number.
served_target : (handler : Handler) (word : Text) → Served
served_target handler word = record {
  handler = handler;
  guarded = true;
  target = parse_target_id word;
}

find_route-run_adhoc :
    (word : Text)
    → find_route routes Calls.post (target_parts word (codes "adhoc" ∷ []))
      ≡ some (served_target Handler.run_adhoc word)
unfolding find_route routes served_target
find_route-run_adhoc word = refl

find_route-update_target :
    (word : Text)
    → find_route routes Calls.put (target_parts word [])
      ≡ some (served_target Handler.update_target word)
unfolding find_route routes served_target
find_route-update_target word = refl

find_route-delete_target :
    (word : Text)
    → find_route routes Calls.delete (target_parts word [])
      ≡ some (served_target Handler.delete_target word)
unfolding find_route routes served_target
find_route-delete_target word = refl

served_target-intended :
    (handler : Handler) (id : ℕ)
    → IsTargetId id
    → some (served_target handler (print_number id)) ≡ some (target_call handler id)
unfolding served_target
served_target-intended handler id h =
    ap (λ ref. some (record { handler = handler; guarded = true; target = ref }))
      (parse_target_id-print_number id h)

-- Each function of the console's interface reaches the handler meant for it, behind the session
-- check unless it is for setting up or logging in, and with its target where it names one. The
-- number of a target is one that the database can give out.
pub serve-http_request :
    (call : ApiCall) → HasTargetId call → serve (http_request call) ≡ some (intended call)
unfolding serve Calls.setup_status Calls.session Calls.logout Calls.dashboard
    Calls.get_configuration Calls.get_configuration_secrets Calls.setup Calls.login Calls.action
    Calls.run_adhoc Calls.update_codex Calls.update_openilink Calls.update_telegram Calls.update_web
    Calls.update_account Calls.create_target Calls.update_target Calls.delete_target
serve-http_request (run_adhoc id prompt signal) h =
    ap (find_route routes Calls.post) (adhoc_path id)
    ∙ find_route-run_adhoc (print_number id)
    ∙ served_target-intended Handler.run_adhoc id h
serve-http_request (update_target id value) h =
    ap (find_route routes Calls.put) (update_path id)
    ∙ find_route-update_target (print_number id)
    ∙ served_target-intended Handler.update_target id h
serve-http_request (delete_target id) h =
    ap (find_route routes Calls.delete) (update_path id)
    ∙ find_route-delete_target (print_number id)
    ∙ served_target-intended Handler.delete_target id h
serve-http_request setup_status h = refl
serve-http_request _ h = refl
