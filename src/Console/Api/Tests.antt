-- ===== src/Console/Api/Tests.antt =====
-- Concrete calls of the console's interface.
use codex_queue_bot.Base.{◌≡◌, none, some, codes, arith}
use codex_queue_bot.Console.Api.Calls
use codex_queue_bot.Console.Api.Routes.{serve}
use codex_queue_bot.Console.Api.Routes.Agreement.{run_adhoc, intended, serve-http_request}

serve-http_request_example :
    serve (Calls.run_adhoc 17 (codes "hi") none) ≡ some (intended (run_adhoc 17 (codes "hi") none))
serve-http_request_example =
    serve-http_request (run_adhoc 17 (codes "hi") none) (omega arith, omega arith)
