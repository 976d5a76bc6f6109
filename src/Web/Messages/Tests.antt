-- ===== src/Web/Messages/Tests.antt =====
-- internal/web/config_api.go: an entry that is off, with a new token for it.
use codex_queue_bot.Base.{◌≡◌, refl, Bool, true, false, not, [], ◌∷◌, some, codes, is_empty}
use codex_queue_bot.Base.Trim.{trim}
use codex_queue_bot.Jobs.Names.{go_space}
use codex_queue_bot.Web.Messages.{
  OpenilinkRequest, OpenilinkConfig, TelegramRequest, TelegramConfig, update_openilink,
  choose_openilink, update_telegram, clean_strings, save, stored_token, stored_telegram_token,
}
use codex_queue_bot.Web.Messages.Tokens.{
  Outcome, Saved, update_openilink_outcome, update_telegram_outcome,
}

abbrev openilink_request : OpenilinkRequest
openilink_request = record {
  enabled = true;
  base_url = codes "https://hub";
  token = codes " new ";
  clear_token = false;
  allowed_user_ids = codes " ann " ∷ [];
  http_timeout_seconds = 30;
}

abbrev telegram_request : TelegramRequest
telegram_request = record {
  enabled = false;
  base_url = codes "https://hub";
  token = [];
  clear_token = true;
  allowed_user_ids = [];
  http_timeout_seconds = 30;
  poll_timeout_seconds = 20;
}

abbrev has_token : OpenilinkConfig → Bool
has_token value = not (is_empty value.token)

update_openilink_outcome_example :
    Outcome
      (Saved stored_token has_token
        (λ (value : OpenilinkConfig). value.enabled)
        (λ (value : OpenilinkConfig). value.token)
        (codes " new ")
        false
        (codes "old"))
      (update_openilink has_token true (codes "old") (some openilink_request))
update_openilink_outcome_example =
    update_openilink_outcome has_token (codes "old") openilink_request true

update_telegram_outcome_example :
    Outcome
      (Saved stored_telegram_token
        (λ value. true)
        (λ (value : TelegramConfig). value.enabled)
        (λ (value : TelegramConfig). value.token)
        []
        true
        (codes "old"))
      (update_telegram (λ value. true) true (codes "old") (some telegram_request))
update_telegram_outcome_example =
    update_telegram_outcome (λ value. true) (codes "old") telegram_request true

saved :
    update_openilink has_token true (codes "old") (some openilink_request)
    ≡ save
        (record {
          enabled = true;
          base_url = codes "https://hub";
          token = codes "new";
          allowed_user_ids = codes "ann" ∷ [];
          http_timeout_seconds = 30;
        })
        (some (codes "new"))
unfolding update_openilink choose_openilink clean_strings trim go_space
saved = refl
