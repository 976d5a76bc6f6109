-- ===== src/Web/Messages/Tokens.antt =====
-- internal/web/config_api.go and internal/storage/storage.go: the token of a message entry, from the request to
-- the store.
use codex_queue_bot.Base.{
  ◌≡◌, refl, sym, ◌∙◌, ◌⊎◌, inl, inr, Bool, true, false, [], Option, none, some, Text, is_empty,
  Bool-cases,
}
use codex_queue_bot.Base.Trim.{trim, trim_idem}
use codex_queue_bot.Jobs.Names.{go_space}
use codex_queue_bot.Web.Messages.{
  OpenilinkRequest, TelegramRequest, OpenilinkConfig, TelegramConfig, Choice, refused, save, choose,
  choose_openilink, choose_telegram, openilink_value, telegram_value, update_openilink,
  update_telegram, stored_token, stored_telegram_token,
}

filled_token :
    (current t : Text)
    → trim go_space t ≡ t
    → is_empty t ≡ false
    → stored_token (some t) current ≡ t
filled_token current t idem filled = unfold stored_token in (rw idem (rw filled refl))

-- A store keeps the token before where it is given none, and the trimmed one that it is given.
record IsStoring (stored : Option Text → Text → Text) : Type 0 where
  unchanged : (current : Text) → stored none current ≡ current
  cleared : (current : Text) → stored (some []) current ≡ []
  filled :
      (current t : Text) → trim go_space t ≡ t → is_empty t ≡ false → stored (some t) current ≡ t

openilink-IsStoring : IsStoring stored_token
unfolding stored_token trim
openilink-IsStoring = record {
  unchanged = λ current. refl;
  cleared = λ current. refl;
  filled = filled_token;
}

telegram-IsStoring : IsStoring stored_telegram_token
unfolding stored_telegram_token trim
telegram-IsStoring = record {
  unchanged = λ current. refl;
  cleared = λ current. refl;
  filled = λ current t idem some_there. idem;
}

-- A request that goes to the store, with the token `kept` there before, and `sent` and `clear` from the request:
-- the value is valid, and its token is what the store keeps; which is the token that was sent, trimmed,
-- or none if it was to be cleared, and then the entry is off, or else the one before.
abbrev pub Saved :
    {A : Type 0}
    → (Option Text → Text → Text)
    → (A → Bool)
    → (A → Bool)
    → (A → Text)
    → (sent : Text) (clear : Bool) (kept : Text) → A
    → Option Text
    → Type 0
Saved stored valid enabled token_of sent clear kept value change =
    (valid value ≡ true)
    × ((token_of value ≡ stored change kept)
        × (((token_of value ≡ trim go_space sent)
              × ((is_empty (trim go_space sent) ≡ false) × (clear ≡ false)))
            ⊎ (((token_of value ≡ []) × ((clear ≡ true) × (enabled value ≡ false)))
                ⊎ ((token_of value ≡ kept)
                    × ((clear ≡ false) × (is_empty (trim go_space sent) ≡ true))))))

abbrev pub Outcome : {A : Type 0} → (A → Option Text → Type 0) → Choice A → Type 0
Outcome P (refused status) = (status ≡ 400) ⊎ (status ≡ 404)
Outcome P (save value change) = P value change

module _ {A : Type 0} (valid : A → Bool) (enabled_of : A → Bool) (token_of : A → Text)
    (build : Text → A) (token current : Text) {stored : Option Text → Text → Text}
    (storing : IsStoring stored) where
  chosen :
      (enabled clear : Bool)
      → ((t : Text) → enabled_of (build t) ≡ enabled)
      → ((t : Text) → token_of (build t) ≡ t)
      → Outcome
          (Saved stored valid enabled_of token_of token clear current)
          (choose valid enabled clear token current build)
  chosen true true on tokens = inl refl
  chosen false true on tokens = elim (Bool-cases (is_empty (trim go_space token))) [
    | inr filled ↦ rw filled (inl refl)
    | inl blank ↦ rw blank (elim (Bool-cases (valid (build []))) [
      | inl good ↦
          rw good (
            good,
            (tokens [] ∙ sym (storing.cleared current), inr (inl (tokens [], (refl, on [])))),
          )
      | inr bad ↦ rw bad (inl refl)
    ])
  ]
  chosen enabled false on tokens = elim (Bool-cases (is_empty (trim go_space token))) [
    | inr filled ↦ rw filled (elim (Bool-cases (valid (build (trim go_space token)))) [
      | inl good ↦ rw good (
        good,
        (
          tokens (trim go_space token)
              ∙ sym
                  (storing.filled current (trim go_space token) (trim_idem go_space token) filled),
          inl (tokens (trim go_space token), (filled, refl)),
        ),
      )
      | inr bad ↦ rw bad (inl refl)
    ])
    | inl blank ↦ rw blank (elim (Bool-cases (valid (build current))) [
      | inl good ↦ rw good (
        good,
        (
          tokens current ∙ sym (storing.unchanged current),
          inr (inr (tokens current, (refl, blank))),
        ),
      )
      | inr bad ↦ rw bad (inl refl)
    ])
  ]

-- What `updateOpenILinkConfig` hands to the store, for any request and the token that the configuration and
-- the store have: a valid value, whose token is the one that `UpdateOpenILink` keeps after it. That is the token
-- that was sent, trimmed; or, if none was sent, no token where it was to be cleared and the entry is off,
-- and the one before where it was not to be cleared. Every other request is refused with 400 or 404.
pub update_openilink_outcome :
    (valid : OpenilinkConfig → Bool) (current : Text) (request : OpenilinkRequest)
    (has_store : Bool)
    → Outcome
        (Saved stored_token valid
          (λ (value : OpenilinkConfig). value.enabled)
          (λ (value : OpenilinkConfig). value.token)
          request.token
          request.clear_token
          current)
        (update_openilink valid has_store current (some request))
unfolding update_openilink choose_openilink
update_openilink_outcome valid current request true =
    chosen valid (λ (value : OpenilinkConfig). value.enabled)
      (λ (value : OpenilinkConfig). value.token) (openilink_value request) request.token current
      openilink-IsStoring request.enabled request.clear_token (λ t. refl) (λ t. refl)
update_openilink_outcome valid current request false = inr refl

-- What `updateTelegramConfig` hands to the store, for any request and the token that the configuration and
-- the store have: a valid value, whose token is the one that `UpdateTelegram` keeps after it. That is the token
-- that was sent, trimmed; or, if none was sent, no token where it was to be cleared and the entry is off,
-- and the one before where it was not to be cleared. Every other request is refused with 400 or 404.
pub update_telegram_outcome :
    (valid : TelegramConfig → Bool) (current : Text) (request : TelegramRequest) (has_store : Bool)
    → Outcome
        (Saved stored_telegram_token valid
          (λ (value : TelegramConfig). value.enabled)
          (λ (value : TelegramConfig). value.token)
          request.token
          request.clear_token
          current)
        (update_telegram valid has_store current (some request))
unfolding update_telegram choose_telegram
update_telegram_outcome valid current request true =
    chosen valid (λ (value : TelegramConfig). value.enabled)
      (λ (value : TelegramConfig). value.token) (telegram_value request) request.token current
      telegram-IsStoring request.enabled request.clear_token (λ t. refl) (λ t. refl)
update_telegram_outcome valid current request false = inr refl
