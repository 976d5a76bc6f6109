-- ===== src/Console/Api.antt =====
-- frontend/src/lib/api.ts: how a call of `fetch` ends, and what `request` makes of it.
pub mod Types
pub mod Calls
pub mod Routes
mod Tests
use codex_queue_bot.Base.Decimal.{print_number}
use codex_queue_bot.Base.{
  ℕ, ◌≡◌, refl, Bool, true, false, ◌++◌, Option, none, Text, codes, if◌then◌else◌, is_empty, [],
  ◌∷◌,
}

-- A rejected promise: an abort, which is an `Error` too, any other `Error` with its message, or a
-- value that is no `Error`.
pub data Failure : Type 0 where
  aborted : Text → Failure
  error : Text → Failure
  thrown : Failure

-- `err instanceof Error ? err.message : fallback`
abbrev pub message_of : Failure → Text → Text
message_of (aborted message) fallback = message
message_of (error message) fallback = message
message_of thrown fallback = fallback

-- How a promise settles.
pub data Settled {ℓ} (A : Type ℓ) : Type ℓ where
  returned : A → Settled A
  failed : Failure → Settled A

-- A response body as JSON: what reading its `error` member gives, and the value where the object has
-- the shape that the call's type promises. Reading the member of `null` throws. A member that counts
-- as true is the text that `new Error` makes of it; any other, or none, is empty.
pub record Json {ℓ} (A : Type ℓ) : Type ℓ where
  pub error_text : Settled Text
  pub value : Option A

pub record Response {ℓ} (A : Type ℓ) : Type ℓ where
  pub ok : Bool
  pub status : ℕ
  pub json : Settled (Json A)

-- `response.json().catch(() => ({}))`
abbrev pub json_or_empty {ℓ} : {A : Type ℓ} → Settled (Json A) → Json A
json_or_empty (returned json) = json
json_or_empty (failed _) = record { error_text = returned []; value = none }

abbrev request_failed : ℕ → Text
request_failed status = codes "请求失败 (" ++ (print_number status ++ codes ")")

abbrev or_default : Text → Text → Text
or_default value default = if is_empty value then default else value

-- `throw new Error(body.error || ...)`
abbrev thrown_error : Settled Text → ℕ → Failure
thrown_error (failed failure) status = failure
thrown_error (returned text) status = error (or_default text (request_failed status))

-- `request`: what the promise returns once `fetch` has settled.
unfoldable pub request {ℓ} : {A : Type ℓ} → Settled (Response A) → Settled (Json A)
request (failed failure) = failed failure
request (returned response) =
    let body = json_or_empty response.json in
    if response.ok then returned body else failed (thrown_error body.error_text response.status)

-- How a call ends whose server has answered so.
pub data Ends {ℓ} {A : Type ℓ} (response : Response A) : Settled (Json A) → Type ℓ where
  -- A success brings the body that could be read,
  answered :
      (json : Json A)
      → response.ok ≡ true
      → response.json ≡ returned json
      → Ends response (returned json)
  -- or an empty object for one that could not.
  emptied :
      (failure : Failure)
      → response.ok ≡ true
      → response.json ≡ failed failure
      → Ends response (returned (record { error_text = returned []; value = none }))
  -- Without success, the error is what the body tells, if that is not empty,
  told :
      (json : Json A) (text : Text)
      → response.ok ≡ false
      → response.json ≡ returned json
      → json.error_text ≡ returned text
      → is_empty text ≡ false
      → Ends response (failed (error text))
  -- or else one with the status,
  untold :
      (json : Json A)
      → response.ok ≡ false
      → response.json ≡ returned json
      → json.error_text ≡ returned []
      → Ends response
          (failed (error (codes "请求失败 (" ++ (print_number response.status ++ codes ")"))))
  -- as it is for a body that could not be read;
  unreadable :
      (failure : Failure)
      → response.ok ≡ false
      → response.json ≡ failed failure
      → Ends response
          (failed (error (codes "请求失败 (" ++ (print_number response.status ++ codes ")"))))
  -- and a body whose member cannot be read gives the failure of reading it.
  untouchable :
      (json : Json A) (failure : Failure)
      → response.ok ≡ false
      → response.json ≡ returned json
      → json.error_text ≡ failed failure
      → Ends response (failed failure)

module _ {ℓ} {A : Type ℓ} (response : Response A) where
  failing :
      (json : Json A) (reading : Settled Text)
      → json.error_text ≡ reading
      → response.ok ≡ false
      → response.json ≡ returned json
      → Ends response (failed (thrown_error reading response.status))
  failing json (failed failure) e bad j = untouchable json failure bad j e
  failing json (returned []) e bad j = untold json bad j e
  failing json (returned (c ∷ text)) e bad j = told json (c ∷ text) bad j e refl

  ending :
      (success : Bool) (json : Settled (Json A))
      → response.ok ≡ success
      → response.json ≡ json
      → Ends response (
          if success
          then returned (json_or_empty json)
          else failed (thrown_error (json_or_empty json).error_text response.status))
  ending true (returned json) good j = answered json good j
  ending true (failed failure) good j = emptied failure good j
  ending false (returned json) bad j = failing json json.error_text refl bad j
  ending false (failed failure) bad j = unreadable failure bad j

-- Once the server has answered, `request` returns the body exactly when the answer is a success, or an
-- empty object in place of a body that could not be read. An answer without success fails: with the
-- error text of the body, if there is one that is not empty; else with the text
-- "请求失败 (<status>)", in decimal digits, also if the body could not be read; and with the failure of
-- reading that text, if that throws, as it does for the body `null`.
pub request_outcome {ℓ} :
    {A : Type ℓ} (response : Response A) → Ends response (request (returned response))
unfolding request
request_outcome response = ending response response.ok response.json refl refl
