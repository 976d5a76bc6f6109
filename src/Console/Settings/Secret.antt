-- ===== src/Console/Settings/Secret.antt =====
-- frontend/src/App.tsx: `SecretInput`, whose button reveals a secret or hides it. `toggle` is cut at
-- its await.
use codex_queue_bot.Base.{
  ◌≡◌, Bool, true, false, ◌&&◌, List, [], ◌∷◌, Option, none, some, Text, arith, if◌then◌else◌,
  is_empty,
}
use codex_queue_bot.Console.Api.{Settled, returned, failed}

pub record SecretInput : Type 0 where
  pub visible : Bool
  pub loading : Bool
  -- the prop `value`, which `onChange` sets, and whether there is an `onReveal`
  pub value : Text
  pub revealing : Bool

-- `toggle` up to its call of `onReveal`, which is made exactly if `loading` is on after it.
toggle : SecretInput → SecretInput
toggle input =
    if input.visible
    then record input { visible = false }
    else if input.revealing && is_empty input.value
    then record input { loading = true }
    else record input { visible = true }

-- The rest of `toggle`: `undefined` leaves the value, a failure is handed to `onRevealError`.
revealed : Settled (Option Text) → SecretInput → SecretInput
revealed (returned none) input = record input { loading = false; visible = true }
revealed (returned (some text)) input = record input {
  value = text;
  loading = false;
  visible = true;
}
revealed (failed failure) input = record input { loading = false }

pub data Event : Type 0 where
  toggled : Event
  reveal_settled : Settled (Option Text) → Event
  typed : Text → Event

-- The field and its button are disabled while a secret is being loaded.
pub step : Event → SecretInput → SecretInput
unfolding toggle revealed
step toggled input = if input.loading then input else toggle input
step (reveal_settled outcome) input = if input.loading then revealed outcome input else input
step (typed text) input = if input.loading then input else record input { value = text }

pub run : List Event → SecretInput → SecretInput
unfolding step
run [] input = input
run (event ∷ events) input = run events (step event input)

-- A reveal is under way only for a hidden and empty field.
pub record IsProper (input : SecretInput) : Type 0 where
  pub hidden : input.loading ≡ true → input.visible ≡ false
  pub blank : input.loading ≡ true → is_empty input.value ≡ true

step-IsProper : (event : Event) (input : SecretInput) → IsProper input → IsProper (step event input)
unfolding step
step-IsProper toggled input v = ground arith
step-IsProper (reveal_settled (returned none)) input v = ground arith
step-IsProper (reveal_settled (returned (some text))) input v = ground arith
step-IsProper (reveal_settled (failed failure)) input v = ground arith
step-IsProper (typed text) input v = ground arith

-- Whatever happens to the field, from a state of which the same holds: while a secret is being loaded it is hidden and empty, so that
-- the answer replaces nothing that was typed or shown.
pub run-IsProper :
    (events : List Event) (input : SecretInput) → IsProper input → IsProper (run events input)
unfolding run
run-IsProper [] input v = v
run-IsProper (event ∷ events) input v =
    run-IsProper events (step event input) (step-IsProper event input v)
