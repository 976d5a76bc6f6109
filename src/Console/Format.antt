-- ===== src/Console/Format.antt =====
-- frontend/src/lib/utils.ts: times and countdowns. `new Date(value).getTime()` and
-- `Intl.DateTimeFormat` belong to the browser and are arguments; times are milliseconds.
pub mod Bounds
use codex_queue_bot.Base.{
  ℕ, ◌+◌, ◌-◌, ◌/◌, ◌++◌, Option, none, some, Text, codes, if◌then◌else◌, is_empty, ltb, leb,
}
use codex_queue_bot.Base.Decimal.{print_number}

-- `!value`: the time is `null`, missing or empty.
present : Option Text → Option Text
present none = none
present (some value) = if is_empty value then none else some value

pub format_time : (Text → Text) → Option Text → Text
unfolding present
format_time format value = elim (present value) [ none ↦ codes "—" | some text ↦ format text ]

-- The five texts of `countdown`, and the one that an unreadable date gives.
pub data Countdown : Type 0 where
  unset soon unreadable : Countdown
  seconds minutes hours : ℕ → Countdown

-- From `seconds <= 0` to the end of `countdown`.
pub wait_for : ℕ → Countdown
wait_for total =
    let in_minutes = total / 60 in
    if leb total 0
    then soon
    else if ltb total 60
    then seconds total
    else if ltb in_minutes 60
    then minutes in_minutes
    else hours (in_minutes / 60)

-- `Math.max(0, Math.round((time - now) / 1000))`: a time that has passed gives 0.
pub seconds_until : ℕ → ℕ → ℕ
seconds_until now time = (time - now + 500) / 1000

-- A date that does not parse is `NaN`, which fails every comparison down to the last line.
pub countdown : (Text → Option ℕ) → ℕ → Option Text → Countdown
unfolding present wait_for seconds_until
countdown get_time now value = elim (present value) [
  | none ↦ unset
  | some text ↦ elim (get_time text) [
    | none ↦ unreadable
    | some time ↦ wait_for (seconds_until now time)
  ]
]

pub countdown_text : Countdown → Text
countdown_text unset = codes "—"
countdown_text soon = codes "马上"
countdown_text unreadable = codes "NaN 小时后"
countdown_text (seconds n) = print_number n ++ codes " 秒后"
countdown_text (minutes n) = print_number n ++ codes " 分钟后"
countdown_text (hours n) = print_number n ++ codes " 小时后"
