-- ===== src/Console/Format/Bounds.antt =====
-- Reading back the countdown of frontend/src/lib/utils.ts.
use codex_queue_bot.Base.{
  ℕ, ◌+◌, ◌*◌, ◌≤◌, ◌<◌, ◌≡◌, ◌⊎◌, Option, some, Text, arith, is_empty, false,
}
use codex_queue_bot.Console.Format.{
  Countdown, unset, soon, unreadable, seconds, minutes, hours, countdown,
}

-- The milliseconds to which a countdown amounts, and those of its unit.
abbrev pub Shows : Countdown → ℕ → Type 0
Shows unset left = ⊥
Shows unreadable left = ⊥
Shows soon left = left < 500
Shows (seconds n) left =
    (1 ≤ n) × (n < 60) × (n * 1000 ≤ left + 500) × (left + 500 < (n + 1) * 1000)
Shows (minutes n) left =
    (1 ≤ n) × (n < 60) × (n * 60000 ≤ left + 500) × (left + 500 < (n + 1) * 60000)
Shows (hours n) left = (1 ≤ n) × (n * 3600000 ≤ left + 500) × (left + 500 < (n + 1) * 3600000)

-- The countdown to a time that can be read shows the time left, rounded to the nearest second and
-- then down to the unit that it names: at most 59 seconds, at most 59 minutes, never zero of a unit.
-- A time that has passed shows as `soon`.
pub countdown-Shows :
    (get_time : Text → Option ℕ) (now time left : ℕ) (value : Text)
    → is_empty value ≡ false
    → get_time value ≡ some time
    → ((time ≡ now + left) ⊎ ((time ≤ now) × (left ≡ 0)))
    → Shows (countdown get_time now (some value)) left
unfolding countdown
countdown-Shows get_time now time left value filled read wait = ground arith
