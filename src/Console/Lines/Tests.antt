-- ===== src/Console/Lines/Tests.antt =====
-- Runs of frontend/src/App.tsx, `splitLines`.
use codex_queue_bot.Base.{◌≡◌, refl, [], ◌∷◌, codes, All}
use codex_queue_bot.Base.Trim.{trim}
use codex_queue_bot.Console.Lines.{split_lines, join_lines, js_space}
use codex_queue_bot.Console.Lines.RoundTrip.{IsLine, split_lines-IsLine, split_lines-join_lines}

split_lines_mixed : split_lines (codes " a=1\r\n\n b = 2 \n\r\n") ≡ codes "a=1" ∷ codes "b = 2" ∷ []
unfolding split_lines js_space trim
split_lines_mixed = refl

two_lines-IsLine : All IsLine (codes "a=1" ∷ codes "b = 2" ∷ [])
unfolding js_space trim
two_lines-IsLine = (
  record { filled = refl; trimmed = refl; single = refl },
  (record { filled = refl; trimmed = refl; single = refl }, tt),
)

split_lines-join_lines_example :
    split_lines (join_lines (codes "a=1" ∷ codes "b = 2" ∷ [])) ≡ codes "a=1" ∷ codes "b = 2" ∷ []
split_lines-join_lines_example =
    split_lines-join_lines (codes "a=1" ∷ codes "b = 2" ∷ []) two_lines-IsLine

split_lines-IsLine_example : All IsLine (split_lines (codes " a=1\r\n\n b = 2 \n\r\n"))
split_lines-IsLine_example = split_lines-IsLine (codes " a=1\r\n\n b = 2 \n\r\n")
