-- ===== src/Console/Lines.antt =====
-- frontend/src/App.tsx, `splitLines`, and the `join("\n")` that fills a text area.
pub mod RoundTrip
mod Tests
use codex_queue_bot.Base.{
  ℕ, ◌≡◌, refl, Bool, true, false, not, ◌&&◌, ◌||◌, List, [], ◌∷◌, ◌++◌, map, arith, Text,
  if◌then◌else◌, any, keep, is_empty, push_first, ◌==◌, leb,
}
use codex_queue_bot.Base.Trim.{trim}

-- The white space and line terminators that `String.prototype.trim` removes.
unfoldable pub js_space : ℕ → Bool
js_space c =
    (leb 9 c && leb c 13)
    || c == 32
    || c == 0xa0
    || c == 0x1680
    || (leb 0x2000 c && leb c 0x200a)
    || c == 0x2028
    || c == 0x2029
    || c == 0x202f
    || c == 0x205f
    || c == 0x3000
    || c == 0xfeff

abbrev pub newline : ℕ
newline = 10

abbrev carriage_return : ℕ
carriage_return = 13

abbrev starts_with_newline : Text → Bool
starts_with_newline [] = false
starts_with_newline (c ∷ s) = c == newline

-- `value.split(/\r?\n/)`
split_newlines : Text → List Text
split_newlines [] = [] ∷ []
split_newlines (c ∷ s) =
    let rest = split_newlines s in
    if c == newline
    then [] ∷ rest
    else if c == carriage_return && starts_with_newline s
    then rest
    else push_first c rest

-- `filter(Boolean)` keeps the lines that are not empty.
unfoldable pub split_lines : Text → List Text
unfolding split_newlines
split_lines value = keep (λ item. not (is_empty item)) (map (trim js_space) (split_newlines value))

-- `values.join("\n")`
unfoldable pub join_lines : List Text → Text
join_lines [] = []
join_lines (line ∷ []) = line
join_lines (line ∷ next ∷ lines) = line ++ (newline ∷ join_lines (next ∷ lines))
