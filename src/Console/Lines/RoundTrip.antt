-- ===== src/Console/Lines/RoundTrip.antt =====
-- What `splitLines` returns, and the join that fills the text area.
use codex_queue_bot.Base.{
  ℕ, ◌≡◌, refl, ◌∙◌, ap, Bool, false, not, List, [], ◌∷◌, ◌++◌, map, arith, Text, push_first, any,
  keep, is_empty, ◌==◌, All, Bool-cases, inl, inr,
}
use codex_queue_bot.Base.Trim.{
  trim, trim_idem, trim-free, trim_end, trim_end-tail, trim_end-last, trim_end_of_trim,
}
use codex_queue_bot.Console.Lines.{js_space, newline, split_newlines, split_lines, join_lines}

abbrev is_newline : ℕ → Bool
is_newline c = c == newline

-- A line as the editor keeps it: not empty, trimmed, with no line feed.
pub record IsLine (line : Text) : Type 0 where
  pub filled : is_empty line ≡ false
  pub trimmed : trim js_space line ≡ line
  pub single : any is_newline line ≡ false

abbrev Free : List Text → Type 0
Free = All (λ line. any is_newline line ≡ false)

push_first-Free :
    (c : ℕ) (lines : List Text) → is_newline c ≡ false → Free lines → Free (push_first c lines)
push_first-Free c [] h k = (ground arith, tt)
push_first-Free c (line ∷ lines) h k = (ground arith, k.1)

split_newlines-Free : (s : Text) → Free (split_newlines s)
unfolding split_newlines
split_newlines-Free [] = (refl, tt)
split_newlines-Free (c ∷ s) =
    ground (arith, split_newlines-Free s, push_first-Free c (split_newlines s))

clean-IsLine :
    (lines : List Text)
    → Free lines
    → All IsLine (keep (λ item. not (is_empty item)) (map (trim js_space) lines))
clean-IsLine [] h = tt
clean-IsLine (line ∷ lines) h = elim (Bool-cases (is_empty (trim js_space line))) [
  | inl blank ↦ rw blank (clean-IsLine lines h.1)
  | inr filled ↦ rw filled (
    record {
      filled = filled;
      trimmed = trim_idem js_space line;
      single = trim-free js_space is_newline line h.0;
    },
    clean-IsLine lines h.1,
  )
]

-- Every line that the editor's `splitLines` returns is trimmed, not empty and without a line feed.
pub split_lines-IsLine : (value : Text) → All IsLine (split_lines value)
unfolding split_lines
split_lines-IsLine value = clean-IsLine (split_newlines value) (split_newlines-Free value)

-- What a clean line contributes to the split, alone or before a line feed.
split_newlines_single :
    (line : Text) → any is_newline line ≡ false → split_newlines line ≡ line ∷ []
unfolding split_newlines
split_newlines_single [] h = refl
split_newlines_single (c ∷ []) h = ground arith
split_newlines_single (c ∷ d ∷ s) h = ground (arith, split_newlines_single (d ∷ s))

split_newlines-append :
    (line rest : Text)
    → any is_newline line ≡ false
    → trim_end js_space line ≡ line
    → split_newlines (line ++ (newline ∷ rest)) ≡ line ∷ split_newlines rest
unfolding split_newlines js_space
split_newlines-append [] rest h k = refl
split_newlines-append (c ∷ []) rest h k = ground (arith, trim_end-last js_space c k)
split_newlines-append (c ∷ d ∷ s) rest h k =
    ground (
      arith,
      split_newlines-append (d ∷ s) rest (ground arith) (trim_end-tail js_space c (d ∷ s) k),
    )

abbrev clean : List Text → List Text
clean lines = keep (λ item. not (is_empty item)) (map (trim js_space) lines)

clean_line :
    (line : Text) (lines : List Text) → IsLine line → clean (line ∷ lines) ≡ line ∷ clean lines
clean_line line lines h = rw h.trimmed (rw h.filled)

-- `splitLines` undoes `join("\n")` on every list of trimmed, filled, single lines.
pub split_lines-join_lines :
    (lines : List Text) → All IsLine lines → split_lines (join_lines lines) ≡ lines
unfolding split_lines split_newlines trim join_lines
split_lines-join_lines [] h = refl
split_lines-join_lines (line ∷ []) h =
    ap clean (split_newlines_single line h.0.single) ∙ clean_line line [] h.0
split_lines-join_lines (line ∷ next ∷ lines) h =
    ap clean (
      split_newlines-append line (join_lines (next ∷ lines)) h.0.single
        (trim_end_of_trim js_space line h.0.trimmed))
    ∙ clean_line line (split_newlines (join_lines (next ∷ lines))) h.0
    ∙ ap (λ rest. line ∷ rest) (split_lines-join_lines (next ∷ lines) h.1)
