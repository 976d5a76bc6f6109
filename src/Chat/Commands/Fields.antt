-- ===== src/Chat/Commands/Fields.antt =====
-- internal/commands/handler.go: a command that is written out, with its targets, is read back.
use codex_queue_bot.Base.{
  ℕ, ◌≡◌, refl, ap, ◌∙◌, Bool, true, false, not, List, [], ◌∷◌, ◌++◌, map, some, Text, arith, any,
  keep, is_empty, ◌==◌, All,
}
use codex_queue_bot.Base.Trim.{
  trim, trim_end, trim_end-append, trim_of_clean, trim_space, trim_end_of_free, trim_end_of_trim,
}
use codex_queue_bot.Jobs.Names.{go_space}
use codex_queue_bot.Chat.Commands.{
  split_at, is_separator, split_targets, split_first_field, before_mention, parse_rest, after_slash,
  parse_command,
}

abbrev pub IsWord : Text → Type 0
IsWord word = (is_empty word ≡ false) × (any is_separator word ≡ false)

abbrev filled_only : List Text → List Text
filled_only = keep (λ field. not (is_empty field))

-- Each word, with the separators that follow it.
abbrev pub written : List (Text × Text) → Text
written [] = []
written ((word, gap) ∷ rest) = word ++ (gap ++ written rest)

abbrev pub IsWritten : List (Text × Text) → Type 0
IsWritten = All (λ (item : Text × Text).
    IsWord item.0 × (is_empty item.1 ≡ false) × (any (λ c. not (is_separator c)) item.1 ≡ false))

split_at-append :
    (word : Text) (c : ℕ) (s : Text)
    → any is_separator word ≡ false
    → is_separator c ≡ true
    → split_at is_separator (word ++ (c ∷ s)) ≡ word ∷ split_at is_separator s
unfolding split_at
split_at-append [] c s free h = rw h refl
split_at-append (d ∷ word) c s free h = ground (arith, split_at-append word c s, free, h)

gap-filled_only :
    (gap s : Text)
    → any (λ c. not (is_separator c)) gap ≡ false
    → filled_only (split_at is_separator (gap ++ s)) ≡ filled_only (split_at is_separator s)
unfolding split_at
gap-filled_only [] s h = refl
gap-filled_only (c ∷ gap) s h = ground (arith, gap-filled_only gap s, h)

filled_only_cons :
    (word : Text) (rest : List Text)
    → is_empty word ≡ false
    → filled_only (word ∷ rest) ≡ word ∷ filled_only rest
filled_only_cons word rest h = rw h refl

split_at_word :
    (word : Text) → any is_separator word ≡ false → split_at is_separator word ≡ word ∷ []
unfolding split_at
split_at_word [] h = refl
split_at_word (c ∷ word) h = ground (arith, split_at_word word, h)

-- Targets as a user may write them: each but the last with separators after it.
abbrev pub line : List (Text × Text) → Text → Text
line [] last = last
line ((word, gap) ∷ rest) last = word ++ (gap ++ line rest last)

abbrev pub words : List (Text × Text) → Text → List Text
words [] last = last ∷ []
words ((word, gap) ∷ rest) last = word ∷ words rest last

-- Words with a space, a comma or several such between them are what `splitTargets` reads.
pub split_targets-line :
    (items : List (Text × Text)) (last : Text)
    → IsWritten items
    → IsWord last
    → split_targets (line items last) ≡ words items last
unfolding split_targets split_at
split_targets-line [] last h k =
    ap filled_only (split_at_word last k.1) ∙ filled_only_cons last [] k.0
split_targets-line ((word, []) ∷ rest) last h k = ground (arith, h.0)
split_targets-line ((word, c ∷ gap) ∷ rest) last ((is_word, filled, gaps), h) k =
    let opens : is_separator c ≡ true = ground (arith, gaps) in
    let spaces : any (λ d. not (is_separator d)) gap ≡ false = ground (arith, gaps) in
    ap filled_only (split_at-append word c (gap ++ line rest last) is_word.1 opens)
    ∙ filled_only_cons word (split_at is_separator (gap ++ line rest last)) is_word.0
    ∙ ap (λ more. word ∷ more)
        (gap-filled_only gap (line rest last) spaces ∙ split_targets-line rest last h k)

word-spaces : (word : Text) → any is_separator word ≡ false → any go_space word ≡ false
unfolding is_separator
word-spaces [] h = refl
word-spaces (c ∷ word) h = ground (arith, word-spaces word, h)

any-head : (p : ℕ → Bool) (c : ℕ) (s : Text) → any p (c ∷ s) ≡ false → p c ≡ false
any-head p c s h = ground (arith, h)

any-tail : (p : ℕ → Bool) (c : ℕ) (s : Text) → any p (c ∷ s) ≡ false → any p s ≡ false
any-tail p c s h = ground (arith, h)

pub line-filled :
    (items : List (Text × Text)) (last : Text)
    → IsWritten items
    → IsWord last
    → is_empty (line items last) ≡ false
line-filled [] last h k = k.0
line-filled (([], gap) ∷ rest) last h k = ground (arith, h.0)
line-filled ((c ∷ word, gap) ∷ rest) last h k = refl

line-trim_end :
    (items : List (Text × Text)) (last : Text)
    → IsWritten items
    → IsWord last
    → trim_end go_space (line items last) ≡ line items last
line-trim_end [] last h k = trim_end_of_free go_space last (word-spaces last k.1)
line-trim_end ((word, gap) ∷ rest) last h k =
    let tail =
      trim_end-append go_space gap (line rest last) (line-filled rest last h.1 k)
        (line-trim_end rest last h.1 k) in
    trim_end-append go_space word (gap ++ line rest last) (filled gap) tail
  where
    filled : (gap : Text) → is_empty (gap ++ line rest last) ≡ false
    filled [] = line-filled rest last h.1 k
    filled (c ∷ gap) = refl

pub line-trim :
    (items : List (Text × Text)) (last : Text)
    → IsWritten items
    → IsWord last
    → trim go_space (line items last) ≡ line items last
line-trim [] [] h k = ground (arith, k)
line-trim [] (c ∷ last) h k =
    trim_of_clean go_space c last (any-head go_space c last (word-spaces (c ∷ last) k.1))
      (line-trim_end [] (c ∷ last) h k)
line-trim (([], gap) ∷ rest) last h k = ground (arith, h.0)
line-trim ((c ∷ word, gap) ∷ rest) last h k =
    trim_of_clean go_space c _ (any-head go_space c word (word-spaces (c ∷ word) h.0.0.1))
      (line-trim_end ((c ∷ word, gap) ∷ rest) last h k)

-- A command with the bot's name after it, as group chats write it.
abbrev pub mention : (command bot : Text) → Text
mention command bot = command ++ (0x40 ∷ bot)

before_mention-mention :
    (command bot : Text)
    → any (λ c. c == 0x40) command ≡ false
    → before_mention (mention command bot) ≡ command
unfolding before_mention
before_mention-mention [] bot h = refl
before_mention-mention (c ∷ command) bot h = ground (arith, before_mention-mention command bot, h)

space-go_space : go_space 0x20 ≡ true
unfolding go_space
space-go_space = refl

split_first_field-append :
    (field args : Text)
    → any go_space field ≡ false
    → split_first_field (field ++ (0x20 ∷ args)) ≡ (field, trim go_space args)
unfolding split_first_field
split_first_field-append [] args h =
    rw space-go_space (ap (λ rest. ([], rest)) (trim_space go_space 0x20 args space-go_space))
split_first_field-append (c ∷ field) args h =
    rw (any-head go_space c field h)
      (rw (split_first_field-append field args (any-tail go_space c field h)) refl)

-- A command as it is typed: no space, no `@`.
abbrev pub IsName : Text → Type 0
IsName command =
    (is_empty command ≡ false)
    × ((any go_space command ≡ false) × (any (λ c. c == 0x40) command ≡ false))

at-go_space : go_space 0x40 ≡ false
unfolding go_space
at-go_space = refl

slash-go_space : go_space 0x2f ≡ false
unfolding go_space
slash-go_space = refl

mention-spaces :
    (command bot : Text)
    → any go_space command ≡ false
    → any go_space bot ≡ false
    → any go_space (mention command bot) ≡ false
mention-spaces [] bot h k = rw at-go_space k
mention-spaces (c ∷ command) bot h k =
    rw (any-head go_space c command h)
      (mention-spaces command bot (any-tail go_space c command h) k)

-- What a user types: the command, the bot's name, and some targets.
abbrev pub typed : (command bot args : Text) → Text
typed command bot args = 0x2f ∷ (mention command bot ++ (0x20 ∷ args))

typed-trim :
    (c : ℕ) (s args : Text)
    → go_space c ≡ false
    → is_empty args ≡ false
    → trim go_space args ≡ args
    → trim go_space ((c ∷ s) ++ (0x20 ∷ args)) ≡ (c ∷ s) ++ (0x20 ∷ args)
typed-trim c s args clean filled trimmed = trim_of_clean go_space c (s ++ (0x20 ∷ args)) clean (
    trim_end-append go_space (c ∷ s) (0x20 ∷ args) refl
      (trim_end-append go_space (0x20 ∷ []) args filled (trim_end_of_trim go_space args trimmed)))

module _ (lower : ℕ → ℕ) (bot : Text) where
  parse_rest-typed :
      (command args : Text)
      → IsName command
      → any go_space bot ≡ false
      → trim go_space args ≡ args
      → parse_rest lower (mention command bot ++ (0x20 ∷ args)) ≡ some (map lower command, args)
  unfolding parse_rest
  parse_rest-typed [] args name b trimmed = ground (arith, name)
  parse_rest-typed (c ∷ command) args name b trimmed =
      rw
        (split_first_field-append (mention (c ∷ command) bot) args
          (mention-spaces (c ∷ command) bot name.1.0 b))
        (rw (before_mention-mention (c ∷ command) bot name.1.1) (rw trimmed (rw trimmed refl)))

  parse-typed :
      (command args : Text)
      → IsName command
      → any go_space bot ≡ false
      → is_empty args ≡ false
      → trim go_space args ≡ args
      → parse_command lower (typed command bot args) ≡ some (map lower command, args)
  unfolding parse_command after_slash
  parse-typed [] args name b filled trimmed = ground (arith, name)
  parse-typed (c ∷ command) args name b filled trimmed =
      ap (after_slash lower)
        (typed-trim 0x2f (mention (c ∷ command) bot) args slash-go_space filled trimmed)
      ∙ ap (parse_rest lower) (
          typed-trim c (mention command bot) args (any-head go_space c command name.1.0) filled
            trimmed)
      ∙ parse_rest-typed (c ∷ command) args name b trimmed

-- A command that is typed with a bot's name and targets is read as that command, in lower case, with
-- what names the targets; and that is read as those targets.
pub parse_command-typed :
    (lower : ℕ → ℕ) (command bot : Text) (items : List (Text × Text)) (last : Text)
    → IsName command
    → any go_space bot ≡ false
    → IsWritten items
    → IsWord last
    → (parse_command lower (typed command bot (line items last))
        ≡ some (map lower command, line items last))
      × (split_targets (line items last) ≡ words items last)
parse_command-typed lower command bot items last name b h k = (
  parse-typed lower bot command (line items last) name b (line-filled items last h k)
      (line-trim items last h k),
  split_targets-line items last h k,
)
