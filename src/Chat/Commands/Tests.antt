-- ===== src/Chat/Commands/Tests.antt =====
-- internal/commands/handler.go: a command with two targets, from a user who may and from one who may not.
use codex_queue_bot.Base.{◌≤◌, ◌≡◌, ◌⊎◌, refl, true, false, List, [], ◌∷◌, none, some, Text, codes}
use codex_queue_bot.Base.Trim.{trim}
use codex_queue_bot.Jobs.Names.{go_space}
use codex_queue_bot.Chat.Commands.{
  Command, stop, Incoming, allowed_set, handle, no_permission, parse_command, split_targets,
  is_separator, command_of, reply,
}
use codex_queue_bot.Chat.Commands.Fields.{line, typed, parse_command-typed}
use codex_queue_bot.Chat.Commands.Guard.{handle-refused, handle-typed, reply-bounded}

abbrev ids : List Text
ids = codes " ann " ∷ codes "" ∷ []

-- The manager is stood for by the commands that it was given.
abbrev perform :
    Command → List Text → List (Command × List Text) → List (Command × List Text) × Text
perform command targets given = ((command, targets) ∷ given, codes "done")

abbrev items : List (Text × Text)
items = (codes "one", codes ", ") ∷ []

abbrev from : Text → Incoming
from sender = record {
  sender_id = sender;
  reply_to = [];
  text = typed (codes "stop") (codes "bot") (line items (codes "two"));
}

parse_command-typed_example :
    (parse_command (λ c. c) (typed (codes "stop") (codes "bot") (line items (codes "two")))
      ≡ some (codes "stop", line items (codes "two")))
    × (split_targets (line items (codes "two")) ≡ codes "one" ∷ codes "two" ∷ [])
unfolding is_separator go_space
parse_command-typed_example =
    parse_command-typed (λ c. c) (codes "stop") (codes "bot") items (codes "two")
      (refl, (refl, refl)) refl (((refl, refl), refl, refl), tt) (refl, refl)

handle-refused_example :
    ((handle perform (λ c. c) (allowed_set ids) true (from (codes "bob")) []).0 ≡ [])
    × (((handle perform (λ c. c) (allowed_set ids) true (from (codes "bob")) []).1 ≡ none)
        ⊎ ((handle perform (λ c. c) (allowed_set ids) true (from (codes "bob")) []).1
            ≡ some no_permission))
unfolding go_space trim
handle-refused_example = handle-refused perform (λ c. c) true ids (from (codes "bob")) [] refl refl

handle-typed_example :
    handle perform (λ c. c) (allowed_set ids) true (from (codes "ann")) []
    ≡ ((stop, codes "one" ∷ codes "two" ∷ []) ∷ [], some (codes "done"))
unfolding is_separator go_space trim command_of
handle-typed_example =
    handle-typed perform (λ c. c) true ids (codes "ann") [] (codes "stop") (codes "bot") items
      (codes "two") stop [] refl (refl, (refl, refl)) refl (((refl, refl), refl, refl), tt)
      (refl, refl) refl

reply-bounded_example :
    ((reply (codes "hi") (λ attempt. false) (λ attempt. false)).0 ≤ 3)
    × ((reply (codes "hi") (λ attempt. false) (λ attempt. false)).1 ≡ false)
unfolding trim go_space
reply-bounded_example = reply-bounded (codes "hi") (λ attempt. false) (λ attempt. false)
