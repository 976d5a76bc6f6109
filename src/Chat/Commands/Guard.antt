-- ===== src/Chat/Commands/Guard.antt =====
-- internal/commands/handler.go: who may command what, and how often an answer is sent.
use codex_queue_bot.Base.{
  ℕ, ◌≤◌, ◌≡◌, refl, ap₂, ◌∙◌, ◌⊎◌, inl, inr, Bool, true, false, not, ◌&&◌, ◌||◌, List, [], ◌∷◌,
  map, Option, none, some, Text, arith, text_eq, any, is_empty, Bool-cases, ap, All, codes,
  if◌then◌else◌,
}
use codex_queue_bot.Base.Trim.{trim}
use codex_queue_bot.Base.Sets.{In, All-In}
use codex_queue_bot.Jobs.Names.{go_space}
use codex_queue_bot.Chat.Commands.{
  Incoming, allowed_set, is_allowed, Command, start, stop, status, start_keepalive, stop_keepalive,
  keepalive_status, list_targets, help, command_of, no_permission, handle, serve, parse_command,
  reply, reply_from,
}
use codex_queue_bot.Chat.Commands.Fields.{
  IsName, IsWord, IsWritten, line, line-trim, line-filled, words, typed, parse_command-typed,
}

-- The users that the configuration lists, trimmed, but for blank ones.
abbrev pub listed : List Text → Text → Bool
listed ids sender =
    any (λ id. text_eq sender (trim go_space id) && not (is_empty (trim go_space id))) ids

abbrev pub anyone : List Text → Bool
anyone ids = not (any (λ id. not (is_empty (trim go_space id))) ids)

allowed_set-cases :
    (ids : List Text) (sender : Text)
    → (is_empty (allowed_set ids) ≡ anyone ids)
      × (any (text_eq sender) (allowed_set ids) ≡ listed ids sender)
unfolding allowed_set
allowed_set-cases [] sender = (refl, refl)
allowed_set-cases (id ∷ ids) sender = elim (Bool-cases (is_empty (trim go_space id))) [
  | inl blank ↦ rw blank (
    (allowed_set-cases ids sender).0,
    (allowed_set-cases ids sender).1 ∙ blank_listed (text_eq sender (trim go_space id)),
  )
  | inr filled ↦ rw filled (
    refl,
    ap₂ ◌||◌ (and_true (text_eq sender (trim go_space id))) (allowed_set-cases ids sender).1,
  )
]
  where
    and_true : (b : Bool) → b ≡ (b && true)
    and_true true = refl
    and_true false = refl

    blank_listed : (b : Bool) → listed ids sender ≡ ((b && false) || listed ids sender)
    blank_listed true = refl
    blank_listed false = refl

-- Only who is listed is allowed, or anyone where the list names no one.
is_allowed_lem :
    (ids : List Text) (sender : Text)
    → is_allowed (allowed_set ids) sender ≡ (anyone ids || listed ids sender)
unfolding is_allowed
is_allowed_lem ids sender =
    let (none_there, there) = allowed_set-cases ids sender in ap₂ ◌||◌ none_there there

-- What a user may call each command: the first two of each are in the README's table of commands, in
-- either language.
abbrev pub names_of : Command → List Text
names_of start = codes "开挤" ∷ codes "start" ∷ codes "go" ∷ []
names_of stop = codes "停止" ∷ codes "stop" ∷ codes "停挤" ∷ []
names_of status = codes "状态" ∷ codes "status" ∷ []
names_of start_keepalive = codes "保活" ∷ codes "keepalive" ∷ []
names_of stop_keepalive = codes "停止保活" ∷ codes "stop-keepalive" ∷ []
names_of keepalive_status = codes "保活状态" ∷ codes "keepalive-status" ∷ []
names_of list_targets = codes "列表" ∷ codes "list" ∷ codes "目标" ∷ codes "targets" ∷ []
names_of help = codes "帮助" ∷ codes "help" ∷ []

module _ (telegram : Bool) (args : Text) (filled : is_empty (trim go_space args) ≡ false) where
  Runs : Command → Text → Type 0
  Runs run name = command_of telegram name args ≡ some run

  names_of-Runs : (run : Command) → All (Runs run) (names_of run)
  unfolding command_of Runs
  names_of-Runs start = (refl, (rw filled (either telegram), (refl, tt)))
    where
      either : (b : Bool) → some (if b && false then help else start) ≡ some start
      either true = refl
      either false = refl
  names_of-Runs stop = (refl, (refl, (refl, tt)))
  names_of-Runs status = (refl, (refl, tt))
  names_of-Runs start_keepalive = (refl, (refl, tt))
  names_of-Runs stop_keepalive = (refl, (refl, tt))
  names_of-Runs keepalive_status = (refl, (refl, tt))
  names_of-Runs list_targets = (refl, (refl, (refl, (refl, tt))))
  names_of-Runs help = (refl, (refl, tt))

  -- With arguments, each name runs its command, also in Telegram.
  command_of-names_of :
      (run : Command) (name : Text)
      → In (names_of run) name
      → command_of telegram name args ≡ some run
  unfolding Runs
  command_of-names_of run name listed =
      All-In (Runs run) (names_of run) name (names_of-Runs run) listed

module _ {M : Type 0} (perform : Command → List Text → M → M × Text) (lower : ℕ → ℕ)
    (telegram : Bool) where
  -- A message of a user who is not listed, where someone is, runs no command, whatever its text: the
  -- manager stays as it is, and at most the refusal is sent back.
  pub handle-refused :
      (ids : List Text) (incoming : Incoming) (m : M)
      → anyone ids ≡ false
      → listed ids incoming.sender_id ≡ false
      → ((handle perform lower (allowed_set ids) telegram incoming m).0 ≡ m)
        × (((handle perform lower (allowed_set ids) telegram incoming m).1 ≡ none)
            ⊎ ((handle perform lower (allowed_set ids) telegram incoming m).1 ≡ some no_permission))
  unfolding handle
  handle-refused ids incoming m someone unlisted = served (parse_command lower incoming.text)
    where
      refused : is_allowed (allowed_set ids) incoming.sender_id ≡ false
      refused = is_allowed_lem ids incoming.sender_id ∙ rw someone unlisted

      served :
          (parsed : Option (Text × Text))
          → ((serve perform (allowed_set ids) telegram incoming parsed m).0 ≡ m)
            × (((serve perform (allowed_set ids) telegram incoming parsed m).1 ≡ none)
                ⊎ ((serve perform (allowed_set ids) telegram incoming parsed m).1
                    ≡ some no_permission))
      served none = (refl, inl refl)
      served (some (command, args)) = rw refused (refl, inr refl)

  -- A command that an allowed user types by one of its names, in letters of either case, with a bot's
  -- name and some targets, runs on these targets, and its response is the answer.
  pub handle-typed :
      (ids : List Text) (sender reply_to command bot : Text) (items : List (Text × Text))
      (last : Text) (run : Command) (m : M)
      → (anyone ids || listed ids sender) ≡ true
      → IsName command
      → any go_space bot ≡ false
      → IsWritten items
      → IsWord last
      → In (names_of run) (map lower command)
      → handle perform lower
          (allowed_set ids)
          telegram
          (record {
            sender_id = sender;
            reply_to = reply_to;
            text = typed command bot (line items last);
          })
          m
        ≡ (let (after, response) = perform run (words items last) m in (after, some response))
  unfolding handle
  handle-typed ids sender reply_to command bot items last run m allowed name b h k is =
      let (parsed, split) = parse_command-typed lower command bot items last name b h k in
      let filled : is_empty (trim go_space (line items last)) ≡ false =
        ap is_empty (line-trim items last h k) ∙ line-filled items last h k in
      let runs = command_of-names_of telegram (line items last) filled run (map lower command) is in
      rw parsed (rw (is_allowed_lem ids sender ∙ allowed) (rw runs (rw split refl)))

-- An answer is sent at most three times. It is delivered exactly if it is not blank and one of the
-- attempts succeeds, as long as the context has not ended in a wait before that.
pub reply-bounded :
    (content : Text) (sends done : ℕ → Bool)
    → ((reply content sends done).0 ≤ 3)
      × ((reply content sends done).1 ≡ (
          not (is_empty (trim go_space content))
          && (sends 0 || (not (done 0) && (sends 1 || (not (done 1) && sends 2))))))
unfolding reply reply_from
reply-bounded content sends done = ground arith
