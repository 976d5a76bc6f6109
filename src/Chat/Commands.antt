-- ===== src/Chat/Commands.antt =====
-- internal/commands/handler.go: `Handle`, from the text of a message to the command that it runs. What a
-- command does to the manager, and the text that it answers with, is an argument; the table of lower
-- case letters belongs to Go's unicode package.
pub mod Fields
pub mod Guard
mod Tests
use codex_queue_bot.Base.{
  ℕ, zero, suc, Bool, true, false, not, ◌&&◌, ◌||◌, List, [], ◌∷◌, ◌++◌, map, Option, none, some,
  Text, codes, text_eq, if◌then◌else◌, leb, ltb, any, keep, length, is_empty, push_first, ◌==◌,
}
use codex_queue_bot.Base.Trim.{trim}
use codex_queue_bot.Jobs.Names.{go_space}

-- `strings.FieldsFunc`: the stretches without a separator, but for those that are empty.
split_at : (ℕ → Bool) → Text → List Text
split_at separator [] = [] ∷ []
split_at separator (c ∷ s) =
    let rest = split_at separator s in if separator c then [] ∷ rest else push_first c rest

-- A space, or a comma or semicolon of either width.
unfoldable pub is_separator : ℕ → Bool
is_separator c = go_space c || (c == 0x2c || (c == 0xff0c || (c == 0x3b || c == 0xff1b)))

-- `splitTargets`
pub split_targets : Text → List Text
unfolding split_at
split_targets value = keep (λ field. not (is_empty field)) (split_at is_separator value)

-- `splitFirstField`: what stands before the first space, and what after it.
split_first_field : Text → Text × Text
split_first_field [] = ([], [])
split_first_field (c ∷ s) =
    let (field, rest) = split_first_field s in
    if go_space c then ([], trim go_space (c ∷ s)) else (c ∷ field, rest)

-- `command[:at]`, for the first `@` of a command
before_mention : Text → Text
before_mention [] = []
before_mention (c ∷ s) = if c == 0x40 then [] else c ∷ before_mention s

parse_rest : (ℕ → ℕ) → Text → Option (Text × Text)
unfolding split_first_field before_mention
parse_rest lower text =
    let (field, rest) = split_first_field text in
    let command = before_mention field in
    if is_empty text || is_empty command then none else some (map lower command, trim go_space rest)

after_slash : (ℕ → ℕ) → Text → Option (Text × Text)
unfolding parse_rest
after_slash lower [] = none
after_slash lower (c ∷ s) = if c == 0x2f then parse_rest lower (trim go_space s) else none

-- `parseCommand`: a command and its arguments, or none.
pub parse_command : (ℕ → ℕ) → Text → Option (Text × Text)
unfolding after_slash
parse_command lower text = after_slash lower (trim go_space text)

pub record Incoming : Type 0 where
  pub sender_id : Text
  pub reply_to : Text
  pub text : Text

-- The set that `NewAdapter` makes of the users who are allowed.
unfoldable pub allowed_set : List Text → List Text
allowed_set ids = keep (λ id. not (is_empty id)) (map (trim go_space) ids)

-- `isAllowed`: with no users in the set, anyone is.
unfoldable pub is_allowed : List Text → Text → Bool
is_allowed allowed sender = is_empty allowed || any (text_eq sender) allowed

-- `replyRecipient`
unfoldable pub reply_recipient : Incoming → Text
reply_recipient incoming =
    let recipient = trim go_space incoming.reply_to in
    if is_empty recipient then incoming.sender_id else recipient

pub data Command : Type 0 where
  start stop status start_keepalive stop_keepalive keepalive_status list_targets help : Command

abbrev named : List Text → Text → Bool
named names command = any (text_eq command) names

-- The switch of `Handle`.
unfoldable pub command_of : (telegram : Bool) → (command args : Text) → Option Command
command_of telegram command args =
    if named (codes "开挤" ∷ codes "go" ∷ []) command
    then some start
    else if text_eq command (codes "start")
    then some (if telegram && is_empty (trim go_space args) then help else start)
    else if named (codes "停止" ∷ codes "停挤" ∷ codes "stop" ∷ []) command
    then some stop
    else if named (codes "状态" ∷ codes "status" ∷ []) command
    then some status
    else if named (codes "保活" ∷ codes "keepalive" ∷ []) command
    then some start_keepalive
    else if named (codes "停止保活" ∷ codes "stop-keepalive" ∷ []) command
    then some stop_keepalive
    else if named (codes "保活状态" ∷ codes "keepalive-status" ∷ []) command
    then some keepalive_status
    else if named (codes "列表" ∷ codes "目标" ∷ codes "list" ∷ codes "targets" ∷ []) command
    then some list_targets
    else if named (codes "帮助" ∷ codes "help" ∷ []) command
    then some help
    else none

abbrev pub no_permission : Text
no_permission = codes "无权限执行此命令。"

-- A command is run on the targets that its arguments name, and answers with a text.
module _ {ℓ} {M : Type ℓ} (perform : Command → List Text → M → M × Text) where
  abbrev pub obey : Option Command → Text → M → M × Option Text
  obey none args m = (m, none)
  obey (some command) args m =
      let (after, response) = perform command (split_targets args) m in (after, some response)

  abbrev pub serve :
      (allowed : List Text) (telegram : Bool)
      → Incoming
      → Option (Text × Text)
      → M
      → M × Option Text
  serve allowed telegram incoming none m = (m, none)
  serve allowed telegram incoming (some (command, args)) m =
      if is_allowed allowed incoming.sender_id
      then obey (command_of telegram command args) args m
      else (m, some no_permission)

  -- `Handle`: the text that is handed to `reply`, if any.
  unfoldable pub handle :
      (ℕ → ℕ) → (allowed : List Text) (telegram : Bool) → Incoming → M → M × Option Text
  handle lower allowed telegram incoming =
      serve allowed telegram incoming (parse_command lower incoming.text)

-- `reply`: the sends that succeed are those that `sends` says of the attempts from 0 on, and `done`
-- that the context ends in the wait after an attempt. The number of sends, and whether one succeeded.
reply_from : (fuel attempt : ℕ) (sends done : ℕ → Bool) → ℕ × Bool
reply_from zero attempt sends done = (0, false)
reply_from (suc fuel) attempt sends done =
    let (more, sent) = reply_from fuel (suc attempt) sends done in
    if sends attempt
    then (1, true)
    else if ltb attempt 2 && done attempt
    then (1, false)
    else (suc more, sent)

unfoldable pub reply : Text → (sends done : ℕ → Bool) → ℕ × Bool
unfolding reply_from
reply content sends done =
    if is_empty (trim go_space content) then (0, false) else reply_from 3 0 sends done
