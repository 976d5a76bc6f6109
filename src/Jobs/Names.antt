-- ===== src/Jobs/Names.antt =====
-- internal/jobs/manager.go: `normalizeName`, `containsAll` and `resolveLocked`. The table of lower
-- case letters belongs to Go's unicode package and is an argument.
pub mod Resolving
use codex_queue_bot.Base.{
  ℕ, Bool, ◌&&◌, ◌||◌, List, [], ◌∷◌, map, Text, codes, text_eq, if◌then◌else◌, leb, ◌==◌, any,
  is_empty,
}
use codex_queue_bot.Base.Trim.{trim}

-- `unicode.IsSpace`, which `strings.TrimSpace` and `strings.FieldsFunc` go by.
unfoldable pub go_space : ℕ → Bool
go_space c =
    (leb 9 c && leb c 13)
    || c == 32
    || c == 0x85
    || c == 0xa0
    || c == 0x1680
    || (leb 0x2000 c && leb c 0x200a)
    || c == 0x2028
    || c == 0x2029
    || c == 0x202f
    || c == 0x205f
    || c == 0x3000

-- `normalizeName`
unfoldable pub normalize_name : (ℕ → ℕ) → Text → Text
normalize_name lower name = map lower (trim go_space name)

abbrev is_all : Text → Bool
is_all key = text_eq key (codes "all") || (text_eq key (codes "全部") || text_eq key (codes "*"))

-- `containsAll`
contains_all : (ℕ → ℕ) → List Text → Bool
unfolding normalize_name
contains_all lower names = any (λ name. is_all (normalize_name lower name)) names

-- What a list of names stands for: the keys of targets, and the names that are of no target.
pub record Resolved : Type 0 where
  pub keys : List Text
  pub unknown : List Text

-- The loop of `resolveLocked`, with the keys seen so far.
resolve_each : (Text → Bool) → (ℕ → ℕ) → List Text → List Text → Resolved
unfolding normalize_name
resolve_each exists lower seen [] = record { keys = []; unknown = [] }
resolve_each exists lower seen (name ∷ names) =
    let key = normalize_name lower name in
    let skip = is_empty key || any (text_eq key) seen in
    let rest = resolve_each exists lower (if skip then seen else key ∷ seen) names in
    if skip
    then rest
    else if exists key
    then record rest { keys = key ∷ rest.keys }
    else record rest { unknown = name ∷ rest.unknown }

-- `resolveLocked`, given which keys exist and their order. No names, or a name for all, stand for
-- every target.
unfoldable pub resolve : (Text → Bool) → (ℕ → ℕ) → List Text → List Text → Resolved
unfolding contains_all resolve_each
resolve exists lower order names =
    if is_empty names || contains_all lower names
    then record { keys = order; unknown = [] }
    else resolve_each exists lower [] names
