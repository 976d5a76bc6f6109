-- ===== src/Jobs/Manager/Targets/Tests.antt =====
-- internal/jobs/manager.go: targets that are created, renamed and deleted, and names that are resolved.
use codex_queue_bot.Base.{
  ℕ, Bool, ◌≡◌, ◌≢◌, ◌⊎◌, refl, inl, inr, true, false, ◌&&◌, ◌||◌, ◌+◌, leb, List, [], ◌∷◌, Option,
  none, some, Text, codes, map, text_eq, if◌then◌else◌, arith, All, Bool-cases, is_empty,
}
use codex_queue_bot.Base.Trim.{trim}
use codex_queue_bot.Base.Sets.{distinct, In}
use codex_queue_bot.Jobs.State.{Target, Entry}
use codex_queue_bot.Jobs.Names.{Resolved, normalize_name, resolve, go_space}
use codex_queue_bot.Jobs.Names.Resolving.{IsResolved, IsAsked, MeansAll, resolve-IsResolved}
use codex_queue_bot.Jobs.Manager.{Manager}
use codex_queue_bot.Jobs.Manager.Targets.{create_target, commit_update, commit_delete}
use codex_queue_bot.Jobs.Manager.Targets.Table.{IsTable}
use codex_queue_bot.Jobs.Manager.Targets.Changes.{
  IsKept, create_target-IsKept, commit_update-IsKept, commit_delete-IsKept,
}

abbrev lower : ℕ → ℕ
lower c = if leb 65 c && leb c 90 then c + 32 else c

abbrev target : Text → Target
target name = record {
  id = 0;
  sort_order = 0;
  name = name;
  api_base_url = codes "https://api.example.com/v1";
  api_key = codes "key";
  api_key_env = [];
  model = codes "m";
  wire_api = codes "responses";
  config_overrides = [];
}

-- The database stores a target under this number.
abbrev numbered : ℕ → Target → Option Target
numbered id stored = some (record stored { id = id })

abbrev empty_manager : Manager
empty_manager = record {
  keepalive_min = 60;
  keepalive_max = 120;
  success_message = codes "ok";
  max_parallel = 1;
  entries = λ name. none;
  order = [];
  current_processes = 0;
  slots_in_use = 0;
  next_event_id = 0;
  next_observer_id = 0;
  next_adhoc_run_id = 0;
  observers = [];
  shutting_down = false;
  parallel_changed = 0;
  root_done = false;
  cancelled = λ context. false;
}

empty-IsTable : IsTable lower [] (λ name. none)
empty-IsTable = record {
  once = refl;
  listed = λ key. refl;
  named = λ key e h. ground arith;
  numbered = λ key other e f h k i. ground arith;
}

abbrev one_target : Manager
one_target =
    (create_target lower (map lower) (target (codes "Primary")) (numbered 1) empty_manager).0

one_target-IsTable : IsTable lower one_target.order one_target.entries
one_target-IsTable =
    (create_target-IsKept lower (map lower) (target (codes "Primary")) (numbered 1) empty_manager
      empty-IsTable (λ stored key e h at. ground arith)).0

only_number :
    (stored : Target) (key : Text) (e : Entry)
    → numbered 2 (target (codes "backup")) ≡ some stored
    → one_target.entries key ≡ some e
    → e.target.id ≢ stored.id
unfolding create_target normalize_name trim go_space
only_number stored key e h at = elim (Bool-cases (text_eq (codes "primary") key)) [
  | inl here ↦ ground arith
  | inr there ↦ ground arith
]

create_target-IsKept_example :
    IsKept lower one_target
      (create_target lower (map lower) (target (codes "backup")) (numbered 2) one_target)
create_target-IsKept_example =
    create_target-IsKept lower (map lower) (target (codes "backup")) (numbered 2) one_target
      one_target-IsTable only_number

commit_update-IsKept_example :
    IsKept lower one_target
      (commit_update lower (map lower) 1 (target (codes "First")) (numbered 1) one_target)
commit_update-IsKept_example =
    commit_update-IsKept lower (map lower) 1 (target (codes "First")) (numbered 1) one_target
      one_target-IsTable (λ stored h. ground arith)

commit_delete-IsKept_example : IsKept lower one_target (commit_delete 1 true one_target)
commit_delete-IsKept_example = commit_delete-IsKept lower 1 true one_target one_target-IsTable

renamed_order :
    (commit_update lower (map lower) 1 (target (codes "First")) (numbered 1) one_target).0.order
    ≡ codes "first" ∷ []
unfolding create_target commit_update normalize_name trim go_space
renamed_order = refl

abbrev exists : Text → Bool
exists key = text_eq key (codes "primary") || text_eq key (codes "backup")

abbrev known : List Text
known = codes "primary" ∷ codes "backup" ∷ []

abbrev asked : List Text
asked = codes " Backup" ∷ codes "nope" ∷ codes "backup" ∷ []

abbrev resolved : Resolved
resolved = resolve exists lower known asked

resolve-IsResolved_example :
    (All (λ key. exists key ≡ true) resolved.keys)
    × (distinct resolved.keys ≡ true)
    × (All (λ name. exists (normalize_name lower name) ≡ false) resolved.unknown)
    × ((((asked ≡ []) ⊎ ((name : Text) × (In asked name) × MeansAll lower name))
          × (resolved.keys ≡ known)
          × (resolved.unknown ≡ []))
        ⊎ ((is_empty asked ≡ false)
            × All (λ name. ¬ MeansAll lower name) asked
            × All (IsResolved exists lower resolved.keys) asked
            × All (IsAsked lower asked) resolved.keys
            × All (In asked) resolved.unknown))
resolve-IsResolved_example = resolve-IsResolved exists lower known asked (refl, (refl, tt)) refl

resolved_keys : resolved.keys ≡ codes "backup" ∷ []
unfolding resolve normalize_name trim go_space
resolved_keys = refl
