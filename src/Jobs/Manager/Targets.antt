-- ===== src/Jobs/Manager/Targets.antt =====
-- internal/jobs/manager.go: creating, changing and deleting targets, settings, shutdown and the
-- first section of `RunAdhoc`. `persist` writes to the database and may fill in the target, such as
-- its number; it is an argument. The two halves of `UpdateTarget` and `DeleteTarget` are the
-- sections before and after the wait for the target to become idle.
pub mod Order
pub mod Table
pub mod Changes
mod Tests
use codex_queue_bot.Base.{
  ℕ, suc, ◌+◌, Bool, true, false, not, ◌&&◌, ◌||◌, List, [], ◌∷◌, ◌++◌, Option, none, some, Text,
  text_eq, if◌then◌else◌, ltb, ◌==◌, any,
}
use codex_queue_bot.Jobs.State.{
  Target, waiting_next, Entry, adhoc, same_owner, target_busy, Change, quietly, and_then, new_entry,
}
use codex_queue_bot.Jobs.Queue.{stop_queue}
use codex_queue_bot.Jobs.Keepalive.{stop_keepalive, same_state}
use codex_queue_bot.Jobs.Adhoc.{stop_adhoc, reserve}
use codex_queue_bot.Jobs.Names.{normalize_name}
use codex_queue_bot.Jobs.Manager.{Manager, put, commit, broadcast, exists_in}

pub data Error : Type 0 where
  target_busy_error target_not_found target_conflict shutting_down not_persisted : Error

pub data Result {ℓ} (A : Type ℓ) : Type ℓ where
  ok : A → Result A
  err : Error → Result A

-- `targetKeyByIDLocked`
pub key_by_id : (Text → Option Entry) → ℕ → List Text → Option Text
key_by_id entries id [] = none
key_by_id entries id (key ∷ order) =
    let rest = key_by_id entries id order in
    elim (entries key) [ none ↦ rest | some e ↦ if e.target.id == id then some key else rest ]

text_lt : Text → Text → Bool
text_lt [] [] = false
text_lt [] (_ ∷ _) = true
text_lt (_ ∷ _) [] = false
text_lt (a ∷ s) (b ∷ t) = ltb a b || (a == b && text_lt s t)

-- The order of `sortTargetsLocked`: by place, then number, then name in lower case.
target_lt : (Text → Text) → Target → Target → Bool
unfolding text_lt
target_lt lower_text left right =
    if not (left.sort_order == right.sort_order)
    then ltb left.sort_order right.sort_order
    else if not (left.id == right.id)
    then ltb left.id right.id
    else text_lt (lower_text left.name) (lower_text right.name)

key_lt : (Text → Text) → (Text → Option Entry) → Text → Text → Bool
unfolding target_lt
key_lt lower_text entries left right = elim (entries left) [
  | none ↦ false
  | some l ↦ elim (entries right) [ none ↦ false | some r ↦ target_lt lower_text l.target r.target ]
]

-- A stable sort has one result for one order: it is found here by insertion.
insert_key : (Text → Text → Bool) → Text → List Text → List Text
insert_key lt key [] = key ∷ []
insert_key lt key (other ∷ rest) =
    if lt other key then other ∷ insert_key lt key rest else key ∷ other ∷ rest

pub sort_keys : (Text → Text → Bool) → List Text → List Text
unfolding insert_key
sort_keys lt [] = []
sort_keys lt (key ∷ keys) = insert_key lt key (sort_keys lt keys)

sort_targets : (Text → Text) → Manager → Manager
unfolding sort_keys key_lt
sort_targets lower_text m = record m { order = sort_keys (key_lt lower_text m.entries) m.order }

-- `CreateTarget`
pub create_target :
    (ℕ → ℕ) → (Text → Text) → Target → (Target → Option Target) → Manager → Manager × Option Error
unfolding sort_targets broadcast
create_target lower lower_text target persist m =
    if exists_in m (normalize_name lower target.name)
    then (m, some target_conflict)
    else elim (persist target) [
      | none ↦ (m, some not_persisted)
      | some stored ↦
          let key = normalize_name lower stored.name in
          if exists_in m key then (m, some target_conflict) else (
            broadcast (
                sort_targets lower_text (record m {
                  entries = put key (some (new_entry stored)) m.entries;
                  order = m.order ++ (key ∷ []);
                })),
            none,
          )
    ]

-- `stopQueueLocked`, `stopKeepaliveLocked` and `stopAdhocLocked` one after the other, if the
-- target is busy.
unfoldable pub quiesce : ℕ → Entry → Change
unfolding stop_queue stop_keepalive stop_adhoc
quiesce now e =
    if target_busy e
    then record (and_then (and_then (stop_queue now e) (stop_keepalive now)) stop_adhoc) {
      broadcast = true;
    }
    else quietly e

-- The first half of `UpdateTarget` and of `DeleteTarget`: the key to wait for.
pub begin_change : ℕ → ℕ → Manager → Manager × Result Text
unfolding key_by_id quiesce commit
begin_change now id m = elim (key_by_id m.entries id m.order) [
  | none ↦ (m, err target_not_found)
  | some key ↦ elim (m.entries key) [
    | none ↦ (m, err target_not_found)
    | some e ↦ (commit key (quiesce now e) m, ok key)
  ]
]

pub replace_first : Text → Text → List Text → List Text
replace_first old new [] = []
replace_first old new (key ∷ order) =
    if text_eq key old then new ∷ order else key ∷ replace_first old new order

pub remove_first : Text → List Text → List Text
remove_first old [] = []
remove_first old (key ∷ order) = if text_eq key old then order else key ∷ remove_first old order

-- Another target than the one with this number has the key.
taken_by_other : Manager → ℕ → Text → Bool
taken_by_other m id key = elim (m.entries key) [ none ↦ false | some e ↦ not (e.target.id == id) ]

rename : Text → Text → Target → Entry → Manager → Manager
unfolding replace_first
rename old new target e m =
    let renamed = record e { target = target } in
    if text_eq old new then record m { entries = put old (some renamed) m.entries } else record m {
      entries = put new (some renamed) (put old none m.entries);
      order = replace_first old new m.order;
    }

-- The second half of `UpdateTarget`
pub commit_update :
    (ℕ → ℕ)
    → (Text → Text)
    → ℕ
    → Target
    → (Target → Option Target)
    → Manager
    → Manager × Option Error
unfolding key_by_id taken_by_other rename sort_targets broadcast
commit_update lower lower_text id target persist m = elim (key_by_id m.entries id m.order) [
  | none ↦ (m, some target_not_found)
  | some old ↦ elim (m.entries old) [
    | none ↦ (m, some target_not_found)
    | some e ↦
        if target_busy e
        then (m, some target_busy_error)
        else if taken_by_other m id (normalize_name lower target.name)
        then (m, some target_conflict)
        else elim (persist target) [
          | none ↦ (m, some not_persisted)
          | some stored ↦
              let new = normalize_name lower stored.name in
              if taken_by_other m id new
              then (m, some target_conflict)
              else (broadcast (sort_targets lower_text (rename old new stored e m)), none)
        ]
  ]
]

-- The second half of `DeleteTarget`; `persisted` tells whether the database did it.
pub commit_delete : ℕ → Bool → Manager → Manager × Option Error
unfolding key_by_id remove_first broadcast
commit_delete id persisted m = elim (key_by_id m.entries id m.order) [
  | none ↦ (m, some target_not_found)
  | some key ↦ elim (m.entries key) [
    | none ↦ (m, some target_not_found)
    | some e ↦
        if target_busy e
        then (m, some target_busy_error)
        else if not persisted
        then (m, some not_persisted)
        else (
          broadcast
              (record m { entries = put key none m.entries; order = remove_first key m.order }),
          none,
        )
  ]
]

reschedule : ℕ → ℕ → Entry → Entry
reschedule now delay e =
    if same_state e.keepalive.state waiting_next && ltb 0 e.keepalive.next_request
    then record e {
      keepalive = record e.keepalive {
        next_request = now + delay;
        schedule_changed = suc e.keepalive.schedule_changed;
      };
    }
    else e

reschedule_all : ℕ → (Text → ℕ) → (Text → Option Entry) → Text → Option Entry
unfolding reschedule
reschedule_all now delays entries key = elim (entries key) [
  | none ↦ none
  | some e ↦ some (reschedule now (delays key) e)
]

-- `UpdateSettings`; `delays` holds the `randomDuration` that each key is given.
unfoldable pub update_settings : ℕ → (Text → ℕ) → ℕ → ℕ → ℕ → Text → Manager → Manager
unfolding reschedule_all broadcast
update_settings now delays keepalive_min keepalive_max max_parallel success_message m =
    broadcast (record (resized (rescheduled m)) { success_message = success_message })
  where
    rescheduled : Manager → Manager
    rescheduled m =
        if keepalive_min == m.keepalive_min && keepalive_max == m.keepalive_max
        then m
        else record m {
          keepalive_min = keepalive_min;
          keepalive_max = keepalive_max;
          entries = reschedule_all now delays m.entries;
        }

    resized : Manager → Manager
    resized m =
        if ltb 0 max_parallel && not (max_parallel == m.max_parallel)
        then record m { max_parallel = max_parallel; parallel_changed = suc m.parallel_changed }
        else m

holds_context : ℕ → Entry → Bool
holds_context context e =
    held e.job.cancel
    || (held e.keepalive.cancel || (same_owner e.arbiter.owner adhoc && held e.arbiter.cancel))
  where
    held : Option ℕ → Bool
    held none = false
    held (some one) = one == context

-- `BeginShutdown` cancels the context of every run.
unfoldable pub begin_shutdown : Manager → Manager
unfolding holds_context
begin_shutdown m = if m.shutting_down then m else record m {
  shutting_down = true;
  cancelled = λ context. m.cancelled context || any (in_entry context) m.order;
}
  where
    in_entry : ℕ → Text → Bool
    in_entry context key = elim (m.entries key) [ none ↦ false | some e ↦ holds_context context e ]

-- The first section of `RunAdhoc`: the key and the number of the reserved run.
unfoldable pub reserve_adhoc : ℕ → ℕ → Manager → Manager × Result (Text × ℕ)
unfolding key_by_id reserve commit
reserve_adhoc context id m = elim (key_by_id m.entries id m.order) [
  | none ↦ (m, err target_not_found)
  | some key ↦ elim (m.entries key) [
    | none ↦ (m, err target_not_found)
    | some e ↦
        if m.shutting_down || m.root_done
        then (m, err shutting_down)
        else if target_busy e
        then (m, err target_busy_error)
        else let run_id = suc m.next_adhoc_run_id in
          (
            commit key (reserve run_id context e) (record m { next_adhoc_run_id = run_id }),
            ok (key, run_id),
          )
  ]
]
