-- ===== src/Jobs/Manager/Targets/Order.antt =====
-- internal/jobs/manager.go: the list of keys under sorting, renaming and deleting.
use codex_queue_bot.Base.{
  ◌≡◌, refl, Bool, true, false, not, ◌&&◌, ◌||◌, List, [], ◌∷◌, ◌++◌, Text, arith, text_eq,
  text_eq_iff, any,
}
use codex_queue_bot.Base.Sets.{distinct}
use codex_queue_bot.Jobs.Manager.Targets.{insert_key, sort_keys, replace_first, remove_first}

module _ (lt : Text → Text → Bool) where
  any-insert_key :
      (q : Text → Bool) (key : Text) (keys : List Text)
      → any q (insert_key lt key keys) ≡ q key || any q keys
  unfolding insert_key
  any-insert_key q key [] = refl
  any-insert_key q key (other ∷ rest) = ground (arith, any-insert_key q key rest)

  pub any-sort_keys : (q : Text → Bool) (keys : List Text) → any q (sort_keys lt keys) ≡ any q keys
  unfolding sort_keys
  any-sort_keys q [] = refl
  any-sort_keys q (key ∷ keys) =
      ground (arith, any-insert_key q key (sort_keys lt keys), any-sort_keys q keys)

  distinct-insert_key :
      (key : Text) (keys : List Text)
      → distinct (insert_key lt key keys) ≡ not (any (text_eq key) keys) && distinct keys
  unfolding insert_key
  distinct-insert_key key [] = refl
  distinct-insert_key key (other ∷ rest) = grind (
    arith,
    distinct-insert_key key rest,
    any-insert_key (text_eq other) key rest,
    text_eq_iff other key,
    text_eq_iff key other,
  )

  pub distinct-sort_keys : (keys : List Text) → distinct (sort_keys lt keys) ≡ distinct keys
  unfolding sort_keys
  distinct-sort_keys [] = refl
  distinct-sort_keys (key ∷ keys) = ground (
    arith,
    distinct-insert_key key (sort_keys lt keys),
    any-sort_keys (text_eq key) keys,
    distinct-sort_keys keys,
  )

pub any-append-one :
    (q : Text → Bool) (keys : List Text) (key : Text)
    → any q (keys ++ (key ∷ [])) ≡ any q keys || q key
any-append-one q [] key = ground arith
any-append-one q (other ∷ rest) key = ground (arith, any-append-one q rest key)

-- One key leaves a list in which it is once.
pub any-remove_first :
    (old key : Text) (keys : List Text)
    → distinct keys ≡ true
    → any (text_eq key) (remove_first old keys) ≡ not (text_eq key old) && any (text_eq key) keys
unfolding remove_first
any-remove_first old key [] h = ground arith
any-remove_first old key (other ∷ rest) h = grind (
  arith,
  any-remove_first old key rest,
  text_eq_iff other old,
  text_eq_iff key other,
  text_eq_iff key old,
)

pub distinct-remove_first :
    (old : Text) (keys : List Text) → distinct keys ≡ true → distinct (remove_first old keys) ≡ true
unfolding remove_first
distinct-remove_first old [] h = refl
distinct-remove_first old (other ∷ rest) h =
    ground (arith, distinct-remove_first old rest, any-remove_first old other rest)

-- A new key takes the place of an old one.
pub any-replace_first :
    (old new key : Text) (keys : List Text)
    → distinct keys ≡ true
    → any (text_eq old) keys ≡ true
    → any (text_eq key) (replace_first old new keys)
      ≡ text_eq key new || (not (text_eq key old) && any (text_eq key) keys)
unfolding replace_first
any-replace_first old new key [] h k = ground arith
any-replace_first old new key (other ∷ rest) h k = grind (
  arith,
  any-replace_first old new key rest,
  text_eq_iff other old,
  text_eq_iff old other,
  text_eq_iff key other,
  text_eq_iff key old,
)

pub distinct-replace_first :
    (old new : Text) (keys : List Text)
    → distinct keys ≡ true
    → any (text_eq old) keys ≡ true
    → any (text_eq new) keys ≡ false
    → distinct (replace_first old new keys) ≡ true
unfolding replace_first
distinct-replace_first old new [] h k n = refl
distinct-replace_first old new (other ∷ rest) h k n = grind (
  arith,
  distinct-replace_first old new rest,
  any-replace_first old new other rest,
  text_eq_iff other old,
  text_eq_iff old other,
  text_eq_iff other new,
  text_eq_iff new other,
)
