-- ===== src/Jobs/Manager/Targets/Table.antt =====
-- internal/jobs/manager.go: the table of targets, its keys and their order.
use codex_queue_bot.Base.{
  ℕ, ◌≡◌, ◌≢◌, refl, sym, ◌∙◌, ap, ◌⊎◌, inl, inr, Bool, true, false, ◌||◌, List, [], ◌∷◌, ◌++◌,
  Option, none, some, Text, arith, text_eq, text_eq_iff, any, if◌then◌else◌, is_some, Bool-cases,
}
use codex_queue_bot.Base.Sets.{distinct, distinct-append}
use codex_queue_bot.Jobs.State.{Target, Entry, new_entry}
use codex_queue_bot.Jobs.Names.{normalize_name}
use codex_queue_bot.Jobs.Manager.{put}
use codex_queue_bot.Jobs.Manager.Targets.{sort_keys, replace_first, remove_first}
use codex_queue_bot.Jobs.Manager.Targets.Order.{
  any-sort_keys, distinct-sort_keys, any-append-one, any-remove_first, distinct-remove_first,
  any-replace_first, distinct-replace_first,
}

-- The order lists the keys that have an entry, each once; a key is the normalized name of its target;
-- and no two targets have one number.
pub record IsTable (lower : ℕ → ℕ) (order : List Text) (entries : Text → Option Entry)
    : Type 0 where
  pub once : distinct order ≡ true
  pub listed : (key : Text) → any (text_eq key) order ≡ is_some (entries key)
  pub named :
      (key : Text) (e : Entry) → entries key ≡ some e → normalize_name lower e.target.name ≡ key
  pub numbered :
      (key other : Text) (e f : Entry)
      → entries key ≡ some e
      → entries other ≡ some f
      → e.target.id ≡ f.target.id
      → key ≡ other

put-eq_some :
    {A : Type 0} (new : Text) (x : A) (entries : Text → Option A) (key : Text) (e : A)
    → (if text_eq new key then some x else entries key) ≡ some e
    → ((new ≡ key) × (x ≡ e)) ⊎ (entries key ≡ some e)
put-eq_some new x entries key e h = ground (arith, text_eq_iff new key)

or_comm : (a b : Bool) → a || b ≡ b || a
or_comm a b = ground arith

module _ (lower : ℕ → ℕ) (order : List Text) (entries : Text → Option Entry)
    (t : IsTable lower order entries) where
  pub sorted-IsTable : (lt : Text → Text → Bool) → IsTable lower (sort_keys lt order) entries
  sorted-IsTable lt = record {
    once = distinct-sort_keys lt order ∙ t.once;
    listed = λ key. any-sort_keys lt (text_eq key) order ∙ t.listed key;
    named = t.named;
    numbered = t.numbered;
  }

  pub removed-IsTable : (old : Text) → IsTable lower (remove_first old order) (put old none entries)
  removed-IsTable old = record {
    once = distinct-remove_first old order t.once;
    listed = λ key. grind (
      arith,
      any-remove_first old key order,
      t.once,
      t.listed key,
      text_eq_iff key old,
      text_eq_iff old key,
    );
    named = λ key e h. ground (arith, t.named key e);
    numbered = λ key other e f h k i. ground (arith, t.numbered key other e f);
  }

  -- An entry that is put in the table, under the key of its name and with a number of its own.
  put-IsTable :
      (new : Text) (x : Entry) (next : List Text)
      → distinct next ≡ true
      → ((key : Text) → any (text_eq key) next ≡ text_eq key new || any (text_eq key) order)
      → normalize_name lower x.target.name ≡ new
      → ((key : Text) (e : Entry) → entries key ≡ some e → e.target.id ≡ x.target.id → key ≡ new)
      → IsTable lower next (put new (some x) entries)
  put-IsTable new x next once listed name own = record {
    once = once;
    listed = λ key. listed key ∙ put-listed key;
    named = λ key e h. elim (put-eq_some new x entries key e h) [
      | inl here ↦
          ap (λ (y : Entry). normalize_name lower y.target.name) (sym here.1) ∙ name ∙ here.0
      | inr there ↦ t.named key e there
    ];
    numbered = λ key other e f h k same. elim (put-eq_some new x entries key e h) [
      | inl here ↦ elim (put-eq_some new x entries other f k) [
        | inl here' ↦ sym here.0 ∙ here'.0
        | inr there' ↦
            sym here.0
            ∙ sym (own other f there' (sym same ∙ ap (λ (y : Entry). y.target.id) (sym here.1)))
      ]
      | inr there ↦ elim (put-eq_some new x entries other f k) [
        | inl here' ↦
            own key e there (same ∙ ap (λ (y : Entry). y.target.id) (sym here'.1)) ∙ here'.0
        | inr there' ↦ t.numbered key other e f there there' same
      ]
    ];
  }
    where
      put-listed :
          (key : Text)
          → text_eq key new || any (text_eq key) order ≡ is_some (put new (some x) entries key)
      put-listed key = grind (arith, t.listed key, text_eq_iff key new, text_eq_iff new key)

  pub added-IsTable :
      (stored : Target)
      → is_some (entries (normalize_name lower stored.name)) ≡ false
      → ((key : Text) (e : Entry) → entries key ≡ some e → e.target.id ≢ stored.id)
      → IsTable lower
          (order ++ (normalize_name lower stored.name ∷ []))
          (put (normalize_name lower stored.name) (some (new_entry stored)) entries)
  added-IsTable stored new fresh =
      let added = normalize_name lower stored.name in
      put-IsTable added (new_entry stored) (order ++ (added ∷ []))
        (distinct-append order added t.once (t.listed added ∙ new))
        (λ key.
          any-append-one (text_eq key) order added
          ∙ or_comm (any (text_eq key) order) (text_eq key added))
        refl (λ key e at same. absurd (fresh key e at same))

  pub updated-IsTable :
      (old : Text) (e : Entry) (stored : Target)
      → entries old ≡ some e
      → stored.id ≡ e.target.id
      → normalize_name lower stored.name ≡ old
      → IsTable lower order (put old (some (record e { target = stored })) entries)
  updated-IsTable old e stored at same name =
      put-IsTable old (record e { target = stored }) order t.once listed name
        (λ key f at' same'. t.numbered key old f e at' at (same' ∙ same))
    where
      listed : (key : Text) → any (text_eq key) order ≡ text_eq key old || any (text_eq key) order
      listed key = grind (arith, text_eq_iff key old, t.listed old ∙ ap is_some at)

module _ (lower : ℕ → ℕ) (order : List Text) (entries : Text → Option Entry)
    (t : IsTable lower order entries) where
  pub renamed-IsTable :
      (old new : Text) (e : Entry) (stored : Target)
      → entries old ≡ some e
      → stored.id ≡ e.target.id
      → normalize_name lower stored.name ≡ new
      → is_some (entries new) ≡ false
      → IsTable lower
          (replace_first old new order)
          (put new (some (record e { target = stored })) (put old none entries))
  renamed-IsTable old new e stored at same name free =
      put-IsTable lower (remove_first old order) (put old none entries)
        (removed-IsTable lower order entries t old) new (record e { target = stored })
        (replace_first old new order)
        (distinct-replace_first old new order t.once was (t.listed new ∙ free))
        (λ key.
          any-replace_first old new key order t.once was
          ∙ ap (λ b. text_eq key new || b) (sym (any-remove_first old key order t.once)))
        name own
    where
      was : any (text_eq old) order ≡ true
      was = t.listed old ∙ ap is_some at

      own :
          (key : Text) (f : Entry)
          → put old none entries key ≡ some f
          → f.target.id ≡ stored.id
          → key ≡ new
      own key f at' same' = elim (Bool-cases (text_eq old key)) [
        | inl here ↦ ground arith
        | inr there ↦
            let known : entries key ≡ some f = ground arith in
            let again : old ≡ key = t.numbered old key e f at known (sym same ∙ sym same') in
            absurd (grind (arith, text_eq_iff old key, again))
      ]
