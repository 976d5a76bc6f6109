-- ===== src/Jobs/Manager/Targets/Changes.antt =====
-- internal/jobs/manager.go: `CreateTarget`, `UpdateTarget` and `DeleteTarget` on the table of targets.
use codex_queue_bot.Base.{
  ℕ, ◌≡◌, ◌≢◌, refl, sym, ◌∙◌, ap, ◌⊎◌, inl, inr, Bool, false, List, [], ◌∷◌, ◌++◌, Option, none,
  some, Text, arith, text_eq, text_eq_iff, ◌==◌, ==_iff, is_some, Bool-cases, Option-cases,
}
use codex_queue_bot.Jobs.State.{Target, new_entry, Entry, target_busy}
use codex_queue_bot.Jobs.Names.{normalize_name}
use codex_queue_bot.Jobs.Manager.{Manager, put, broadcast, exists_in}
use codex_queue_bot.Jobs.Manager.Targets.{
  Error, key_by_id, key_lt, sort_targets, create_target, taken_by_other, rename, commit_update,
  commit_delete,
}
use codex_queue_bot.Jobs.Manager.Targets.Table.{
  IsTable, sorted-IsTable, removed-IsTable, added-IsTable, updated-IsTable, renamed-IsTable,
}

key_by_id-eq_some :
    (entries : Text → Option Entry) (id : ℕ) (order : List Text) (key : Text)
    → key_by_id entries id order ≡ some key
    → (e : Entry) × (entries key ≡ some e) × (e.target.id ≡ id)
unfolding key_by_id
key_by_id-eq_some entries id [] key h = ground arith
key_by_id-eq_some entries id (first ∷ order) key h = elim (Option-cases (entries first)) [
  | inl nothing ↦ key_by_id-eq_some entries id order key (ground arith)
  | inr (e, at) ↦ elim (Bool-cases (e.target.id == id)) [
    | inl same ↦
        let here : first ≡ key = ground arith in
        (e, ap entries (sym here) ∙ at, (==_iff e.target.id id).0 same)
    | inr other ↦ key_by_id-eq_some entries id order key (ground arith)
  ]
]

-- The table is well formed, and an operation that fails has changed nothing.
abbrev pub IsKept : (ℕ → ℕ) → Manager → Manager × Option Error → Type 0
IsKept lower m result =
    IsTable lower result.0.order result.0.entries × ((result.1 ≡ none) ⊎ (result.0 ≡ m))

stored-IsTable :
    (lower : ℕ → ℕ) (lower_text : Text → Text) (m : Manager)
    → IsTable lower m.order m.entries
    → IsTable lower
        (broadcast (sort_targets lower_text m)).order
        (broadcast (sort_targets lower_text m)).entries
unfolding broadcast sort_targets
stored-IsTable lower lower_text m t =
    sorted-IsTable lower m.order m.entries t (key_lt lower_text m.entries)

-- `CreateTarget` keeps the table of targets well formed: its order lists the keys in use, each once,
-- a key is the normalized name of its target, and no two targets have one number. If it fails, the
-- manager is as before. The database gives a new target a number that no other target has.
pub create_target-IsKept :
    (lower : ℕ → ℕ) (lower_text : Text → Text) (target : Target) (persist : Target → Option Target)
    (m : Manager)
    → IsTable lower m.order m.entries
    → ((stored : Target) (key : Text) (e : Entry)
        → persist target ≡ some stored
        → m.entries key ≡ some e
        → e.target.id ≢ stored.id)
    → IsKept lower m (create_target lower lower_text target persist m)
unfolding create_target
create_target-IsKept lower lower_text target persist m t fresh =
    elim (Bool-cases (exists_in m (normalize_name lower target.name))) [
      | inl taken ↦ rw taken (t, inr refl)
      | inr new ↦ rw new (elim (Option-cases (persist target)) [
        | inl failed ↦ rw failed (t, inr refl)
        | inr (stored, kept) ↦
            rw kept (elim (Bool-cases (exists_in m (normalize_name lower stored.name))) [
              | inl taken ↦ rw taken (t, inr refl)
              | inr free ↦ rw free (
                stored-IsTable lower lower_text
                    (record m {
                      entries =
                          put (normalize_name lower stored.name) (some (new_entry stored))
                            m.entries;
                      order = m.order ++ (normalize_name lower stored.name ∷ []);
                    })
                    (added-IsTable lower m.order m.entries t stored free
                      (λ key e. fresh stored key e kept)),
                inl refl,
              )
            ])
      ])
    ]

free_of_other :
    (lower : ℕ → ℕ) (m : Manager) (id : ℕ) (old new : Text) (e : Entry)
    → IsTable lower m.order m.entries
    → m.entries old ≡ some e
    → e.target.id ≡ id
    → taken_by_other m id new ≡ false
    → text_eq old new ≡ false
    → is_some (m.entries new) ≡ false
unfolding taken_by_other
free_of_other lower m id old new e t at same free other = elim (Option-cases (m.entries new)) [
  | inl nothing ↦ rw nothing refl
  | inr (f, at') ↦
      let own : f.target.id ≡ id = ground arith in
      let again : old ≡ new = t.numbered old new e f at at' (same ∙ sym own) in
      absurd (grind (arith, text_eq_iff old new, again))
]

rename-IsTable :
    (lower : ℕ → ℕ) (m : Manager) (old new : Text) (e : Entry) (stored : Target)
    → IsTable lower m.order m.entries
    → m.entries old ≡ some e
    → stored.id ≡ e.target.id
    → normalize_name lower stored.name ≡ new
    → (text_eq old new ≡ false → is_some (m.entries new) ≡ false)
    → IsTable lower (rename old new stored e m).order (rename old new stored e m).entries
unfolding rename
rename-IsTable lower m old new e stored t at same name free = elim (Bool-cases (text_eq old new)) [
  | inl here ↦ rw here (
      updated-IsTable lower m.order m.entries t old e stored at same
        (name ∙ sym ((text_eq_iff old new).0 here)))
  | inr there ↦
      rw there
        (renamed-IsTable lower m.order m.entries t old new e stored at same name (free there))
]

module _ (lower : ℕ → ℕ) (id : ℕ) (m : Manager) (t : IsTable lower m.order m.entries) (old : Text)
    (e : Entry) (found : key_by_id m.entries id m.order ≡ some old) (at : m.entries old ≡ some e)
    (own : e.target.id ≡ id) where
  commit_update-found :
      (lower_text : Text → Text) (target : Target) (persist : Target → Option Target)
      → ((stored : Target) → persist target ≡ some stored → stored.id ≡ id)
      → IsKept lower m (commit_update lower lower_text id target persist m)
  unfolding commit_update
  commit_update-found lower_text target persist same =
      rw (found, commit_update)
        (rw at (elim (Bool-cases (target_busy e)) [
          | inl busy ↦ rw busy (t, inr refl)
          | inr idle ↦
              rw idle (elim (Bool-cases (taken_by_other m id (normalize_name lower target.name))) [
                | inl taken ↦ rw taken (t, inr refl)
                | inr new ↦ rw new (elim (Option-cases (persist target)) [
                  | inl failed ↦ rw failed (t, inr refl)
                  | inr (stored, kept) ↦
                      rw kept
                        (elim (Bool-cases
                          (taken_by_other m id (normalize_name lower stored.name))) [
                            | inl taken ↦ rw taken (t, inr refl)
                            | inr free ↦
                                rw free (
                                  updated_table lower_text stored (same stored kept) free,
                                  inl refl,
                                )
                          ])
                ])
              ])
        ]))
    where
      updated_table :
          (lower_text : Text → Text) (stored : Target)
          → stored.id ≡ id
          → taken_by_other m id (normalize_name lower stored.name) ≡ false
          → (let m' = broadcast (
                sort_targets lower_text
                  (rename old (normalize_name lower stored.name) stored e m)) in
              IsTable lower m'.order m'.entries)
      updated_table lower_text stored same free =
          let new = normalize_name lower stored.name in
          stored-IsTable lower lower_text (rename old new stored e m) (
            rename-IsTable lower m old new e stored t at (same ∙ sym own) refl
              (free_of_other lower m id old new e t at own free))

  commit_delete-found : (persisted : Bool) → IsKept lower m (commit_delete id persisted m)
  unfolding commit_delete broadcast
  commit_delete-found persisted =
      rw (found, commit_delete)
        (rw at (elim (Bool-cases (target_busy e)) [
          | inl busy ↦ rw busy (t, inr refl)
          | inr idle ↦ rw idle (elim (Bool-cases persisted) [
            | inl kept ↦ rw kept (removed-IsTable lower m.order m.entries t old, inl refl)
            | inr failed ↦ rw failed (t, inr refl)
          ])
        ]))

-- The second half of `UpdateTarget` keeps the table of targets well formed: its order lists the keys
-- in use, each once, a key is the normalized name of its target, and no two targets have one
-- number; also where the target gets a new name and so a new key. If it fails, the manager is as
-- before. The database leaves the target its number.
pub commit_update-IsKept :
    (lower : ℕ → ℕ) (lower_text : Text → Text) (id : ℕ) (target : Target)
    (persist : Target → Option Target) (m : Manager)
    → IsTable lower m.order m.entries
    → ((stored : Target) → persist target ≡ some stored → stored.id ≡ id)
    → IsKept lower m (commit_update lower lower_text id target persist m)
unfolding commit_update
commit_update-IsKept lower lower_text id target persist m t same =
    elim (Option-cases (key_by_id m.entries id m.order)) [
      | inl nothing ↦ rw (nothing, commit_update) (t, inr refl)
      | inr (old, found) ↦
          let r = key_by_id-eq_some m.entries id m.order old found in
          commit_update-found lower id m t old r.0 found r.1 r.2 lower_text target persist same
    ]

-- The second half of `DeleteTarget` keeps the table of targets well formed: its order lists the keys
-- in use, each once, a key is the normalized name of its target, and no two targets have one
-- number. If it fails, the manager is as before.
pub commit_delete-IsKept :
    (lower : ℕ → ℕ) (id : ℕ) (persisted : Bool) (m : Manager)
    → IsTable lower m.order m.entries
    → IsKept lower m (commit_delete id persisted m)
unfolding commit_delete
commit_delete-IsKept lower id persisted m t = elim (Option-cases (key_by_id m.entries id m.order)) [
  | inl nothing ↦ rw (nothing, commit_delete) (t, inr refl)
  | inr (old, found) ↦
      let r = key_by_id-eq_some m.entries id m.order old found in
      commit_delete-found lower id m t old r.0 found r.1 r.2 persisted
]
