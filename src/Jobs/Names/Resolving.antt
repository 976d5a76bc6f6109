-- ===== src/Jobs/Names/Resolving.antt =====
-- internal/jobs/manager.go, `resolveLocked`: the keys and the unknown names that it returns.
use codex_queue_bot.Base.{
  ℕ, ◌≡◌, refl, ◌⊎◌, inl, inr, Bool, true, false, ◌||◌, List, [], ◌∷◌, Text, codes, arith, text_eq,
  text_eq_iff, any, All, All-mono, is_empty, Bool-cases,
}
use codex_queue_bot.Base.Sets.{distinct, In}
use codex_queue_bot.Jobs.Names.{
  normalize_name, is_all, contains_all, Resolved, resolve_each, resolve,
}

given_more :
    (name : Text) (names others : List Text)
    → All (In names) others
    → All (In (name ∷ names)) others
given_more name names others h = All-mono others (λ other k. ground (arith, k)) h

module _ (lower : ℕ → ℕ) where
  -- The key is the one of a name among these.
  abbrev pub IsAsked : List Text → Text → Type 0
  IsAsked names key = any (λ name. text_eq (normalize_name lower name) key) names ≡ true

  -- The name stands for all targets, in either language.
  abbrev pub MeansAll : Text → Type 0
  MeansAll name =
      (normalize_name lower name ≡ codes "all")
      ⊎ ((normalize_name lower name ≡ codes "全部") ⊎ (normalize_name lower name ≡ codes "*"))

  IsAsked_more :
      (name : Text) (names keys : List Text)
      → All (IsAsked names) keys
      → All (IsAsked (name ∷ names)) keys
  IsAsked_more name names keys h = All-mono keys (λ key k. ground (arith, k)) h

module _ (exists : Text → Bool) (lower : ℕ → ℕ) where
  -- The name is blank, or its key is among the keys, or it is of no target.
  abbrev pub IsResolved : List Text → Text → Type 0
  IsResolved keys name =
      (is_empty (normalize_name lower name) ≡ true)
      ⊎ (In keys (normalize_name lower name) ⊎ (exists (normalize_name lower name) ≡ false))

  -- What the loop returns for the rest of the names, given the keys seen before.
  record Resolves (seen names : List Text) (result : Resolved) : Type 0 where
    known : All (λ key. exists key ≡ true) result.keys
    once : distinct result.keys ≡ true
    unseen : (key : Text) → In seen key → any (text_eq key) result.keys ≡ false
    unknown : All (λ name. exists (normalize_name lower name) ≡ false) result.unknown
    resolved : All (λ name. In seen (normalize_name lower name) ⊎ IsResolved result.keys name) names
    asked : All (IsAsked lower names) result.keys
    given : All (In names) result.unknown

  skipped-Resolves :
      (seen names : List Text) (name : Text) (rest : Resolved)
      → (is_empty (normalize_name lower name) || any (text_eq (normalize_name lower name)) seen)
        ≡ true
      → Resolves seen names rest
      → Resolves seen (name ∷ names) rest
  skipped-Resolves seen names name rest h r = record {
    known = r.known;
    once = r.once;
    unseen = r.unseen;
    unknown = r.unknown;
    resolved = (ground arith, r.resolved);
    asked = IsAsked_more lower name names rest.keys r.asked;
    given = given_more name names rest.unknown r.given;
  }

  known-Resolves :
      (seen names : List Text) (name : Text) (rest : Resolved)
      → any (text_eq (normalize_name lower name)) seen ≡ false
      → exists (normalize_name lower name) ≡ true
      → Resolves (normalize_name lower name ∷ seen) names rest
      → Resolves seen (name ∷ names) (record rest { keys = normalize_name lower name ∷ rest.keys })
  known-Resolves seen names name rest new h r =
      let key = normalize_name lower name in
      let own : text_eq key key ≡ true = (text_eq_iff key key).1 refl in
      record {
        known = (h, r.known);
        once = ground (arith, r.unseen key, own, r.once);
        unseen = λ other k. grind (arith, text_eq_iff other key, r.unseen other);
        unknown = r.unknown;
        resolved = (ground (arith, own), All-mono names (λ other k. ground arith) r.resolved);
        asked = (ground (arith, own), IsAsked_more lower name names rest.keys r.asked);
        given = given_more name names rest.unknown r.given;
      }

  unknown-Resolves :
      (seen names : List Text) (name : Text) (rest : Resolved)
      → exists (normalize_name lower name) ≡ false
      → Resolves (normalize_name lower name ∷ seen) names rest
      → Resolves seen (name ∷ names) (record rest { unknown = name ∷ rest.unknown })
  unknown-Resolves seen names name rest h r = record {
    known = r.known;
    once = r.once;
    unseen = λ other k. ground (arith, r.unseen other);
    unknown = (h, r.unknown);
    resolved = (
      ground arith,
      All-mono names
          (λ other k.
            grind (arith, text_eq_iff (normalize_name lower other) (normalize_name lower name)))
          r.resolved,
    );
    asked = IsAsked_more lower name names rest.keys r.asked;
    given = (
      ground (arith, (text_eq_iff name name).1 refl),
      given_more name names rest.unknown r.given,
    );
  }

  resolve_each-Resolves :
      (seen names : List Text) → Resolves seen names (resolve_each exists lower seen names)
  unfolding resolve_each
  resolve_each-Resolves seen [] = record {
    known = tt;
    once = refl;
    unseen = λ key h. refl;
    unknown = tt;
    resolved = tt;
    asked = tt;
    given = tt;
  }
  resolve_each-Resolves seen (name ∷ names) =
      let key = normalize_name lower name in
      elim (Bool-cases (is_empty key || any (text_eq key) seen)) [
        | inl skip ↦
            rw skip (skipped-Resolves seen names name _ skip (resolve_each-Resolves seen names))
        | inr new ↦ rw new (elim (Bool-cases (exists key)) [
          | inl known ↦ rw known (
              known-Resolves seen names name _ (ground arith) known
                (resolve_each-Resolves (key ∷ seen) names))
          | inr unknown ↦ rw unknown (
              unknown-Resolves seen names name _ unknown (resolve_each-Resolves (key ∷ seen) names))
        ])
      ]

module _ (lower : ℕ → ℕ) where
  is_all-MeansAll :
      (name : Text)
      → ((is_all (normalize_name lower name) ≡ true) → MeansAll lower name)
        × (MeansAll lower name → is_all (normalize_name lower name) ≡ true)
  is_all-MeansAll name = all_key (normalize_name lower name)
    where
      all_key :
          (key : Text)
          → ((is_all key ≡ true) → (key ≡ codes "all") ⊎ ((key ≡ codes "全部") ⊎ (key ≡ codes "*")))
            × ((key ≡ codes "all") ⊎ ((key ≡ codes "全部") ⊎ (key ≡ codes "*")) → is_all key ≡ true)
      all_key key = (
        λ h. ground (
          arith,
          text_eq_iff key (codes "all"),
          text_eq_iff key (codes "全部"),
          text_eq_iff key (codes "*"),
        ),
        λ means. ground (
          arith,
          text_eq_iff key (codes "all"),
          text_eq_iff key (codes "全部"),
          text_eq_iff key (codes "*"),
        ),
      )

  all_asked :
      (names : List Text)
      → contains_all lower names ≡ true
      → (name : Text) × (In names name) × MeansAll lower name
  unfolding contains_all
  all_asked [] h = absurd (ground (arith, h))
  all_asked (name ∷ names) h = elim (Bool-cases (is_all (normalize_name lower name))) [
    | inl here ↦
        (name, ground (arith, (text_eq_iff name name).1 refl), (is_all-MeansAll name).0 here)
    | inr not_here ↦
        let (other, there, means) = all_asked names (ground (arith, h, not_here)) in
        (other, ground (arith, there), means)
  ]

  none_all :
      (names : List Text)
      → contains_all lower names ≡ false
      → All (λ name. ¬ MeansAll lower name) names
  unfolding contains_all
  none_all [] h = tt
  none_all (name ∷ names) h = (
    λ means. ground (arith, h, (is_all-MeansAll name).1 means),
    none_all names (ground (arith, h)),
  )

-- What `resolveLocked` returns, where the order lists keys that exist, each once: every key that it
-- returns exists and is there once, and every name that it returns as unknown is of no target. If
-- there are no names, or one of them, trimmed and in lower case, is all, 全部 or *, the keys are those
-- of all targets, and no name is unknown. Otherwise every name is blank, has its key among them, or is
-- of no target; every key is the one of a name that was asked for; and so is every unknown name.
pub resolve-IsResolved :
    (exists : Text → Bool) (lower : ℕ → ℕ) (order names : List Text)
    → All (λ key. exists key ≡ true) order
    → distinct order ≡ true
    → (All (λ key. exists key ≡ true) (resolve exists lower order names).keys)
      × (distinct (resolve exists lower order names).keys ≡ true)
      × (All
          (λ name. exists (normalize_name lower name) ≡ false)
          (resolve exists lower order names).unknown)
      × ((((names ≡ []) ⊎ ((name : Text) × (In names name) × MeansAll lower name))
            × ((resolve exists lower order names).keys ≡ order)
            × ((resolve exists lower order names).unknown ≡ []))
          ⊎ ((is_empty names ≡ false)
              × All (λ name. ¬ MeansAll lower name) names
              × All (IsResolved exists lower (resolve exists lower order names).keys) names
              × All (IsAsked lower names) (resolve exists lower order names).keys
              × All (In names) (resolve exists lower order names).unknown))
unfolding resolve
resolve-IsResolved exists lower order names known once =
    elim (Bool-cases (is_empty names || contains_all lower names)) [
      | inl every ↦ rw every (known, once, tt, inl (asks_all names every, refl, refl))
      | inr some_names ↦ rw some_names (
          let r = resolve_each-Resolves exists lower [] names in
          (
            r.known,
            r.once,
            r.unknown,
            inr (
              ground (arith, some_names),
              none_all lower names (ground (arith, some_names)),
              All-mono names (λ one k. ground arith) r.resolved,
              r.asked,
              r.given,
            ),
          ))
    ]
  where
    asks_all :
        (names : List Text)
        → (is_empty names || contains_all lower names) ≡ true
        → (names ≡ []) ⊎ ((name : Text) × (In names name) × MeansAll lower name)
    asks_all [] h = inl refl
    asks_all (name ∷ names) h = inr (all_asked lower (name ∷ names) h)
