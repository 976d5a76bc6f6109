-- ===== src/Base/Sets.antt =====
-- Lists of names without repetition.
use codex_queue_bot.Base.{
  ◌≡◌, refl, sym, subst, ◌≤◌, Bool, true, false, not, ◌&&◌, List, [], ◌∷◌, ◌++◌, Text, arith,
  text_eq, text_eq_iff, any, keep, length, length-keep-le, suc, All, Bool-cases, inl, inr,
}

abbrev pub distinct : List Text → Bool
distinct [] = true
distinct (name ∷ rest) = not (any (text_eq name) rest) && distinct rest

pub any-keep :
    (p q : Text → Bool) (items : List Text) → any q items ≡ false → any q (keep p items) ≡ false
any-keep p q [] h = refl
any-keep p q (item ∷ items) h = ground (arith, any-keep p q items)

pub distinct-keep :
    (p : Text → Bool) (items : List Text) → distinct items ≡ true → distinct (keep p items) ≡ true
distinct-keep p [] h = refl
distinct-keep p (item ∷ items) h =
    ground (arith, distinct-keep p items, any-keep p (text_eq item) items)

pub All-keep : (p : Text → Bool) (items : List Text) → All (λ item. p item ≡ true) (keep p items)
All-keep p [] = tt
All-keep p (item ∷ items) = elim (Bool-cases (p item)) [
  | inl kept ↦ rw kept (kept, All-keep p items)
  | inr left ↦ rw left (All-keep p items)
]

pub All-keep_of_All {ℓ} :
    (P : Text → Type ℓ) (p : Text → Bool) (items : List Text) → All P items → All P (keep p items)
All-keep_of_All P p [] h = tt
All-keep_of_All P p (item ∷ items) h = elim (Bool-cases (p item)) [
  | inl kept ↦ rw kept (h.0, All-keep_of_All P p items h.1)
  | inr left ↦ rw left (All-keep_of_All P p items h.1)
]

any-append-last :
    (q : Text → Bool) (items : List Text) (name : Text)
    → any q items ≡ false
    → q name ≡ false
    → any q (items ++ (name ∷ [])) ≡ false
any-append-last q [] name h k = ground arith
any-append-last q (item ∷ items) name h k = ground (arith, any-append-last q items name)

pub distinct-append :
    (items : List Text) (name : Text)
    → distinct items ≡ true
    → any (text_eq name) items ≡ false
    → distinct (items ++ (name ∷ [])) ≡ true
distinct-append [] name h k = refl
distinct-append (item ∷ items) name h k = ground (
  arith,
  distinct-append items name,
  any-append-last (text_eq item) items name,
  text_eq_iff item name,
  text_eq_iff name item,
)

abbrev pub In : List Text → Text → Type 0
In items name = any (text_eq name) items ≡ true

abbrev without : Text → List Text → List Text
without name items = keep (λ item. not (text_eq name item)) items

length-without-lt :
    (name : Text) (items : List Text)
    → In items name
    → suc (length (without name items)) ≤ length items
length-without-lt name [] h = cc
length-without-lt name (item ∷ items) h = elim (Bool-cases (text_eq name item)) [
  | inl same ↦ rw same (omega (arith, length-keep-le (λ other. not (text_eq name other)) items))
  | inr other ↦ rw other (ground (arith, length-without-lt name items))
]

In-without :
    (name z : Text) (items : List Text)
    → In items z
    → text_eq name z ≡ false
    → In (without name items) z
In-without name z [] h k = cc
In-without name z (item ∷ items) h k =
    ground (
      arith,
      In-without name z items,
      text_eq_iff z item,
      text_eq_iff name item,
      text_eq_iff name z,
    )

All-In-without :
    (name : Text) (items zs : List Text)
    → All (In items) zs
    → any (text_eq name) zs ≡ false
    → All (In (without name items)) zs
All-In-without name items [] h k = tt
All-In-without name items (z ∷ zs) h k =
    (In-without name z items h.0 (ground arith), All-In-without name items zs h.1 (ground arith))

All-In-back :
    (name : Text) (items zs : List Text)
    → All (In zs) (without name items)
    → All (In (name ∷ zs)) items
All-In-back name [] zs h = tt
All-In-back name (item ∷ items) zs h = elim (Bool-cases (text_eq name item)) [
  | inl same ↦ (
    ground (arith, same, text_eq_iff name item, text_eq_iff item name),
    All-In-back name items zs (rw same at h),
  )
  | inr other ↦
      let parts = rw other at h in (ground (arith, parts.0), All-In-back name items zs parts.1)
]

-- As many names as there are, none twice, and all of them there: they are all there are.
pub All-of_distinct :
    (xs ys : List Text)
    → distinct xs ≡ true
    → All (In ys) xs
    → length ys ≤ length xs
    → All (In xs) ys
All-of_distinct [] [] d h k = tt
All-of_distinct [] (y ∷ ys) d h k = absurd (omega arith)
All-of_distinct (x ∷ xs) ys d h k = All-In-back x ys xs (
    All-of_distinct xs (without x ys) (ground arith) (All-In-without x ys xs h.1 (ground arith))
      (omega (arith, length-without-lt x ys h.0)))

-- Names that are all there, and none of them twice, are no more than there are.
pub length-distinct-le :
    (xs ys : List Text) → distinct xs ≡ true → All (In ys) xs → length xs ≤ length ys
length-distinct-le [] ys d h = omega arith
length-distinct-le (x ∷ xs) ys d h = omega (
  arith,
  length-distinct-le xs (without x ys) (ground arith) (All-In-without x ys xs h.1 (ground arith)),
  length-without-lt x ys h.0,
)

-- What holds of all names holds of one that is there.
pub All-In :
    (P : Text → Type 0) (items : List Text) (name : Text) → All P items → In items name → P name
All-In P [] name h is = ground arith
All-In P (item ∷ items) name h is = elim (Bool-cases (text_eq name item)) [
  | inl same ↦ subst P (sym ((text_eq_iff name item).0 same)) h.0
  | inr other ↦ All-In P items name h.1 (ground (arith, is, other))
]
