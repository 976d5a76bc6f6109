-- ===== src/Jobs/Invariant/Totals.antt =====
-- Sums of a measure over the first workers of a family, and how one update changes them.
use codex_queue_bot.Base.{
  ℕ, zero, suc, ◌+◌, ◌≤◌, ◌<◌, ◌≡◌, refl, sym, ap, subst, ◌≢◌, arith, ℕ_discrete,
}
use codex_queue_bot.Jobs.System.{update}

module _ {ℓ} {A : Type ℓ} where
  unfoldable pub total : (A → ℕ) → (ℕ → A) → ℕ → ℕ
  total f w zero = 0
  total f w (suc n) = total f w n + f (w n)

  pub update-here : (w : ℕ → A) (i : ℕ) (a : A) → update w i a i ≡ a
  update-here w i a = ground arith

  pub update-other : (w : ℕ → A) (i j : ℕ) (a : A) → i ≢ j → update w i a j ≡ w j
  update-other w i j a h = ground arith

  pub total-update-past :
      (f : A → ℕ) (w : ℕ → A) (i n : ℕ) (a : A) → n ≤ i → total f (update w i a) n ≡ total f w n
  unfolding total
  total-update-past f w i zero a h = refl
  total-update-past f w i (suc n) a h =
      rw (total-update-past f w i n a (omega arith), update-other w i n a (omega arith))

  -- The old value leaves the sum and the new one enters it.
  pub total-update :
      (f : A → ℕ) (w : ℕ → A) (i n : ℕ) (a : A)
      → i < n
      → total f (update w i a) n + f (w i) ≡ total f w n + f a
  unfolding total
  total-update f w i zero a h = omega arith
  total-update f w i (suc n) a h = elim (ℕ_discrete i n) [
    | yes same ↦ omega (
      arith,
      total-update-past f w i n a (omega arith),
      ap f (sym (update-here w i a)),
      ap (λ j. f (update w i a j)) same,
      ap (λ j. f (w j)) same,
    )
    | no other ↦
        omega (arith, total-update f w i n a (omega arith), ap f (update-other w i n a other))
  ]

  pub le-total : (f : A → ℕ) (w : ℕ → A) (i n : ℕ) → i < n → f (w i) ≤ total f w n
  unfolding total
  le-total f w i zero h = omega arith
  le-total f w i (suc n) h = elim (ℕ_discrete i n) [
    | yes same ↦ omega (arith, ap (λ j. f (w j)) same)
    | no other ↦ omega (arith, le-total f w i n (omega arith))
  ]

  pub total_mono :
      (f g : A → ℕ) (w : ℕ → A) (n : ℕ) → ((a : A) → f a ≤ g a) → total f w n ≤ total g w n
  unfolding total
  total_mono f g w zero h = omega arith
  total_mono f g w (suc n) h = omega (arith, total_mono f g w n h, h (w n))

-- What holds of the updated place and of the other places before holds of every place after.
pub update-ind {ℓ κ} :
    {A : Type ℓ} (P : ℕ → A → Type κ) (w : ℕ → A) (i : ℕ) (a : A)
    → P i a
    → ((j : ℕ) → i ≢ j → P j (w j))
    → (j : ℕ) → P j (update w i a j)
update-ind P w i a here there j = elim (ℕ_discrete i j) [
  | yes same ↦ subst (λ k. P k (update w i a k)) same (subst (P i) (sym (update-here w i a)) here)
  | no other ↦ subst (P j) (sym (update-other w i j a other)) (there j other)
]
