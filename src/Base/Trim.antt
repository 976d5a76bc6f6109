-- ===== src/Base/Trim.antt =====
-- Trimming a text at both ends, for any set of space characters.
use codex_queue_bot.Base.{
  ℕ, ◌≡◌, refl, ◌∙◌, ap, sym, Bool, true, false, not, ◌&&◌, [], ◌∷◌, ◌++◌, arith, Text,
  if◌then◌else◌, any, is_empty,
}

module _ (space : ℕ → Bool) where
  pub trim_start : Text → Text
  trim_start [] = []
  trim_start (c ∷ s) = if space c then trim_start s else c ∷ s

  pub trim_end : Text → Text
  trim_end [] = []
  trim_end (c ∷ s) = let rest = trim_end s in if is_empty rest && space c then [] else c ∷ rest

  unfoldable pub trim : Text → Text
  unfolding trim_start trim_end
  trim s = trim_end (trim_start s)

  starts_clean : Text → Bool
  starts_clean [] = true
  starts_clean (c ∷ s) = not (space c)

  trim_start-starts_clean : (s : Text) → starts_clean (trim_start s) ≡ true
  unfolding starts_clean trim_start
  trim_start-starts_clean [] = refl
  trim_start-starts_clean (c ∷ s) = ground (arith, trim_start-starts_clean s)

  trim_start_of_clean : (s : Text) → starts_clean s ≡ true → trim_start s ≡ s
  unfolding starts_clean trim_start
  trim_start_of_clean [] h = refl
  trim_start_of_clean (c ∷ s) h = ground arith

  trim_end-starts_clean : (s : Text) → starts_clean s ≡ true → starts_clean (trim_end s) ≡ true
  unfolding starts_clean trim_end
  trim_end-starts_clean [] h = refl
  trim_end-starts_clean (c ∷ s) h = ground arith

  trim_end_idem : (s : Text) → trim_end (trim_end s) ≡ trim_end s
  unfolding trim_end
  trim_end_idem [] = refl
  trim_end_idem (c ∷ s) = ground (arith, trim_end_idem s)

  pub trim_idem : (s : Text) → trim (trim s) ≡ trim s
  trim_idem s =
      unfold trim in
      (ap trim_end (trim_start_of_clean _ (trim_end-starts_clean _ (trim_start-starts_clean s)))
        ∙ trim_end_idem (trim_start s))

  trim_start-free : (q : ℕ → Bool) (s : Text) → any q s ≡ false → any q (trim_start s) ≡ false
  unfolding trim_start
  trim_start-free q [] h = refl
  trim_start-free q (c ∷ s) h = ground (arith, trim_start-free q s)

  trim_end-free : (q : ℕ → Bool) (s : Text) → any q s ≡ false → any q (trim_end s) ≡ false
  unfolding trim_end
  trim_end-free q [] h = refl
  trim_end-free q (c ∷ s) h = ground (arith, trim_end-free q s)

  -- Trimming adds no character.
  pub trim-free : (q : ℕ → Bool) (s : Text) → any q s ≡ false → any q (trim s) ≡ false
  unfolding trim
  trim-free q s h = trim_end-free q (trim_start s) (trim_start-free q s h)

  pub trim_end-tail : (c : ℕ) (s : Text) → trim_end (c ∷ s) ≡ c ∷ s → trim_end s ≡ s
  unfolding trim_end
  trim_end-tail c s h = ground arith

  pub trim_end-last : (c : ℕ) → trim_end (c ∷ []) ≡ c ∷ [] → space c ≡ false
  unfolding trim_end
  trim_end-last c h = ground arith

  -- A text that trimming leaves alone has a clean end.
  pub trim_end_of_trim : (s : Text) → trim s ≡ s → trim_end s ≡ s
  trim_end_of_trim s h =
      let twice = trim_end_idem (trim_start s) in unfold trim in (ap trim_end (sym h) ∙ twice ∙ h)

  pub trim_end-append :
      (s t : Text) → is_empty t ≡ false → trim_end t ≡ t → trim_end (s ++ t) ≡ s ++ t
  unfolding trim_end
  trim_end-append [] t filled h = h
  trim_end-append (c ∷ s) t filled h = rw (trim_end-append s t filled h) (rw (filled_append s) refl)
    where
      filled_append : (s : Text) → is_empty (s ++ t) ≡ false
      filled_append [] = filled
      filled_append (c ∷ s) = refl

  -- Trimming leaves alone what begins and ends without space.
  pub trim_of_clean :
      (c : ℕ) (s : Text) → space c ≡ false → trim_end (c ∷ s) ≡ c ∷ s → trim (c ∷ s) ≡ c ∷ s
  unfolding trim trim_start
  trim_of_clean c s h k = rw h k

  pub trim_space : (c : ℕ) (s : Text) → space c ≡ true → trim (c ∷ s) ≡ trim s
  unfolding trim trim_start
  trim_space c s h = rw h refl

  pub trim_end_of_free : (s : Text) → any space s ≡ false → trim_end s ≡ s
  unfolding trim_end
  trim_end_of_free [] h = refl
  trim_end_of_free (c ∷ s) h = ground (arith, h, trim_end_of_free s)
