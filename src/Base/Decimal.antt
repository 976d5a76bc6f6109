-- ===== src/Base/Decimal.antt =====
-- Numbers written in decimal, and read back.
use codex_queue_bot.Base.{
  ℕ, zero, suc, ◌+◌, ◌-◌, ◌*◌, ◌/◌, ◌%◌, ◌<◌, ◌≡◌, refl, ◌∙◌, Bool, false, not, ◌&&◌, [], ◌∷◌,
  Option, none, some, arith, Text, if◌then◌else◌, ◌==◌, leb, any, is_empty, Bool-cases, inl, inr,
}

print_onto : ℕ → ℕ → Text → Text
print_onto zero n s = s
print_onto (suc fuel) n s =
    let more = print_onto fuel (n / 10) ((n % 10 + 48) ∷ s) in
    if n / 10 == 0 then (n % 10 + 48) ∷ s else more

-- The fuel of `n + 1` rounds is enough: each round divides the number by ten.
unfoldable pub print_number : ℕ → Text
unfolding print_onto
print_number n = print_onto (suc n) n []

abbrev pub is_digit : ℕ → Bool
is_digit c = leb 48 c && leb c 57

parse_onto : ℕ → Text → Option ℕ
parse_onto n [] = some n
parse_onto n (c ∷ s) =
    let rest = parse_onto (n * 10 + (c - 48)) s in if is_digit c then rest else none

unfoldable pub parse_number : Text → Option ℕ
unfolding parse_onto
parse_number [] = none
parse_number (c ∷ s) = parse_onto 0 (c ∷ s)

parse-print_onto :
    (fuel n : ℕ) (s : Text) → n < fuel → parse_onto 0 (print_onto fuel n s) ≡ parse_onto n s
unfolding parse_onto print_onto
parse-print_onto zero n s h = elim h [ ]
parse-print_onto (suc fuel) n s h = elim (Bool-cases (n / 10 == 0)) [
  | inl last ↦ rw last (ground arith)
  | inr more ↦ rw more (ground (arith, parse-print_onto fuel (n / 10) ((n % 10 + 48) ∷ s)))
]

-- A printed number is all digits.
print_onto-digits :
    (fuel n : ℕ) (s : Text)
    → any (λ c. not (is_digit c)) s ≡ false
    → any (λ c. not (is_digit c)) (print_onto fuel n s) ≡ false
unfolding print_onto
print_onto-digits zero n s h = h
print_onto-digits (suc fuel) n s h =
    ground (arith, print_onto-digits fuel (n / 10) ((n % 10 + 48) ∷ s))

pub print_number-digits : (n : ℕ) → any (λ c. not (is_digit c)) (print_number n) ≡ false
unfolding print_number
print_number-digits n = print_onto-digits (suc n) n [] refl

print_onto-filled : (fuel n c : ℕ) (s : Text) → is_empty (print_onto fuel n (c ∷ s)) ≡ false
unfolding print_onto
print_onto-filled zero n c s = refl
print_onto-filled (suc fuel) n c s =
    ground (arith, print_onto-filled fuel (n / 10) (n % 10 + 48) (c ∷ s))

parse_number-filled : (s : Text) → is_empty s ≡ false → parse_number s ≡ parse_onto 0 s
unfolding parse_number
parse_number-filled [] h = cc
parse_number-filled (c ∷ s) h = refl

pub print_number-filled : (n : ℕ) → is_empty (print_number n) ≡ false
unfolding print_number
print_number-filled n = ground (arith, print_onto-filled n (n / 10) (n % 10 + 48) [])

-- Reading a printed number gives it back.
pub parse_number-print_number : (n : ℕ) → parse_number (print_number n) ≡ some n
unfolding print_number parse_onto
parse_number-print_number n =
    parse_number-filled (print_onto (suc n) n []) (print_number-filled n)
    ∙ parse-print_onto (suc n) n [] (omega arith)
