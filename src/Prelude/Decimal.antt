-- ===== src/Prelude/Decimal.antt =====
-- `std::to_string` on the integers of the code.
pub mod Digits
use colo_manage_tools.Prelude.{
  ℕ, zero, suc, ◌/◌, ◌%◌, ℤ, pos, negsuc, String, ◌<>◌, List, [], ◌∷◌, ltb, ◌≡◌, refl,
  if◌then◌else◌,
}

abbrev digit_texts : List String
digit_texts = "0" ∷ "1" ∷ "2" ∷ "3" ∷ "4" ∷ "5" ∷ "6" ∷ "7" ∷ "8" ∷ "9" ∷ []

digit_text : ℕ → List String → String
digit_text d [] = ""
digit_text zero (t ∷ ts) = t
digit_text (suc d) (t ∷ ts) = digit_text d ts

-- The digits of `n` in front of `acc`; a number has at most `n + 1` digits.
decimal_loop : ℕ → ℕ → String → String
unfolding digit_text
decimal_loop zero n acc = acc
decimal_loop (suc fuel) n acc =
    let acc' = digit_text (n % 10) digit_texts <> acc in
    let rest = decimal_loop fuel (n / 10) acc' in if ltb n 10 then acc' else rest

unfoldable pub decimal : ℕ → String
unfolding decimal_loop
decimal n = decimal_loop (suc n) n ""

unfoldable pub to_string : ℤ → String
unfolding decimal
to_string (pos n) = decimal n
to_string (negsuc n) = "-" <> decimal (suc n)

decimal_307200 : decimal 307200 ≡ "307200"
unfolding decimal
decimal_307200 = refl

to_string_minus_one : to_string (negsuc 0) ≡ "-1"
unfolding to_string
to_string_minus_one = refl
