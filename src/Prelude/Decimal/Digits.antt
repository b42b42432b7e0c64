-- ===== src/Prelude/Decimal/Digits.antt =====
-- The characters of a decimal text.
use Prim.Native.Nat.{◌^◌}
use Prim.Native.Char.{code}
use text.Mathlib.TextLemmas
use colo_manage_tools.Prelude.{
  ℕ, zero, suc, ◌+◌, ◌/◌, ◌%◌, ◌≤◌, ◌<◌, String, ◌<>◌, true, not, ◌&&◌, Bool, List, [], ◌∷◌, ◌++◌,
  ◌≡◌, ◌∙◌, refl, ap, arith, ltb, length, All, if◌then◌else◌, Bool-cases, inl, inr,
}
use colo_manage_tools.Prelude.Decimal.{digit_text, digit_texts, decimal_loop, decimal}

abbrev pub codes : String → List ℕ
codes String.[] = []
codes (String.◌∷◌ c s) = code c ∷ codes s

codes-append : (s t : String) → codes (s <> t) ≡ codes s ++ codes t
codes-append String.[] t = ap codes (TextLemmas.nil-append t)
codes-append (String.◌∷◌ c s) t =
    ap codes (TextLemmas.cons-append c s t) ∙ ap (λ cs. code c ∷ cs) (codes-append s t)

abbrev pub is_digit : ℕ → Bool
is_digit c = not (ltb c 48) && ltb c 58

unfoldable pub digits_loop : ℕ → ℕ → List ℕ → List ℕ
digits_loop zero n acc = acc
digits_loop (suc fuel) n acc =
    let acc' = (48 + n % 10) ∷ acc in
    let rest = digits_loop fuel (n / 10) acc' in if ltb n 10 then acc' else rest

-- The decimal digits of a number.
unfoldable pub digits : ℕ → List ℕ
unfolding digits_loop
digits n = digits_loop (suc n) n []

codes-digit_text : (d : ℕ) → d < 10 → codes (digit_text d digit_texts) ≡ (48 + d) ∷ []
unfolding digit_text
codes-digit_text zero h = refl
codes-digit_text (suc zero) h = refl
codes-digit_text (suc (suc zero)) h = refl
codes-digit_text (suc (suc (suc zero))) h = refl
codes-digit_text (suc (suc (suc (suc zero)))) h = refl
codes-digit_text (suc (suc (suc (suc (suc zero))))) h = refl
codes-digit_text (suc (suc (suc (suc (suc (suc zero)))))) h = refl
codes-digit_text (suc (suc (suc (suc (suc (suc (suc zero))))))) h = refl
codes-digit_text (suc (suc (suc (suc (suc (suc (suc (suc zero)))))))) h = refl
codes-digit_text (suc (suc (suc (suc (suc (suc (suc (suc (suc zero))))))))) h = refl
codes-digit_text (suc (suc (suc (suc (suc (suc (suc (suc (suc (suc d)))))))))) h =
    absurd (omega arith)

codes-decimal_loop :
    (fuel n : ℕ) (acc : String) → codes (decimal_loop fuel n acc) ≡ digits_loop fuel n (codes acc)
unfolding decimal_loop digits_loop
codes-decimal_loop zero n acc = refl
codes-decimal_loop (suc fuel) n acc =
    let t = digit_text (n % 10) digit_texts in
    let step : codes (t <> acc) ≡ (48 + n % 10) ∷ codes acc =
      codes-append t acc ∙ ap (λ cs. cs ++ codes acc) (codes-digit_text (n % 10) (omega arith)) in
    elim (Bool-cases (ltb n 10)) [
      | inl small ↦ rw small step
      | inr large ↦ rw large (codes-decimal_loop fuel (n / 10) (t <> acc) ∙ rw step refl)
    ]

pub codes-decimal : (n : ℕ) → codes (decimal n) ≡ digits n
unfolding decimal digits
codes-decimal n = codes-decimal_loop (suc n) n ""

abbrev pub AreDigits : List ℕ → Type 0
AreDigits cs = All (λ c. is_digit c ≡ true) cs

digits_loop-AreDigits :
    (fuel n : ℕ) (acc : List ℕ) → AreDigits acc → AreDigits (digits_loop fuel n acc)
unfolding digits_loop
digits_loop-AreDigits zero n acc h = h
digits_loop-AreDigits (suc fuel) n acc h =
    let acc' = (48 + n % 10) ∷ acc in
    let h' : AreDigits acc' = (ground arith, h) in
    elim (Bool-cases (ltb n 10)) [
      | inl small ↦ rw small h'
      | inr large ↦ rw large (digits_loop-AreDigits fuel (n / 10) acc' h')
    ]

pub digits-AreDigits : (n : ℕ) → AreDigits (digits n)
unfolding digits
digits-AreDigits n = digits_loop-AreDigits (suc n) n [] tt

-- A number below 10 ^ (k + 1) has at most k + 1 digits.
digits_loop-length :
    (k fuel n : ℕ) (acc : List ℕ)
    → n < 10 ^ suc k
    → length (digits_loop fuel n acc) ≤ suc k + length acc
unfolding digits_loop
digits_loop-length k zero n acc h = omega arith
digits_loop-length zero (suc fuel) n acc h = ground arith
digits_loop-length (suc k) (suc fuel) n acc h =
    ground (arith, digits_loop-length k fuel (n / 10) ((48 + n % 10) ∷ acc))

pub digits-length : (k n : ℕ) → n < 10 ^ suc k → length (digits n) ≤ suc k
unfolding digits
digits-length k n h = omega (arith, digits_loop-length k (suc n) n [] h)

digits_loop-nonempty :
    (fuel n : ℕ) (acc : List ℕ) → 0 < length acc → 0 < length (digits_loop fuel n acc)
unfolding digits_loop
digits_loop-nonempty zero n acc h = h
digits_loop-nonempty (suc fuel) n acc h =
    ground (arith, digits_loop-nonempty fuel (n / 10) ((48 + n % 10) ∷ acc))

pub digits-nonempty : (n : ℕ) → 0 < length (digits n)
unfolding digits digits_loop
digits-nonempty n = ground (arith, digits_loop-nonempty n (n / 10) ((48 + n % 10) ∷ []))
