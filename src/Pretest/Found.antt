-- ===== src/Pretest/Found.antt =====
-- The search for the daemon finds the pid that `pidof` prints.
use Prim.Native.Nat.{◌*◌, ◌^◌}
use colo_manage_tools.Prelude.{
  ℕ, zero, suc, ◌+◌, ◌-◌, ◌/◌, ◌%◌, ◌≤◌, ◌<◌, pos, minus_one, String, ◌<>◌, false, List, [], ◌∷◌,
  ◌++◌, ◌≡◌, ◌∙◌, refl, ap, arith, ltb, length, Bool-cases, inl, inr,
}
use colo_manage_tools.Prelude.Decimal.{decimal, to_string}
use colo_manage_tools.Prelude.Decimal.Digits.{
  codes, digits, digits_loop, codes-decimal, is_digit, AreDigits, digits-AreDigits, digits-length,
  digits-nonempty,
}
use colo_manage_tools.Pretest.{
  is_code, first_line, digits_value, skip_space, signed_value, strtoul, to_pid, get_pid_by_name,
  is_zero_pid, colod_pretest, colod_test_exist,
}

-- What follows the number is no further digit.
abbrev pub IsEnd : List ℕ → Type 0
IsEnd [] = Unit
IsEnd (c ∷ cs) = is_digit c ≡ false

digits_value-append :
    (ds rest : List ℕ) (n : ℕ)
    → AreDigits ds
    → IsEnd rest
    → digits_value (ds ++ rest) n ≡ digits_value ds n
unfolding digits_value
digits_value-append [] [] n h e = refl
digits_value-append [] (c ∷ cs) n h e = rw e refl
digits_value-append (d ∷ ds) rest n h e =
    rw h.0 (digits_value-append ds rest (n * 10 + (d - 48)) h.1 e)

-- A line that begins with digits still does where it is cut behind them.
first_line-digits :
    (ds rest : List ℕ) (k : ℕ)
    → AreDigits ds
    → length ds ≤ k
    → IsEnd rest
    → (rest' : List ℕ) × IsEnd rest' × (first_line k (ds ++ rest) ≡ ds ++ rest')
unfolding first_line
first_line-digits [] rest zero h l e = ([], tt, refl)
first_line-digits [] [] (suc k) h l e = ([], tt, refl)
first_line-digits [] (c ∷ cs) (suc k) h l e = elim (Bool-cases (is_code c 10)) [
  | inl same ↦ (c ∷ [], e, rw same refl)
  | inr other ↦ (c ∷ first_line k cs, e, rw other refl)
]
first_line-digits (d ∷ ds) rest zero h l e = absurd (omega arith)
first_line-digits (d ∷ ds) rest (suc k) h l e =
    let other : is_code d 10 ≡ false = ground (arith, h) in
    let (rest', e', cut) = first_line-digits ds rest k h.1 (omega arith) e in
    (rest', e', rw other (ap (λ cs. d ∷ cs) cut))

digits_loop-value :
    (fuel n : ℕ) (acc : List ℕ)
    → n < fuel
    → digits_value (digits_loop fuel n acc) 0 ≡ digits_value acc n
unfolding digits_value digits_loop
digits_loop-value zero n acc h = absurd (omega arith)
digits_loop-value (suc fuel) n acc h =
    let step : (m : ℕ) → digits_value ((48 + n % 10) ∷ acc) m ≡ digits_value acc (m * 10 + n % 10) =
      λ m. ground arith in
    elim (Bool-cases (ltb n 10)) [
      | inl small ↦
          let same : 0 * 10 + n % 10 ≡ n = ground (arith, small) in
          rw small (step 0 ∙ ap (digits_value acc) same)
      | inr large ↦
          let same : n / 10 * 10 + n % 10 ≡ n = omega arith in
          rw large (
            digits_loop-value fuel (n / 10) _ (ground (arith, large))
            ∙ step (n / 10)
            ∙ ap (digits_value acc) same)
    ]

digits_value-digits : (n : ℕ) → digits_value (digits n) 0 ≡ n
unfolding digits digits_value
digits_value-digits n = digits_loop-value (suc n) n [] (omega arith)

strtoul-digits :
    (ds rest : List ℕ)
    → AreDigits ds
    → 0 < length ds
    → IsEnd rest
    → digits_value ds 0 < 2 ^ 64
    → strtoul (ds ++ rest) ≡ digits_value ds 0
unfolding strtoul skip_space signed_value
strtoul-digits [] rest h l e v = absurd (omega arith)
strtoul-digits (d ∷ ds) rest h l e v =
    let value = digits_value-append (d ∷ ds) rest 0 h e in ground (arith, value, h.0, v)

to_pid-small : (n : ℕ) → n < 2 ^ 31 → to_pid n ≡ pos n
unfolding to_pid
to_pid-small n h = ground arith

nothing_printed :
    (pidof : String → List ℕ) (name : String) → pidof name ≡ [] → get_pid_by_name pidof name ≡ pos 0
unfolding get_pid_by_name first_line strtoul skip_space signed_value to_pid
nothing_printed pidof name h = rw h refl

-- The pid of the daemon is found in what `pidof` prints: the decimal text of a number that fits an
-- `int`, followed by anything but a digit, such as the end of the line or the pid of another process.
pub get_pid_by_name-decimal :
    (pidof : String → List ℕ) (name : String) (pid : ℕ) (rest : List ℕ)
    → pidof name ≡ codes (decimal pid) ++ rest
    → pid < 2 ^ 31
    → IsEnd rest
    → get_pid_by_name pidof name ≡ pos pid
unfolding get_pid_by_name
get_pid_by_name-decimal pidof name pid rest printed small e =
    let (rest', e', cut) =
      first_line-digits (digits pid) rest 49 (digits-AreDigits pid)
        (omega (arith, digits-length 9 pid (omega arith))) e in
    let read : strtoul (first_line 49 (pidof name)) ≡ pid =
      rw (printed, codes-decimal pid, cut)
        (strtoul-digits (digits pid) rest' (digits-AreDigits pid) (digits-nonempty pid) e'
            (rw (digits_value-digits pid) (omega arith))
          ∙ digits_value-digits pid) in
    rw read (to_pid-small pid small)

-- Where `pidof` prints the decimal text of the pid of a daemon, not 0 and within an `int`, with
-- anything but a digit behind it, `colod_pretest` answers the code with which the tool goes on, and
-- `colod_test_exist`, which the program calls nowhere, the code of an error; both lines name this pid.
pub colod_pretest-found :
    (pidof : String → List ℕ) (pid : ℕ) (rest : List ℕ)
    → pidof "colod" ≡ codes (decimal pid) ++ rest
    → 0 < pid
    → pid < 2 ^ 31
    → IsEnd rest
    → (colod_pretest pidof ≡ (pos 0, "colod is running with pid : " <> decimal pid))
      × (colod_test_exist pidof
          ≡ (minus_one, "colod is already running with pid : " <> decimal pid))
unfolding colod_pretest colod_test_exist to_string
colod_pretest-found pidof pid rest printed some_pid small e =
    let found : get_pid_by_name pidof "colod" ≡ pos pid =
      get_pid_by_name-decimal pidof "colod" pid rest printed small e in
    let running : is_zero_pid (pos pid) ≡ false = ground (arith, some_pid) in
    (rw (found, running) refl, rw (found, running) refl)

-- Where `pidof` prints nothing `colod_pretest` answers the code of an error, and `colod_test_exist` does not.
pub colod_pretest-absent :
    (pidof : String → List ℕ)
    → pidof "colod" ≡ []
    → (colod_pretest pidof ≡ (minus_one, "please start colod."))
      × (colod_test_exist pidof ≡ (pos 0, "start colod."))
unfolding colod_pretest colod_test_exist
colod_pretest-absent pidof nothing =
    let found = nothing_printed pidof "colod" nothing in (rw found refl, rw found refl)
