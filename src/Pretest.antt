-- ===== src/Pretest.antt =====
-- src/utils/colod_utils.cpp, the search for the daemon by `pidof`. The process that popen starts is a
-- parameter: the characters that it prints for the name of a program.
pub mod Found
use Prim.Native.Nat.{◌*◌, ◌^◌}
use colo_manage_tools.Prelude.{
  ℕ, zero, suc, ◌+◌, ◌-◌, ◌%◌, ℤ, pos, negsuc, minus_one, String, ◌<>◌, Bool, true, false, ◌&&◌,
  ◌||◌, List, [], ◌∷◌, ltb, not, if◌then◌else◌,
}
use colo_manage_tools.Prelude.Decimal.{to_string}
use colo_manage_tools.Prelude.Decimal.Digits.{is_digit}

abbrev pub is_code : ℕ → ℕ → Bool
is_code a b = not (ltb a b) && not (ltb b a)

-- isspace
abbrev pub is_space : ℕ → Bool
is_space c = is_code c 32 || (not (ltb c 9) && ltb c 14)

-- fgets(line, n + 1, f): at most n characters, up to the end of the line.
unfoldable pub first_line : ℕ → List ℕ → List ℕ
first_line zero cs = []
first_line (suc n) [] = []
first_line (suc n) (c ∷ cs) =
    let rest = first_line n cs in if is_code c 10 then c ∷ [] else c ∷ rest

-- The digits of strtoul, in front of which `n` was read.
unfoldable pub digits_value : List ℕ → ℕ → ℕ
digits_value [] n = n
digits_value (c ∷ cs) n =
    let rest = digits_value cs (n * 10 + (c - 48)) in if is_digit c then rest else n

unfoldable pub skip_space : List ℕ → List ℕ
skip_space [] = []
skip_space (c ∷ cs) = let rest = skip_space cs in if is_space c then rest else c ∷ cs

-- ULONG_MAX takes the place of a number that is larger.
abbrev saturated : ℕ → ℕ
saturated n = if ltb n (2 ^ 64) then n else 2 ^ 64 - 1

-- The sign of strtoul; after `-` the value is negated, modulo 2 ^ 64, unless it was too large.
unfoldable pub signed_value : List ℕ → ℕ
unfolding digits_value
signed_value [] = 0
signed_value (c ∷ cs) =
    if is_code c 45
    then (let n = digits_value cs 0 in if ltb n (2 ^ 64) then (2 ^ 64 - n) % 2 ^ 64 else 2 ^ 64 - 1)
    else if is_code c 43
    then saturated (digits_value cs 0)
    else saturated (digits_value (c ∷ cs) 0)

-- strtoul(line, NULL, 10)
unfoldable pub strtoul : List ℕ → ℕ
unfolding signed_value skip_space
strtoul line = signed_value (skip_space line)

-- The conversion of an unsigned long to pid_t, an int.
unfoldable pub to_pid : ℕ → ℤ
to_pid n = let m = n % 2 ^ 32 in if ltb m (2 ^ 31) then pos m else negsuc (2 ^ 32 - 1 - m)

-- Of the output of "pidof" with the name; a process that is not there prints nothing.
unfoldable pub get_pid_by_name : (String → List ℕ) → String → ℤ
unfolding first_line strtoul to_pid
get_pid_by_name pidof process_name = to_pid (strtoul (first_line 49 (pidof process_name)))

-- `pid == 0`
abbrev pub is_zero_pid : ℤ → Bool
is_zero_pid (pos zero) = true
is_zero_pid _ = false

-- The value returned, and the line printed.
unfoldable pub colod_pretest : (String → List ℕ) → ℤ × String
unfolding get_pid_by_name
colod_pretest pidof =
    let pid = get_pid_by_name pidof "colod" in
    if is_zero_pid pid
    then (minus_one, "please start colod.")
    else (pos 0, "colod is running with pid : " <> to_string pid)

unfoldable pub colod_test_exist : (String → List ℕ) → ℤ × String
unfolding get_pid_by_name
colod_test_exist pidof =
    let pid = get_pid_by_name pidof "colod" in
    if is_zero_pid pid
    then (pos 0, "start colod.")
    else (minus_one, "colod is already running with pid : " <> to_string pid)
