-- ===== src/Base/Decimal.antt =====
-- Decimal numbers: `Display` and `parse` of unsigned and of `i32` numbers.
use Prim.Native.Nat.{ℕ, zero, suc, ◌+◌, ◌-◌, ◌*◌, ◌/◌, ◌%◌, ◌^◌, ◌<◌, ◌≤◌}
use mathlib.Core.Path.{◌≡◌, refl, ap, ◌∙◌}
use mathlib.Core.Bool.{false}
use mathlib.Core.Option.{Option, none, some}
use mathlib.Core.List.{[], ◌∷◌, ◌++◌}
use native.Mathlib.Omega.{arith}
use mathlib.Core.Logic.{inl, inr}
use tw_einvoice_rs.Base.Tests.{Bool-cases, ◌==◌, ltb, if◌then◌else◌}
use tw_einvoice_rs.Base.Lists.{All, is_empty}
use tw_einvoice_rs.Base.Text.{Str, Lacks, is_ascii_digit}
use tw_einvoice_rs.Base.Int.{ℤ, pos, negsuc, IsI32, i32_bound}

-- The digits of a number below 10 ^ k, for `k` at least 1.
abbrev pub digits : ℕ → ℕ → Str
digits zero n = []
digits (suc k) n =
    let rest = digits k (n / 10) in if ltb n 10 then (48 + n) ∷ [] else rest ++ (48 + n % 10) ∷ []

-- The value of digits behind `value`; none on another character.
abbrev pub read_digits : ℕ → Str → Option ℕ
read_digits value [] = some value
read_digits value (c ∷ s) =
    let rest = read_digits (value * 10 + (c - 48)) s in if is_ascii_digit c then rest else none

-- At least one digit.
abbrev pub read_number : Str → Option ℕ
read_number [] = none
read_number (c ∷ s) = read_digits 0 (c ∷ s)

abbrev i32_of_pos : Option ℕ → Option ℤ
i32_of_pos none = none
i32_of_pos (some n) = if ltb n i32_bound then some (pos n) else none

abbrev i32_of_neg : Option ℕ → Option ℤ
i32_of_neg none = none
i32_of_neg (some zero) = some (pos 0)
i32_of_neg (some (suc n)) = if ltb n i32_bound then some (negsuc n) else none

-- `str::parse::<i32>`: an optional sign, digits, and a value in range.
abbrev pub parse_i32 : Str → Option ℤ
parse_i32 [] = none
parse_i32 (c ∷ s) =
    if c == b'-'
    then i32_of_neg (read_number s)
    else if c == b'+'
    then i32_of_pos (read_number s)
    else i32_of_pos (read_number (c ∷ s))

-- `Display` of an `i32`, which has ten digits at most.
abbrev pub print_i32 : ℤ → Str
print_i32 (pos n) = digits 10 n
print_i32 (negsuc n) = b'-' ∷ digits 10 (suc n)

abbrev AreDigits : Str → Type 0
AreDigits = All (λ c. (48 ≤ c) × (c ≤ 57))

append-AreDigits : (s t : Str) → AreDigits s → AreDigits t → AreDigits (s ++ t)
append-AreDigits [] t a b = b
append-AreDigits (c ∷ s) t a b = (a.0, append-AreDigits s t a.1 b)

digits-AreDigits : (k n : ℕ) → AreDigits (digits k n)
digits-AreDigits zero n = tt
digits-AreDigits (suc k) n = ground (
  arith,
  append-AreDigits (digits k (n / 10)) ((48 + n % 10) ∷ []) (digits-AreDigits k (n / 10))
      (omega arith),
)

read_digits_snoc :
    (v c : ℕ) (s : Str) {n : ℕ}
    → 48 ≤ c
    → c ≤ 57
    → read_digits v s ≡ some n
    → read_digits v (s ++ c ∷ []) ≡ some (n * 10 + (c - 48))
read_digits_snoc v c [] l u h = ground arith
read_digits_snoc v c (d ∷ s) {n} l u h =
    ground (arith, read_digits_snoc (v * 10 + (d - 48)) c s {n = n} l u)

pub read_digits-digits : (k n : ℕ) → n < 10 ^ k → read_digits 0 (digits k n) ≡ some n
read_digits-digits zero n h = ground arith
read_digits-digits (suc k) n h =
    let small : n / 10 < 10 ^ k = omega arith in
    let snoc =
      read_digits_snoc 0 (48 + n % 10) (digits k (n / 10)) (omega arith) (omega arith)
        (read_digits-digits k (n / 10) small) in
    elim (Bool-cases (ltb n 10)) [
      | inl lt ↦ rw lt (ground arith)
      | inr ge ↦ rw ge (snoc ∙ ap some (omega arith))
    ]

is_empty-snoc : (s : Str) (c : ℕ) → is_empty (s ++ c ∷ []) ≡ false
is_empty-snoc [] c = refl
is_empty-snoc (d ∷ s) c = refl

is_empty-digits : (k n : ℕ) → is_empty (digits (suc k) n) ≡ false
is_empty-digits k n = ground (arith, is_empty-snoc (digits k (n / 10)) (48 + n % 10))

read_number_of : (s : Str) → is_empty s ≡ false → read_number s ≡ read_digits 0 s
read_number_of [] h = cc
read_number_of (c ∷ s) h = refl

first_digit : (s : Str) → AreDigits s → parse_i32 s ≡ i32_of_pos (read_number s)
first_digit [] a = refl
first_digit (c ∷ s) a = ground arith

read_number-digits : (k n : ℕ) → n < 10 ^ suc k → read_number (digits (suc k) n) ≡ some n
read_number-digits k n h =
    read_number_of (digits (suc k) n) (is_empty-digits k n) ∙ read_digits-digits (suc k) n h

-- An `i32` is read back from its decimal text.
pub parse_i32-print_i32 : (z : ℤ) → IsI32 z → parse_i32 (print_i32 z) ≡ some z
parse_i32-print_i32 (pos n) h =
    first_digit (digits 10 n) (digits-AreDigits 10 n)
    ∙ ap i32_of_pos (read_number-digits 9 n (omega arith))
    ∙ ground arith
parse_i32-print_i32 (negsuc n) h =
    ap i32_of_neg (read_number-digits 9 (suc n) (omega arith)) ∙ ground arith

digits-Lacks : (c : ℕ) (s : Str) → 57 < c → AreDigits s → Lacks c s
digits-Lacks c [] h a = tt
digits-Lacks c (d ∷ s) h a = (omega arith, digits-Lacks c s h a.1)

pub print_i32-Lacks : (c : ℕ) (z : ℤ) → 57 < c → Lacks c (print_i32 z)
print_i32-Lacks c (pos n) h = digits-Lacks c (digits 10 n) h (digits-AreDigits 10 n)
print_i32-Lacks c (negsuc n) h =
    (omega arith, digits-Lacks c (digits 10 (suc n)) h (digits-AreDigits 10 (suc n)))
