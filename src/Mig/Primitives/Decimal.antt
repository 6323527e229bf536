-- ===== src/Mig/Primitives/Decimal.antt =====
-- The decimal numbers that `MigDecimal::parse` of crates/einvoice-mig/src/primitives.rs accepts.
use tw_einvoice_rs.Base.{
  ℕ, ◌+◌, ◌≤◌, ◌≡◌, ◌≢◌, ◌↔◌, refl, sym, ap, ◌∙◌, inl, inr, Bool, true, false, ◌==◌, Bool-cases,
  Option, none, some, List, [], ◌∷◌, ◌++◌, Str, codes, All, Lacks, is_ascii_digit, length, is_empty,
  all, split, join, ok_of-ensure, starts_with, ◌&&◌, join-split, split-of_Lacks, split-append, ok,
  ensure, not, ◌>>◌, arith,
}
use tw_einvoice_rs.Mig.Primitives.{
  MigDecimal, invalid_decimal, negative_decimal, strip_minus, are_digits, check_parts,
  parse_decimal,
}

-- One digit or more.
abbrev pub AreDigits : Str → Type 0
AreDigits s = (s ≢ []) × All (λ c. (b'0' ≤ c) × (c ≤ b'9')) s

-- The text of a number: a sign, the digits before the point, and the point with its digits.
abbrev pub print_sign : Bool → Str → Str
print_sign true s = b'-' ∷ s
print_sign false s = s

abbrev pub print_unsigned : Str → Option Str → Str
print_unsigned i none = i
print_unsigned i (some d) = i ++ b'.' ∷ d

abbrev pub Fits : Str → Option Str → ℕ → ℕ → Type 0
Fits i none t f = AreDigits i × (length i ≤ t)
Fits i (some d) t f = AreDigits i × AreDigits d × (length i + length d ≤ t) × (length d ≤ f)

pub all_iff : (s : Str) → (all is_ascii_digit s ≡ true) ↔ All (λ c. (b'0' ≤ c) × (c ≤ b'9')) s
all_iff [] = ground arith
all_iff (c ∷ s) = ground (arith, all_iff s)

are_digits_iff : (s : Str) → (are_digits s ≡ true) ↔ AreDigits s
are_digits_iff [] = ground arith
are_digits_iff (c ∷ s) = ground (arith, all_iff (c ∷ s))

Lacks-point : (s : Str) → All (λ c. (b'0' ≤ c) × (c ≤ b'9')) s → Lacks b'.' s
Lacks-point [] a = tt
Lacks-point (c ∷ s) a = (omega arith, Lacks-point s a.1)

abbrev pub parts_of : Str → Option Str → List Str
parts_of i none = i ∷ []
parts_of i (some d) = i ∷ d ∷ []

split-print_unsigned :
    (i : Str) (fr : Option Str) (t f : ℕ)
    → Fits i fr t f
    → split b'.' (print_unsigned i fr) ≡ parts_of i fr
split-print_unsigned i none t f h = split-of_Lacks b'.' i (Lacks-point i h.0.1)
split-print_unsigned i (some d) t f h =
    split-append b'.' i d (Lacks-point i h.0.1)
    ∙ ap (λ ps. i ∷ ps) (split-of_Lacks b'.' d (Lacks-point d h.1.1))

join-parts_of : (i : Str) (fr : Option Str) → join b'.' (parts_of i fr) ≡ print_unsigned i fr
join-parts_of i none = refl
join-parts_of i (some d) = refl

check_parts-parts_of :
    (value i : Str) (fr : Option Str) (t f : ℕ)
    → Fits i fr t f
    → check_parts value (parts_of i fr) t f ≡ ok (record { text = value })
unfolding check_parts
check_parts-parts_of value i none t f h = ground (arith, are_digits_iff i)
check_parts-parts_of value i (some d) t f h = ground (arith, are_digits_iff i, are_digits_iff d)

check_parts_ok :
    (value : Str) (ps : List Str) (t f : ℕ) {d : MigDecimal}
    → check_parts value ps t f ≡ ok d
    → (i : Str) × (fr : Option Str) × (ps ≡ parts_of i fr) × Fits i fr t f
unfolding check_parts
check_parts_ok value [] t f h = cc
check_parts_ok value (i ∷ []) t f h = (i, none, refl, ground (arith, are_digits_iff i))
check_parts_ok value (i ∷ d ∷ []) t f h =
    (i, some d, refl, ground (arith, are_digits_iff i, are_digits_iff d))
check_parts_ok value (i ∷ d ∷ e ∷ ps) t f h = cc

-- The sign is what `strip_minus` removes.
sign_cases :
    (value : Str)
    → (negative : Bool) × (value ≡ print_sign negative (strip_minus value))
      × ((starts_with value (codes "-")) ≡ negative)
sign_cases [] = (false, refl, refl)
sign_cases (c ∷ s) = elim (Bool-cases (c == b'-')) [
  | inl e ↦ (true, ground arith, ground arith)
  | inr e ↦ (false, ground arith, ground arith)
]

-- A text is a decimal number of at most `t` digits, `f` of them after the point.
abbrev pub IsDecimal : Str → ℕ → ℕ → Bool → Type 0
IsDecimal value t f non_negative =
    (negative : Bool) × (i : Str) × (fr : Option Str) × (value
      ≡ print_sign negative (print_unsigned i fr))
    × Fits i fr t f
    × ((non_negative && negative) ≡ false)

strip_of_sign :
    (negative : Bool) (i : Str) (fr : Option Str)
    → AreDigits i
    → strip_minus (print_sign negative (print_unsigned i fr)) ≡ print_unsigned i fr
strip_of_sign true i fr a = refl
strip_of_sign false [] fr a = absurd (a.0 refl)
strip_of_sign false (c ∷ i) none a = ground arith
strip_of_sign false (c ∷ i) (some d) a = ground arith

starts_of_sign :
    (negative : Bool) (i : Str) (fr : Option Str)
    → AreDigits i
    → (starts_with (print_sign negative (print_unsigned i fr)) (codes "-") ≡ negative)
      × (starts_with (print_sign negative (print_unsigned i fr)) (codes "+") ≡ false)
starts_of_sign true i fr a = (refl, refl)
starts_of_sign false [] fr a = absurd (a.0 refl)
starts_of_sign false (c ∷ i) none a = ground arith
starts_of_sign false (c ∷ i) (some d) a = ground arith

is_empty-print : (i : Str) (fr : Option Str) → AreDigits i → is_empty (print_unsigned i fr) ≡ false
is_empty-print [] fr a = absurd (a.0 refl)
is_empty-print (c ∷ i) none a = refl
is_empty-print (c ∷ i) (some d) a = refl

Fits-AreDigits : (i : Str) (fr : Option Str) (t f : ℕ) → Fits i fr t f → AreDigits i
Fits-AreDigits i none t f h = h.0
Fits-AreDigits i (some d) t f h = h.0

pub parse_decimal_of :
    (negative nn : Bool) (i : Str) (fr : Option Str) (t f : ℕ)
    → Fits i fr t f
    → (nn && negative) ≡ false
    → let v = print_sign negative (print_unsigned i fr) in
      parse_decimal v t f nn ≡ ok (record { text = v })
unfolding parse_decimal
parse_decimal_of negative nn i fr t f h n =
    let a = Fits-AreDigits i fr t f h in
    let s = starts_of_sign negative i fr a in
    rw (strip_of_sign negative i fr a) (
      rw (s.0, s.1, is_empty-print i fr a, n, split-print_unsigned i fr t f h)
        (check_parts-parts_of _ i fr t f h))

pub parse_decimal_ok :
    (value : Str) (t f : ℕ) (nn : Bool) {d : MigDecimal}
    → parse_decimal value t f nn ≡ ok d
    → IsDecimal value t f nn
unfolding parse_decimal
parse_decimal_ok value t f nn h =
    let rest = check_parts value (split b'.' (strip_minus value)) t f in
    let a =
      ok_of-ensure (not (is_empty (strip_minus value)) && not (starts_with value (codes "+")))
        invalid_decimal
        (ensure (not (nn && starts_with value (codes "-"))) negative_decimal >> rest) h in
    let b = ok_of-ensure (not (nn && starts_with value (codes "-"))) negative_decimal rest a.1 in
    let p = check_parts_ok value (split b'.' (strip_minus value)) t f b.1 in
    let c = sign_cases value in
    let u : strip_minus value ≡ print_unsigned p.0 p.1 =
      sym (join-split b'.' (strip_minus value)) ∙ ap (join b'.') p.2 ∙ join-parts_of p.0 p.1 in
    (c.0, p.0, p.1, c.1 ∙ ap (print_sign c.0) u, p.3, ground (arith, b.0, c.2))

-- A text is accepted as a decimal exactly if it is a number as XML writes it, an optional minus,
-- digits, and optionally a point and digits, within the given precision, and without the minus
-- where only non-negative numbers are wanted.
pub parse_decimal_iff :
    (value : Str) (t f : ℕ) (nn : Bool)
    → (parse_decimal value t f nn ≡ ok (record { text = value })) ↔ IsDecimal value t f nn
parse_decimal_iff value t f nn =
    (parse_decimal_ok value t f nn, λ h. rw h.3 (parse_decimal_of h.0 nn h.1 h.2 t f h.4 h.5))
