-- ===== src/Mig/Primitives/Dates.antt =====
-- The calendar behind `MigDate::parse` and `is_calendar_date` of
-- crates/einvoice-mig/src/primitives.rs.
use tw_einvoice_rs.Base.{
  ℕ, ◌+◌, ◌*◌, ◌-◌, ◌/◌, ◌%◌, ◌≤◌, ◌<◌, ◌≡◌, ◌↔◌, true, ◌&&◌, ◌||◌, ◌==◌, not, all, le→leb, leb→le,
  ok_of-ensure, &&-eq-true, ensure, ◌>>◌, if◌then◌else◌, some, [], ◌∷◌, Str, All, is_ascii_digit,
  length, ok, arith,
}
use tw_einvoice_rs.Mig.Primitives.{
  within, invalid_date, parse_two, max_day, is_leap_year, is_calendar_date, parse_date, year_of,
}

-- The text YYYYMMDD of a date.
abbrev pub digit : ℕ → ℕ
digit n = b'0' + n % 10

abbrev pub print_date : ℕ → ℕ → ℕ → Str
print_date y m d =
    digit (y / 1000)
    ∷ digit (y / 100)
    ∷ digit (y / 10)
    ∷ digit y
    ∷ digit (m / 10)
    ∷ digit m
    ∷ digit (d / 10)
    ∷ digit d
    ∷ []

-- The length of a month as a formula: the months alternate, from August on the other way.
abbrev pub month_length : ℕ → ℕ → ℕ
month_length y m =
    if m == 2
    then (if y % 4 == 0 && (not (y % 100 == 0) || y % 400 == 0) then 29 else 28)
    else 30 + (m + m / 8) % 2

-- The text of a day of the Gregorian calendar.
abbrev pub IsDay : Str → Type 0
IsDay s =
    (y : ℕ) × (m : ℕ) × (d : ℕ) × (y < 10000)
    × (1 ≤ m)
    × (m ≤ 12)
    × (1 ≤ d)
    × (d ≤ month_length y m)
    × (s ≡ print_date y m d)

max_day-month_length : (y m : ℕ) → 1 ≤ m → m ≤ 12 → max_day y m ≡ some (month_length y m)
unfolding max_day is_leap_year
max_day-month_length y m l u = ground arith

parse_two_print : (d : ℕ) → d < 100 → (digit (d / 10) - b'0') * 10 + (digit d - b'0') ≡ d
parse_two_print d h = omega arith

year_print : (y m d : ℕ) → y < 10000 → year_of (print_date y m d) ≡ y
year_print y m d h = omega arith

is_ascii_digit-digit : (n : ℕ) → is_ascii_digit (digit n) ≡ true
is_ascii_digit-digit n = let h : n % 10 < 10 = omega arith in ground arith

all_print :
    (y m d : ℕ) → (length (print_date y m d) == 8 && all is_ascii_digit (print_date y m d)) ≡ true
all_print y m d = rw (
  is_ascii_digit-digit (y / 1000),
  is_ascii_digit-digit (y / 100),
  is_ascii_digit-digit (y / 10),
  is_ascii_digit-digit y,
  is_ascii_digit-digit (m / 10),
  is_ascii_digit-digit m,
  is_ascii_digit-digit (d / 10),
  is_ascii_digit-digit d,
)

month_length-le : (y m : ℕ) → month_length y m ≤ 31
month_length-le y m = ground arith

ranges :
    (y m d : ℕ)
    → 1 ≤ m
    → m ≤ 12
    → 1 ≤ d
    → d ≤ month_length y m
    → (within 1 12 m && within 1 31 d) ≡ true
ranges y m d m1 m2 d1 d2 = ground (arith, month_length-le y m)

date_of_day :
    (y m d : ℕ)
    → y < 10000
    → 1 ≤ m
    → m ≤ 12
    → 1 ≤ d
    → d ≤ month_length y m
    → (parse_date (print_date y m d) ≡ ok (record { text = print_date y m d }))
      × (is_calendar_date (record { text = print_date y m d }) ≡ true)
unfolding parse_date is_calendar_date
date_of_day y m d hy m1 m2 d1 d2 =
    let month = parse_two_print m (omega arith) in
    let day = parse_two_print d (omega (arith, month_length-le y m)) in
    let year = year_print y m d hy in
    let longest = max_day-month_length y m m1 m2 in
    (
      rw (all_print y m d, month, day, ranges y m d m1 m2 d1 d2),
      rw (year, month, day, longest) (le→leb d (month_length y m) d2),
    )

-- The bytes of a text of eight digits.
abbrev HasDigits : Str → Type 0
HasDigits s =
    (y : ℕ) × (m : ℕ) × (d : ℕ) × (y < 10000) × (m < 100) × (d < 100) × (s ≡ print_date y m d)

digit_range : (c : ℕ) → is_ascii_digit c ≡ true → (48 ≤ c) × (c ≤ 57)
digit_range c h = ground arith

-- The digits of a number of four, and of one of two.
digits_four :
    (a b c d : ℕ)
    → (48 ≤ a) × (a ≤ 57)
    → (48 ≤ b) × (b ≤ 57)
    → (48 ≤ c) × (c ≤ 57)
    → (48 ≤ d) × (d ≤ 57)
    → let y = (a - 48) * 1000 + (b - 48) * 100 + (c - 48) * 10 + (d - 48) in
      (digit (y / 1000) ≡ a)
      × (digit (y / 100) ≡ b)
      × (digit (y / 10) ≡ c)
      × (digit y ≡ d)
      × (y < 10000)
digits_four a b c d ha hb hc hd = omega arith

digits_two :
    (a b : ℕ)
    → (48 ≤ a) × (a ≤ 57)
    → (48 ≤ b) × (b ≤ 57)
    → let y = (a - 48) * 10 + (b - 48) in (digit (y / 10) ≡ a) × (digit y ≡ b) × (y < 100)
digits_two a b ha hb = omega arith

All-digits : (s : Str) → all is_ascii_digit s ≡ true → All (λ x. (48 ≤ x) × (x ≤ 57)) s
All-digits [] h = tt
All-digits (c ∷ s) h = ground (arith, digit_range c, All-digits s)

ranges_of : (m d : ℕ) → (within 1 12 m && within 1 31 d) ≡ true → (1 ≤ m) × (m ≤ 12) × (1 ≤ d)
ranges_of m d h = ground arith

-- What the two checks of a text of eight bytes say.
IsDay-of_bytes :
    (a b c d e f g h : ℕ)
    → let s : Str = a ∷ b ∷ c ∷ d ∷ e ∷ f ∷ g ∷ h ∷ [] in
      All (λ x. (48 ≤ x) × (x ≤ 57)) s
      → (within 1 12 (parse_two s 4) && within 1 31 (parse_two s 6)) ≡ true
      → is_calendar_date (record { text = s }) ≡ true
      → IsDay s
unfolding is_calendar_date
IsDay-of_bytes a b c d e f g h k r q =
    let s : Str = a ∷ b ∷ c ∷ d ∷ e ∷ f ∷ g ∷ h ∷ [] in
    let year = digits_four a b c d k.0 k.1.0 k.1.1.0 k.1.1.1.0 in
    let ef = k.1.1.1.1 in
    let month = digits_two e f ef.0 ef.1.0 in
    let day = digits_two g h ef.1.1.0 ef.1.1.1.0 in
    let bounds = ranges_of (parse_two s 4) (parse_two s 6) r in
    let longest = max_day-month_length (year_of s) (parse_two s 4) bounds.0 bounds.1 in
    let last =
      leb→le (parse_two s 6) (month_length (year_of s) (parse_two s 4)) (rw longest at q) in
    let text : s ≡ print_date (year_of s) (parse_two s 4) (parse_two s 6) =
      rw (year.0, year.1, year.2, year.3, month.0, month.1, day.0, day.1) in
    (year_of s, parse_two s 4, parse_two s 6, year.4, bounds.0, bounds.1, bounds.2, last, text)

eight_digits :
    (s : Str)
    → (length s == 8) ≡ true
    → all is_ascii_digit s ≡ true
    → (within 1 12 (parse_two s 4) && within 1 31 (parse_two s 6)) ≡ true
    → is_calendar_date (record { text = s }) ≡ true
    → IsDay s
eight_digits (a ∷ b ∷ c ∷ d ∷ e ∷ f ∷ g ∷ h ∷ []) l k r q =
    IsDay-of_bytes a b c d e f g h (All-digits (a ∷ b ∷ c ∷ d ∷ e ∷ f ∷ g ∷ h ∷ []) k) r q
eight_digits (a ∷ b ∷ c ∷ d ∷ e ∷ f ∷ g ∷ h ∷ i ∷ s) l k r q = ground arith
eight_digits s l k r q = cc

IsDay-of_date :
    (s : Str)
    → parse_date s ≡ ok (record { text = s })
    → is_calendar_date (record { text = s }) ≡ true
    → IsDay s
unfolding parse_date
IsDay-of_date s h c =
    let a =
      ok_of-ensure (length s == 8 && all is_ascii_digit s) invalid_date
        (ensure (within 1 12 (parse_two s 4) && within 1 31 (parse_two s 6)) invalid_date
          >> ok (record { text = s }))
        h in
    let b =
      ok_of-ensure (within 1 12 (parse_two s 4) && within 1 31 (parse_two s 6)) invalid_date
        (ok (record { text = s })) a.1 in
    let d = &&-eq-true (length s == 8) (all is_ascii_digit s) a.0 in eight_digits s d.0 d.1 b.0 c

-- A text is accepted as a date and is found on the calendar exactly if it is YYYYMMDD for a day of
-- the Gregorian calendar in the years 0 to 9999.
pub parse_date_iff :
    (s : Str)
    → ((parse_date s ≡ ok (record { text = s })) × (is_calendar_date (record { text = s }) ≡ true))
      ↔ IsDay s
parse_date_iff s =
    (λ h. IsDay-of_date s h.0 h.1, λ h. rw h.8 (date_of_day h.0 h.1 h.2 h.3 h.4 h.5 h.6 h.7))
