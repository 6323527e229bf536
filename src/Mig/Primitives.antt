-- ===== src/Mig/Primitives.antt =====
-- crates/einvoice-mig/src/primitives.rs: the field values of a MIG document, as checked texts.
-- Its children: Decimal is the grammar of the decimal numbers, Dates the calendar.
use tw_einvoice_rs.Base.{
  ℕ, zero, suc, ◌+◌, ◌*◌, ◌-◌, ◌%◌, Bool, true, false, not, ◌&&◌, ◌||◌, ◌==◌, leb, ltb,
  if◌then◌else◌, Option, none, some, List, [], ◌∷◌, ◌++◌, Str, codes, is_ascii_digit,
  is_ascii_uppercase, length, is_empty, all, take, drop, starts_with, split, digits, Result, ok,
  err, ensure, ◌>>=◌, ◌>>◌,
}
pub mod Decimal
pub mod Dates

pub data PrimitiveError : Type 0 where
  invalid_invoice_number invalid_date invalid_time invalid_decimal : PrimitiveError
  negative_decimal : PrimitiveError
  decimal_precision : ℕ → ℕ → PrimitiveError
  invalid_zero_tax_rate_reason invalid_currency_code : PrimitiveError

pub record InvoiceNumber : Type 0 where
  pub text : Str

pub record MigDate : Type 0 where
  pub text : Str

pub record MigTime : Type 0 where
  pub text : Str

pub record MigDecimal : Type 0 where
  pub text : Str

pub record CurrencyCode : Type 0 where
  pub text : Str

pub record ZeroTaxRateReason : Type 0 where
  pub value : ℕ

unfoldable pub parse_invoice_number : Str → Result InvoiceNumber PrimitiveError
parse_invoice_number value =
    if length value == 10
      && all is_ascii_uppercase (take 2 value)
      && all is_ascii_digit (drop 2 value)
    then ok (record { text = value })
    else err invalid_invoice_number

-- `bytes[index]`; the callers have checked the length.
abbrev pub byte_at : Str → ℕ → ℕ
byte_at [] i = 0
byte_at (c ∷ s) zero = c
byte_at (c ∷ s) (suc i) = byte_at s i

-- `parse_two(&bytes[i..i + 2])`, on digits: the product stays below 256.
abbrev pub parse_two : Str → ℕ → ℕ
parse_two s i = (byte_at s i - b'0') * 10 + (byte_at s (i + 1) - b'0')

-- `(low..=high).contains(&value)`.
abbrev pub within : ℕ → ℕ → ℕ → Bool
within low high value = leb low value && leb value high

unfoldable pub parse_date : Str → Result MigDate PrimitiveError
parse_date value = do
  ensure (length value == 8 && all is_ascii_digit value) invalid_date
  ensure (within 1 12 (parse_two value 4) && within 1 31 (parse_two value 6)) invalid_date
  ok (record { text = value })

unfoldable pub is_leap_year : ℕ → Bool
is_leap_year year = year % 400 == 0 || year % 4 == 0 && not (year % 100 == 0)

-- `match month`; none is `return false`.
unfoldable pub max_day : ℕ → ℕ → Option ℕ
max_day year month =
    if month == 1
      || month == 3
      || month == 5
      || month == 7
      || month == 8
      || month == 10
      || month == 12
    then some 31
    else if month == 4 || month == 6 || month == 9 || month == 11
    then some 30
    else if month == 2
    then some (if is_leap_year year then 29 else 28)
    else none

abbrev pub year_of : Str → ℕ
year_of s =
    (byte_at s 0 - b'0') * 1000
    + (byte_at s 1 - b'0') * 100
    + (byte_at s 2 - b'0') * 10
    + (byte_at s 3 - b'0')

abbrev day_within : ℕ → Option ℕ → Bool
day_within day none = false
day_within day (some m) = leb day m

unfoldable pub is_calendar_date : MigDate → Bool
unfolding max_day is_leap_year
is_calendar_date d = day_within (parse_two d.text 6) (max_day (year_of d.text) (parse_two d.text 4))

unfoldable pub parse_time : Str → Result MigTime PrimitiveError
parse_time value = do
  ensure
      (length value == 8
        && byte_at value 2 == b':'
        && byte_at value 5 == b':'
        && all (λ i. is_ascii_digit (byte_at value i)) (0 ∷ 1 ∷ 3 ∷ 4 ∷ 6 ∷ 7 ∷ []))
      invalid_time
  ensure (leb (parse_two value 0) 23 && leb (parse_two value 3) 59 && leb (parse_two value 6) 59)
      invalid_time
  ok (record { text = value })

-- `value.strip_prefix('-').unwrap_or(&value)`.
abbrev pub strip_minus : Str → Str
strip_minus [] = []
strip_minus (c ∷ s) = if c == b'-' then s else c ∷ s

-- Not empty and digits only.
abbrev pub are_digits : Str → Bool
are_digits s = not (is_empty s) && all is_ascii_digit s

-- What follows the split at the points: one or two parts of digits within the precision.
unfoldable pub check_parts : Str → List Str → ℕ → ℕ → Result MigDecimal PrimitiveError
check_parts value [] t f = err invalid_decimal
check_parts value (i ∷ []) t f = do
  ensure (are_digits i) invalid_decimal
  ensure (leb (length i) t) (decimal_precision t f)
  ok (record { text = value })
check_parts value (i ∷ d ∷ []) t f = do
  ensure (are_digits i && are_digits d) invalid_decimal
  ensure (leb (length i + length d) t && leb (length d) f) (decimal_precision t f)
  ok (record { text = value })
check_parts value (i ∷ d ∷ e ∷ ps) t f = err invalid_decimal

unfoldable pub parse_decimal : Str → ℕ → ℕ → Bool → Result MigDecimal PrimitiveError
parse_decimal value max_total_digits max_fraction_digits non_negative = do
  ensure (not (is_empty (strip_minus value)) && not (starts_with value (codes "+"))) invalid_decimal
  ensure (not (non_negative && starts_with value (codes "-"))) negative_decimal
  check_parts value (split b'.' (strip_minus value)) max_total_digits max_fraction_digits

unfoldable pub is_negative : MigDecimal → Bool
is_negative d = starts_with d.text (codes "-")

unfoldable pub new_zero_tax_rate_reason : ℕ → Result ZeroTaxRateReason PrimitiveError
new_zero_tax_rate_reason value =
    if within 71 79 value then ok (record { value = value }) else err invalid_zero_tax_rate_reason

unfoldable pub parse_currency_code : Str → Result CurrencyCode PrimitiveError
parse_currency_code value =
    if length value == 3 && all is_ascii_uppercase value
    then ok (record { text = value })
    else err invalid_currency_code

-- `Display` of PrimitiveError; a `usize` has twenty digits at most.
unfoldable pub display_error : PrimitiveError → Str
display_error invalid_invoice_number =
    codes "invoice number must be two uppercase letters followed by eight digits"
display_error invalid_date = codes "MIG date must use YYYYMMDD with valid month/day ranges"
display_error invalid_time = codes "MIG time must use canonical HH:MM:SS"
display_error invalid_decimal = codes "value is not a canonical XML decimal"
display_error negative_decimal = codes "decimal value must not be negative"
display_error (decimal_precision t f) =
    codes "decimal exceeds "
    ++ digits 20 t
    ++ codes " total digits or "
    ++ digits 20 f
    ++ codes " fractional digits"
display_error invalid_zero_tax_rate_reason = codes "zero-tax-rate reason must be in 71 through 79"
display_error invalid_currency_code =
    codes "currency code must contain exactly three uppercase ASCII letters"
