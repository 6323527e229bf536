-- ===== src/Mig/F0401/Validity.antt =====
-- What a valid invoice F0401 is, apart from the checks of crates/einvoice-mig/src/f0401.rs. The
-- children prove that the validation finds no issue in exactly these invoices.
use tw_einvoice_rs.Base.{
  ℕ, suc, ◌+◌, ◌≤◌, ◌≡◌, ◌≢◌, ◌⊎◌, ◌↔◌, Bool, true, false, Option, none, some, List, [], ◌∷◌, Str,
  codes, digits, char_count, length, All,
}
use tw_einvoice_rs.Core.{b2c_buyer}
use tw_einvoice_rs.Mig.Report.{◌&◌}
use tw_einvoice_rs.Mig.Primitives.{MigDecimal, is_calendar_date}
use tw_einvoice_rs.Mig.Primitives.Decimal.{IsDecimal}
use tw_einvoice_rs.Mig.Marks.{not_donated, print, zero_rated, mixed}
use tw_einvoice_rs.Mig.F0401.{RoleDescription, F0401Main, ProductItem, F0401Amount, F0401Invoice}
pub mod SchemaLayer
pub mod SemanticLayer

-- What holds of a text that is given.
abbrev pub IfSome {ℓ} : {A : Type ℓ} → (A → Type 0) → Option A → Type 0
IfSome P none = Unit
IfSome P (some a) = P a

abbrev pub AtMost : ℕ → Option Str → Type 0
AtMost n = IfSome (λ s. char_count s ≤ n)

abbrev pub Exactly : ℕ → Option Str → Type 0
Exactly n = IfSome (λ s. char_count s ≡ n)

abbrev pub Required : ℕ → Str → Type 0
Required n s = (s ≢ []) × (char_count s ≤ n)

-- Numbers of twenty digits, seven after the point.
abbrev pub IsNumber : Bool → MigDecimal → Type 0
IsNumber non_negative d = IsDecimal d.text 20 7 non_negative

abbrev pub IsFourDigits : Str → Type 0
IsFourDigits s = (length s ≡ 4) × All (λ c. (b'0' ≤ c) × (c ≤ b'9')) s

abbrev pub RoleIsValid : RoleDescription → Type 0
RoleIsValid r =
    Required 60 r.name
    & AtMost 100 r.address
    & AtMost 30 r.person_in_charge
    & AtMost 26 r.telephone_number
    & AtMost 26 r.facsimile_number
    & AtMost 400 r.email_address
    & AtMost 20 r.customer_number
    & Exactly 40 r.role_remark

abbrev pub MainIsValid : F0401Main → Type 0
MainIsValid m =
    RoleIsValid m.seller
    & RoleIsValid m.buyer
    & AtMost 200 m.main_remark
    & AtMost 2 m.category
    & AtMost 20 m.relate_number
    & Exactly 1 m.group_mark
    & AtMost 6 m.carrier_type
    & AtMost 400 m.carrier_id1
    & AtMost 400 m.carrier_id2
    & AtMost 20 m.reserved1
    & AtMost 100 m.reserved2
    & IfSome IsFourDigits m.random_number

abbrev pub ItemIsValid : ProductItem → Type 0
ItemIsValid item =
    Required 500 item.description
    & AtMost 6 item.unit
    & Required 4 item.sequence_number
    & AtMost 120 item.remark
    & AtMost 50 item.relate_number
    & IsNumber false item.quantity
    & IsNumber false item.unit_price
    & IsNumber false item.amount

abbrev pub AmountIsValid : F0401Amount → Type 0
AmountIsValid a =
    IsNumber true a.sales_amount
    & IsNumber true a.free_tax_sales_amount
    & IsNumber true a.zero_tax_sales_amount
    & IsDecimal a.tax_amount.text 20 0 true
    & IsNumber true a.total_amount
    & IfSome (IsNumber true) a.discount_amount
    & IfSome (IsNumber true) a.original_currency_amount
    & IfSome (λ d. IsDecimal d.text 13 5 true) a.exchange_rate

abbrev pub FitsSchema : F0401Invoice → Type 0
FitsSchema i = MainIsValid i.main & All ItemIsValid i.details & AmountIsValid i.amount

-- The cross-field rules. `≢ none` is "present".
abbrev pub IsPresent {ℓ} : {A : Type ℓ} → Option A → Type ℓ
IsPresent o = o ≢ none

abbrev pub HasAddress : RoleDescription → Type 0
HasAddress r = (a : Str) × (r.address ≡ some a) × (a ≢ [])

-- A buyer that is a consumer.
abbrev pub IsConsumer : F0401Main → Type 0
IsConsumer m = m.buyer.identifier.digits ≡ b2c_buyer

abbrev pub NotZeros : Str → Type 0
NotZeros s = (s ≢ codes "0") × (s ≢ codes "00") × (s ≢ codes "000") × (s ≢ codes "0000")

-- No carrier on a printed invoice.
abbrev pub LacksCarrier : F0401Main → Type 0
LacksCarrier m = (m.carrier_type ≡ none) × (m.carrier_id1 ≡ none) × (m.carrier_id2 ≡ none)

abbrev pub SomeZeroRated : List ProductItem → Type 0
SomeZeroRated [] = ⊥
SomeZeroRated (item ∷ items) = (item.tax_type ≡ zero_rated) ⊎ SomeZeroRated items

-- The items carry the numbers from `index + 1` on, and none is of mixed tax.
abbrev pub AreNumbered : ℕ → List ProductItem → Type 0
AreNumbered index [] = Unit
AreNumbered index (item ∷ items) =
    (item.tax_type ≢ mixed)
    & (item.sequence_number ≡ digits 20 (index + 1))
    & AreNumbered (suc index) items

abbrev pub MeetsRules : F0401Invoice → Type 0
MeetsRules i =
    (is_calendar_date i.main.invoice_date ≡ true)
    & HasAddress i.main.seller
    & (IsConsumer i.main → NotZeros i.main.buyer.name)
    & (IsPresent i.main.random_number ↔ IsConsumer i.main)
    & (i.main.print_mark ≡ print → LacksCarrier i.main)
    & (i.main.print_mark ≡ print → i.main.donate_mark ≡ not_donated)
    & ((i.amount.tax_type ≡ zero_rated) ⊎ SomeZeroRated i.details
        → IsPresent i.main.zero_tax_rate_reason)
    & AreNumbered 0 i.details
