-- ===== src/Mig/F0401/Validity/SemanticLayer.antt =====
-- The checks of `validate_semantics` and the rules that they stand for, and both layers together.
use tw_einvoice_rs.Base.{
  ℕ, suc, ◌+◌, ◌≡◌, ◌≢◌, ◌↔◌, ◌⊎◌, refl, Bool, true, false, Option, none, some, List, [], ◌∷◌, Str,
  codes, arith, str_eq_iff, digits,
}
use tw_einvoice_rs.Core.{is_b2c_buyer, b2c_buyer}
use tw_einvoice_rs.Mig.Report.{Checks, ◌&◌, ◌⊕◌, is_valid, is_valid-Checks}
use tw_einvoice_rs.Mig.Primitives.{MigDate, is_calendar_date}
use tw_einvoice_rs.Mig.Marks.{not_donated, print, zero_rated, mixed}
use tw_einvoice_rs.Mig.F0401.{RoleDescription, F0401Main, ProductItem, F0401Invoice}
use tw_einvoice_rs.Mig.F0401.Validity.{
  IsPresent, HasAddress, IsConsumer, NotZeros, LacksCarrier, SomeZeroRated, AreNumbered, MeetsRules,
  FitsSchema,
}
use tw_einvoice_rs.Mig.F0401.Semantics.{
  is_some, validate_date, is_none_or_empty, check_seller_address, is_zeros, check_buyer_name,
  match_random_number, check_print_carrier, check_print_donation, any_zero_rated,
  check_zero_rate_reason, check_item_tax, check_item_sequence, check_items, validate_semantics,
  validate,
}
use tw_einvoice_rs.Mig.F0401.Validity.SchemaLayer.{validate_schema_Checks}

validate_date_lem :
    (d : MigDate) (path : Str) → Checks (validate_date d path) (is_calendar_date d ≡ true)
unfolding validate_date
validate_date_lem d path = ground arith

address_lem :
    (r : RoleDescription) (o : Option Str)
    → r.address ≡ o
    → (is_none_or_empty o ≡ false) ↔ HasAddress r
address_lem r none e = (λ h. cc, λ h. cc (e, h.1))
address_lem r (some []) e = (λ h. cc, λ h. absurd (h.2 (cc (e, h.1))))
address_lem r (some (c ∷ s)) e = (λ h. (c ∷ s, e, λ k. cc), λ h. refl)

check_seller_address_lem : (r : RoleDescription) → Checks (check_seller_address r) (HasAddress r)
unfolding check_seller_address
check_seller_address_lem r = ground (arith, address_lem r r.address)

is_zeros_iff : (s : Str) → (is_zeros s ≡ false) ↔ NotZeros s
is_zeros_iff s = ground (
  arith,
  str_eq_iff s (codes "0"),
  str_eq_iff s (codes "00"),
  str_eq_iff s (codes "000"),
  str_eq_iff s (codes "0000"),
)

check_buyer_name_lem :
    (m : F0401Main) → Checks (check_buyer_name m.buyer) (IsConsumer m → NotZeros m.buyer.name)
unfolding check_buyer_name
check_buyer_name_lem m =
    ground (arith, is_zeros_iff m.buyer.name, str_eq_iff m.buyer.identifier.digits b2c_buyer)

random_number_lem :
    {P : Type 0} (o : Option Str) (b : Bool)
    → (b ≡ true) ↔ P
    → Checks (match_random_number o b) (IsPresent o ↔ P)
unfolding match_random_number
random_number_lem none true k = (λ h. cc, λ h. absurd (h.1 (k.0 refl) refl))
random_number_lem none false k = (λ _. (λ h. absurd (h refl), λ p. cc (k.1 p)), λ h. refl)
random_number_lem (some s) true k = (λ _. (λ h. k.0 refl, λ p e. cc), λ h. refl)
random_number_lem (some s) false k = (λ h. cc, λ h. cc (k.1 (h.0 λ e. cc)))

match_random_number_lem :
    (m : F0401Main)
    → Checks
        (match_random_number m.random_number (is_b2c_buyer m.buyer.identifier))
        (IsPresent m.random_number ↔ IsConsumer m)
match_random_number_lem m =
    random_number_lem m.random_number (is_b2c_buyer m.buyer.identifier)
      (str_eq_iff m.buyer.identifier.digits b2c_buyer)

check_print_carrier_lem :
    (m : F0401Main) → Checks (check_print_carrier m) (m.print_mark ≡ print → LacksCarrier m)
unfolding check_print_carrier
check_print_carrier_lem m = ground arith

check_print_donation_lem :
    (m : F0401Main)
    → Checks (check_print_donation m) (m.print_mark ≡ print → m.donate_mark ≡ not_donated)
unfolding check_print_donation
check_print_donation_lem m = ground arith

any_zero_rated_iff :
    (items : List ProductItem) → (any_zero_rated items ≡ true) ↔ SomeZeroRated items
any_zero_rated_iff [] = (λ h. cc, λ h. absurd h)
any_zero_rated_iff (item ∷ items) = ground (arith, any_zero_rated_iff items)

some_iff {ℓ} : {A : Type ℓ} (o : Option A) → (is_some o ≡ true) ↔ IsPresent o
some_iff none = (λ h. cc, λ h. absurd (h refl))
some_iff (some a) = (λ h e. cc, λ h. refl)

check_zero_rate_reason_lem :
    (i : F0401Invoice)
    → Checks (check_zero_rate_reason i) (
        (i.amount.tax_type ≡ zero_rated) ⊎ SomeZeroRated i.details
        → IsPresent i.main.zero_tax_rate_reason)
unfolding check_zero_rate_reason
check_zero_rate_reason_lem i =
    ground (arith, any_zero_rated_iff i.details, some_iff i.main.zero_tax_rate_reason)

check_item_tax_lem :
    (index : ℕ) (item : ProductItem) → Checks (check_item_tax index item) (item.tax_type ≢ mixed)
unfolding check_item_tax
check_item_tax_lem index item = ground arith

check_item_sequence_lem :
    (index : ℕ) (item : ProductItem)
    → Checks (check_item_sequence index item) (item.sequence_number ≡ digits 20 (index + 1))
unfolding check_item_sequence
check_item_sequence_lem index item =
    ground (arith, str_eq_iff item.sequence_number (digits 20 (index + 1)))

check_items_lem :
    (index : ℕ) (items : List ProductItem)
    → Checks (check_items index items) (AreNumbered index items)
unfolding check_items
check_items_lem index [] = (λ h. tt, λ h. refl)
check_items_lem index (item ∷ items) =
    check_item_tax_lem index item
    ⊕ check_item_sequence_lem index item
    ⊕ check_items_lem (suc index) items

validate_semantics-Checks : (i : F0401Invoice) → Checks (validate_semantics i).issues (MeetsRules i)
unfolding validate_semantics
validate_semantics-Checks i =
    validate_date_lem i.main.invoice_date _
    ⊕ check_seller_address_lem i.main.seller
    ⊕ check_buyer_name_lem i.main
    ⊕ match_random_number_lem i.main
    ⊕ check_print_carrier_lem i.main
    ⊕ check_print_donation_lem i.main
    ⊕ check_zero_rate_reason_lem i
    ⊕ check_items_lem 0 i.details

-- The whole validation finds no issue exactly if the invoice fits the schema and meets the rules
-- that relate its fields: the date is on the calendar; the seller has an address; a consumer is
-- not named by zeros; there is a random number exactly for a consumer; what is printed has no
-- carrier and is not donated; a zero rate has its reason; and the items, none of mixed tax, are
-- numbered 1, 2, 3 and so on.
pub validate_iff :
    (i : F0401Invoice) → (is_valid (validate i) ≡ true) ↔ (FitsSchema i & MeetsRules i)
unfolding validate
validate_iff i =
    is_valid-Checks (validate i) (validate_schema_Checks i ⊕ validate_semantics-Checks i)
