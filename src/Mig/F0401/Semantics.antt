-- ===== src/Mig/F0401/Semantics.antt =====
-- crates/einvoice-mig/src/f0401.rs: `validate_semantics`, a function for each of its checks in the
-- order of the source, and `validate`.
use tw_einvoice_rs.Base.{
  ℕ, suc, ◌+◌, Bool, true, false, not, ◌&&◌, ◌||◌, if◌then◌else◌, Option, none, some, List, [], ◌∷◌,
  ◌++◌, Str, codes, digits, is_empty, str_eq,
}
use tw_einvoice_rs.Core.{is_b2c_buyer}
use tw_einvoice_rs.Mig.Report.{ValidationReport}
use tw_einvoice_rs.Mig.Primitives.{MigDate, is_calendar_date}
use tw_einvoice_rs.Mig.Marks.{
  DonateMark, not_donated, donated, PrintMark, print, do_not_print, TaxType, taxable, zero_rated,
  tax_free, special, mixed,
}
use tw_einvoice_rs.Mig.F0401.{RoleDescription, F0401Main, ProductItem, F0401Invoice}
use tw_einvoice_rs.Mig.F0401.Schema.{Issues, push_issue, item_path, validate_schema_constraints}

-- `Option::is_some`, and equality with a variant.
abbrev pub is_some {ℓ} : {A : Type ℓ} → Option A → Bool
is_some none = false
is_some (some a) = true

abbrev pub is_print : PrintMark → Bool
is_print print = true
is_print do_not_print = false

abbrev pub is_not_donated : DonateMark → Bool
is_not_donated not_donated = true
is_not_donated donated = false

abbrev pub is_zero_rated : TaxType → Bool
is_zero_rated zero_rated = true
is_zero_rated taxable = false
is_zero_rated tax_free = false
is_zero_rated special = false
is_zero_rated mixed = false

abbrev pub is_mixed : TaxType → Bool
is_mixed mixed = true
is_mixed taxable = false
is_mixed zero_rated = false
is_mixed tax_free = false
is_mixed special = false

unfoldable pub validate_date : MigDate → Str → Issues
unfolding push_issue
validate_date date path =
    if not (is_calendar_date date)
    then push_issue path (codes "MIG_DATE_NOT_GREGORIAN")
        (codes "date passes the MIG lexical shape but is not a real Gregorian calendar date")
    else []

-- `as_deref().is_none_or(str::is_empty)`.
abbrev pub is_none_or_empty : Option Str → Bool
is_none_or_empty none = true
is_none_or_empty (some s) = is_empty s

unfoldable pub check_seller_address : RoleDescription → Issues
unfolding push_issue
check_seller_address seller =
    if is_none_or_empty seller.address
    then push_issue (codes "Invoice/Main/Seller/Address") (codes "F0401_SELLER_ADDRESS_REQUIRED")
        (codes "seller Address is required for F0401")
    else []

abbrev pub is_zeros : Str → Bool
is_zeros s =
    str_eq s (codes "0")
    || str_eq s (codes "00")
    || str_eq s (codes "000")
    || str_eq s (codes "0000")

unfoldable pub check_buyer_name : RoleDescription → Issues
unfolding push_issue
check_buyer_name buyer =
    if is_b2c_buyer buyer.identifier && is_zeros buyer.name
    then push_issue (codes "Invoice/Main/Buyer/Name") (codes "F0401_B2C_BUYER_NAME_INVALID")
        (codes "consumer identification text must not be 0, 00, 000 or 0000")
    else []

-- `match (&self.main.random_number, buyer_is_consumer)`.
unfoldable pub match_random_number : Option Str → Bool → Issues
unfolding push_issue
match_random_number none true =
    push_issue (codes "Invoice/Main/RandomNumber") (codes "F0401_B2C_RANDOM_NUMBER_REQUIRED")
      (codes "RandomNumber is required when the buyer identifier is 0000000000")
match_random_number none false = []
match_random_number (some value) true = []
match_random_number (some value) false =
    push_issue (codes "Invoice/Main/RandomNumber") (codes "F0401_B2B_RANDOM_NUMBER_FORBIDDEN")
      (codes "RandomNumber must be omitted for a business or organization buyer")

unfoldable pub check_print_carrier : F0401Main → Issues
unfolding push_issue
check_print_carrier m =
    if is_print m.print_mark
      && (is_some m.carrier_type || is_some m.carrier_id1 || is_some m.carrier_id2)
    then push_issue (codes "Invoice/Main/PrintMark") (codes "F0401_PRINT_WITH_CARRIER")
        (codes "CarrierType, CarrierId1 and CarrierId2 must be omitted when PrintMark is Y")
    else []

unfoldable pub check_print_donation : F0401Main → Issues
unfolding push_issue
check_print_donation m =
    if is_print m.print_mark && not (is_not_donated m.donate_mark)
    then push_issue (codes "Invoice/Main/DonateMark") (codes "F0401_PRINT_DONATION_CONFLICT")
        (codes "DonateMark must be 0 when PrintMark is Y")
    else []

-- `iter().any(|item| item.tax_type == TaxType::ZeroRated)`.
abbrev pub any_zero_rated : List ProductItem → Bool
any_zero_rated [] = false
any_zero_rated (item ∷ items) = is_zero_rated item.tax_type || any_zero_rated items

unfoldable pub check_zero_rate_reason : F0401Invoice → Issues
unfolding push_issue
check_zero_rate_reason i =
    if (is_zero_rated i.amount.tax_type || any_zero_rated i.details)
      && not (is_some i.main.zero_tax_rate_reason)
    then push_issue (codes "Invoice/Main/ZeroTaxRateReason")
        (codes "F0401_ZERO_RATE_REASON_REQUIRED")
        (codes "ZeroTaxRateReason is required when zero-rated tax is used")
    else []

unfoldable pub check_item_tax : ℕ → ProductItem → Issues
unfolding push_issue
check_item_tax index item =
    if is_mixed item.tax_type
    then push_issue (item_path index ++ codes "/TaxType")
        (codes "F0401_PRODUCT_MIXED_TAX_FORBIDDEN")
        (codes "ProductItem TaxType must not use mixed-tax value 9")
    else []

unfoldable pub check_item_sequence : ℕ → ProductItem → Issues
unfolding push_issue
check_item_sequence index item =
    if not (str_eq item.sequence_number (digits 20 (index + 1)))
    then push_issue (item_path index ++ codes "/SequenceNumber")
        (codes "F0401_SEQUENCE_NOT_CONTIGUOUS")
        (codes "SequenceNumber should follow the invoice-detail order starting at 1")
    else []

unfoldable pub check_items : ℕ → List ProductItem → Issues
check_items index [] = []
check_items index (item ∷ items) =
    check_item_tax index item ++ (check_item_sequence index item ++ check_items (suc index) items)

unfoldable pub validate_semantics : F0401Invoice → ValidationReport
validate_semantics i = record {
  issues =
      validate_date i.main.invoice_date (codes "Invoice/Main/InvoiceDate")
      ++ (check_seller_address i.main.seller
          ++ (check_buyer_name i.main.buyer
              ++ (match_random_number i.main.random_number (is_b2c_buyer i.main.buyer.identifier)
                  ++ (check_print_carrier i.main
                      ++ (check_print_donation i.main
                          ++ (check_zero_rate_reason i ++ check_items 0 i.details))))));
}

unfoldable pub validate : F0401Invoice → ValidationReport
unfolding validate_schema_constraints validate_semantics
validate i = record {
  issues = (validate_schema_constraints i).issues ++ (validate_semantics i).issues;
}
