-- ===== src/Mig/F0401/Schema.antt =====
-- crates/einvoice-mig/src/f0401.rs: `validate_schema_constraints` and the checks that it makes.
-- Where the source appends to a report, the functions here return the issues that they append.
use tw_einvoice_rs.Base.{
  ℕ, suc, ◌+◌, Bool, true, false, not, ◌&&◌, ◌||◌, ◌==◌, ltb, if◌then◌else◌, Option, none, some,
  List, [], ◌∷◌, ◌++◌, Str, codes, digits, is_empty, length, char_count, all, is_ascii_digit,
  Result, ok, err,
}
use tw_einvoice_rs.Mig.Report.{ValidationIssue, ValidationReport}
use tw_einvoice_rs.Mig.Primitives.{MigDecimal, PrimitiveError, parse_decimal, display_error}
use tw_einvoice_rs.Mig.F0401.{RoleDescription, F0401Main, ProductItem, F0401Amount, F0401Invoice}

abbrev pub Issues : Type 0
Issues = List ValidationIssue

unfoldable pub push_issue : Str → Str → Str → Issues
push_issue path code message =
    (record { path = some path; issue_code = code; message = message }) ∷ []

abbrev pub is_some_and : (Str → Bool) → Option Str → Bool
is_some_and p none = false
is_some_and p (some value) = p value

unfoldable pub check_required_max : Str → ℕ → Str → Issues
unfolding push_issue
check_required_max value n path =
    if is_empty value || ltb n (char_count value)
    then push_issue path (codes "MIG_STRING_LENGTH")
        (codes "value must contain 1 through " ++ digits 20 n ++ codes " characters")
    else []

unfoldable pub check_max : Option Str → ℕ → Str → Issues
unfolding push_issue
check_max value n path =
    if is_some_and (λ text. ltb n (char_count text)) value
    then push_issue path (codes "MIG_STRING_LENGTH")
        (codes "value must contain at most " ++ digits 20 n ++ codes " characters")
    else []

unfoldable pub check_exact : Option Str → ℕ → Str → Issues
unfolding push_issue
check_exact value n path =
    if is_some_and (λ text. not (char_count text == n)) value
    then push_issue path (codes "MIG_STRING_LENGTH")
        (codes "value must contain exactly " ++ digits 20 n ++ codes " characters")
    else []

-- `if let Err(error) = … { push_issue(…) }`.
unfoldable pub decimal_issues : Result MigDecimal PrimitiveError → Str → Issues
unfolding push_issue
decimal_issues (ok d) path = []
decimal_issues (err e) path = push_issue path (codes "MIG_DECIMAL_CONSTRAINT") (display_error e)

unfoldable pub check_decimal : MigDecimal → ℕ → ℕ → Bool → Str → Issues
check_decimal value t f non_negative path =
    decimal_issues (parse_decimal value.text t f non_negative) path

-- `if let Some(value) = … { check_decimal(value, …) }`.
unfoldable pub check_optional_decimal : Option MigDecimal → ℕ → ℕ → Str → Issues
check_optional_decimal none t f path = []
check_optional_decimal (some value) t f path = check_decimal value t f true path

abbrev pub is_four_digits : Str → Bool
is_four_digits value = length value == 4 && all is_ascii_digit value

unfoldable pub validate_role_schema : RoleDescription → Str → Issues
validate_role_schema role path =
    check_required_max role.name 60 (path ++ codes "/Name")
    ++ (check_max role.address 100 (path ++ codes "/Address")
        ++ (check_max role.person_in_charge 30 (path ++ codes "/PersonInCharge")
            ++ (check_max role.telephone_number 26 (path ++ codes "/TelephoneNumber")
                ++ (check_max role.facsimile_number 26 (path ++ codes "/FacsimileNumber")
                    ++ (check_max role.email_address 400 (path ++ codes "/EmailAddress")
                        ++ (check_max role.customer_number 20 (path ++ codes "/CustomerNumber")
                            ++ check_exact role.role_remark 40 (path ++ codes "/RoleRemark")))))))

-- The last check of `validate_main_schema`.
unfoldable pub check_random_number : Option Str → Issues
unfolding push_issue
check_random_number value =
    if is_some_and (λ text. not (is_four_digits text)) value
    then push_issue (codes "Invoice/Main/RandomNumber") (codes "F0401_RANDOM_NUMBER_FORMAT")
        (codes "RandomNumber must contain exactly four ASCII digits")
    else []

unfoldable pub validate_main_schema : F0401Main → Issues
validate_main_schema m =
    validate_role_schema m.seller (codes "Invoice/Main/Seller")
    ++ (validate_role_schema m.buyer (codes "Invoice/Main/Buyer")
        ++ (check_max m.main_remark 200 (codes "Invoice/Main/MainRemark")
            ++ (check_max m.category 2 (codes "Invoice/Main/Category")
                ++ (check_max m.relate_number 20 (codes "Invoice/Main/RelateNumber")
                    ++ (check_exact m.group_mark 1 (codes "Invoice/Main/GroupMark")
                        ++ (check_max m.carrier_type 6 (codes "Invoice/Main/CarrierType")
                            ++ (check_max m.carrier_id1 400 (codes "Invoice/Main/CarrierId1")
                                ++ (check_max m.carrier_id2 400 (codes "Invoice/Main/CarrierId2")
                                    ++ (check_max m.reserved1 20 (codes "Invoice/Main/Reserved1")
                                        ++ (check_max m.reserved2 100
                                              (codes "Invoice/Main/Reserved2")
                                            ++ check_random_number m.random_number))))))))))

-- `format!("Invoice/Details/ProductItem[{}]", index + 1)`.
abbrev pub item_path : ℕ → Str
item_path index = codes "Invoice/Details/ProductItem[" ++ digits 20 (index + 1) ++ codes "]"

unfoldable pub validate_item_schema : ℕ → ProductItem → Issues
validate_item_schema index item =
    let base = item_path index in
    check_required_max item.description 500 (base ++ codes "/Description")
    ++ (check_max item.unit 6 (base ++ codes "/Unit")
        ++ (check_required_max item.sequence_number 4 (base ++ codes "/SequenceNumber")
            ++ (check_max item.remark 120 (base ++ codes "/Remark")
                ++ (check_max item.relate_number 50 (base ++ codes "/RelateNumber")
                    ++ (check_decimal item.quantity 20 7 false (base ++ codes "/Quantity")
                        ++ (check_decimal item.unit_price 20 7 false (base ++ codes "/UnitPrice")
                            ++ check_decimal item.amount 20 7 false (base ++ codes "/Amount")))))))

unfoldable pub validate_details_schema : ℕ → List ProductItem → Issues
validate_details_schema index [] = []
validate_details_schema index (item ∷ items) =
    validate_item_schema index item ++ validate_details_schema (suc index) items

unfoldable pub validate_amount_schema : F0401Amount → Issues
validate_amount_schema a =
    check_decimal a.sales_amount 20 7 true (codes "Invoice/Amount/SalesAmount")
    ++ (check_decimal a.free_tax_sales_amount 20 7 true (codes "Invoice/Amount/FreeTaxSalesAmount")
        ++ (check_decimal a.zero_tax_sales_amount 20 7 true
              (codes "Invoice/Amount/ZeroTaxSalesAmount")
            ++ (check_decimal a.tax_amount 20 0 true (codes "Invoice/Amount/TaxAmount")
                ++ (check_decimal a.total_amount 20 7 true (codes "Invoice/Amount/TotalAmount")
                    ++ (check_optional_decimal a.discount_amount 20 7
                          (codes "Invoice/Amount/DiscountAmount")
                        ++ (check_optional_decimal a.original_currency_amount 20 7
                              (codes "Invoice/Amount/OriginalCurrencyAmount")
                            ++ check_optional_decimal a.exchange_rate 13 5
                                (codes "Invoice/Amount/ExchangeRate")))))))

unfoldable pub validate_schema_constraints : F0401Invoice → ValidationReport
validate_schema_constraints i = record {
  issues =
      validate_main_schema i.main
      ++ (validate_details_schema 0 i.details ++ validate_amount_schema i.amount);
}
