-- ===== src/Mig/F0401/Validity/SchemaLayer.antt =====
-- The checks of `validate_schema_constraints` and the conditions that they stand for.
use tw_einvoice_rs.Base.{
  ℕ, suc, ◌≡◌, ◌↔◌, refl, Bool, true, false, Option, none, some, List, [], ◌∷◌, Str, All, arith,
  Result, ok, err,
}
use tw_einvoice_rs.Mig.Report.{Checks, ◌⊕◌, is_valid, is_valid-Checks}
use tw_einvoice_rs.Mig.Primitives.{MigDecimal, PrimitiveError, parse_decimal}
use tw_einvoice_rs.Mig.Primitives.Decimal.{IsDecimal, parse_decimal_iff, parse_decimal_ok, all_iff}
use tw_einvoice_rs.Mig.F0401.{RoleDescription, F0401Main, ProductItem, F0401Amount, F0401Invoice}
use tw_einvoice_rs.Mig.F0401.Validity.{
  IfSome, AtMost, Exactly, Required, IsFourDigits, RoleIsValid, MainIsValid, ItemIsValid,
  AmountIsValid, FitsSchema,
}
use tw_einvoice_rs.Mig.F0401.Schema.{
  check_required_max, check_max, check_exact, check_decimal, decimal_issues, check_optional_decimal,
  check_random_number, validate_role_schema, validate_main_schema, validate_item_schema,
  validate_details_schema, validate_amount_schema, validate_schema_constraints,
}

check_required_max_lem :
    (s : Str) (n : ℕ) (path : Str) → Checks (check_required_max s n path) (Required n s)
unfolding check_required_max
check_required_max_lem [] n path = ground arith
check_required_max_lem (c ∷ s) n path = ground arith

check_max_lem : (o : Option Str) (n : ℕ) (path : Str) → Checks (check_max o n path) (AtMost n o)
unfolding check_max
check_max_lem none n path = ground arith
check_max_lem (some s) n path = ground arith

check_exact_lem :
    (o : Option Str) (n : ℕ) (path : Str) → Checks (check_exact o n path) (Exactly n o)
unfolding check_exact
check_exact_lem none n path = ground arith
check_exact_lem (some s) n path = ground arith

decimal_issues_lem :
    (d : MigDecimal) (t f : ℕ) (nn : Bool) (path : Str) (r : Result MigDecimal PrimitiveError)
    → parse_decimal d.text t f nn ≡ r
    → Checks (decimal_issues r path) (IsDecimal d.text t f nn)
unfolding decimal_issues
decimal_issues_lem d t f nn path (ok e) h = (λ k. parse_decimal_ok d.text t f nn h, λ k. refl)
decimal_issues_lem d t f nn path (err e) h =
    (λ k. cc, λ k. cc (h, (parse_decimal_iff d.text t f nn).1 k))

check_decimal_lem :
    (d : MigDecimal) (t f : ℕ) (nn : Bool) (path : Str)
    → Checks (check_decimal d t f nn path) (IsDecimal d.text t f nn)
unfolding check_decimal
check_decimal_lem d t f nn path =
    decimal_issues_lem d t f nn path (parse_decimal d.text t f nn) refl

check_optional_decimal_lem :
    (o : Option MigDecimal) (t f : ℕ) (path : Str)
    → Checks (check_optional_decimal o t f path) (IfSome (λ d. IsDecimal d.text t f true) o)
unfolding check_optional_decimal
check_optional_decimal_lem none t f path = (λ h. tt, λ h. refl)
check_optional_decimal_lem (some d) t f path = check_decimal_lem d t f true path

check_random_number_lem : (o : Option Str) → Checks (check_random_number o) (IfSome IsFourDigits o)
unfolding check_random_number
check_random_number_lem none = ground arith
check_random_number_lem (some s) = ground (arith, all_iff s)

validate_role_schema_lem :
    (r : RoleDescription) (path : Str) → Checks (validate_role_schema r path) (RoleIsValid r)
unfolding validate_role_schema
validate_role_schema_lem r path =
    check_required_max_lem r.name 60 _
    ⊕ check_max_lem r.address 100 _
    ⊕ check_max_lem r.person_in_charge 30 _
    ⊕ check_max_lem r.telephone_number 26 _
    ⊕ check_max_lem r.facsimile_number 26 _
    ⊕ check_max_lem r.email_address 400 _
    ⊕ check_max_lem r.customer_number 20 _
    ⊕ check_exact_lem r.role_remark 40 _

validate_main_schema_lem : (m : F0401Main) → Checks (validate_main_schema m) (MainIsValid m)
unfolding validate_main_schema
validate_main_schema_lem m =
    validate_role_schema_lem m.seller _
    ⊕ validate_role_schema_lem m.buyer _
    ⊕ check_max_lem m.main_remark 200 _
    ⊕ check_max_lem m.category 2 _
    ⊕ check_max_lem m.relate_number 20 _
    ⊕ check_exact_lem m.group_mark 1 _
    ⊕ check_max_lem m.carrier_type 6 _
    ⊕ check_max_lem m.carrier_id1 400 _
    ⊕ check_max_lem m.carrier_id2 400 _
    ⊕ check_max_lem m.reserved1 20 _
    ⊕ check_max_lem m.reserved2 100 _
    ⊕ check_random_number_lem m.random_number

validate_item_schema_lem :
    (index : ℕ) (item : ProductItem) → Checks (validate_item_schema index item) (ItemIsValid item)
unfolding validate_item_schema
validate_item_schema_lem index item =
    check_required_max_lem item.description 500 _
    ⊕ check_max_lem item.unit 6 _
    ⊕ check_required_max_lem item.sequence_number 4 _
    ⊕ check_max_lem item.remark 120 _
    ⊕ check_max_lem item.relate_number 50 _
    ⊕ check_decimal_lem item.quantity 20 7 false _
    ⊕ check_decimal_lem item.unit_price 20 7 false _
    ⊕ check_decimal_lem item.amount 20 7 false _

validate_details_schema_lem :
    (index : ℕ) (items : List ProductItem)
    → Checks (validate_details_schema index items) (All ItemIsValid items)
unfolding validate_details_schema
validate_details_schema_lem index [] = (λ h. tt, λ h. refl)
validate_details_schema_lem index (item ∷ items) =
    validate_item_schema_lem index item ⊕ validate_details_schema_lem (suc index) items

validate_amount_schema_lem : (a : F0401Amount) → Checks (validate_amount_schema a) (AmountIsValid a)
unfolding validate_amount_schema
validate_amount_schema_lem a =
    check_decimal_lem a.sales_amount 20 7 true _
    ⊕ check_decimal_lem a.free_tax_sales_amount 20 7 true _
    ⊕ check_decimal_lem a.zero_tax_sales_amount 20 7 true _
    ⊕ check_decimal_lem a.tax_amount 20 0 true _
    ⊕ check_decimal_lem a.total_amount 20 7 true _
    ⊕ check_optional_decimal_lem a.discount_amount 20 7 _
    ⊕ check_optional_decimal_lem a.original_currency_amount 20 7 _
    ⊕ check_optional_decimal_lem a.exchange_rate 13 5 _

pub validate_schema_Checks :
    (i : F0401Invoice) → Checks (validate_schema_constraints i).issues (FitsSchema i)
unfolding validate_schema_constraints
validate_schema_Checks i =
    validate_main_schema_lem i.main
    ⊕ validate_details_schema_lem 0 i.details
    ⊕ validate_amount_schema_lem i.amount

-- The schema layer finds no issue exactly if every text has the length, and every number the
-- digits, that the schema allows: the roles, the fields of the invoice, each item and the amounts.
pub validate_schema_constraints_iff :
    (i : F0401Invoice) → (is_valid (validate_schema_constraints i) ≡ true) ↔ FitsSchema i
validate_schema_constraints_iff i =
    is_valid-Checks (validate_schema_constraints i) (validate_schema_Checks i)
