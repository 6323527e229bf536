-- ===== src/Mig/Tests.antt =====
-- The theorems of Mig at concrete inputs.
use tw_einvoice_rs.Base.{◌≡◌, ◌↔◌, refl, true, false, none, some, [], ◌∷◌, Str, ok, codes}
use tw_einvoice_rs.Mig.Primitives.{
  MigDecimal, parse_decimal, check_parts, parse_date, is_calendar_date,
}
use tw_einvoice_rs.Mig.Primitives.Decimal.{IsDecimal, parse_decimal_iff}
use tw_einvoice_rs.Mig.Primitives.Dates.{IsDay, parse_date_iff}
use tw_einvoice_rs.Mig.Marks.{general_tax, not_donated, print, taxable, five_percent}
use tw_einvoice_rs.Mig.Report.{is_valid, ◌&◌}
use tw_einvoice_rs.Mig.F0401.{
  RoleDescription, new_role, F0401Main, ProductItem, new_product_item, F0401Amount, F0401Invoice,
  new_invoice,
}
use tw_einvoice_rs.Mig.F0401.Schema.{
  check_required_max, check_max, check_exact, check_decimal, check_optional_decimal, decimal_issues,
  check_random_number, validate_role_schema, validate_main_schema, validate_item_schema,
  validate_details_schema, validate_amount_schema,
}
use tw_einvoice_rs.Mig.F0401.Semantics.{
  validate_date, check_seller_address, check_buyer_name, match_random_number, check_print_carrier,
  check_print_donation, check_zero_rate_reason, check_item_tax, check_item_sequence, check_items,
  validate,
}
use tw_einvoice_rs.Mig.F0401.Validity.{FitsSchema, MeetsRules}
use tw_einvoice_rs.Mig.F0401.Validity.SemanticLayer.{validate_iff}
use tw_einvoice_rs.Mig.F0401.Xml.{to_xml}
use tw_einvoice_rs.Mig.F0401.Xml.Markup.{read}
use tw_einvoice_rs.Mig.F0401.Document.{tokens, document}
use tw_einvoice_rs.Mig.F0401.Document.Reading.{read-to_xml}

parse_decimal_iff_example :
    (parse_decimal (codes "-12.5") 20 7 false ≡ ok (record { text = codes "-12.5" }))
    ↔ IsDecimal (codes "-12.5") 20 7 false
parse_decimal_iff_example = parse_decimal_iff (codes "-12.5") 20 7 false

parse_date_iff_example :
    ((parse_date (codes "20240229") ≡ ok (record { text = codes "20240229" }))
      × (is_calendar_date (record { text = codes "20240229" }) ≡ true))
    ↔ IsDay (codes "20240229")
parse_date_iff_example = parse_date_iff (codes "20240229")

abbrev number : Str → MigDecimal
number s = record { text = s }

abbrev seller : RoleDescription
seller = record (new_role (record { digits = codes "12345678" }) (codes "Seller & Co")) {
  address = some (codes "Taipei <1>");
}

abbrev buyer : RoleDescription
buyer = new_role (record { digits = codes "0000000000" }) (codes "ABCD")

abbrev main : F0401Main
main = record {
  invoice_number = record { text = codes "QQ12345678" };
  invoice_date = record { text = codes "20261025" };
  invoice_time = record { text = codes "14:30:00" };
  seller = seller;
  buyer = buyer;
  buyer_remark = none;
  main_remark = none;
  customs_clearance_mark = none;
  category = none;
  relate_number = none;
  invoice_type = general_tax;
  group_mark = none;
  donate_mark = not_donated;
  carrier_type = none;
  carrier_id1 = none;
  carrier_id2 = none;
  print_mark = print;
  npo_ban = none;
  random_number = some (codes "1234");
  bonded_area_confirm = none;
  zero_tax_rate_reason = none;
  reserved1 = none;
  reserved2 = none;
}

abbrev total : F0401Amount
total = record {
  sales_amount = number (codes "100");
  free_tax_sales_amount = number (codes "0");
  zero_tax_sales_amount = number (codes "0");
  tax_type = taxable;
  tax_rate = five_percent;
  tax_amount = number (codes "5");
  total_amount = number (codes "105");
  discount_amount = none;
  original_currency_amount = none;
  exchange_rate = none;
  currency = none;
}

abbrev item : ProductItem
item =
    new_product_item (codes "Tea") (number (codes "1")) (number (codes "100")) taxable
      (number (codes "100")) (codes "1")

abbrev invoice : F0401Invoice
invoice = record { main = main; details = item ∷ []; amount = total }

made : new_invoice main (item ∷ []) total ≡ ok invoice
unfolding new_invoice
made = refl

no_issue : (validate invoice).issues ≡ []
unfolding validate validate_main_schema validate_details_schema validate_item_schema
    validate_amount_schema validate_role_schema check_required_max check_max check_exact
    check_decimal check_optional_decimal decimal_issues check_random_number validate_date
    is_calendar_date check_seller_address check_buyer_name match_random_number check_print_carrier
    check_print_donation check_zero_rate_reason check_items check_item_tax check_item_sequence
    parse_decimal check_parts
no_issue = refl

validate_iff_example :
    (is_valid (validate invoice) ≡ true) ↔ (FitsSchema invoice & MeetsRules invoice)
validate_iff_example = validate_iff invoice

read-to_xml_example : read (to_xml invoice) ≡ tokens (document invoice)
read-to_xml_example = read-to_xml invoice
