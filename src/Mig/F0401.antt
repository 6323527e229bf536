-- ===== src/Mig/F0401.antt =====
-- crates/einvoice-mig/src/f0401.rs: the invoices F0401. The children follow the file: Schema and
-- Semantics are the two layers of validation, Validity what they accept, Xml the serialisation.
use tw_einvoice_rs.Base.{
  ℕ, Bool, true, false, Option, none, some, List, Str, codes, digits, ◌++◌, ◌==◌, ltb, length,
  if◌then◌else◌, Result, ok, err,
}
use tw_einvoice_rs.Core.{Ban}
use tw_einvoice_rs.Mig.Primitives.{
  InvoiceNumber, MigDate, MigTime, MigDecimal, CurrencyCode, ZeroTaxRateReason,
}
use tw_einvoice_rs.Mig.Marks.{
  InvoiceType, DonateMark, PrintMark, TaxType, TaxRate, BuyerRemark, CustomsClearanceMark,
  BondedArea,
}
pub mod Schema
pub mod Semantics
pub mod Validity
pub mod Xml
pub mod Document

abbrev pub f0401_namespace : Str
f0401_namespace = codes "urn:GEINV:eInvoiceMessage:F0401:4.1"

pub record RoleDescription : Type 0 where
  pub identifier : Ban
  pub name : Str
  pub address : Option Str
  pub person_in_charge : Option Str
  pub telephone_number : Option Str
  pub facsimile_number : Option Str
  pub email_address : Option Str
  pub customer_number : Option Str
  pub role_remark : Option Str

abbrev pub new_role : Ban → Str → RoleDescription
new_role identifier name = record {
  identifier = identifier;
  name = name;
  address = none;
  person_in_charge = none;
  telephone_number = none;
  facsimile_number = none;
  email_address = none;
  customer_number = none;
  role_remark = none;
}

pub record F0401Main : Type 0 where
  pub invoice_number : InvoiceNumber
  pub invoice_date : MigDate
  pub invoice_time : MigTime
  pub seller : RoleDescription
  pub buyer : RoleDescription
  pub buyer_remark : Option BuyerRemark
  pub main_remark : Option Str
  pub customs_clearance_mark : Option CustomsClearanceMark
  pub category : Option Str
  pub relate_number : Option Str
  pub invoice_type : InvoiceType
  pub group_mark : Option Str
  pub donate_mark : DonateMark
  pub carrier_type : Option Str
  pub carrier_id1 : Option Str
  pub carrier_id2 : Option Str
  pub print_mark : PrintMark
  pub npo_ban : Option Ban
  pub random_number : Option Str
  pub bonded_area_confirm : Option BondedArea
  pub zero_tax_rate_reason : Option ZeroTaxRateReason
  pub reserved1 : Option Str
  pub reserved2 : Option Str

pub record ProductItem : Type 0 where
  pub description : Str
  pub quantity : MigDecimal
  pub unit : Option Str
  pub unit_price : MigDecimal
  pub tax_type : TaxType
  pub amount : MigDecimal
  pub sequence_number : Str
  pub remark : Option Str
  pub relate_number : Option Str

abbrev pub new_product_item :
    Str → MigDecimal → MigDecimal → TaxType → MigDecimal → Str → ProductItem
new_product_item description quantity unit_price tax_type amount sequence_number = record {
  description = description;
  quantity = quantity;
  unit = none;
  unit_price = unit_price;
  tax_type = tax_type;
  amount = amount;
  sequence_number = sequence_number;
  remark = none;
  relate_number = none;
}

pub record F0401Amount : Type 0 where
  pub sales_amount : MigDecimal
  pub free_tax_sales_amount : MigDecimal
  pub zero_tax_sales_amount : MigDecimal
  pub tax_type : TaxType
  pub tax_rate : TaxRate
  pub tax_amount : MigDecimal
  pub total_amount : MigDecimal
  pub discount_amount : Option MigDecimal
  pub original_currency_amount : Option MigDecimal
  pub exchange_rate : Option MigDecimal
  pub currency : Option CurrencyCode

pub record F0401Invoice : Type 0 where
  pub main : F0401Main
  pub details : List ProductItem
  pub amount : F0401Amount

pub data F0401StructureError : Type 0 where
  no_product_items : F0401StructureError
  too_many_product_items : ℕ → ℕ → F0401StructureError

abbrev pub max_product_items : ℕ
max_product_items = 9999

unfoldable pub new_invoice :
    F0401Main → List ProductItem → F0401Amount → Result F0401Invoice F0401StructureError
new_invoice main details amount =
    if length details == 0
    then err no_product_items
    else if ltb max_product_items (length details)
    then err (too_many_product_items (length details) max_product_items)
    else ok (record { main = main; details = details; amount = amount })

-- `Display` of the error; a `usize` has twenty digits at most.
unfoldable pub display_structure_error : F0401StructureError → Str
display_structure_error no_product_items = codes "F0401 requires at least one ProductItem"
display_structure_error (too_many_product_items count maximum) =
    codes "F0401 contains "
    ++ digits 20 count
    ++ codes " ProductItems; maximum is "
    ++ digits 20 maximum
