-- ===== src/Mig/Marks.antt =====
-- crates/einvoice-mig/src/primitives.rs: the enumerated fields and their wire values.
use tw_einvoice_rs.Base.{Str, codes, digits}
use tw_einvoice_rs.Mig.Primitives.{ZeroTaxRateReason}

pub data InvoiceType : Type 0 where
  general_tax special_tax : InvoiceType

pub data DonateMark : Type 0 where
  not_donated donated : DonateMark

pub data PrintMark : Type 0 where
  print do_not_print : PrintMark

pub data TaxType : Type 0 where
  taxable zero_rated tax_free special mixed : TaxType

pub data TaxRate : Type 0 where
  zero_rate one_percent two_percent five_percent fifteen_percent twenty_five_percent : TaxRate

pub data BuyerRemark : Type 0 where
  deductible_expense deductible_fixed_asset : BuyerRemark
  non_deductible_expense non_deductible_fixed_asset : BuyerRemark

pub data CustomsClearanceMark : Type 0 where
  not_through_customs through_customs : CustomsClearanceMark

pub data BondedArea : Type 0 where
  article_7_paragraph_4 article_7_paragraph_7 free_trade_zone other_area : BondedArea

abbrev pub invoice_type_value : InvoiceType → Str
invoice_type_value general_tax = codes "07"
invoice_type_value special_tax = codes "08"

abbrev pub donate_mark_value : DonateMark → Str
donate_mark_value not_donated = codes "0"
donate_mark_value donated = codes "1"

abbrev pub print_mark_value : PrintMark → Str
print_mark_value print = codes "Y"
print_mark_value do_not_print = codes "N"

abbrev pub tax_type_value : TaxType → Str
tax_type_value taxable = codes "1"
tax_type_value zero_rated = codes "2"
tax_type_value tax_free = codes "3"
tax_type_value special = codes "4"
tax_type_value mixed = codes "9"

abbrev pub tax_rate_value : TaxRate → Str
tax_rate_value zero_rate = codes "0"
tax_rate_value one_percent = codes "0.01"
tax_rate_value two_percent = codes "0.02"
tax_rate_value five_percent = codes "0.05"
tax_rate_value fifteen_percent = codes "0.15"
tax_rate_value twenty_five_percent = codes "0.25"

abbrev pub buyer_remark_value : BuyerRemark → Str
buyer_remark_value deductible_expense = codes "1"
buyer_remark_value deductible_fixed_asset = codes "2"
buyer_remark_value non_deductible_expense = codes "3"
buyer_remark_value non_deductible_fixed_asset = codes "4"

abbrev pub customs_clearance_mark_value : CustomsClearanceMark → Str
customs_clearance_mark_value not_through_customs = codes "1"
customs_clearance_mark_value through_customs = codes "2"

abbrev pub bonded_area_value : BondedArea → Str
bonded_area_value article_7_paragraph_4 = codes "1"
bonded_area_value article_7_paragraph_7 = codes "2"
bonded_area_value free_trade_zone = codes "3"
bonded_area_value other_area = codes "4"

-- A reason is a `u8`, of three digits at most.
abbrev pub zero_tax_rate_reason_value : ZeroTaxRateReason → Str
zero_tax_rate_reason_value r = digits 3 r.value
