-- ===== src/Mig/F0401/Document.antt =====
-- The document of an invoice F0401 as nested elements, apart from the text that `to_xml` of
-- crates/einvoice-mig/src/f0401.rs makes of it. Its child proves that the text is read as it.
use tw_einvoice_rs.Base.{Option, none, some, List, [], ◌∷◌, ◌++◌, Str, codes}
use tw_einvoice_rs.Mig.Marks.{
  invoice_type_value, donate_mark_value, print_mark_value, tax_type_value, tax_rate_value,
  buyer_remark_value, customs_clearance_mark_value, bonded_area_value, zero_tax_rate_reason_value,
}
use tw_einvoice_rs.Mig.F0401.{
  RoleDescription, F0401Main, ProductItem, F0401Amount, F0401Invoice, f0401_namespace,
}
use tw_einvoice_rs.Mig.F0401.Xml.Markup.{Token}
pub mod Writing
pub mod Reading

-- Elements beside one another: an element with a text, or one with its attributes and elements.
pub data Elements : Type 0 where
  nil : Elements
  leaf : Str → Str → Elements → Elements
  branch : Str → Str → Elements → Elements → Elements

-- The tags and texts in their order. Every element is closed by its own tag.
abbrev pub tokens : Elements → List Token
tokens nil = []
tokens (leaf tag text rest) = (tag, text) ∷ (b'/' ∷ tag, []) ∷ tokens rest
tokens (branch tag attributes inside rest) =
    (tag ++ attributes, []) ∷ tokens inside ++ (b'/' ∷ tag, []) ∷ tokens rest

infixr 20 ◌▸◌
abbrev pub ◌▸◌ : (Elements → Elements) → Elements → Elements
f ▸ es = f es

unfoldable pub optional {ℓ} : {A : Type ℓ} → Str → (A → Str) → Option A → Elements → Elements
optional tag f none rest = rest
optional tag f (some value) rest = leaf tag (f value) rest

abbrev pub same : Str → Str
same s = s

unfoldable pub role_elements : RoleDescription → Elements
role_elements r =
    leaf (codes "Identifier") r.identifier.digits
    ▸ leaf (codes "Name") r.name
    ▸ optional (codes "Address") same r.address
    ▸ optional (codes "PersonInCharge") same r.person_in_charge
    ▸ optional (codes "TelephoneNumber") same r.telephone_number
    ▸ optional (codes "FacsimileNumber") same r.facsimile_number
    ▸ optional (codes "EmailAddress") same r.email_address
    ▸ optional (codes "CustomerNumber") same r.customer_number
    ▸ optional (codes "RoleRemark") same r.role_remark
    ▸ nil

unfoldable pub main_elements : F0401Main → Elements
main_elements m =
    leaf (codes "InvoiceNumber") m.invoice_number.text
    ▸ leaf (codes "InvoiceDate") m.invoice_date.text
    ▸ leaf (codes "InvoiceTime") m.invoice_time.text
    ▸ branch (codes "Seller") [] (role_elements m.seller)
    ▸ branch (codes "Buyer") [] (role_elements m.buyer)
    ▸ optional (codes "BuyerRemark") buyer_remark_value m.buyer_remark
    ▸ optional (codes "MainRemark") same m.main_remark
    ▸ optional (codes "CustomsClearanceMark") customs_clearance_mark_value m.customs_clearance_mark
    ▸ optional (codes "Category") same m.category
    ▸ optional (codes "RelateNumber") same m.relate_number
    ▸ leaf (codes "InvoiceType") (invoice_type_value m.invoice_type)
    ▸ optional (codes "GroupMark") same m.group_mark
    ▸ leaf (codes "DonateMark") (donate_mark_value m.donate_mark)
    ▸ optional (codes "CarrierType") same m.carrier_type
    ▸ optional (codes "CarrierId1") same m.carrier_id1
    ▸ optional (codes "CarrierId2") same m.carrier_id2
    ▸ leaf (codes "PrintMark") (print_mark_value m.print_mark)
    ▸ optional (codes "NPOBAN") (λ ban. ban.digits) m.npo_ban
    ▸ optional (codes "RandomNumber") same m.random_number
    ▸ optional (codes "BondedAreaConfirm") bonded_area_value m.bonded_area_confirm
    ▸ optional (codes "ZeroTaxRateReason") zero_tax_rate_reason_value m.zero_tax_rate_reason
    ▸ optional (codes "Reserved1") same m.reserved1
    ▸ optional (codes "Reserved2") same m.reserved2
    ▸ nil

unfoldable pub item_elements : ProductItem → Elements
item_elements item =
    leaf (codes "Description") item.description
    ▸ leaf (codes "Quantity") item.quantity.text
    ▸ optional (codes "Unit") same item.unit
    ▸ leaf (codes "UnitPrice") item.unit_price.text
    ▸ leaf (codes "TaxType") (tax_type_value item.tax_type)
    ▸ leaf (codes "Amount") item.amount.text
    ▸ leaf (codes "SequenceNumber") item.sequence_number
    ▸ optional (codes "Remark") same item.remark
    ▸ optional (codes "RelateNumber") same item.relate_number
    ▸ nil

unfoldable pub details_elements : List ProductItem → Elements
details_elements [] = nil
details_elements (item ∷ items) =
    branch (codes "ProductItem") [] (item_elements item) (details_elements items)

unfoldable pub amount_elements : F0401Amount → Elements
amount_elements a =
    leaf (codes "SalesAmount") a.sales_amount.text
    ▸ leaf (codes "FreeTaxSalesAmount") a.free_tax_sales_amount.text
    ▸ leaf (codes "ZeroTaxSalesAmount") a.zero_tax_sales_amount.text
    ▸ leaf (codes "TaxType") (tax_type_value a.tax_type)
    ▸ leaf (codes "TaxRate") (tax_rate_value a.tax_rate)
    ▸ leaf (codes "TaxAmount") a.tax_amount.text
    ▸ leaf (codes "TotalAmount") a.total_amount.text
    ▸ optional (codes "DiscountAmount") (λ d. d.text) a.discount_amount
    ▸ optional (codes "OriginalCurrencyAmount") (λ d. d.text) a.original_currency_amount
    ▸ optional (codes "ExchangeRate") (λ d. d.text) a.exchange_rate
    ▸ optional (codes "Currency") (λ c. c.text) a.currency
    ▸ nil

unfoldable pub document : F0401Invoice → Elements
document i =
    branch (codes "Invoice") (codes " xmlns=\"" ++ f0401_namespace ++ codes "\"")
      (branch (codes "Main") [] (main_elements i.main)
        ▸ branch (codes "Details") [] (details_elements i.details)
        ▸ branch (codes "Amount") [] (amount_elements i.amount)
        ▸ nil)
      nil
