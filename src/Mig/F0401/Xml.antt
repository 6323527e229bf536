-- ===== src/Mig/F0401/Xml.antt =====
-- crates/einvoice-mig/src/f0401.rs: `to_xml`. Where the source appends to the output, the functions
-- here return the text that they append.
use tw_einvoice_rs.Base.{
  ℕ, ◌==◌, if◌then◌else◌, Option, none, some, List, [], ◌∷◌, ◌++◌, Str, codes,
}
use tw_einvoice_rs.Mig.Marks.{
  invoice_type_value, donate_mark_value, print_mark_value, tax_type_value, tax_rate_value,
  buyer_remark_value, customs_clearance_mark_value, bonded_area_value, zero_tax_rate_reason_value,
}
use tw_einvoice_rs.Mig.F0401.{
  RoleDescription, F0401Main, ProductItem, F0401Amount, F0401Invoice, f0401_namespace,
}
pub mod Markup

-- One byte of the text; the characters that are not ASCII have no byte below 128.
abbrev pub escape_byte : ℕ → Str
escape_byte c =
    if c == b'&'
    then codes "&amp;"
    else if c == b'<'
    then codes "&lt;"
    else if c == b'>'
    then codes "&gt;"
    else if c == 34
    then codes "&quot;"
    else if c == 39
    then codes "&apos;"
    else c ∷ []

unfoldable pub push_escaped : Str → Str
push_escaped [] = []
push_escaped (c ∷ s) = escape_byte c ++ push_escaped s

unfoldable pub push_text_element : Str → Str → Str
push_text_element tag value =
    b'<' ∷ tag ++ (b'>' ∷ push_escaped value ++ (b'<' ∷ b'/' ∷ tag ++ b'>' ∷ []))

unfoldable pub push_optional : Str → Option Str → Str
push_optional tag none = []
push_optional tag (some value) = push_text_element tag value

-- `if let Some(value) = … { push_text_element(…, f(value)) }`.
unfoldable pub push_some {ℓ} : {A : Type ℓ} → Str → (A → Str) → Option A → Str
push_some tag f none = []
push_some tag f (some value) = push_text_element tag (f value)

unfoldable pub push_role : Str → RoleDescription → Str
push_role tag r =
    b'<' ∷ tag
    ++ (b'>' ∷ push_text_element (codes "Identifier") r.identifier.digits
        ++ (push_text_element (codes "Name") r.name
            ++ (push_optional (codes "Address") r.address
                ++ (push_optional (codes "PersonInCharge") r.person_in_charge
                    ++ (push_optional (codes "TelephoneNumber") r.telephone_number
                        ++ (push_optional (codes "FacsimileNumber") r.facsimile_number
                            ++ (push_optional (codes "EmailAddress") r.email_address
                                ++ (push_optional (codes "CustomerNumber") r.customer_number
                                    ++ (push_optional (codes "RoleRemark") r.role_remark
                                        ++ (codes "</" ++ tag ++ codes ">"))))))))))

unfoldable pub push_main_xml : F0401Main → Str
push_main_xml m =
    codes "<Main>"
    ++ (push_text_element (codes "InvoiceNumber") m.invoice_number.text
        ++ (push_text_element (codes "InvoiceDate") m.invoice_date.text
            ++ (push_text_element (codes "InvoiceTime") m.invoice_time.text
                ++ (push_role (codes "Seller") m.seller
                    ++ (push_role (codes "Buyer") m.buyer
                        ++ (push_some (codes "BuyerRemark") buyer_remark_value m.buyer_remark
                            ++ (push_optional (codes "MainRemark") m.main_remark
                                ++ (push_some (codes "CustomsClearanceMark")
                                      customs_clearance_mark_value m.customs_clearance_mark
                                    ++ (push_optional (codes "Category") m.category
                                        ++ (push_optional (codes "RelateNumber") m.relate_number
                                            ++ (push_text_element (codes "InvoiceType")
                                                  (invoice_type_value m.invoice_type)
                                                ++ (push_optional (codes "GroupMark") m.group_mark
                                                    ++ (push_text_element (codes "DonateMark")
                                                          (donate_mark_value m.donate_mark)
                                                        ++ (push_optional (codes "CarrierType")
                                                            m.carrier_type
                                                            ++ (push_optional (codes "CarrierId1")
                                                            m.carrier_id1
                                                            ++ (push_optional (codes "CarrierId2")
                                                            m.carrier_id2
                                                            ++ (push_text_element
                                                            (codes "PrintMark")
                                                            (print_mark_value m.print_mark)
                                                            ++ (push_some (codes "NPOBAN")
                                                            (λ ban. ban.digits) m.npo_ban
                                                            ++ (push_optional (codes "RandomNumber")
                                                            m.random_number
                                                            ++ (push_some
                                                            (codes "BondedAreaConfirm")
                                                            bonded_area_value m.bonded_area_confirm
                                                            ++ (push_some
                                                            (codes "ZeroTaxRateReason")
                                                            zero_tax_rate_reason_value
                                                            m.zero_tax_rate_reason
                                                            ++ (push_optional (codes "Reserved1")
                                                            m.reserved1
                                                            ++ (push_optional (codes "Reserved2")
                                                            m.reserved2
                                                            ++ codes
                                                            "</Main>")))))))))))))))))))))))

-- One round of the loop over the items.
unfoldable pub push_item : ProductItem → Str
push_item item =
    codes "<ProductItem>"
    ++ (push_text_element (codes "Description") item.description
        ++ (push_text_element (codes "Quantity") item.quantity.text
            ++ (push_optional (codes "Unit") item.unit
                ++ (push_text_element (codes "UnitPrice") item.unit_price.text
                    ++ (push_text_element (codes "TaxType") (tax_type_value item.tax_type)
                        ++ (push_text_element (codes "Amount") item.amount.text
                            ++ (push_text_element (codes "SequenceNumber") item.sequence_number
                                ++ (push_optional (codes "Remark") item.remark
                                    ++ (push_optional (codes "RelateNumber") item.relate_number
                                        ++ codes "</ProductItem>")))))))))

unfoldable pub push_items : List ProductItem → Str
push_items [] = []
push_items (item ∷ items) = push_item item ++ push_items items

unfoldable pub push_details_xml : List ProductItem → Str
push_details_xml items = codes "<Details>" ++ (push_items items ++ codes "</Details>")

unfoldable pub push_amount_xml : F0401Amount → Str
push_amount_xml a =
    codes "<Amount>"
    ++ (push_text_element (codes "SalesAmount") a.sales_amount.text
        ++ (push_text_element (codes "FreeTaxSalesAmount") a.free_tax_sales_amount.text
            ++ (push_text_element (codes "ZeroTaxSalesAmount") a.zero_tax_sales_amount.text
                ++ (push_text_element (codes "TaxType") (tax_type_value a.tax_type)
                    ++ (push_text_element (codes "TaxRate") (tax_rate_value a.tax_rate)
                        ++ (push_text_element (codes "TaxAmount") a.tax_amount.text
                            ++ (push_text_element (codes "TotalAmount") a.total_amount.text
                                ++ (push_some (codes "DiscountAmount") (λ d. d.text)
                                      a.discount_amount
                                    ++ (push_some (codes "OriginalCurrencyAmount") (λ d. d.text)
                                          a.original_currency_amount
                                        ++ (push_some (codes "ExchangeRate") (λ d. d.text)
                                              a.exchange_rate
                                            ++ (push_some (codes "Currency") (λ c. c.text)
                                                  a.currency
                                                ++ codes "</Amount>")))))))))))

unfoldable pub to_xml : F0401Invoice → Str
to_xml i =
    codes "<Invoice xmlns=\""
    ++ (f0401_namespace
        ++ (codes "\">"
            ++ (push_main_xml i.main
                ++ (push_details_xml i.details
                    ++ (push_amount_xml i.amount ++ codes "</Invoice>")))))
