-- ===== src/Mig/F0401/Document/Reading.antt =====
-- `to_xml` of crates/einvoice-mig/src/f0401.rs writes the document of the invoice.
use tw_einvoice_rs.Base.{
  ◌≡◌, refl, sym, ap, ◌∙◌, true, List, [], ◌∷◌, ◌++◌, append_assoc, append-nil, Str, codes,
}
use tw_einvoice_rs.Mig.Marks.{
  invoice_type_value, donate_mark_value, print_mark_value, tax_type_value, tax_rate_value,
  buyer_remark_value, customs_clearance_mark_value, bonded_area_value, zero_tax_rate_reason_value,
}
use tw_einvoice_rs.Mig.F0401.{
  RoleDescription, F0401Main, ProductItem, F0401Amount, F0401Invoice, f0401_namespace,
}
use tw_einvoice_rs.Mig.F0401.Xml.{
  push_role, push_main_xml, push_item, push_items, push_details_xml, push_amount_xml, to_xml,
}
use tw_einvoice_rs.Mig.F0401.Xml.Markup.{markup, read, read-markup}
use tw_einvoice_rs.Mig.F0401.Document.{
  Elements, branch, tokens, role_elements, main_elements, item_elements, details_elements,
  amount_elements, document,
}
use tw_einvoice_rs.Mig.F0401.Document.Writing.{
  Writes, is_tag, nil_step, leaf_step, optional_step, some_step, branch_step, regroup,
}

role_step :
    {es : Elements} {after out : Str} (tag : Str) (r : RoleDescription)
    → is_tag tag ≡ true
    → Writes es after out
    → Writes (branch tag [] (role_elements r) es) after (push_role tag r ++ out)
unfolding push_role role_elements
role_step tag r h w =
    regroup
      (branch_step tag [] h (rw append-nil h)
        (leaf_step (codes "Identifier") r.identifier.digits refl (
          leaf_step (codes "Name") r.name refl (
            optional_step (codes "Address") r.address refl (
              optional_step (codes "PersonInCharge") r.person_in_charge refl (
                optional_step (codes "TelephoneNumber") r.telephone_number refl (
                  optional_step (codes "FacsimileNumber") r.facsimile_number refl (
                    optional_step (codes "EmailAddress") r.email_address refl (
                      optional_step (codes "CustomerNumber") r.customer_number refl
                        (optional_step (codes "RoleRemark") r.role_remark refl nil_step)))))))))
        w)
      (simp append_assoc)

main_step :
    {es : Elements} {after out : Str} (m : F0401Main)
    → Writes es after out
    → Writes (branch (codes "Main") [] (main_elements m) es) after (push_main_xml m ++ out)
unfolding push_main_xml main_elements
main_step m w =
    regroup
      (branch_step (codes "Main") [] refl refl
        (leaf_step (codes "InvoiceNumber") m.invoice_number.text refl (
          leaf_step (codes "InvoiceDate") m.invoice_date.text refl (
            leaf_step (codes "InvoiceTime") m.invoice_time.text refl (
              role_step (codes "Seller") m.seller refl (
                role_step (codes "Buyer") m.buyer refl (
                  some_step (codes "BuyerRemark") buyer_remark_value m.buyer_remark refl (
                    optional_step (codes "MainRemark") m.main_remark refl (
                      some_step (codes "CustomsClearanceMark") customs_clearance_mark_value
                        m.customs_clearance_mark refl
                        (optional_step (codes "Category") m.category refl (
                          optional_step (codes "RelateNumber") m.relate_number refl (
                            leaf_step (codes "InvoiceType") (invoice_type_value m.invoice_type) refl
                              (optional_step (codes "GroupMark") m.group_mark refl (
                                leaf_step (codes "DonateMark") (donate_mark_value m.donate_mark)
                                  refl
                                  (optional_step (codes "CarrierType") m.carrier_type refl (
                                    optional_step (codes "CarrierId1") m.carrier_id1 refl (
                                      optional_step (codes "CarrierId2") m.carrier_id2 refl (
                                        leaf_step (codes "PrintMark")
                                          (print_mark_value m.print_mark) refl
                                          (some_step (codes "NPOBAN") (λ ban. ban.digits) m.npo_ban
                                            refl
                                            (optional_step (codes "RandomNumber") m.random_number
                                              refl
                                              (some_step (codes "BondedAreaConfirm")
                                                bonded_area_value m.bonded_area_confirm refl
                                                (some_step (codes "ZeroTaxRateReason")
                                                  zero_tax_rate_reason_value m.zero_tax_rate_reason
                                                  refl
                                                  (optional_step (codes "Reserved1") m.reserved1
                                                    refl
                                                    (optional_step (codes "Reserved2") m.reserved2
                                                      refl nil_step)))))))))))))))))))))))
        w)
      (simp append_assoc)

item_step :
    {es : Elements} {after out : Str} (item : ProductItem)
    → Writes es after out
    → Writes (branch (codes "ProductItem") [] (item_elements item) es) after (push_item item ++ out)
unfolding push_item item_elements
item_step item w =
    regroup
      (branch_step (codes "ProductItem") [] refl refl
        (leaf_step (codes "Description") item.description refl (
          leaf_step (codes "Quantity") item.quantity.text refl (
            optional_step (codes "Unit") item.unit refl (
              leaf_step (codes "UnitPrice") item.unit_price.text refl (
                leaf_step (codes "TaxType") (tax_type_value item.tax_type) refl (
                  leaf_step (codes "Amount") item.amount.text refl (
                    leaf_step (codes "SequenceNumber") item.sequence_number refl (
                      optional_step (codes "Remark") item.remark refl (
                        optional_step (codes "RelateNumber") item.relate_number refl
                          nil_step)))))))))
        w)
      (simp append_assoc)

items_step :
    (items : List ProductItem) (after : Str)
    → Writes (details_elements items) after (push_items items ++ after)
unfolding push_items details_elements
items_step [] after = nil_step
items_step (item ∷ items) after =
    regroup (item_step item (items_step items after)) (simp append_assoc)

details_step :
    {es : Elements} {after out : Str} (items : List ProductItem)
    → Writes es after out
    → Writes
        (branch (codes "Details") [] (details_elements items) es)
        after
        (push_details_xml items ++ out)
unfolding push_details_xml
details_step items w =
    regroup (branch_step (codes "Details") [] refl refl (items_step items _) w) (simp append_assoc)

amount_step :
    {es : Elements} {after out : Str} (a : F0401Amount)
    → Writes es after out
    → Writes (branch (codes "Amount") [] (amount_elements a) es) after (push_amount_xml a ++ out)
unfolding push_amount_xml amount_elements
amount_step a w =
    regroup
      (branch_step (codes "Amount") [] refl refl
        (leaf_step (codes "SalesAmount") a.sales_amount.text refl (
          leaf_step (codes "FreeTaxSalesAmount") a.free_tax_sales_amount.text refl (
            leaf_step (codes "ZeroTaxSalesAmount") a.zero_tax_sales_amount.text refl (
              leaf_step (codes "TaxType") (tax_type_value a.tax_type) refl (
                leaf_step (codes "TaxRate") (tax_rate_value a.tax_rate) refl (
                  leaf_step (codes "TaxAmount") a.tax_amount.text refl (
                    leaf_step (codes "TotalAmount") a.total_amount.text refl (
                      some_step (codes "DiscountAmount") (λ d. d.text) a.discount_amount refl
                        (some_step (codes "OriginalCurrencyAmount") (λ d. d.text)
                          a.original_currency_amount refl
                          (some_step (codes "ExchangeRate") (λ d. d.text) a.exchange_rate refl
                            (some_step (codes "Currency") (λ c. c.text) a.currency refl
                              nil_step)))))))))))
        w)
      (simp append_assoc)

document-Writes : (i : F0401Invoice) → Writes (document i) [] (to_xml i)
unfolding to_xml document
document-Writes i =
    branch_step (codes "Invoice") (codes " xmlns=\"" ++ f0401_namespace ++ codes "\"") refl refl
      (main_step i.main (details_step i.details (amount_step i.amount nil_step))) nil_step

-- A reader of tags and texts, which decodes the entities, finds in the XML of an invoice exactly
-- its document: the fields that are given, in the order of the schema, each with its text and
-- in its own pair of tags, whatever characters the texts have.
pub read-to_xml : (i : F0401Invoice) → read (to_xml i) ≡ tokens (document i)
read-to_xml i =
    let w = document-Writes i in
    ap (λ s. read s) (sym w.written ∙ append-nil (markup (tokens (document i))))
    ∙ read-markup (tokens (document i)) w.tags
