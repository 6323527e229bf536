-- ===== src/Envelope/Wire.antt =====
-- crates/einvoice-envelope/src/wire.rs: the XML of an envelope. A function that appends to `output`
-- in the source returns here what it appends.
pub mod Lines
use tw_einvoice_rs.Base.{
  ℕ, suc, ◌≡◌, refl, Bool, ◌&&◌, Option, none, some, List, [], ◌∷◌, ◌++◌, map, Str, codes, length,
  is_empty, ◌==◌, if◌then◌else◌, Result, ok, err, ◌>>=◌, split, digits, starts_with, arith,
}
use tw_einvoice_rs.Core.{MigVersion, v4_1}
use tw_einvoice_rs.Envelope.{
  PartyInfo, RoutingInfo, EnvelopeRouting, MigPayload, InvoiceEnvelope, count,
}
use tw_einvoice_rs.Envelope.Utf8.{is_utf8, trim_start}

abbrev pub lf : ℕ
lf = 10

abbrev pub cr : ℕ
cr = 13

abbrev xsi_namespace : Str
xsi_namespace = codes "http://www.w3.org/2001/XMLSchema-instance"

abbrev envelope_namespace_v41 : Str
envelope_namespace_v41 = codes "urn:GEINV:InvoiceEnvelope:4.1"

abbrev envelope_schema : Str
envelope_schema = codes "InvoiceEnvelope.xsd"

pub data EnvelopeSerializeError : Type 0 where
  payload_not_utf8 embedded_xml_declaration : ℕ → EnvelopeSerializeError

abbrev pub text_entity : ℕ → Str
text_entity c =
    if c == b'&'
    then codes "&amp;"
    else if c == b'<'
    then codes "&lt;"
    else if c == b'>'
    then codes "&gt;"
    else c ∷ []

abbrev pub push_text_escaped : Str → Str
push_text_escaped [] = []
push_text_escaped (c ∷ s) = text_entity c ++ push_text_escaped s

abbrev pub attribute_entity : ℕ → Str
attribute_entity c =
    if c == b'"' then codes "&quot;" else if c == b'\'' then codes "&apos;" else text_entity c

abbrev pub push_attribute_escaped : Str → Str
push_attribute_escaped [] = []
push_attribute_escaped (c ∷ s) = attribute_entity c ++ push_attribute_escaped s

abbrev pub envelope_profile : MigVersion → Str × Str
envelope_profile v4_1 = (envelope_namespace_v41, codes "v41")

abbrev push_description : Option Str → Str
push_description none = []
push_description (some d) =
    codes "    <Description>" ++ push_text_escaped d ++ codes "</Description>" ++ lf ∷ []

abbrev pub push_party : Str → PartyInfo → Str
push_party tag p =
    codes "  <"
    ++ tag
    ++ codes ">"
    ++ lf ∷ codes "    <PartyId>"
    ++ push_text_escaped p.identifier
    ++ codes "</PartyId>"
    ++ lf ∷ push_description p.description
    ++ codes "  </"
    ++ tag
    ++ codes ">"
    ++ lf ∷ []

abbrev pub push_routing : Str → RoutingInfo → Str
push_routing tag r =
    codes "  <"
    ++ tag
    ++ codes ">"
    ++ lf ∷ codes "    <RoutingId>"
    ++ push_text_escaped r.identifier
    ++ codes "</RoutingId>"
    ++ lf ∷ push_description r.description
    ++ codes "  </"
    ++ tag
    ++ codes ">"
    ++ lf ∷ []

-- `replace("\r\n", "\n")` and `replace('\r', "\n")`.
abbrev pub replace_crlf : Str → Str
replace_crlf [] = []
replace_crlf (c ∷ []) = c ∷ []
replace_crlf (c ∷ d ∷ s) =
    let both = replace_crlf s in
    let one = replace_crlf (d ∷ s) in if (c == cr) && (d == lf) then lf ∷ both else c ∷ one

abbrev pub replace_cr : Str → Str
replace_cr [] = []
replace_cr (c ∷ s) = (if c == cr then lf else c) ∷ replace_cr s

-- `split_terminator`: `split` without an empty part at the end.
abbrev pub drop_last_empty : List Str → List Str
drop_last_empty [] = []
drop_last_empty (p ∷ []) = if is_empty p then [] else p ∷ []
drop_last_empty (p ∷ q ∷ ps) = p ∷ drop_last_empty (q ∷ ps)

abbrev pub split_terminator : ℕ → Str → List Str
split_terminator c s = drop_last_empty (split c s)

abbrev pub push_lines : List Str → Str
push_lines [] = []
push_lines (p ∷ ps) = p ++ lf ∷ push_lines ps

unfoldable pub append_normalized : Str → Str
append_normalized normalized =
    if is_empty normalized then lf ∷ [] else push_lines (split_terminator lf normalized)

unfoldable pub append_like_java_read_line : Str → Str
append_like_java_read_line input = append_normalized (replace_cr (replace_crlf input))

unfoldable pub payload_text : ℕ → MigPayload → Result Str EnvelopeSerializeError
payload_text index p =
    if is_utf8 p.bytes
    then (if starts_with (trim_start p.bytes) (codes "<?xml")
        then err (embedded_xml_declaration index)
        else ok (append_like_java_read_line p.bytes))
    else err (payload_not_utf8 index)

-- The loop over the payloads, from `index` on.
unfoldable pub push_payloads : ℕ → List MigPayload → Result Str EnvelopeSerializeError
push_payloads index [] = ok []
push_payloads index (p ∷ ps) =
    payload_text index p >>= λ text. push_payloads (suc index) ps >>= λ rest. ok (text ++ rest)

abbrev pub opening : InvoiceEnvelope → Str
opening e =
    let (namespace, version_token) = envelope_profile e.metadata.version in
    lf ∷ codes "<InvoiceEnvelope xmlns=\""
    ++ push_attribute_escaped namespace
    ++ codes "\" xmlns:xsi=\""
    ++ push_attribute_escaped xsi_namespace
    ++ codes "\" xsi:schemaLocation=\""
    ++ push_attribute_escaped namespace
    ++ codes " "
    ++ push_attribute_escaped envelope_schema
    ++ codes "\">"
    ++ lf ∷ push_party (codes "From") e.routing.from
    ++ push_routing (codes "FromVAC") e.routing.from_vac
    ++ push_party (codes "To") e.routing.to
    ++ push_routing (codes "ToVAC") e.routing.to_vac
    ++ codes "  <InvoicePack count=\""
    ++ digits 20 (count e)
    ++ codes "\" messageType=\""
    ++ push_attribute_escaped e.metadata.message_type
    ++ codes "\" version=\""
    ++ push_attribute_escaped version_token
    ++ codes "\">"
    ++ lf ∷ []

abbrev pub closing : Str
closing = codes "</InvoicePack>" ++ lf ∷ codes "</InvoiceEnvelope>" ++ lf ∷ []

unfoldable pub to_turnkey_xml : InvoiceEnvelope → Result Str EnvelopeSerializeError
to_turnkey_xml e = push_payloads 0 e.payloads >>= λ text. ok (opening e ++ (text ++ closing))
