-- ===== src/Envelope/Tests.antt =====
-- The theorems of Envelope at concrete inputs.
use tw_einvoice_rs.Base.{◌≡◌, refl, none, List, [], ◌∷◌, ◌++◌, Str, codes, err, arith}
use tw_einvoice_rs.Core.{v4_1}
use tw_einvoice_rs.Envelope.{EnvelopeRouting, InvoicePackMetadata, MigPayload, InvoiceEnvelope}
use tw_einvoice_rs.Envelope.Utf8.{is_utf8, trim_start}
use tw_einvoice_rs.Envelope.Wire.{
  lf, cr, append_like_java_read_line, append_normalized, payload_text, embedded_xml_declaration,
  payload_not_utf8,
}
use tw_einvoice_rs.Envelope.Wire.Lines.{append_like_java_read_line_id}

abbrev routing : EnvelopeRouting
routing = record {
  from = record { identifier = codes "FROM"; description = none };
  from_vac = record { identifier = codes "FROM-VAC"; description = none };
  to = record { identifier = codes "TO"; description = none };
  to_vac = record { identifier = codes "TO-VAC"; description = none };
}

abbrev metadata : InvoicePackMetadata
metadata = record { message_type = codes "F0401"; version = v4_1 }

abbrev payloads : List MigPayload
payloads = record { bytes = codes "<a/>" } ∷ []

abbrev envelope : InvoiceEnvelope
envelope = record { routing = routing; metadata = metadata; payloads = payloads }

-- One line with each of the endings, and one with none.
abbrev mixed : Str
mixed = codes "a" ++ cr ∷ lf ∷ codes "b" ++ cr ∷ codes "c" ++ lf ∷ lf ∷ codes "d"

test_mixed :
    append_like_java_read_line mixed
    ≡ codes "a" ++ lf ∷ codes "b" ++ lf ∷ codes "c" ++ lf ∷ lf ∷ codes "d" ++ lf ∷ []
unfolding append_like_java_read_line append_normalized
test_mixed = refl

test_not_utf8 : payload_text 3 (record { bytes = 0xff ∷ [] }) ≡ err (payload_not_utf8 3)
unfolding payload_text is_utf8
test_not_utf8 = refl

-- U+3000 in front of a declaration.
test_declaration :
    payload_text 0 (record { bytes = 0xe3 ∷ 0x80 ∷ 0x80 ∷ codes "<?xml ?>" })
    ≡ err (embedded_xml_declaration 0)
unfolding payload_text is_utf8 trim_start
test_declaration = refl

append_like_java_read_line_id_example :
    append_like_java_read_line (codes "<a>" ++ lf ∷ codes "</a>" ++ lf ∷ [])
    ≡ codes "<a>" ++ lf ∷ codes "</a>" ++ lf ∷ []
append_like_java_read_line_id_example =
    append_like_java_read_line_id (codes "<a>" ++ lf ∷ codes "</a>" ++ lf ∷ []) (omega arith) refl
