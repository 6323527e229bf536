-- ===== src/Transport/Tests.antt =====
-- The theorems of Transport at concrete inputs: a common name of the source's tests, and an uploader
-- and a notifier that accept everything.
use tw_einvoice_rs.Base.{
  ℕ, ◌<◌, ◌≤◌, ◌≡◌, ◌↔◌, refl, sym, ap, ◌∙◌, Bool, true, false, none, List, [], ◌∷◌, map, Str,
  codes, length, ends_with, split, Result, ok, err, pos, i32_bound, arith,
}
use tw_einvoice_rs.Results.{ProcessResult, SummaryResult, ResultRouting}
use tw_einvoice_rs.Transport.CommonName.{
  MessageCommonName, segment_lengths, hyphen, parse_iff, render-parse,
}
use tw_einvoice_rs.Transport.CommonName as CommonName
use tw_einvoice_rs.Transport.PackFilename.{
  TurnkeyPackFilename, parse, render, parse-render, of_parts, pack_parts,
}
use tw_einvoice_rs.Transport.Inbound.{
  InboundObjectKind, process_result, summary_result, invoice, classify_remote_name,
  parse_reconciliation, ParsedReconciliation, e05, e0501,
}
use tw_einvoice_rs.Transport.Inbound as Inbound
use tw_einvoice_rs.Transport.Inbound.Classes.{Suffix, suffix, classify_invoice_iff}
use tw_einvoice_rs.Transport.Inbound.Reconciled.{ReadFrom, parse_reconciliation-ReadFrom}
use tw_einvoice_rs.Transport.Gateway.{
  GatewayParty, GatewayCredentials, UploadNotification, GatewayProcessStatus, WireInvoiceEvent,
  exchange, plain, zip, wire_event, to_pfs001,
}
use tw_einvoice_rs.Transport.Gateway.Wire.{IsOnWire, to_pfs001_iff}
use tw_einvoice_rs.Transport.Package.{
  PreparedUploadObject, PrepareUploadError, IsBasename, max_signed_source_bytes, object_bytes,
  prepare_upload_object, prepare_upload_object_iff, validate_basename, notification_size_of,
}
use tw_einvoice_rs.Transport.Native.{
  Event, NativeSubmissionMetadata, NativeSubmissionRequest, initial, submit, upload_prepared,
  notify_uploaded,
}
use tw_einvoice_rs.Transport.Native.Order.{IsOrdered, nothing_sent, submit-IsOrdered}
use tw_einvoice_rs.Transport.Packed.{
  PackArtifactSubmission, submit_pack_artifact, submit_counted, submit_native,
}
use tw_einvoice_rs.Transport.Packed.Order.{IsCounted, submit_pack_artifact-IsCounted}

abbrev name_text : Str
name_text = codes "4.1-F0401-20260824-141623456-550e8400-e29b-41d4-a716-446655440000"

abbrev common : MessageCommonName
common = record {
  mig_version = codes "4.1";
  message_type = codes "F0401";
  date = codes "20260824";
  time = codes "141623456";
  uuid = codes "550e8400-e29b-41d4-a716-446655440000";
}

abbrev pack : TurnkeyPackFilename
pack = record {
  source_name = codes "my_invoice.xml";
  from_party = codes "FROM";
  to_party = codes "TO";
  common_name = common;
  pack_count = pos 27;
}

common_parsed : CommonName.parse name_text ≡ ok common
unfolding CommonName.parse CommonName.parse_segments CommonName.check_segments
common_parsed = refl

parse_iff_example :
    ((c : MessageCommonName) × (CommonName.parse name_text ≡ ok c))
    ↔ (map length (split hyphen name_text) ≡ segment_lengths)
parse_iff_example = parse_iff name_text

parse-render_example : parse (render pack) ≡ ok pack
parse-render_example =
    parse-render pack (λ h. absurd (cc)) common_parsed (omega arith) (omega arith) (omega arith)
      (omega arith)

abbrev signed_count : Str
signed_count =
    codes
      "my_invoice.xml_FROM_TO_4.1-F0401-20260824-141623456-550e8400-e29b-41d4-a716-446655440000_+27"

signed_count_parsed : parse signed_count ≡ ok pack
unfolding parse of_parts pack_parts CommonName.parse CommonName.parse_segments
    CommonName.check_segments
signed_count_parsed = refl

classify_invoice_iff_example : (classify_remote_name name_text ≡ invoice common) ↔ (
    ((s : Suffix) → ends_with name_text (suffix s) ≡ false)
    × (CommonName.parse name_text ≡ ok common))
classify_invoice_iff_example = classify_invoice_iff name_text common

abbrev routing : ResultRouting
routing = record {
  from = record { party_id = codes "F"; description = none };
  from_vac = record { routing_id = codes "FROM"; description = none };
  to = record { party_id = codes "T"; description = none };
  to_vac = record { routing_id = codes "TO"; description = none };
}

abbrev process : ProcessResult
process = record {
  routing = routing;
  message = record {
    id = name_text;
    size = codes "1";
    message_type = codes "F0401";
    service = codes "S";
    action = codes "C0401";
  };
  diagnostics = [];
}

-- Parsers that take every text.
abbrev any_text : Str → Result Str Unit
any_text s = ok s

abbrev any_process : Str → Result ProcessResult Unit
any_process s = ok process

abbrev no_summary : Str → Result SummaryResult Unit
no_summary s = err tt

parse_reconciliation-ReadFrom_example :
    ReadFrom any_text any_process no_summary process_result (codes "x") (Inbound.process process)
unfolding parse_reconciliation
parse_reconciliation-ReadFrom_example =
    parse_reconciliation-ReadFrom any_text any_process no_summary process_result (codes "x") refl

abbrev party : GatewayParty
party = record {
  party_id = codes "12345678";
  party_description = none;
  routing_id = codes "R";
  routing_description = none;
}

abbrev metadata : NativeSubmissionMetadata
metadata =
    initial party party exchange
      (record {
        message_type = codes "F0401";
        action = codes "C0401";
        quantity = 27;
        mig_version = codes "4.1";
      })
      (record { api_version = codes "1"; turnkey_version = codes "3.2.1" })

abbrev notification : UploadNotification
notification = record {
  from = party;
  to = party;
  service_type = exchange;
  zip_mode = plain;
  message_type = codes "F0401";
  action = codes "C0401";
  quantity = 27;
  mig_version = codes "4.1";
  filename = name_text;
  size = 3;
  retry = 0;
  api_version = codes "1";
  turnkey_version = codes "3.2.1";
}

abbrev credentials : GatewayCredentials
credentials = record { login_id = codes "id"; login_password = codes "secret" }

abbrev event : WireInvoiceEvent
event = wire_event notification credentials (pos 27) (pos 3) (pos 0)

to_pfs001_iff_example : (to_pfs001 notification credentials ≡ ok event) ↔ (
    (27 < i32_bound) × (3 < i32_bound) × (0 < i32_bound) × IsOnWire notification credentials event)
to_pfs001_iff_example = to_pfs001_iff notification credentials event

-- A compressor, an uploader and a notifier that take everything.
abbrev store : Str → Str → Result Str (PrepareUploadError Unit Unit)
store local signed = ok signed

abbrev upload_all : List Event → Str → Str → Result (Unit {0}) (Unit {0})
upload_all past name bytes = ok tt

abbrev accept_all : List Event → UploadNotification → Result GatewayProcessStatus Unit
accept_all past n = ok (record { status_code = pos 0; details = [] })

abbrev object : PreparedUploadObject
object = record {
  remote_filename = codes "r";
  uploaded_bytes = codes "abc";
  notification_size = 3;
  zip_mode = zip;
}

prepare_upload_object_iff_example :
    (prepare_upload_object store (codes "l") (codes "r") (codes "abc") zip ≡ ok object) ↔ (
      IsBasename (codes "l")
      × IsBasename (codes "r")
      × (3 ≤ max_signed_source_bytes)
      × (object_bytes store zip (codes "l") (codes "abc") ≡ ok (codes "abc"))
      × (codes "r" ≡ codes "r")
      × (◌≡◌ {A = ℕ} 3 3)
      × (zip ≡ zip))
prepare_upload_object_iff_example =
    prepare_upload_object_iff store (codes "l") (codes "r") (codes "abc") zip object

abbrev request : NativeSubmissionRequest
request = record {
  signed_local_filename = codes "l";
  remote_filename = codes "r";
  signed_bytes = codes "abc";
  zip_mode = plain;
  metadata = metadata;
}

submit-IsOrdered_example :
    IsOrdered store upload_all accept_all (submit store upload_all accept_all [] request).0
submit-IsOrdered_example = submit-IsOrdered store upload_all accept_all [] request nothing_sent

abbrev pack_request : PackArtifactSubmission
pack_request = record {
  filename = pack;
  artifact = codes "abc";
  zip_mode = plain;
  metadata = metadata;
}

abbrev has_event : List Event → Bool
has_event [] = false
has_event (e ∷ es) = true

pack_sent : has_event (submit_pack_artifact store upload_all accept_all [] pack_request).0 ≡ true
unfolding submit_pack_artifact submit_counted submit_native submit upload_prepared notify_uploaded
    prepare_upload_object validate_basename notification_size_of object_bytes
pack_sent = refl

submit_pack_artifact-IsCounted_example : IsCounted store upload_all accept_all pack_request
submit_pack_artifact-IsCounted_example =
    submit_pack_artifact-IsCounted store upload_all accept_all [] pack_request
      (λ h. let e = sym pack_sent ∙ ap has_event h in cc)
