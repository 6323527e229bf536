-- ===== src/Client/Tests.antt =====
-- The theorems of Client at concrete inputs: a plan of one payload, with a signer that returns the
-- content and an encoder that returns the bytes.
use tw_einvoice_rs.Base.{
  ◌≡◌, ◌↔◌, refl, none, List, [], ◌∷◌, ◌++◌, Str, codes, Result, ok, pos, arith,
}
use tw_einvoice_rs.Core.{v4_1}
use tw_einvoice_rs.Envelope.{InvoiceEnvelope}
use tw_einvoice_rs.Envelope.Utf8.{is_utf8, trim_start}
use tw_einvoice_rs.Envelope.Wire.{
  append_like_java_read_line, append_normalized, payload_text, push_payloads, to_turnkey_xml,
}
use tw_einvoice_rs.Signing.Ber.{rsa_pkcs1v15_sha256}
use tw_einvoice_rs.Signing.Armor.{to_turnkey_armored}
use tw_einvoice_rs.Pack.{CmsSigner, SignedArtifact, pack_and_sign}
use tw_einvoice_rs.Transport.PackFilename.{TurnkeyPackFilename, render, remote_filename}
use tw_einvoice_rs.Transport.Gateway.{UploadNotification, GatewayProcessStatus, store, plain}
use tw_einvoice_rs.Transport.Package.{PrepareUploadError, IsBasename, is_unsafe_iff, object_bytes}
use tw_einvoice_rs.Transport.Native.{Event}
use tw_einvoice_rs.Client.{
  SubmissionPlan, PreparedSubmission, validate_plan, metadata_of, prepare_submission,
  submit_prepared,
}
use tw_einvoice_rs.Client.Consistency.{IsAgreed, validate_plan_iff, Uploads, prepared-Uploads}

abbrev filename : TurnkeyPackFilename
filename = record {
  source_name = codes "invoice.xml";
  from_party = codes "FROM";
  to_party = codes "TO";
  common_name = record {
    mig_version = codes "4.1";
    message_type = codes "F0401";
    date = codes "20260824";
    time = codes "141623456";
    uuid = codes "550e8400-e29b-41d4-a716-446655440000";
  };
  pack_count = pos 1;
}

abbrev envelope : InvoiceEnvelope
envelope = record {
  routing = record {
    from = record { identifier = codes "FROM"; description = none };
    from_vac = record { identifier = codes "FROM-VAC"; description = none };
    to = record { identifier = codes "TO"; description = none };
    to_vac = record { identifier = codes "TO-VAC"; description = none };
  };
  metadata = record { message_type = codes "F0401"; version = v4_1 };
  payloads = record { bytes = codes "<a/>" } ∷ [];
}

abbrev plan : SubmissionPlan
plan = record {
  envelope = envelope;
  filename = filename;
  service_type = store;
  zip_mode = plain;
  action = codes "C0401";
  versions = record { api_version = codes "1"; turnkey_version = codes "3.2.1" };
}

validate_plan_iff_example : (validate_plan plan ≡ ok tt) ↔ IsAgreed plan
validate_plan_iff_example = validate_plan_iff plan

abbrev encode : Str → Str
encode s = s

abbrev signer : CmsSigner Unit
signer = record {
  algorithm = rsa_pkcs1v15_sha256;
  sign_attached = λ s. ok (record { encoded = codes "signed" });
}

abbrev artifact : SignedArtifact
artifact = record {
  upload_bytes = codes "signed" ++ 10 ∷ [];
  envelope_size = 485;
  signature_algorithm = rsa_pkcs1v15_sha256;
}

abbrev prepared : PreparedSubmission
prepared = record {
  filename = filename;
  artifact = artifact;
  zip_mode = plain;
  metadata = metadata_of plan 1;
}

plan-prepared : prepare_submission encode signer plan ≡ ok prepared
unfolding prepare_submission validate_plan pack_and_sign to_turnkey_xml push_payloads payload_text
    is_utf8 trim_start append_like_java_read_line append_normalized to_turnkey_armored
plan-prepared = refl

abbrev zip_none : Str → Str → Result Str (PrepareUploadError Unit Unit)
zip_none local signed = ok signed

abbrev upload_all : List Event → Str → Str → Result (Unit {0}) (Unit {0})
upload_all past name bytes = ok tt

abbrev accept_all : List Event → UploadNotification → Result GatewayProcessStatus Unit
accept_all past n = ok (record { status_code = pos 0; details = [] })

local_IsBasename : IsBasename (render filename)
local_IsBasename = (is_unsafe_iff (render filename)).0 refl

remote_IsBasename : IsBasename (remote_filename filename)
remote_IsBasename = (is_unsafe_iff (remote_filename filename)).0 refl

prepared-Uploads_example :
    Uploads encode signer zip_none upload_all accept_all []
      (remote_filename filename)
      (codes "signed" ++ 10 ∷ [])
      1
      7
      (submit_prepared zip_none upload_all accept_all [] prepared).0
unfolding object_bytes
prepared-Uploads_example =
    prepared-Uploads encode signer zip_none upload_all accept_all plan prepared []
      (codes "signed" ++ 10 ∷ []) plan-prepared local_IsBasename remote_IsBasename (omega arith)
      refl
