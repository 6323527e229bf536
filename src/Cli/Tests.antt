-- ===== src/Cli/Tests.antt =====
-- The theorems of Cli on a machine with a payload and a key in its files, with a signer that returns
-- fixed bytes.
use tw_einvoice_rs.Base.{
  ◌≡◌, ◌≢◌, ◌↔◌, inl, refl, false, none, some, List, [], ◌∷◌, All, Str, codes, length, is_empty,
  str_eq, if◌then◌else◌, Option, Result, ok, err, pos,
}
use tw_einvoice_rs.Core.{v4_1}
use tw_einvoice_rs.Envelope.{new_payload, new_envelope}
use tw_einvoice_rs.Envelope.Utf8.{is_utf8, trim_start}
use tw_einvoice_rs.Envelope.Wire.{
  append_like_java_read_line, append_normalized, payload_text, push_payloads, to_turnkey_xml,
}
use tw_einvoice_rs.Signing.Ber.{rsa_pkcs1v15_sha256}
use tw_einvoice_rs.Signing.Armor.{to_turnkey_armored}
use tw_einvoice_rs.Pack.{pack_and_sign}
use tw_einvoice_rs.Client.{SubmissionPlan, validate_plan, prepare_submission, submit_prepared}
use tw_einvoice_rs.Transport.CommonName as CommonName
use tw_einvoice_rs.Transport.PackFilename as PackFilename
use tw_einvoice_rs.Transport.PackFilename.{pack_parts, of_parts}
use tw_einvoice_rs.Transport.Gateway.{store, plain}
use tw_einvoice_rs.Transport.Native as Native
use tw_einvoice_rs.Transport.Packed.{submit_native, submit_counted, submit_pack_artifact}
use tw_einvoice_rs.Transport.Package.{
  prepare_upload_object, validate_basename, notification_size_of, object_bytes,
}
use tw_einvoice_rs.Transport.Reconciliation.{PollAttempt}
use tw_einvoice_rs.Transport.Sftp.{SftpConfig, SftpCredentials, new_config}
use tw_einvoice_rs.Cli.{
  CommonPrepareArgs, SubmitArgs, ReceiveArgs, store_arg, plain_arg, test, Variable, present,
  read_secret_environment,
}
use tw_einvoice_rs.Cli.Artifact.{Files, persist_artifact}
use tw_einvoice_rs.Cli.Prepare.{RunError, read_payloads, build_submission_plan, prepare}
use tw_einvoice_rs.Cli.Run.{Host, run_submit, run_receive}
use tw_einvoice_rs.Cli.Durable.{IsDurable, run_submit-IsDurable, run_submit-spares}
use tw_einvoice_rs.Cli.Plan.{build_submission_plan_iff}
use tw_einvoice_rs.Cli.Receiving.{Succeeded, run_receive_iff}

abbrev files : Files
files path =
    if str_eq path (codes "a.xml")
    then some (codes "<a/>")
    else if str_eq path (codes "key.pfx")
    then some (codes "key")
    else none

abbrev read_option : Option Str → Result Str Unit
read_option none = err tt
read_option (some bytes) = ok bytes

abbrev variable : Str → Variable
variable name = present (codes "secret")

abbrev host : Host Unit Unit Unit Unit Unit Unit Unit Unit
host = record {
  already_exists = tt;
  fault = λ step. none;
  partial = λ bytes. [];
  read = λ fs path. read_option (fs path);
  variable = variable;
  encode = λ s. s;
  from_der = λ der password. ok (record {
    algorithm = rsa_pkcs1v15_sha256;
    sign_attached = λ s. ok (record { encoded = codes "signed" });
  });
  zip_single_entry = λ local signed. ok signed;
  upload = λ config credentials past name bytes. ok tt;
  new_client = λ base credentials. ok tt;
  notify = λ base credentials past n. ok (record { status_code = pos 0; details = [] });
}

abbrev common : CommonPrepareArgs
common = record {
  filename =
      codes "a.xml_FROM_TO_4.1-F0401-20260824-141623456-550e8400-e29b-41d4-a716-446655440000_1";
  mig = codes "a.xml" ∷ [];
  from_vac = codes "FROM-VAC";
  to_vac = codes "TO-VAC";
  from_description = none;
  to_description = none;
  from_vac_description = none;
  to_vac_description = none;
  action = codes "C0401";
  service = store_arg;
  zip = plain_arg;
  pfx = codes "key.pfx";
  pfx_password_env = codes "PFX";
  output = codes "out.p7m";
  force_output = false;
  api_version = codes "3.1.3";
  turnkey_version = codes "3.2.1";
}

abbrev args : SubmitArgs
args = record {
  common = common;
  environment = test;
  known_hosts = codes "known_hosts";
  transport_id = codes "id";
  transport_password_env = codes "TRANSPORT";
}

ne_of_is_empty {ℓ} : {A : Type ℓ} (xs : List A) → is_empty xs ≡ false → xs ≢ []
ne_of_is_empty [] h = λ e. cc
ne_of_is_empty (x ∷ xs) h = λ e. cc

sends : is_empty (run_submit host files args).events ≡ false
unfolding run_submit prepare read_secret_environment build_submission_plan read_payloads
    PackFilename.parse pack_parts of_parts CommonName.parse new_payload new_envelope
    prepare_submission validate_plan pack_and_sign to_turnkey_xml push_payloads payload_text is_utf8
    trim_start append_like_java_read_line append_normalized to_turnkey_armored persist_artifact
    submit_prepared submit_pack_artifact submit_counted submit_native Native.submit
    Native.upload_prepared Native.notify_uploaded Native.receive prepare_upload_object
    CommonName.parse_segments CommonName.check_segments validate_basename notification_size_of
    object_bytes
sends = refl

run_submit-IsDurable_example : IsDurable host files args (run_submit host files args)
run_submit-IsDurable_example =
    run_submit-IsDurable host files args (ne_of_is_empty (run_submit host files args).events sends)

run_submit-spares_example : (run_submit host files args).files (codes "a.xml") ≡ some (codes "<a/>")
run_submit-spares_example = run_submit-spares host files args (codes "a.xml") (inl (λ e. cc))

abbrev read_file : Str → Result Str Unit
read_file path = read_option (files path)

abbrev plan : SubmissionPlan
plan = record {
  envelope = record {
    routing = record {
      from = record { identifier = codes "FROM"; description = none };
      from_vac = record { identifier = codes "FROM-VAC"; description = none };
      to = record { identifier = codes "TO"; description = none };
      to_vac = record { identifier = codes "TO-VAC"; description = none };
    };
    metadata = record { message_type = codes "F0401"; version = v4_1 };
    payloads = record { bytes = codes "<a/>" } ∷ [];
  };
  filename = record {
    source_name = codes "a.xml";
    from_party = codes "FROM";
    to_party = codes "TO";
    common_name = record {
      mig_version = codes "4.1";
      message_type = codes "F0401";
      date = codes "20260824";
      time = codes "141623456";
      uuid = codes "550e8400-e29b-41d4-a716-446655440000";
    };
    pack_count = pos 1;
  };
  service_type = store;
  zip_mode = plain;
  action = codes "C0401";
  versions = record { api_version = codes "3.1.3"; turnkey_version = codes "3.2.1" };
}

builds :
    ◌≡◌ {A = Result SubmissionPlan (RunError Unit Unit Unit Unit)}
      (build_submission_plan read_file common)
      (ok plan)
unfolding build_submission_plan read_payloads PackFilename.parse pack_parts of_parts
    CommonName.parse CommonName.parse_segments CommonName.check_segments new_payload new_envelope
builds = refl

build_submission_plan_iff_example : (validate_plan plan ≡ ok tt) ↔ (
    (plan.filename.pack_count ≡ pos (length common.mig))
    × (plan.filename.common_name.mig_version ≡ codes "4.1"))
build_submission_plan_iff_example =
    build_submission_plan_iff {I = Unit} {K = Unit} {E = Unit} {X = Unit} read_file common plan
      builds

abbrev receive_args : ReceiveArgs
receive_args = record {
  environment = test;
  known_hosts = codes "known_hosts";
  transport_id = codes "id";
  transport_password_env = codes "TRANSPORT";
  inbox_dir = codes "inbox";
}

abbrev poll_none :
    SftpConfig
    → SftpCredentials
    → Str
    → Result (List (PollAttempt (Unit {0}) (Unit {0}) (Unit {0}) (Unit {0}))) (Unit {0})
poll_none config credentials path = ok []

abbrev open_inbox : Str → Result (Unit {0}) (Unit {0})
open_inbox path = ok tt

run_receive_iff_example : (run_receive variable open_inbox poll_none receive_args ≡ ok tt) ↔ (
    (password : Str) × (attempts : List (PollAttempt Unit Unit Unit Unit)) × (codes "TRANSPORT"
      ≢ [])
    × (variable (codes "TRANSPORT") ≡ present password)
    × (open_inbox (codes "inbox") ≡ ok tt)
    × (poll_none
          (new_config (codes "tsftp.einvoice.nat.gov.tw") (codes "known_hosts"))
          (record { username = codes "id"; password = password })
          (codes "inbox")
        ≡ ok attempts)
    × All Succeeded attempts)
run_receive_iff_example = run_receive_iff variable open_inbox poll_none receive_args
