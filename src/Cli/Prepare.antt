-- ===== src/Cli/Prepare.antt =====
-- apps/einvoice-cli/src/main.rs: `build_submission_plan` and `prepare`. The reading of files, of the
-- environment and of the key are parameters.
use tw_einvoice_rs.Base.{List, [], ◌∷◌, Str, Result, ok, map_err, ◌>>=◌}
use tw_einvoice_rs.Core.{v4_1}
use tw_einvoice_rs.Envelope.{
  EnvelopeError, MigPayload, new_payload, EnvelopeRouting, InvoicePackMetadata, new_envelope,
}
use tw_einvoice_rs.Transport.CommonName.{FilenameError}
use tw_einvoice_rs.Transport.PackFilename.{TurnkeyPackFilename}
use tw_einvoice_rs.Transport.PackFilename as PackFilename
use tw_einvoice_rs.Pack.{CmsSigner}
use tw_einvoice_rs.Client.{
  SubmissionPlan, PreparedSubmission, PrepareSubmissionError, prepare_submission,
}
use tw_einvoice_rs.Cli.{
  CommonPrepareArgs, CliError, Variable, into_service_type, into_zip_mode, read_secret_environment,
}

-- `Box<dyn Error>`, with the errors of the system, of the key, of the signer, and of a submission
-- and of a pass over the inbox.
pub data RunError (I K E X : Type 0) : Type 0 where
  cli_error : CliError → RunError I K E X
  io_failed : I → RunError I K E X
  key_failed : K → RunError I K E X
  filename_failed : FilenameError → RunError I K E X
  envelope_failed : EnvelopeError → RunError I K E X
  prepare_failed : PrepareSubmissionError E → RunError I K E X
  network_failed : X → RunError I K E X

abbrev pub routing_of : CommonPrepareArgs → TurnkeyPackFilename → EnvelopeRouting
routing_of args filename = record {
  from = record { identifier = filename.from_party; description = args.from_description };
  from_vac = record { identifier = args.from_vac; description = args.from_vac_description };
  to = record { identifier = filename.to_party; description = args.to_description };
  to_vac = record { identifier = args.to_vac; description = args.to_vac_description };
}

abbrev pub pack_metadata : TurnkeyPackFilename → InvoicePackMetadata
pack_metadata filename = record { message_type = filename.common_name.message_type; version = v4_1 }

module _ {I K E X : Type 0} (read_file : Str → Result Str I) where
  -- The loop over the payloads.
  unfoldable pub read_payloads : List Str → Result (List MigPayload) (RunError I K E X)
  read_payloads [] = ok []
  read_payloads (path ∷ paths) = map_err io_failed (read_file path) >>= λ bytes.
      map_err envelope_failed (new_payload bytes) >>= λ payload.
      read_payloads paths >>= λ payloads. ok (payload ∷ payloads)

  unfoldable pub build_submission_plan :
      CommonPrepareArgs → Result SubmissionPlan (RunError I K E X)
  build_submission_plan args =
      map_err filename_failed (PackFilename.parse args.filename) >>= λ filename.
      read_payloads args.mig >>= λ payloads.
      map_err envelope_failed
        (new_envelope (routing_of args filename) (pack_metadata filename) payloads)
      >>= λ envelope. ok (record {
        envelope = envelope;
        filename = filename;
        service_type = into_service_type args.service;
        zip_mode = into_zip_mode args.zip;
        action = args.action;
        versions = record {
          api_version = args.api_version;
          turnkey_version = args.turnkey_version;
        };
      })

  module _ (encode : Str → Str) (from_der : Str → Str → Result (CmsSigner E) K)
      (variable : Str → Variable) where
    unfoldable pub prepare : CommonPrepareArgs → Result PreparedSubmission (RunError I K E X)
    prepare args = map_err io_failed (read_file args.pfx) >>= λ pfx_der.
        map_err cli_error (read_secret_environment variable args.pfx_password_env) >>= λ password.
        map_err key_failed (from_der pfx_der password) >>= λ signer.
        build_submission_plan args >>= λ plan.
        map_err prepare_failed (prepare_submission encode signer plan)
