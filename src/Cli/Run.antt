-- ===== src/Cli/Run.antt =====
-- apps/einvoice-cli/src/main.rs: the commands `prepare`, `submit` and `receive`.
use tw_einvoice_rs.Base.{
  ℕ, ◌+◌, ◌==◌, Bool, true, false, if◌then◌else◌, Option, List, [], ◌∷◌, Str, Result, ok, err,
  map_err, ◌>>=◌,
}
use tw_einvoice_rs.Pack.{CmsSigner}
use tw_einvoice_rs.Client.{PreparedSubmission, submit_prepared}
use tw_einvoice_rs.Transport.Gateway.{GatewayCredentials, UploadNotification, GatewayProcessStatus}
use tw_einvoice_rs.Transport.Package.{PrepareUploadError}
use tw_einvoice_rs.Transport.Native.{Event, NativeSubmissionReceipt}
use tw_einvoice_rs.Transport.Packed.{PackArtifactSubmitError}
use tw_einvoice_rs.Transport.Sftp.{SftpConfig, new_config, SftpCredentials}
use tw_einvoice_rs.Transport.Reconciliation.{PollAttempt}
use tw_einvoice_rs.Cli.{
  SubmitArgs, CommonPrepareArgs, ReceiveArgs, CliError, inbound_object_failures, Variable,
  endpoints, read_secret_environment,
}
use tw_einvoice_rs.Cli.Artifact.{Files, PersistStep, persist_artifact}
use tw_einvoice_rs.Cli.Prepare.{RunError, cli_error, io_failed, network_failed, prepare}

-- The errors of a submission: from the building of the HTTP client, or from the calls.
pub data NetworkError (Z J U N C : Type 0) : Type 0 where
  client_failed : C → NetworkError Z J U N C
  submission_failed : PackArtifactSubmitError Z J U N → NetworkError Z J U N C

-- What the program runs on.
pub record Host (I K E Z J U N C : Type 0) : Type 0 where
  pub already_exists : I
  pub fault : PersistStep → Option I
  pub partial : Str → Str
  pub read : Files → Str → Result Str I
  pub variable : Str → Variable
  pub encode : Str → Str
  pub from_der : Str → Str → Result (CmsSigner E) K
  pub zip_single_entry : Str → Str → Result Str (PrepareUploadError Z J)
  pub upload : SftpConfig → SftpCredentials → List Event → Str → Str → Result (Unit {0}) U
  pub new_client : Str → GatewayCredentials → Result (Unit {0}) C
  pub notify :
      Str → GatewayCredentials → List Event → UploadNotification → Result GatewayProcessStatus N

-- The files that a command leaves, its calls of the network, and its result.
pub record Ran (A F : Type 0) : Type 0 where
  pub files : Files
  pub events : List Event
  pub result : Result A F

module _ {I K E Z J U N C : Type 0} (h : Host I K E Z J U N C) where
  abbrev pub Failure : Type 0
  Failure = RunError I K E (NetworkError Z J U N C)

  abbrev pub prepare_on : Files → CommonPrepareArgs → Result PreparedSubmission Failure
  prepare_on files args = prepare (h.read files) h.encode h.from_der h.variable args

  abbrev pub persist : Files → CommonPrepareArgs → PreparedSubmission → Files × Result (Unit {0}) I
  persist files args p =
      persist_artifact h.already_exists h.fault h.partial files args.output p.artifact.upload_bytes
        args.force_output

  abbrev pub persist_prepared :
      Files → CommonPrepareArgs → Result PreparedSubmission Failure → Ran (Unit {0}) Failure
  persist_prepared files args (err e) = record { files = files; events = []; result = err e }
  persist_prepared files args (ok p) =
      let r = persist files args p in
      record { files = r.0; events = []; result = map_err io_failed r.1 }

  unfoldable pub run_prepare : Files → CommonPrepareArgs → Ran (Unit {0}) Failure
  run_prepare files args = persist_prepared files args (prepare_on files args)

  -- Through the uploader and the notifier of the environment.
  abbrev pub submit_with :
      SubmitArgs
      → PreparedSubmission
      → Str
      → List Event × Result NativeSubmissionReceipt (PackArtifactSubmitError Z J U N)
  submit_with args p password =
      let hosts = endpoints args.environment in
      submit_prepared h.zip_single_entry
        (h.upload (new_config hosts.sftp_host args.known_hosts)
          (record { username = args.transport_id; password = password }))
        (h.notify hosts.gateway_base
          (record { login_id = args.transport_id; login_password = password }))
        [] p

  abbrev pub submit_client :
      Files
      → SubmitArgs
      → PreparedSubmission
      → Str
      → Result (Unit {0}) C
      → Ran NativeSubmissionReceipt Failure
  submit_client files args p password (err e) = record {
    files = files;
    events = [];
    result = err (network_failed (client_failed e));
  }
  submit_client files args p password (ok _) =
      let sent = submit_with args p password in
      record {
        files = files;
        events = sent.0;
        result = map_err (λ e. network_failed (submission_failed e)) sent.1;
      }

  abbrev pub submit_secret :
      Files
      → SubmitArgs
      → PreparedSubmission
      → Result Str CliError
      → Ran NativeSubmissionReceipt Failure
  submit_secret files args p (err e) = record {
    files = files;
    events = [];
    result = err (cli_error e);
  }
  submit_secret files args p (ok password) = submit_client files args p password (
      h.new_client (endpoints args.environment).gateway_base
        (record { login_id = args.transport_id; login_password = password }))

  abbrev pub submit_persisted :
      SubmitArgs
      → PreparedSubmission
      → Files × Result (Unit {0}) I
      → Ran NativeSubmissionReceipt Failure
  submit_persisted args p (files, err e) = record {
    files = files;
    events = [];
    result = err (io_failed e);
  }
  submit_persisted args p (files, ok _) =
      submit_secret files args p (read_secret_environment h.variable args.transport_password_env)

  abbrev pub submit_prepared_on :
      Files → SubmitArgs → Result PreparedSubmission Failure → Ran NativeSubmissionReceipt Failure
  submit_prepared_on files args (err e) = record { files = files; events = []; result = err e }
  submit_prepared_on files args (ok p) = submit_persisted args p (persist files args.common p)

  unfoldable pub run_submit : Files → SubmitArgs → Ran NativeSubmissionReceipt Failure
  run_submit files args = submit_prepared_on files args (prepare_on files args.common)

-- The loop over the attempts of a pass.
abbrev pub is_err : {A F : Type 0} → Result A F → Bool
is_err (ok a) = false
is_err (err e) = true

unfoldable pub failures : {E U P I : Type 0} → List (PollAttempt E U P I) → ℕ
failures [] = 0
failures (a ∷ attempts) = (if is_err a.result then 1 else 0) + failures attempts

-- The errors of a reception: of the secret, of the inbox directory, of the listing.
pub data ReceiveFailure (I E : Type 0) : Type 0 where
  receive_cli : CliError → ReceiveFailure I E
  inbox_failed : I → ReceiveFailure I E
  listing_failed : E → ReceiveFailure I E

abbrev pub report :
    {E U P I : Type 0} → List (PollAttempt E U P I) → Result (Unit {0}) (ReceiveFailure I E)
report attempts =
    if failures attempts == 0
    then ok tt
    else err (receive_cli (inbound_object_failures (failures attempts)))

-- `open_inbox` is what `ReconciliationPoller::new` returns, and `poll` the pass of
-- Transport/Reconciliation over the remote inbox of the environment.
module _ {E U P I : Type 0} (variable : Str → Variable) (open_inbox : Str → Result (Unit {0}) I)
    (poll : SftpConfig → SftpCredentials → Str → Result (List (PollAttempt E U P I)) E) where
  unfoldable pub run_receive : ReceiveArgs → Result (Unit {0}) (ReceiveFailure I E)
  run_receive args =
      map_err receive_cli (read_secret_environment variable args.transport_password_env)
      >>= λ password. map_err inbox_failed (open_inbox args.inbox_dir) >>= λ _.
          map_err listing_failed (
            poll (new_config (endpoints args.environment).sftp_host args.known_hosts)
              (record { username = args.transport_id; password = password }) args.inbox_dir)
          >>= report
