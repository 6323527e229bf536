-- ===== src/Cli/Receiving.antt =====
-- When the command `receive` of apps/einvoice-cli/src/main.rs succeeds.
use tw_einvoice_rs.Base.{
  ℕ, ◌+◌, ◌≡◌, ◌≢◌, ◌↔◌, refl, Bool, true, false, List, [], ◌∷◌, Str, All, Result, ok, err, map_err,
  use_ok, ok_of-map_err, arith, if◌then◌else◌,
}
use tw_einvoice_rs.Transport.Sftp.{SftpConfig, new_config, SftpCredentials}
use tw_einvoice_rs.Transport.Reconciliation.{PollAttempt, ReconciledObject, PollObjectError}
use tw_einvoice_rs.Cli.{
  ReceiveArgs, Variable, present, not_present, not_unicode, secret_of, read_secret_environment,
  endpoints,
}
use tw_einvoice_rs.Cli.Run.{
  is_err, failures, receive_cli, inbox_failed, listing_failed, report, run_receive,
}

sum_zero : (b : Bool) (n : ℕ) → ((if b then 1 else 0) + n ≡ 0) ↔ ((b ≡ false) × (n ≡ 0))
sum_zero true n = ground arith
sum_zero false n = ground arith

secret_of_iff : (name : Str) (v : Variable) (s : Str) → (secret_of name v ≡ ok s) ↔ (v ≡ present s)
secret_of_iff name (present t) s = (λ h. cc, λ h. cc)
secret_of_iff name not_present s = (λ h. cc, λ h. cc)
secret_of_iff name not_unicode s = (λ h. cc, λ h. cc)

read_secret_iff :
    (variable : Str → Variable) (name s : Str)
    → (read_secret_environment variable name ≡ ok s) ↔ ((name ≢ []) × (variable name ≡ present s))
unfolding read_secret_environment
read_secret_iff variable [] s = (λ h. cc, λ h. absurd (h.0 refl))
read_secret_iff variable (c ∷ name) s = (
  λ h. (λ e. cc, (secret_of_iff (c ∷ name) (variable (c ∷ name)) s).0 h),
  λ h. (secret_of_iff (c ∷ name) (variable (c ∷ name)) s).1 h.1,
)

module _ {E U P I : Type 0} where
  abbrev pub Succeeded : PollAttempt E U P I → Type 0
  Succeeded a = (r : ReconciledObject) × (a.result ≡ ok r)

  is_err_iff :
      (a : PollAttempt E U P I) (r : Result ReconciledObject (PollObjectError E U P I))
      → a.result ≡ r
      → (is_err r ≡ false) ↔ Succeeded a
  is_err_iff a (ok x) e = (λ _. (x, e), λ _. refl)
  is_err_iff a (err x) e = (λ h. cc, λ h. cc (e, h.1))

  failures_iff :
      (attempts : List (PollAttempt E U P I)) → (failures attempts ≡ 0) ↔ All Succeeded attempts
  unfolding failures
  failures_iff [] = (λ h. tt, λ h. refl)
  failures_iff (a ∷ attempts) = (
    λ h.
        let z = (sum_zero (is_err a.result) (failures attempts)).0 h in
        ((is_err_iff a a.result refl).0 z.0, (failures_iff attempts).0 z.1),
    λ h.
        (sum_zero (is_err a.result) (failures attempts)).1
          ((is_err_iff a a.result refl).1 h.0, (failures_iff attempts).1 h.1),
  )

  report_iff :
      (attempts : List (PollAttempt E U P I)) → (report attempts ≡ ok tt) ↔ All Succeeded attempts
  report_iff attempts = ground (arith, failures_iff attempts)

  module _ (variable : Str → Variable) (open_inbox : Str → Result (Unit {0}) I)
      (poll : SftpConfig → SftpCredentials → Str → Result (List (PollAttempt E U P I)) E) where
    -- The command succeeds exactly if the secret is given under a name that is not empty, the inbox
    -- directory can be used, the remote inbox is listed with this secret at the host of the
    -- environment, and every object of the pass was received and parsed.
    pub run_receive_iff :
        (args : ReceiveArgs)
        → (run_receive variable open_inbox poll args ≡ ok tt) ↔ (
            (password : Str) × (attempts : List (PollAttempt E U P I))
            × (args.transport_password_env ≢ [])
            × (variable args.transport_password_env ≡ present password)
            × (open_inbox args.inbox_dir ≡ ok tt)
            × (poll
                  (new_config (endpoints args.environment).sftp_host args.known_hosts)
                  (record { username = args.transport_id; password = password })
                  args.inbox_dir
                ≡ ok attempts)
            × All Succeeded attempts)
    unfolding run_receive
    run_receive_iff args = (
      λ h.
          use_ok
            (map_err receive_cli (read_secret_environment variable args.transport_password_env)) _ h
            λ password s h1.
              use_ok (map_err inbox_failed (open_inbox args.inbox_dir)) _ h1 λ u i h2.
                use_ok
                  (map_err listing_failed (
                    poll (new_config (endpoints args.environment).sftp_host args.known_hosts)
                      (record { username = args.transport_id; password = password })
                      args.inbox_dir))
                  _ h2
                  λ attempts l h3.
                    let secret =
                      (read_secret_iff variable args.transport_password_env password).0
                        (ok_of-map_err receive_cli _ s) in
                    (
                      password,
                      attempts,
                      secret.0,
                      secret.1,
                      ok_of-map_err inbox_failed _ i,
                      ok_of-map_err listing_failed _ l,
                      (report_iff attempts).0 h3,
                    ),
      λ h.
          let secret = (read_secret_iff variable args.transport_password_env h.0).1 (h.2, h.3) in
          rw (secret, h.4, h.5) ((report_iff h.1).1 h.6),
    )
