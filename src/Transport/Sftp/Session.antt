-- ===== src/Transport/Sftp/Session.antt =====
-- crates/einvoice-transport/src/sftp.rs: `connect_tcp`, `verify_host_key` and `connect_session`.
use tw_einvoice_rs.Base.{
  ℕ, ◌-◌, ◌*◌, Bool, true, false, ltb, if◌then◌else◌, Option, none, some, List, [], ◌∷◌, u32_mod,
  err,
}
use tw_einvoice_rs.Transport.Sftp.{
  SftpConfig, SftpCredentials, SftpConnectionError, missing_host_key, authentication_failed,
  host_key_not_found, host_key_mismatch, host_key_check_failed, io_error, ssh_error,
}
use tw_einvoice_rs.Transport.Sftp.Steps.{
  Call, resolves, connects, sets_read_timeout, sets_write_timeout, opens_session, sets_timeout,
  handshakes, opens_known_hosts, reads_known_hosts, checks_host_key, authenticates, CheckResult,
  key_matches, key_not_found, key_differs, check_fails, Outside, Step, ◌>>=◌, ◌>>◌, pure, fail,
  call, note, ask,
}

module _ {I S : Type 0} (o : Outside I S) (config : SftpConfig) where
  abbrev pub Connected : Type 0 → Type 0
  Connected = Step (SftpConnectionError I S)

  abbrev pub io : Call → Connected Unit
  io c = call o.io_fault io_error c

  abbrev pub ssh : Call → Connected Unit
  ssh c = call o.ssh_fault ssh_error c

  -- `last_error.unwrap_or_else(…)`.
  abbrev pub last_or : Option I → I
  last_or none = o.no_addresses
  last_or (some e) = e

  unfoldable pub set_timeouts : Connected Unit
  set_timeouts = do io (sets_read_timeout config.timeout); io (sets_write_timeout config.timeout)

  -- By the outcome of `connect_timeout`.
  abbrev pub on_connect : Option I → (I → Connected Unit) → Connected Unit
  on_connect none next = set_timeouts
  on_connect (some e) next = next e

  -- The loop over the addresses.
  unfoldable pub try_addresses : List ℕ → Option I → Connected Unit
  try_addresses [] last past = (past, err (io_error (last_or last)))
  try_addresses (a ∷ rest) last past =
      on_connect (o.io_fault past (connects a)) (λ e. try_addresses rest (some e))
        (connects a ∷ past)

  unfoldable pub connect_tcp : Connected Unit
  connect_tcp = do
    io (resolves config.host config.port)
    addresses ← ask o.addresses
    try_addresses addresses none

  abbrev pub on_check : CheckResult → Connected Unit
  on_check key_matches = pure tt
  on_check key_not_found = fail (host_key_not_found config.host config.port)
  on_check key_differs = fail (host_key_mismatch config.host config.port)
  on_check check_fails = fail (host_key_check_failed config.host config.port)

  abbrev pub require : Bool → SftpConnectionError I S → Connected Unit
  require true e = pure tt
  require false e = fail e

  unfoldable pub verify_host_key : Connected Unit
  verify_host_key = do
    present ← ask o.has_host_key
    require present missing_host_key
    ssh opens_known_hosts
    ssh (reads_known_hosts config.known_hosts_path)
    note (checks_host_key config.host config.port)
    result ← ask o.check_port
    on_check result

  -- `u32::try_from(timeout.as_millis()).unwrap_or(u32::MAX)`.
  abbrev pub timeout_ms : ℕ
  timeout_ms = if ltb (config.timeout * 1000) u32_mod then config.timeout * 1000 else u32_mod - 1

  unfoldable pub connect_session : SftpCredentials → Connected Unit
  connect_session credentials = do
    connect_tcp
    ssh opens_session
    note (sets_timeout timeout_ms)
    ssh (handshakes timeout_ms)
    verify_host_key
    ssh (authenticates credentials.username credentials.password)
    done ← ask o.authenticated
    require done authentication_failed
