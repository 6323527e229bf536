-- ===== src/Transport/Sftp/Guarded.antt =====
-- The order of the calls of crates/einvoice-transport/src/sftp.rs: what is sent only after the host
-- key was found to be the known one, and what only after the login.
use tw_einvoice_rs.Base.{
  ℕ, ◌≡◌, refl, Bool, true, false, Option, none, some, List, [], ◌∷◌, Result, ok, err,
}
use tw_einvoice_rs.Transport.Sftp.{
  SftpConfig, SftpCredentials, SftpConnectionError, missing_host_key, io_error, ssh_error,
  authentication_failed, safe_remote_basename,
}
use tw_einvoice_rs.Transport.Sftp.Steps.{
  Call, resolves, connects, sets_read_timeout, sets_write_timeout, opens_session, sets_timeout,
  handshakes, opens_known_hosts, reads_known_hosts, checks_host_key, authenticates, opens_sftp,
  creates, writes, flushes, closes, opens, copies, unlinks, lists, CheckResult, key_matches,
  key_not_found, key_differs, check_fails, Outside, Step, continue, call, result_of,
}
use tw_einvoice_rs.Transport.Sftp.Session.{
  io, ssh, on_connect, set_timeouts, try_addresses, connect_tcp, on_check, require, verify_host_key,
  connect_session, timeout_ms,
}

module _ {I S : Type 0} (o : Outside I S) (config : SftpConfig)
    (credentials : SftpCredentials) where
  -- In this session, the key that the host presented is the one known for this host and port.
  abbrev pub KeyMatched : List Call → Type 0
  KeyMatched [] = ⊥
  KeyMatched (checks_host_key host port ∷ past) =
      (host ≡ config.host)
      × (port ≡ config.port)
      × (o.check_port (checks_host_key host port ∷ past) ≡ key_matches)
  KeyMatched (opens_session ∷ past) = ⊥
  KeyMatched (c ∷ past) = KeyMatched past

  -- In this session, the login succeeded.
  abbrev pub LoggedIn : List Call → Type 0
  LoggedIn [] = ⊥
  LoggedIn (authenticates username password ∷ past) =
      (o.ssh_fault past (authenticates username password) ≡ none)
      × (o.authenticated (authenticates username password ∷ past) ≡ true)
  LoggedIn (opens_session ∷ past) = ⊥
  LoggedIn (c ∷ past) = LoggedIn past

  -- When a call may be made: the password is for the known host, and the files, in the directories
  -- of the configuration and with safe names, are for the logged in.
  abbrev pub Allowed : Call → List Call → Type 0
  Allowed (authenticates username password) past =
      (username ≡ credentials.username) × (password ≡ credentials.password) × KeyMatched past
  Allowed opens_sftp past = LoggedIn past
  Allowed (creates directory name) past =
      (directory ≡ config.upload_directory) × (safe_remote_basename name ≡ true) × LoggedIn past
  Allowed (writes bytes) past = LoggedIn past
  Allowed flushes past = LoggedIn past
  Allowed closes past = LoggedIn past
  Allowed (opens directory name) past =
      (directory ≡ config.receive_directory) × (safe_remote_basename name ≡ true) × LoggedIn past
  Allowed copies past = LoggedIn past
  Allowed (unlinks directory name) past =
      (directory ≡ config.receive_directory) × (safe_remote_basename name ≡ true) × LoggedIn past
  Allowed (lists directory) past = (directory ≡ config.receive_directory) × LoggedIn past
  Allowed c past = Unit

  abbrev pub IsGuarded : List Call → Type 0
  IsGuarded [] = Unit
  IsGuarded (c ∷ past) = Allowed c past × IsGuarded past

  abbrev IfOk : {E A : Type 0} → (A → List Call → Type 0) → List Call → Result A E → Type 0
  IfOk Q past (ok a) = Q a past
  IfOk Q past (err e) = Unit

  -- The calls are guarded, and `Q` holds of a result.
  pub record Holds {E A : Type 0} (Q : A → List Call → Type 0) (r : List Call × Result A E)
      : Type 0 where
    pub guarded : IsGuarded r.0
    pub result : IfOk Q r.0 r.1

  pub bind :
      {E A B : Type 0} {Q : A → List Call → Type 0} {R : B → List Call → Type 0}
      (r : List Call × Result A E) {f : A → Step E B}
      → Holds Q r
      → ((a : A) (past : List Call) → IsGuarded past → Q a past → Holds R (f a past))
      → Holds R (continue r f)
  bind (past, ok a) h k = k a past h.guarded h.result
  bind (past, err e) h k = record { guarded = h.guarded; result = tt }

  answered :
      {E F : Type 0} (Q : List Call → Type 0) (wrap : F → E) (past : List Call) (f : Option F)
      → (f ≡ none → Q past)
      → IfOk (λ _. Q) past (result_of wrap f)
  answered Q wrap past none q = q refl
  answered Q wrap past (some e) q = tt

  step :
      {E F : Type 0} (Q : List Call → Type 0) (fault : List Call → Call → Option F) (wrap : F → E)
      (c : Call) (past : List Call)
      → IsGuarded past
      → Allowed c past
      → (fault past c ≡ none → Q (c ∷ past))
      → Holds (λ _. Q) (call fault wrap c past)
  step Q fault wrap c past g a q = record {
    guarded = (a, g);
    result = answered Q wrap (c ∷ past) (fault past c) q;
  }

  -- Steps with the errors of the system and of libssh2.
  pub io_step :
      (Q : List Call → Type 0) (c : Call) (past : List Call)
      → IsGuarded past
      → Allowed c past
      → Q (c ∷ past)
      → Holds (λ _. Q) (io o config c past)
  io_step Q c past g a q = step Q o.io_fault io_error c past g a (λ _. q)

  pub ssh_step :
      (Q : List Call → Type 0) (c : Call) (past : List Call)
      → IsGuarded past
      → Allowed c past
      → (o.ssh_fault past c ≡ none → Q (c ∷ past))
      → Holds (λ _. Q) (ssh o config c past)
  ssh_step Q c past g a q = step Q o.ssh_fault ssh_error c past g a q

  pub require_step :
      (Q : List Call → Type 0) (b : Bool) (e : SftpConnectionError I S) (past : List Call)
      → IsGuarded past
      → (b ≡ true → Q past)
      → Holds (λ _. Q) (require o config b e past)
  require_step Q true e past g q = record { guarded = g; result = q refl }
  require_step Q false e past g q = record { guarded = g; result = tt }

  abbrev pub Nothing : List Call → Type 0
  Nothing past = Unit

  set_timeouts-Holds :
      (past : List Call) → IsGuarded past → Holds (λ _. Nothing) (set_timeouts o config past)
  unfolding set_timeouts
  set_timeouts-Holds past g =
      bind _ (io_step Nothing (sets_read_timeout config.timeout) past g tt tt)
        λ _ p g1 _. io_step Nothing (sets_write_timeout config.timeout) p g1 tt tt

  on_connect-Holds :
      (f : Option I) (next : I → Step (SftpConnectionError I S) Unit) (past : List Call)
      → IsGuarded past
      → ((e : I) → Holds (λ _. Nothing) (next e past))
      → Holds (λ _. Nothing) (on_connect o config f next past)
  on_connect-Holds none next past g k = set_timeouts-Holds past g
  on_connect-Holds (some e) next past g k = k e

  try_addresses-Holds :
      (addresses : List ℕ) (last : Option I) (past : List Call)
      → IsGuarded past
      → Holds (λ _. Nothing) (try_addresses o config addresses last past)
  unfolding try_addresses
  try_addresses-Holds [] last past g = record { guarded = g; result = tt }
  try_addresses-Holds (a ∷ rest) last past g =
      on_connect-Holds (o.io_fault past (connects a)) (λ e. try_addresses o config rest (some e))
        (connects a ∷ past) (tt, g)
        (λ e. try_addresses-Holds rest (some e) (connects a ∷ past) (tt, g))

  connect_tcp-Holds :
      (past : List Call) → IsGuarded past → Holds (λ _. Nothing) (connect_tcp o config past)
  unfolding connect_tcp
  connect_tcp-Holds past g =
      bind _ (io_step Nothing (resolves config.host config.port) past g tt tt)
        λ _ p g1 _. try_addresses-Holds (o.addresses p) none p g1

  on_check-Holds :
      (r : CheckResult) (past : List Call)
      → IsGuarded past
      → (r ≡ key_matches → KeyMatched past)
      → Holds (λ _. KeyMatched) (on_check o config r past)
  on_check-Holds key_matches past g k = record { guarded = g; result = k refl }
  on_check-Holds key_not_found past g k = record { guarded = g; result = tt }
  on_check-Holds key_differs past g k = record { guarded = g; result = tt }
  on_check-Holds check_fails past g k = record { guarded = g; result = tt }

  verify_host_key-Holds :
      (past : List Call) → IsGuarded past → Holds (λ _. KeyMatched) (verify_host_key o config past)
  unfolding verify_host_key
  verify_host_key-Holds past g =
      bind _ (require_step Nothing (o.has_host_key past) missing_host_key past g (λ _. tt))
        λ _ p g1 _. bind _ (ssh_step Nothing opens_known_hosts p g1 tt (λ _. tt)) λ _ q g2 _.
          bind _ (ssh_step Nothing (reads_known_hosts config.known_hosts_path) q g2 tt (λ _. tt))
            λ _ r g3 _.
              on_check-Holds _ (checks_host_key config.host config.port ∷ r) (tt, g3)
                (λ e. (refl, refl, e))

  -- The latest call is a login that did not fail.
  abbrev Accepted : List Call → Type 0
  Accepted (authenticates username password ∷ past) =
      o.ssh_fault past (authenticates username password) ≡ none
  Accepted past = ⊥

  Accepted-LoggedIn :
      (past : List Call) → Accepted past → o.authenticated past ≡ true → LoggedIn past
  Accepted-LoggedIn [] a e = absurd a
  Accepted-LoggedIn (authenticates username password ∷ past) a e = (a, e)
  Accepted-LoggedIn (c ∷ past) a e = absurd a

  pub connect_session-Holds :
      (past : List Call)
      → IsGuarded past
      → Holds (λ _. LoggedIn) (connect_session o config credentials past)
  unfolding connect_session
  connect_session-Holds past g = bind _ (connect_tcp-Holds past g) λ _ p g1 _.
      bind _ (ssh_step Nothing opens_session p g1 tt (λ _. tt)) λ _ q g2 _.
        bind _
          (ssh_step Nothing (handshakes (timeout_ms o config))
            (sets_timeout (timeout_ms o config) ∷ q) (tt, g2) tt (λ _. tt))
          λ _ r g3 _. bind _ (verify_host_key-Holds r g3) λ _ s g4 k.
            bind _
              (ssh_step Accepted (authenticates credentials.username credentials.password) s g4
                (refl, refl, k) (λ e. e))
              λ _ t g5 a.
                require_step LoggedIn (o.authenticated t) authentication_failed t g5
                  (λ e. Accepted-LoggedIn t a e)
