-- ===== src/Transport/Sftp/Operations.antt =====
-- The operations of crates/einvoice-transport/src/sftp.rs, in any order, keep the order of calls.
use tw_einvoice_rs.Base.{◌≡◌, refl, true, Bool-cases, inl, inr, List, [], ◌∷◌, Str, Result, ok, err}
use tw_einvoice_rs.Transport.Receiver.{RemoteObject}
use tw_einvoice_rs.Transport.Sftp.{
  SftpConfig, SftpCredentials, invalid_remote_filename, upload_connection,
  invalid_remote_entry_name, inbox_connection, SftpInboxError, safe_remote_basename,
}
use tw_einvoice_rs.Transport.Sftp.Steps.{
  Call, opens_sftp, creates, writes, flushes, closes, opens, copies, unlinks, lists, Outside,
  map_result,
}
use tw_einvoice_rs.Transport.Sftp.Objects.{
  upload, list_inbox, download, delete, require_safe, sorted, collect_objects,
}
use tw_einvoice_rs.Transport.Sftp.Guarded.{
  LoggedIn, IsGuarded, Holds, bind, io_step, ssh_step, Nothing, connect_session-Holds,
}

-- What a client may do.
pub data Operation : Type 0 where
  uploads_object : Str → Str → Operation
  lists_inbox : Operation
  downloads_object deletes_object : RemoteObject → Operation

module _ {I S : Type 0} (o : Outside I S) (config : SftpConfig)
    (credentials : SftpCredentials) where
  pub lift-Holds :
      {E F A : Type 0} {Q : A → List Call → Type 0} (wrap : E → F) (r : List Call × Result A E)
      → Holds o config credentials Q r
      → Holds o config credentials Q (map_result wrap r)
  lift-Holds wrap (past, ok a) h = record { guarded = h.guarded; result = h.result }
  lift-Holds wrap (past, err e) h = record { guarded = h.guarded; result = tt }

  pub require_safe-Holds :
      {E : Type 0} (name : Str) (e : E) (past : List Call)
      → IsGuarded o config credentials past
      → Holds o config credentials
          (λ _ _. safe_remote_basename name ≡ true)
          (require_safe name e past)
  require_safe-Holds name e past g = elim (Bool-cases (safe_remote_basename name)) [
    | inl h ↦ rw h (record { guarded = g; result = refl })
    | inr h ↦ rw h (record { guarded = g; result = tt })
  ]

  sorted-Holds :
      (r : Result (List RemoteObject) (SftpInboxError I S)) (past : List Call)
      → IsGuarded o config credentials past
      → Holds o config credentials (λ _. Nothing o config credentials) (sorted r past)
  sorted-Holds (ok objects) past g = record { guarded = g; result = tt }
  sorted-Holds (err e) past g = record { guarded = g; result = tt }

  -- An upload keeps the order: whatever the server and the network answer, the password goes only
  -- to a host whose key was found to be the one known for it, in the same session, and only after
  -- the login a file is made, with a safe name in the directory for uploads, and written.
  pub upload-IsGuarded :
      (name bytes : Str) (past : List Call)
      → IsGuarded o config credentials past
      → IsGuarded o config credentials (upload o config credentials name bytes past).0
  unfolding upload
  upload-IsGuarded name bytes past g = Holds.guarded (
      bind o config credentials _ (require_safe-Holds name invalid_remote_filename past g)
        λ _ p g1 safe. lift-Holds upload_connection _ (
          bind o config credentials _ (connect_session-Holds o config credentials p g1) λ _ q g2 l.
            bind o config credentials _
              (ssh_step o config credentials (LoggedIn o config credentials) opens_sftp q g2 l
                (λ _. l))
              λ _ q g2 l.
                bind o config credentials _
                  (ssh_step o config credentials (LoggedIn o config credentials)
                    (creates config.upload_directory name) q g2 (refl, safe, l) (λ _. l))
                  λ _ r g3 l3.
                    bind o config credentials _
                      (io_step o config credentials (LoggedIn o config credentials) (writes bytes) r
                        g3 l3 l3)
                      λ _ s g4 l4.
                        bind o config credentials _
                          (io_step o config credentials (LoggedIn o config credentials) flushes s g4
                            l4 l4)
                          λ _ t g5 l5.
                            ssh_step o config credentials (LoggedIn o config credentials) closes t
                              g5 l5 (λ _. l5)))

  list_inbox-IsGuarded :
      (past : List Call)
      → IsGuarded o config credentials past
      → IsGuarded o config credentials (list_inbox o config credentials past).0
  unfolding list_inbox
  list_inbox-IsGuarded past g = Holds.guarded (
      bind o config credentials _
        (lift-Holds inbox_connection _ (
          bind o config credentials _ (connect_session-Holds o config credentials past g)
            λ _ p g1 l.
              bind o config credentials _
                (ssh_step o config credentials (LoggedIn o config credentials) opens_sftp p g1 l
                  (λ _. l))
                λ _ q g2 l.
                  ssh_step o config credentials (LoggedIn o config credentials)
                    (lists config.receive_directory) q g2 (refl, l) (λ _. l)))
        λ _ r g3 l. sorted-Holds (collect_objects (o.entries r)) r g3)

  download-IsGuarded :
      (object : RemoteObject) (past : List Call)
      → IsGuarded o config credentials past
      → IsGuarded o config credentials (download o config credentials object past).0
  unfolding download
  download-IsGuarded object past g = Holds.guarded {Q = λ _. Nothing o config credentials} (
      bind o config credentials _ (require_safe-Holds object.name invalid_remote_entry_name past g)
        λ _ p g1 safe. lift-Holds inbox_connection _ (
          bind o config credentials _ (connect_session-Holds o config credentials p g1) λ _ q g2 l.
            bind o config credentials _
              (ssh_step o config credentials (LoggedIn o config credentials) opens_sftp q g2 l
                (λ _. l))
              λ _ q g2 l.
                bind o config credentials _
                  (ssh_step o config credentials (LoggedIn o config credentials)
                    (opens config.receive_directory object.name) q g2 (refl, safe, l) (λ _. l))
                  λ _ r g3 l3.
                    bind o config credentials _
                      (io_step o config credentials (LoggedIn o config credentials) copies r g3 l3
                        l3)
                      λ _ s g4 l4.
                        bind o config credentials _
                          (ssh_step o config credentials (Nothing o config credentials) closes s g4
                            l4 (λ _. tt))
                          λ _ t g5 _. record { guarded = g5; result = tt }))

  delete-IsGuarded :
      (object : RemoteObject) (past : List Call)
      → IsGuarded o config credentials past
      → IsGuarded o config credentials (delete o config credentials object past).0
  unfolding delete
  delete-IsGuarded object past g = Holds.guarded (
      bind o config credentials _ (require_safe-Holds object.name invalid_remote_entry_name past g)
        λ _ p g1 safe. lift-Holds inbox_connection _ (
          bind o config credentials _ (connect_session-Holds o config credentials p g1) λ _ q g2 l.
            bind o config credentials _
              (ssh_step o config credentials (LoggedIn o config credentials) opens_sftp q g2 l
                (λ _. l))
              λ _ r g3 l.
                ssh_step o config credentials (LoggedIn o config credentials)
                  (unlinks config.receive_directory object.name) r g3 (refl, safe, l) (λ _. l)))

  -- What the calls are after an operation; its result is not used.
  abbrev pub perform : Operation → List Call → List Call
  perform (uploads_object name bytes) past = (upload o config credentials name bytes past).0
  perform lists_inbox past = (list_inbox o config credentials past).0
  perform (downloads_object object) past = (download o config credentials object past).0
  perform (deletes_object object) past = (delete o config credentials object past).0

  abbrev pub perform_all : List Operation → List Call → List Call
  perform_all [] past = past
  perform_all (p ∷ ps) past = perform_all ps (perform p past)

  perform-IsGuarded :
      (p : Operation) (past : List Call)
      → IsGuarded o config credentials past
      → IsGuarded o config credentials (perform p past)
  perform-IsGuarded (uploads_object name bytes) past g = upload-IsGuarded name bytes past g
  perform-IsGuarded lists_inbox past g = list_inbox-IsGuarded past g
  perform-IsGuarded (downloads_object object) past g = download-IsGuarded object past g
  perform-IsGuarded (deletes_object object) past g = delete-IsGuarded object past g

  perform_all-Keeps :
      (ps : List Operation) (past : List Call)
      → IsGuarded o config credentials past
      → IsGuarded o config credentials (perform_all ps past)
  perform_all-Keeps [] past g = g
  perform_all-Keeps (p ∷ ps) past g =
      perform_all-Keeps ps (perform p past) (perform-IsGuarded p past g)

  -- Whatever the server and the network answer, in any sequence of uploads, listings, downloads and
  -- deletions: the password is sent only after, in the same session, the key of the host was found
  -- to be the known one; and only after a login that succeeded there, the inbox is listed, and
  -- files are made, read and deleted, with safe names in the configured directories.
  pub perform_all-IsGuarded :
      (ps : List Operation) → IsGuarded o config credentials (perform_all ps [])
  perform_all-IsGuarded ps = perform_all-Keeps ps [] tt
