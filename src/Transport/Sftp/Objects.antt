-- ===== src/Transport/Sftp/Objects.antt =====
-- crates/einvoice-transport/src/sftp.rs: the upload of an object, and the listing, the download and
-- the deletion of received objects. Every one makes its own session.
use tw_einvoice_rs.Base.{
  ℕ, ◌/◌, ◌%◌, Bool, true, false, ◌==◌, ltb, if◌then◌else◌, Option, none, some, List, [], ◌∷◌, Str,
  Result, ok, err,
}
use tw_einvoice_rs.Transport.Receiver.{RemoteObject}
use tw_einvoice_rs.Transport.Sftp.{
  SftpConfig, SftpCredentials, SftpUploadError, invalid_remote_filename, upload_connection,
  SftpInboxError, invalid_remote_entry_name, missing_remote_size, inbox_connection,
  safe_remote_basename,
}
use tw_einvoice_rs.Transport.Sftp.Steps.{
  opens_sftp, creates, writes, flushes, closes, opens, copies, unlinks, lists, Entry, Outside, Step,
  ◌>>=◌, ◌>>◌, pure, fail, ask, lift,
}
use tw_einvoice_rs.Transport.Sftp.Session.{io, ssh, connect_session}

-- `mode & 0o170_000 == 0o040_000`.
abbrev pub is_directory_mode : Option ℕ → Bool
is_directory_mode none = false
is_directory_mode (some mode) = (mode / 4096) % 16 == 4

-- One entry that is no directory, in front of the others.
abbrev pub add_object :
    {I S : Type 0}
    → Option Str
    → Option ℕ
    → Result (List RemoteObject) (SftpInboxError I S)
    → Result (List RemoteObject) (SftpInboxError I S)
add_object none size rest = err invalid_remote_entry_name
add_object (some name) none rest =
    if safe_remote_basename name
    then err (missing_remote_size name)
    else err invalid_remote_entry_name
add_object (some name) (some size) (ok objects) =
    if safe_remote_basename name
    then ok (record { name = name; size = size } ∷ objects)
    else err invalid_remote_entry_name
add_object (some name) (some size) (err e) =
    if safe_remote_basename name then err e else err invalid_remote_entry_name

-- The loop over the entries of the listing.
unfoldable pub collect_objects :
    {I S : Type 0} → List Entry → Result (List RemoteObject) (SftpInboxError I S)
collect_objects [] = ok []
collect_objects (e ∷ entries) =
    let rest = collect_objects entries in
    if is_directory_mode e.perm then rest else add_object e.file_name e.size rest

-- `left.name.cmp(&right.name)` is not greater.
abbrev pub str_le : Str → Str → Bool
str_le [] t = true
str_le (c ∷ s) [] = false
str_le (c ∷ s) (d ∷ t) = let rest = str_le s t in if c == d then rest else ltb c d

-- `sort_by`, which is stable.
unfoldable pub insert_object : RemoteObject → List RemoteObject → List RemoteObject
insert_object x [] = x ∷ []
insert_object x (y ∷ ys) = if str_le x.name y.name then x ∷ y ∷ ys else y ∷ insert_object x ys

unfoldable pub sort_objects : List RemoteObject → List RemoteObject
unfolding insert_object
sort_objects [] = []
sort_objects (x ∷ xs) = insert_object x (sort_objects xs)

abbrev pub sorted :
    {I S : Type 0}
    → Result (List RemoteObject) (SftpInboxError I S)
    → Step (SftpInboxError I S) (List RemoteObject)
sorted (ok objects) = pure (sort_objects objects)
sorted (err e) = fail e

-- `if !safe_remote_basename(…) { return Err(…) }`.
abbrev pub require_safe : {E : Type 0} → Str → E → Step E (Unit {0})
require_safe name e = if safe_remote_basename name then pure tt else fail e

module _ {I S : Type 0} (o : Outside I S) (config : SftpConfig)
    (credentials : SftpCredentials) where
  unfoldable pub upload : Str → Str → Step (SftpUploadError I S) Unit
  upload remote_filename bytes = do
    require_safe remote_filename invalid_remote_filename
    lift upload_connection do
      connect_session o config credentials
      ssh o config opens_sftp
      ssh o config (creates config.upload_directory remote_filename)
      io o config (writes bytes)
      io o config flushes
      ssh o config closes

  -- `list`.
  unfoldable pub list_inbox : Step (SftpInboxError I S) (List RemoteObject)
  list_inbox = do
    lift inbox_connection do
      connect_session o config credentials
      ssh o config opens_sftp
      ssh o config (lists config.receive_directory)
    entries ← ask o.entries
    sorted (collect_objects entries)

  -- The bytes that are written to the writer.
  unfoldable pub download : RemoteObject → Step (SftpInboxError I S) Str
  download object = do
    require_safe object.name invalid_remote_entry_name
    lift inbox_connection do
      connect_session o config credentials
      ssh o config opens_sftp
      ssh o config (opens config.receive_directory object.name)
      io o config copies
      bytes ← ask o.contents
      ssh o config closes
      pure bytes

  unfoldable pub delete : RemoteObject → Step (SftpInboxError I S) Unit
  delete object = do
    require_safe object.name invalid_remote_entry_name
    lift inbox_connection do
      connect_session o config credentials
      ssh o config opens_sftp
      ssh o config (unlinks config.receive_directory object.name)
