-- ===== src/Transport/Receiver.antt =====
-- crates/einvoice-transport/src/receiver.rs: one remote object is received into the inbox directory.
-- The directory is that of Files; TempName is the loop of `IncomingFile::create`, FilesEqual the
-- comparison of two files. What the remote side answers, and what the file system does, are
-- parameters; a failure of `hard_link` is one of another kind than that the file exists.
pub mod Durable
pub mod Files
pub mod FilesEqual
pub mod Retry
pub mod Success
pub mod TempName
mod Tests
use tw_einvoice_rs.Base.{
  ℕ, ◌≡◌, Bool, ◌||◌, true, false, Option, none, some, List, [], ◌∷◌, Str, codes, length, is_empty,
  str_eq, contains, ◌==◌, if◌then◌else◌, Result, ok, err,
}
use tw_einvoice_rs.Transport.Receiver.Files.{Directory, put, remove}
use tw_einvoice_rs.Transport.Receiver.FilesEqual.{CompareCall, files_equal}
use tw_einvoice_rs.Transport.Receiver.TempName.{Created, create_temp}

pub record RemoteObject : Type 0 where
  pub name : Str
  pub size : ℕ

pub data ReceiveOutcome : Type 0 where
  persisted already_persisted : Str → ReceiveOutcome

pub data RemoteOperation : Type 0 where
  download_operation delete_operation : RemoteOperation

pub data ReceiveError (E I : Type 0) : Type 0 where
  invalid_remote_name empty_object : Str → ReceiveError E I
  size_mismatch : Str → ℕ → ℕ → ReceiveError E I
  conflicting_local_object : Str → ReceiveError E I
  io_error : I → ReceiveError E I
  remote_error : RemoteOperation → E → ReceiveError E I

-- `path.file_name() == name` holds where the other tests do.
abbrev pub is_unsafe_name : Str → Bool
is_unsafe_name name =
    is_empty name
    || (str_eq name (codes ".")
        || (str_eq name (codes "..") || (contains b'/' name || contains b'\\' name)))

pub data FsStep : Type 0 where
  opens_temp : ℕ → FsStep
  syncs_temp reads_size links syncs_directory : FsStep
  compares : CompareCall → FsStep

-- What the file system does in one reception: which calls fail, how many bytes the reads of the
-- comparison could give, the process, and its counter of temporary names. `rounds` is fuel, and
-- `stopped` what a loop is taken for whose fuel ran out.
pub record FileSystem (I : Type 0) : Type 0 where
  pub fault : FsStep → Option I
  pub available : CompareCall → ℕ
  pub pid : ℕ
  pub next_temp_id : ℕ
  pub rounds : ℕ
  pub stopped : I

pub data RemoteCall : Type 0 where
  downloads deletes : RemoteObject → RemoteCall

pub record Received (E I : Type 0) : Type 0 where
  pub directory : Directory
  pub calls : List RemoteCall
  pub result : Result ReceiveOutcome (ReceiveError E I)

module _ {I : Type 0} (fs : FileSystem I) where
  abbrev pub created : Option (Created I) → Result Str I
  created none = err fs.stopped
  created (some (next, result)) = result

  -- `IncomingFile::create`.
  abbrev pub create : Directory → Result Str I
  create d =
      created (create_temp fs.pid (λ id. fs.fault (opens_temp id)) d fs.rounds fs.next_temp_id)

module _ {E I : Type 0} (fs : FileSystem I) (download : RemoteObject → Result Str E)
    (delete : RemoteObject → Result Unit E) where
  -- A failure behind the download.
  abbrev pub failed : Directory → RemoteObject → ReceiveError E I → Received E I
  failed d o e = record { directory = d; calls = downloads o ∷ []; result = err e }

  abbrev pub deletion_result :
      ReceiveOutcome → Result Unit E → Result ReceiveOutcome (ReceiveError E I)
  deletion_result outcome (ok _) = ok outcome
  deletion_result outcome (err e) = err (remote_error delete_operation e)

  abbrev pub finish : Directory → RemoteObject → ReceiveOutcome → Received E I
  finish d o outcome = record {
    directory = d;
    calls = downloads o ∷ deletes o ∷ [];
    result = deletion_result outcome (delete o);
  }

  -- `self.step()?`, for a call of the file system.
  abbrev pub unless_fault : Option I → Directory → RemoteObject → Received E I → Received E I
  unless_fault none d o next = next
  unless_fault (some e) d o next = failed d o (io_error e)

  -- By what `files_equal` returns.
  abbrev pub compared : Directory → RemoteObject → Option (Result Bool I) → Received E I
  compared d o none = failed d o (io_error fs.stopped)
  compared d o (some (err e)) = failed d o (io_error e)
  compared d o (some (ok true)) = finish d o (already_persisted o.name)
  compared d o (some (ok false)) = failed d o (conflicting_local_object o.name)

  -- Behind `publish_no_clobber`, by the file that is there already.
  abbrev pub published : Directory → RemoteObject → Str → Option Str → Received E I
  published d o bytes none =
      let d' = put d o.name bytes in
      unless_fault (fs.fault syncs_directory) d' o (finish d' o (persisted o.name))
  published d o bytes (some old) =
      compared d o (files_equal (λ call. fs.fault (compares call)) fs.available bytes old)

  abbrev pub publish : Directory → RemoteObject → Str → Received E I
  publish d o bytes = unless_fault (fs.fault links) d o (published d o bytes (d o.name))

  abbrev pub check_size : Directory → RemoteObject → Str → Received E I
  check_size d o bytes =
      if length bytes == 0
      then failed d o (empty_object o.name)
      else if length bytes == o.size
      then publish d o bytes
      else failed d o (size_mismatch o.name o.size (length bytes))

  abbrev pub downloaded : Str → Directory → RemoteObject → Result Str E → Received E I
  downloaded temp d o (err e) = failed d o (remote_error download_operation e)
  downloaded temp d o (ok bytes) =
      let d' = put d temp bytes in
      unless_fault (fs.fault syncs_temp) d' o
        (unless_fault (fs.fault reads_size) d' o (check_size d' o bytes))

  -- `IncomingFile::drop`.
  abbrev pub drop_temp : Str → Received E I → Received E I
  drop_temp temp r = record r { directory = remove r.directory temp }

  -- By what `create` returns: the temporary file, which is empty, or an error.
  abbrev pub with_temp : Directory → RemoteObject → Result Str I → Received E I
  with_temp d o (err e) = record { directory = d; calls = []; result = err (io_error e) }
  with_temp d o (ok temp) = drop_temp temp (downloaded temp (put d temp []) o (download o))

  unfoldable pub receive : Directory → RemoteObject → Received E I
  receive d o =
      if is_unsafe_name o.name
      then record { directory = d; calls = []; result = err (invalid_remote_name o.name) }
      else with_temp d o (create fs d)
