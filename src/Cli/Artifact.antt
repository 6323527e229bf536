-- ===== src/Cli/Artifact.antt =====
-- apps/einvoice-cli/src/main.rs: `persist_artifact`, on the contents of the files by their paths.
-- Which calls fail, and what a write that failed has left in the file, are parameters.
use tw_einvoice_rs.Base.{
  Bool, true, false, Option, none, some, Str, str_eq, if◌then◌else◌, Result, ok, err,
}

abbrev pub Files : Type 0
Files = Str → Option Str

abbrev pub write_file : Files → Str → Str → Files
write_file files path bytes p = if str_eq p path then some bytes else files p

pub data PersistStep : Type 0 where
  opens_file writes_file syncs_file : PersistStep

-- `already_exists` is the error of `create_new` on a path that is taken.
module _ {I : Type 0} (already_exists : I) (fault : PersistStep → Option I)
    (partial : Str → Str) where
  -- Behind the opening, which has left the file empty.
  abbrev pub write_all : Files → Str → Str → Option I → Option I → Files × Result (Unit {0}) I
  write_all files path bytes (some e) synced = (write_file files path (partial bytes), err e)
  write_all files path bytes none none = (write_file files path bytes, ok tt)
  write_all files path bytes none (some e) = (write_file files path bytes, err e)

  abbrev pub open_new : Files → Str → Str → Option Str → Files × Result (Unit {0}) I
  open_new files path bytes (some old) = (files, err already_exists)
  open_new files path bytes none = write_all files path bytes (fault writes_file) (fault syncs_file)

  -- By the way the file is opened, `create(true).truncate(true)` or `create_new(true)`.
  abbrev pub open_with : Files → Str → Str → Bool → Option I → Files × Result (Unit {0}) I
  open_with files path bytes force (some e) = (files, err e)
  open_with files path bytes true none =
      write_all files path bytes (fault writes_file) (fault syncs_file)
  open_with files path bytes false none = open_new files path bytes (files path)

  unfoldable pub persist_artifact : Files → Str → Str → Bool → Files × Result (Unit {0}) I
  persist_artifact files path bytes force = open_with files path bytes force (fault opens_file)
