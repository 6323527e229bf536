-- ===== src/Transport/Receiver/Tests.antt =====
-- One reception from an inbox that holds one object, into an empty directory.
use tw_einvoice_rs.Base.{
  ◌≡◌, refl, true, false, Option, none, some, Str, codes, Result, ok, err, [], ◌∷◌, inl, inr, arith,
  ℕ, ◌≢◌, Bool-cases, str_eq, str_eq_iff,
}
use tw_einvoice_rs.Transport.Receiver.{
  RemoteObject, FsStep, FileSystem, syncs_directory, persisted, already_persisted, io_error,
  conflicting_local_object, receive,
}
use tw_einvoice_rs.Transport.Receiver.Files.{Directory, put}
use tw_einvoice_rs.Transport.Receiver.Retry.{Attempt}
use tw_einvoice_rs.Transport.Receiver.FilesEqual.{
  CompareCall, reads_left, compare_loop, files_equal, files_equal-str_eq, files_equal-true,
}
use tw_einvoice_rs.Transport.Receiver.TempName.{
  In, Finds, temp_name, create_temp, create_temp-Finds,
}
use tw_einvoice_rs.Transport.Receiver.Durable.{deletion_asked}

abbrev object : RemoteObject
object = record { name = codes "4.1-ProcessResult"; size = 3 }

abbrev no_fault : FsStep → Option (Unit {0})
no_fault step = none

abbrev temp : Str
temp = codes ".incoming-1-0"

abbrev download : RemoteObject → Result Str (Unit {0})
download o = ok (codes "abc")

abbrev delete : RemoteObject → Result (Unit {0}) (Unit {0})
delete o = ok tt

abbrev empty : Directory
empty n = none

abbrev working : (FsStep → Option (Unit {0})) → FileSystem (Unit {0})
working fault = record {
  fault = fault;
  available = λ call. 2;
  pid = 1;
  next_temp_id = 0;
  rounds = 3;
  stopped = tt;
}

abbrev fs : FileSystem (Unit {0})
fs = working no_fault

test_received :
    (receive fs download delete empty object).result ≡ ok (persisted (codes "4.1-ProcessResult"))
unfolding receive create_temp temp_name files_equal compare_loop
test_received = refl

-- An object with the temporary file's name is taken for one that is stored already: it is deleted
-- remotely, and gone with the temporary file.
abbrev clash : RemoteObject
clash = record { name = temp; size = 3 }

test_clash_result : (receive fs download delete empty clash).result ≡ ok (already_persisted temp)
unfolding receive create_temp temp_name files_equal compare_loop
test_clash_result = refl

test_clash_deleted : deletion_asked (receive fs download delete empty clash).calls ≡ true
unfolding receive create_temp temp_name files_equal compare_loop
test_clash_deleted = refl

test_clash_lost : (receive fs download delete empty clash).directory temp ≡ none
unfolding receive create_temp temp_name files_equal compare_loop
test_clash_lost = refl

-- The directory cannot be synchronised when the object is linked; the next reception finds the file,
-- and deletes the object although the directory never was.
abbrev no_directory_sync : FsStep → Option (Unit {0})
no_directory_sync syncs_directory = some tt
no_directory_sync other = none

abbrev unsynced : Directory
unsynced = (receive (working no_directory_sync) download delete empty object).directory

test_not_synced :
    (receive (working no_directory_sync) download delete empty object).result ≡ err (io_error tt)
unfolding receive create_temp temp_name files_equal compare_loop
test_not_synced = refl

test_deleted_not_synced :
    deletion_asked (receive (working no_directory_sync) download delete unsynced object).calls
    ≡ true
unfolding receive create_temp temp_name files_equal compare_loop
test_deleted_not_synced = refl

-- The deletion fails first, and the reception is made again.
abbrev fails_deletion : Attempt (Unit {0}) (Unit {0})
fails_deletion = record { fs = fs; download = download; delete = λ o. err tt }

abbrev succeeds : Attempt (Unit {0}) (Unit {0})
succeeds = record { fs = fs; download = download; delete = delete }

abbrev first_byte : Str → ℕ
first_byte [] = 0
first_byte (c ∷ s) = c

abbrev uneven : CompareCall → ℕ
uneven (reads_left n) = 1
uneven other = 2

-- A reception that finds its object there, which is read in pieces of another size, takes it for
-- another.
abbrev uneven_fs : FileSystem (Unit {0})
uneven_fs = record fs { available = uneven }

test_uneven_conflict :
    (receive uneven_fs download delete (put empty object.name (codes "abc")) object).result
    ≡ err (conflicting_local_object object.name)
unfolding receive create_temp temp_name files_equal compare_loop
test_uneven_conflict = refl

-- A temporary file that is there already is not touched.
test_temp_kept :
    (receive fs download delete (put empty temp (codes "old")) object).directory temp
    ≡ some (codes "old")
unfolding receive create_temp temp_name
test_temp_kept = refl

-- The first name of the process is taken.
abbrev taken : Directory
taken = put empty (codes ".incoming-1-0") []

only_one : (n : Str) → taken n ≢ none → In n (codes ".incoming-1-0" ∷ [])
only_one n t = elim (Bool-cases (str_eq n (codes ".incoming-1-0"))) [
  | inl e ↦ inl ((str_eq_iff n (codes ".incoming-1-0")).0 e)
  | inr e ↦ absurd ((rw e at t) refl)
]

no_open_fault : ℕ → Option (Unit {0})
no_open_fault id = none

create_temp-Finds_example : Finds 1 0 no_open_fault taken (create_temp 1 no_open_fault taken 2 0)
create_temp-Finds_example =
    create_temp-Finds 1 0 no_open_fault taken 2 (codes ".incoming-1-0" ∷ []) (omega arith) only_one
      (omega arith) (omega arith)

abbrev no_compare_fault : CompareCall → Option (Unit {0})
no_compare_fault call = none

abbrev by_two : CompareCall → ℕ
by_two call = 2

files_equal-str_eq_example :
    files_equal no_compare_fault by_two (codes "abcde") (codes "abcdf")
    ≡ some (ok (str_eq (codes "abcde") (codes "abcdf")))
files_equal-str_eq_example =
    files_equal-str_eq no_compare_fault by_two (codes "abcde") (codes "abcdf") (λ call. refl)
      (λ n. refl)

files_equal-true_example : codes "abcde" ≡ codes "abcde"
files_equal-true_example =
    files_equal-true no_compare_fault by_two (codes "abcde") (codes "abcde") (
      files_equal-str_eq no_compare_fault by_two (codes "abcde") (codes "abcde") (λ call. refl)
        (λ n. refl))

-- A short read of one file makes equal files differ.
test_uneven : files_equal no_compare_fault uneven (codes "ab") (codes "ab") ≡ some (ok false)
unfolding files_equal compare_loop
test_uneven = refl
