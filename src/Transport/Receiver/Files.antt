-- ===== src/Transport/Receiver/Files.antt =====
-- The inbox directory of crates/einvoice-transport/src/receiver.rs: the files' contents by name.
use tw_einvoice_rs.Base.{
  ◌≡◌, ◌≢◌, refl, Option, none, some, Str, str_eq, str_eq_refl, str_eq_of_ne, if◌then◌else◌,
}

abbrev pub Directory : Type 0
Directory = Str → Option Str

abbrev pub put : Directory → Str → Str → Directory
put d name bytes n = if str_eq n name then some bytes else d n

abbrev pub remove : Directory → Str → Directory
remove d name n = if str_eq n name then none else d n

pub put_same : (d : Directory) (n b : Str) → put d n b n ≡ some b
put_same d n b = rw (str_eq_refl n) refl

pub put_other : (d : Directory) (n b m : Str) → m ≢ n → put d n b m ≡ d m
put_other d n b m h = rw (str_eq_of_ne m n h) refl

pub remove_same : (d : Directory) (n : Str) → remove d n n ≡ none
remove_same d n = rw (str_eq_refl n) refl

pub remove_other : (d : Directory) (n m : Str) → m ≢ n → remove d n m ≡ d m
remove_other d n m h = rw (str_eq_of_ne m n h) refl
