-- ===== src/Transport/Reconciliation/Tests.antt =====
-- One pass over an inbox with two objects, of which the first cannot be downloaded.
use tw_einvoice_rs.Base.{ℕ, zero, suc, Option, none, some, Str, codes, Result, ok, err}
use tw_einvoice_rs.Results.{ProcessResult, SummaryResult}
use tw_einvoice_rs.Transport.Receiver.{RemoteObject, FsStep, FileSystem}
use tw_einvoice_rs.Transport.Receiver.Files.{Directory}

abbrev U0 : Type 0
U0 = Unit {0}

abbrev any_text : Str → Result Str U0
any_text s = ok s

abbrev no_process : Str → Result ProcessResult U0
no_process s = err tt

abbrev no_summary : Str → Result SummaryResult U0
no_summary s = err tt

abbrev or_missing : Option Str → Result Str U0
or_missing (some b) = ok b
or_missing none = err tt

abbrev read : Directory → Str → Result Str U0
read d n = or_missing (d n)

abbrev no_fault : ℕ → FsStep → Option U0
no_fault i step = none

abbrev fs : ℕ → FileSystem U0
fs i = record {
  fault = no_fault i;
  available = λ call. 2;
  pid = 1;
  next_temp_id = i;
  rounds = 3;
  stopped = tt;
}

abbrev download : ℕ → RemoteObject → Result Str U0
download zero o = err tt
download (suc i) o = ok (codes "abc")

abbrev delete : ℕ → RemoteObject → Result U0 U0
delete i o = ok tt

abbrev empty : Directory
empty n = none

abbrev failing : RemoteObject
failing = record { name = codes "x-ProcessResult"; size = 3 }

abbrev object : RemoteObject
object = record { name = codes "y-Ack"; size = 3 }
