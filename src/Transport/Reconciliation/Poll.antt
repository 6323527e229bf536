-- ===== src/Transport/Reconciliation/Poll.antt =====
-- A pass goes on when objects fail, receives those that do not, and loses no file.
use tw_einvoice_rs.Base.{
  ℕ, zero, suc, ◌<◌, ◌≡◌, ◌⊎◌, Option, none, some, List, [], ◌∷◌, Str, Result, ok,
}
use tw_einvoice_rs.Results.{ProcessResult, SummaryResult}
use tw_einvoice_rs.Transport.Receiver.{
  RemoteObject, ReceiveOutcome, persisted, already_persisted, FileSystem,
}
use tw_einvoice_rs.Transport.Receiver.Files.{Directory}
use tw_einvoice_rs.Transport.Receiver.Success.{IsApart, IsSound}
use tw_einvoice_rs.Transport.Reconciliation.{PollAttempt, poll_objects, load_received}

-- The `i`-th of a list.
abbrev pub at : {A : Type 0} → ℕ → List A → Option A
at i [] = none
at zero (x ∷ xs) = some x
at (suc i) (x ∷ xs) = at i xs

module _ {E U P I : Type 0} (from_utf8 : Str → Result Str U)
    (parse_process : Str → Result ProcessResult P) (parse_summary : Str → Result SummaryResult P)
    (read : Directory → Str → Result Str I) (fs : ℕ → FileSystem I)
    (download : ℕ → RemoteObject → Result Str E) (delete : ℕ → RemoteObject → Result Unit E) where
  abbrev pub objects_of : List (PollAttempt E U P I) → List RemoteObject
  objects_of [] = []
  objects_of (a ∷ rest) = a.object ∷ objects_of rest

  abbrev pass : ℕ → Directory → List RemoteObject → Directory × List (PollAttempt E U P I)
  pass = poll_objects from_utf8 parse_process parse_summary read fs download delete

  -- What the reception of one object leaves: the object is in the directory behind it, and at the
  -- end of the pass, with these bytes, and the attempt has what was loaded behind the reception.
  abbrev pub IsReceivedAt : ℕ → RemoteObject → Str → Directory × List (PollAttempt E U P I) → Type 0
  IsReceivedAt i o bytes r =
      (outcome : ReceiveOutcome) × (d' : Directory) × ((outcome ≡ persisted o.name)
        ⊎ (outcome ≡ already_persisted o.name))
      × (d' o.name ≡ some bytes)
      × (at i r.1
          ≡ some (record {
            object = o;
            result =
                load_received from_utf8 parse_process parse_summary read fs download delete d'
                  (ok outcome);
          }))
      × (r.0 o.name ≡ some bytes)

  -- In the `j`-th reception of the pass no call fails, files are compared in pieces of one size, the
  -- object arrives as these bytes and is deleted, and the loop for a temporary name has more than
  -- `m` rounds.
  abbrev pub Works : ℕ → ℕ → RemoteObject → Str → Type 0
  Works j m o bytes =
      IsSound (fs j)
      × IsApart (fs j) o
      × (m < (fs j).rounds)
      × (download j o ≡ ok bytes)
      × (delete j o ≡ ok tt)
