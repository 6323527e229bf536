-- ===== src/Transport/Receiver/Retry.antt =====
-- A reception of crates/einvoice-transport/src/receiver.rs that failed may be made again.
use tw_einvoice_rs.Base.{◌≡◌, ◌⊎◌, List, [], ◌∷◌, Str, Result, ok, err}
use tw_einvoice_rs.Transport.Receiver.Files.{Directory}
use tw_einvoice_rs.Transport.Receiver.{RemoteObject, FileSystem, Received, receive}
use tw_einvoice_rs.Transport.Receiver.Success.{IsApart}

-- An attempt, with what fails and what the remote side answers in it.
pub record Attempt (E I : Type 0) : Type 0 where
  pub fs : FileSystem I
  pub download : RemoteObject → Result Str E
  pub delete : RemoteObject → Result (Unit {0}) E

module _ {E I : Type 0} (o : RemoteObject) where
  abbrev pub receive_by : Attempt E I → Directory → Received E I
  receive_by a d = receive a.fs a.download a.delete d o

  -- The directory behind some attempts.
  abbrev pub after : List (Attempt E I) → Directory → Directory
  after [] d = d
  after (a ∷ as') d = after as' (receive_by a d).directory

module _ {E I : Type 0} (o : RemoteObject) (bytes : Str) where
  -- An attempt may fail in any way, but downloads no other bytes.
  abbrev pub IsFair : Attempt E I → Type 0
  IsFair a = IsApart a.fs o × ((a.download o ≡ ok bytes) ⊎ ((e : E) × (a.download o ≡ err e)))
