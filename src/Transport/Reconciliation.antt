-- ===== src/Transport/Reconciliation.antt =====
-- crates/einvoice-transport/src/reconciliation.rs: a pass over the remote inbox. The parameters are
-- those of the reception and of the parsers; `i` counts the objects of the pass, as the remote side
-- and the file system may answer differently each time.
pub mod Poll
mod Tests
use tw_einvoice_rs.Base.{
  ℕ, suc, ◌≡◌, Option, none, some, List, [], ◌∷◌, map, Str, Result, ok, err, map_err, ◌>>=◌,
}
use tw_einvoice_rs.Results.{ProcessResult, SummaryResult, SummaryMessage}
use tw_einvoice_rs.Transport.Inbound.{
  InboundObjectKind, classify_remote_name, ParsedReconciliation, process, summary,
  InboundParseError, parse_reconciliation,
}
use tw_einvoice_rs.Transport.Receiver.{
  RemoteObject, ReceiveOutcome, persisted, already_persisted, ReceiveError, FileSystem, Received,
  receive,
}
use tw_einvoice_rs.Transport.Receiver.Files.{Directory}

-- The path is the name in the inbox directory.
pub record DurableInboundRecord : Type 0 where
  pub path : Str
  pub kind : InboundObjectKind
  pub reconciliation : Option ParsedReconciliation

abbrev pub message_ids : List SummaryMessage → List Str
message_ids [] = []
message_ids (m ∷ ms) = m.info.id ∷ message_ids ms

abbrev pub ids_of : Option ParsedReconciliation → List Str
ids_of none = []
ids_of (some (process r)) = r.message.id ∷ []
ids_of (some (summary r)) = message_ids r.messages

abbrev pub correlation_ids : DurableInboundRecord → List Str
correlation_ids r = ids_of r.reconciliation

-- A path of the inbox directory has a basename.
pub data DurableInboundError (U P I : Type 0) : Type 0 where
  read_failed : I → DurableInboundError U P I
  parse_failed : InboundParseError U P → DurableInboundError U P I

pub record ReconciledObject : Type 0 where
  pub receive_outcome : ReceiveOutcome
  pub loaded : DurableInboundRecord

pub data PollObjectError (E U P I : Type 0) : Type 0 where
  receive_error : ReceiveError E I → PollObjectError E U P I
  parse_error : DurableInboundError U P I → PollObjectError E U P I

pub record PollAttempt (E U P I : Type 0) : Type 0 where
  pub object : RemoteObject
  pub result : Result ReconciledObject (PollObjectError E U P I)

abbrev pub path_of : ReceiveOutcome → Str
path_of (persisted name) = name
path_of (already_persisted name) = name

module _ {E U P I : Type 0} (from_utf8 : Str → Result Str U)
    (parse_process : Str → Result ProcessResult P) (parse_summary : Str → Result SummaryResult P)
    (read : Directory → Str → Result Str I) (fs : ℕ → FileSystem I)
    (download : ℕ → RemoteObject → Result Str E) (delete : ℕ → RemoteObject → Result Unit E) where
  unfoldable pub load : Directory → Str → Result DurableInboundRecord (DurableInboundError U P I)
  load d name =
      let kind = classify_remote_name name in
      map_err read_failed (read d name) >>= λ bytes.
      map_err parse_failed (parse_reconciliation from_utf8 parse_process parse_summary kind bytes)
      >>= λ parsed. ok (record { path = name; kind = kind; reconciliation = parsed })

  abbrev pub load_received :
      Directory
      → Result ReceiveOutcome (ReceiveError E I)
      → Result ReconciledObject (PollObjectError E U P I)
  load_received d (err e) = err (receive_error e)
  load_received d (ok outcome) = map_err parse_error (load d (path_of outcome)) >>= λ loaded.
      ok (record { receive_outcome = outcome; loaded = loaded })

  abbrev pub receive_at : ℕ → Directory → RemoteObject → Received E I
  receive_at i d o = receive (fs i) (download i) (delete i) d o

  abbrev pub attempt : ℕ → Directory → RemoteObject → PollAttempt E U P I
  attempt i d o =
      let r = receive_at i d o in record { object = o; result = load_received r.directory r.result }

  unfoldable pub poll_objects :
      ℕ → Directory → List RemoteObject → Directory × List (PollAttempt E U P I)
  poll_objects i d [] = (d, [])
  poll_objects i d (o ∷ os) =
      let rest = poll_objects (suc i) (receive_at i d o).directory os in
      (rest.0, attempt i d o ∷ rest.1)

  -- `list` is the answer of the remote side.
  unfoldable pub poll_once :
      Directory → Result (List RemoteObject) E → Directory × Result (List (PollAttempt E U P I)) E
  poll_once d (err e) = (d, err e)
  poll_once d (ok objects) = let r = poll_objects 0 d objects in (r.0, ok r.1)
