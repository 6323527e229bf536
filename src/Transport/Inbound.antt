-- ===== src/Transport/Inbound.antt =====
-- crates/einvoice-transport/src/inbound.rs: the class of a received object by its name, and the
-- result that it holds. The parsers of `einvoice-results` and the check of UTF-8 are parameters.
pub mod Classes
pub mod Reconciled
use tw_einvoice_rs.Base.{
  ℕ, ◌≡◌, refl, sym, ◌∙◌, Bool, true, false, Option, none, some, List, [], ◌∷◌, ◌++◌, Str, codes,
  ends_with, if◌then◌else◌, Result, ok, err, map_err, ◌>>=◌, arith,
}
use tw_einvoice_rs.Results.{ProcessResult, SummaryResult}
use tw_einvoice_rs.Transport.CommonName.{MessageCommonName, FilenameError}
use tw_einvoice_rs.Transport.CommonName as CommonName

pub data E05MessageType : Type 0 where
  e0501 e0502 e0503 e0504 : E05MessageType

pub data InboundObjectKind : Type 0 where
  process_result summary_result : InboundObjectKind
  e05 : E05MessageType → InboundObjectKind
  exchange_ack : InboundObjectKind
  invoice : MessageCommonName → InboundObjectKind
  unknown : InboundObjectKind

-- The last `match` of `classify_remote_name`.
abbrev pub of_common_name : Result MessageCommonName FilenameError → InboundObjectKind
of_common_name (ok c) = invoice c
of_common_name (err e) = unknown

unfoldable pub classify_remote_name : Str → InboundObjectKind
classify_remote_name name =
    if ends_with name (codes "ProcessResult")
    then process_result
    else if ends_with name (codes "SummaryResult")
    then summary_result
    else if ends_with name (codes "E0501")
    then e05 e0501
    else if ends_with name (codes "E0502")
    then e05 e0502
    else if ends_with name (codes "E0503")
    then e05 e0503
    else if ends_with name (codes "E0504")
    then e05 e0504
    else if ends_with name (codes "Ack")
    then exchange_ack
    else of_common_name (CommonName.parse name)

pub data ParsedReconciliation : Type 0 where
  process : ProcessResult → ParsedReconciliation
  summary : SummaryResult → ParsedReconciliation

pub data InboundParseError (U E : Type 0) : Type 0 where
  utf8 : U → InboundParseError U E
  result : E → InboundParseError U E

module _ {U E : Type 0} (from_utf8 : Str → Result Str U)
    (parse_process : Str → Result ProcessResult E)
    (parse_summary : Str → Result SummaryResult E) where
  abbrev pub parse_with :
      {A : Type 0}
      → (Str → Result A E)
      → (A → ParsedReconciliation)
      → Str
      → Result (Option ParsedReconciliation) (InboundParseError U E)
  parse_with parse make bytes = map_err utf8 (from_utf8 bytes) >>= λ xml.
      map_err result (parse xml) >>= λ a. ok (some (make a))

  unfoldable pub parse_reconciliation :
      InboundObjectKind → Str → Result (Option ParsedReconciliation) (InboundParseError U E)
  parse_reconciliation process_result bytes = parse_with parse_process process bytes
  parse_reconciliation summary_result bytes = parse_with parse_summary summary bytes
  parse_reconciliation (e05 t) bytes = ok none
  parse_reconciliation exchange_ack bytes = ok none
  parse_reconciliation (invoice c) bytes = ok none
  parse_reconciliation unknown bytes = ok none
