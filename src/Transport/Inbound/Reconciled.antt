-- ===== src/Transport/Inbound/Reconciled.antt =====
-- What `parse_reconciliation` returns comes from the parser of the object's class.
use tw_einvoice_rs.Base.{
  ◌≡◌, refl, subst, ok_of->>=, ok_of-map_err, sym, Option, some, Str, Result, ok, map_err, eq_of_ok,
  eq_of_some,
}
use tw_einvoice_rs.Results.{ProcessResult, SummaryResult}
use tw_einvoice_rs.Transport.Inbound.{
  InboundObjectKind, process_result, summary_result, e05, exchange_ack, invoice, unknown,
  ParsedReconciliation, process, summary, InboundParseError, utf8, result, parse_with,
  parse_reconciliation,
}

module _ {U E : Type 0} (from_utf8 : Str → Result Str U)
    (parse_process : Str → Result ProcessResult E)
    (parse_summary : Str → Result SummaryResult E) where
  abbrev Outcome : Type 0
  Outcome = Result (Option ParsedReconciliation) (InboundParseError U E)

  -- The bytes are text that a parser takes.
  abbrev pub IsText : {A : Type 0} → (Str → Result A E) → Str → A → Type 0
  IsText parse bytes a = (xml : Str) × (from_utf8 bytes ≡ ok xml) × (parse xml ≡ ok a)

  parsed :
      {A : Type 0} (parse : Str → Result A E) (make : A → ParsedReconciliation) (bytes : Str)
      {p : ParsedReconciliation}
      → parse_with from_utf8 parse_process parse_summary parse make bytes ≡ ok (some p)
      → (a : A) × (p ≡ make a) × IsText parse bytes a
  parsed parse make bytes h =
      let (xml, f, g) = ok_of->>= (map_err utf8 (from_utf8 bytes)) _ h in
      let (a, k, l) = ok_of->>= (map_err result (parse xml)) _ g in
      (
        a,
        sym (eq_of_some (eq_of_ok l)),
        (xml, ok_of-map_err utf8 (from_utf8 bytes) f, ok_of-map_err result (parse xml) k),
      )

  -- What a record of the reconciliation was read from.
  pub data ReadFrom (kind : InboundObjectKind) (bytes : Str) : ParsedReconciliation → Type 0 where
    read_process :
        (a : ProcessResult)
        → kind ≡ process_result
        → IsText parse_process bytes a
        → ReadFrom kind bytes (process a)
    read_summary :
        (a : SummaryResult)
        → kind ≡ summary_result
        → IsText parse_summary bytes a
        → ReadFrom kind bytes (summary a)

  -- A record that is returned is a process result, from an object of that class, or a summary
  -- result, from an object of that class; and it is what the parser made of the object's text.
  pub parse_reconciliation-ReadFrom :
      (kind : InboundObjectKind) (bytes : Str) {p : ParsedReconciliation}
      → parse_reconciliation from_utf8 parse_process parse_summary kind bytes ≡ ok (some p)
      → ReadFrom kind bytes p
  unfolding parse_reconciliation
  parse_reconciliation-ReadFrom process_result bytes h =
      let (a, e, t) = parsed parse_process process bytes h in
      subst (ReadFrom process_result bytes) (sym e) (read_process a refl t)
  parse_reconciliation-ReadFrom summary_result bytes h =
      let (a, e, t) = parsed parse_summary summary bytes h in
      subst (ReadFrom summary_result bytes) (sym e) (read_summary a refl t)
  parse_reconciliation-ReadFrom (e05 t) bytes h = cc
  parse_reconciliation-ReadFrom exchange_ack bytes h = cc
  parse_reconciliation-ReadFrom (invoice c) bytes h = cc
  parse_reconciliation-ReadFrom unknown bytes h = cc
