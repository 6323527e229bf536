-- ===== src/Results/Wire.antt =====
-- crates/einvoice-results/src/lib.rs: the messages as quick-xml reads them, and what is made of them.
-- The reader of the XML is a parameter.
use tw_einvoice_rs.Base.{Option, none, some, List, [], map, Str, ℤ, Result, ok, map_err, ◌>>=◌}
use tw_einvoice_rs.Results.{
  ResultParty, ResultRoute, ResultRouting, ProcessDiagnostic, ProcessResult, InvoiceReference,
  ResultDetail, ResultBreakdown, SummaryMessage, SummaryResult,
}

pub record WireParty : Type 0 where
  pub party_id : Str
  pub description : Option Str

pub record WireRoute : Type 0 where
  pub routing_id : Str
  pub description : Option Str

pub record WireRouting : Type 0 where
  pub from : WireParty
  pub from_vac : WireRoute
  pub to : WireParty
  pub to_vac : WireRoute

pub record WireProcessMessageInfo : Type 0 where
  pub id : Str
  pub size : Str
  pub message_type : Str
  pub service : Str
  pub action : Str

pub record WireProcessDiagnostic : Type 0 where
  pub code : Str
  pub description : Option Str
  pub parameter0 : Option Str
  pub parameter1 : Option Str
  pub parameter2 : Option Str
  pub parameter3 : Option Str
  pub parameter4 : Option Str

pub record WireProcessDiagnosticList : Type 0 where
  pub info : List WireProcessDiagnostic

pub record WireProcessResult : Type 0 where
  pub routing_info : WireRouting
  pub message_info : WireProcessMessageInfo
  pub result : WireProcessDiagnosticList

pub record WireInvoiceReference : Type 0 where
  pub reference_number : Str
  pub invoice_date : Str

pub record WireInvoices : Type 0 where
  pub invoices : List WireInvoiceReference

pub record WireResultDetail : Type 0 where
  pub count : ℤ
  pub invoices : Option WireInvoices

pub record WireResultBucket : Type 0 where
  pub result_detail_type : WireResultDetail

pub record WireResultBreakdown : Type 0 where
  pub total : WireResultBucket
  pub good : WireResultBucket
  pub failed : WireResultBucket

pub record WireSummaryMessageInfo : Type 0 where
  pub id : Str
  pub size : Str
  pub message_type : Str
  pub service : Str
  pub action : Str

pub record WireSummaryMessage : Type 0 where
  pub info : WireSummaryMessageInfo
  pub result_type : WireResultBreakdown

pub record WireSummaryDetailList : Type 0 where
  pub messages : List WireSummaryMessage

pub record WireSummaryResult : Type 0 where
  pub routing_info : WireRouting
  pub detail_list : WireSummaryDetailList

abbrev pub party_of : WireParty → ResultParty
party_of p = record { party_id = p.party_id; description = p.description }

abbrev pub route_of : WireRoute → ResultRoute
route_of r = record { routing_id = r.routing_id; description = r.description }

abbrev pub routing_of_wire : WireRouting → ResultRouting
routing_of_wire r = record {
  from = party_of r.from;
  from_vac = route_of r.from_vac;
  to = party_of r.to;
  to_vac = route_of r.to_vac;
}

abbrev pub diagnostic_of : WireProcessDiagnostic → ProcessDiagnostic
diagnostic_of d = record {
  code = d.code;
  description = d.description;
  parameters = (d.parameter0, d.parameter1, d.parameter2, d.parameter3, d.parameter4);
}

unfoldable pub process_of : WireProcessResult → ProcessResult
process_of w = record {
  routing = routing_of_wire w.routing_info;
  message = record {
    id = w.message_info.id;
    size = w.message_info.size;
    message_type = w.message_info.message_type;
    service = w.message_info.service;
    action = w.message_info.action;
  };
  diagnostics = map diagnostic_of w.result.info;
}

abbrev pub reference_of : WireInvoiceReference → InvoiceReference
reference_of i = record { reference_number = i.reference_number; invoice_date = i.invoice_date }

-- `map_or_else(Vec::new, …)`.
abbrev pub references_of : Option WireInvoices → List InvoiceReference
references_of none = []
references_of (some w) = map reference_of w.invoices

abbrev pub detail_of : WireResultDetail → ResultDetail
detail_of d = record { count = d.count; invoices = references_of d.invoices }

abbrev pub breakdown_of : WireResultBreakdown → ResultBreakdown
breakdown_of b = record {
  total = detail_of b.total.result_detail_type;
  good = detail_of b.good.result_detail_type;
  failed = detail_of b.failed.result_detail_type;
}

abbrev pub message_of : WireSummaryMessage → SummaryMessage
message_of m = record {
  info = record {
    id = m.info.id;
    size = m.info.size;
    message_type = m.info.message_type;
    service = m.info.service;
    action = m.info.action;
  };
  result = breakdown_of m.result_type;
}

unfoldable pub summary_of : WireSummaryResult → SummaryResult
summary_of w = record {
  routing = routing_of_wire w.routing_info;
  messages = map message_of w.detail_list.messages;
}

pub data ResultParseError (X : Type 0) : Type 0 where
  xml_error : X → ResultParseError X

module _ {X : Type 0} (read_process : Str → Result WireProcessResult X)
    (read_summary : Str → Result WireSummaryResult X) where
  abbrev pub parse_process : Str → Result ProcessResult (ResultParseError X)
  parse_process xml = map_err xml_error (read_process xml) >>= λ w. ok (process_of w)

  abbrev pub parse_summary : Str → Result SummaryResult (ResultParseError X)
  parse_summary xml = map_err xml_error (read_summary xml) >>= λ w. ok (summary_of w)
