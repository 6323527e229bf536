-- ===== src/Results/Lossless.antt =====
-- Nothing of a message of the platform is lost or mixed up when a result is made of it.
use tw_einvoice_rs.Base.{◌≡◌, refl, ap, ap₂, Option, none, some, List, [], ◌∷◌, map}
use tw_einvoice_rs.Results.{
  ResultRouting, ProcessDiagnostic, ProcessResult, InvoiceReference, ResultDetail, SummaryMessage,
  SummaryResult,
}
use tw_einvoice_rs.Results.Wire.{
  WireRouting, WireProcessDiagnostic, WireProcessResult, WireInvoiceReference, WireInvoices,
  WireResultDetail, WireSummaryMessage, WireSummaryResult, reference_of, references_of, detail_of,
  message_of, summary_of, diagnostic_of, process_of,
}

-- The message that a result stands for.
abbrev pub wire_routing : ResultRouting → WireRouting
wire_routing r = record {
  from = record { party_id = r.from.party_id; description = r.from.description };
  from_vac = record { routing_id = r.from_vac.routing_id; description = r.from_vac.description };
  to = record { party_id = r.to.party_id; description = r.to.description };
  to_vac = record { routing_id = r.to_vac.routing_id; description = r.to_vac.description };
}

abbrev pub wire_diagnostic : ProcessDiagnostic → WireProcessDiagnostic
wire_diagnostic d = record {
  code = d.code;
  description = d.description;
  parameter0 = d.parameters.0;
  parameter1 = d.parameters.1;
  parameter2 = d.parameters.2;
  parameter3 = d.parameters.3;
  parameter4 = d.parameters.4;
}

abbrev pub wire_process : ProcessResult → WireProcessResult
wire_process r = record {
  routing_info = wire_routing r.routing;
  message_info = record {
    id = r.message.id;
    size = r.message.size;
    message_type = r.message.message_type;
    service = r.message.service;
    action = r.message.action;
  };
  result = record { info = map wire_diagnostic r.diagnostics };
}

abbrev pub wire_reference : InvoiceReference → WireInvoiceReference
wire_reference i = record { reference_number = i.reference_number; invoice_date = i.invoice_date }

abbrev pub wire_detail : ResultDetail → WireResultDetail
wire_detail d = record {
  count = d.count;
  invoices = some (record { invoices = map wire_reference d.invoices });
}

abbrev pub wire_message : SummaryMessage → WireSummaryMessage
wire_message m = record {
  info = record {
    id = m.info.id;
    size = m.info.size;
    message_type = m.info.message_type;
    service = m.info.service;
    action = m.info.action;
  };
  result_type = record {
    total = record { result_detail_type = wire_detail m.result.total };
    good = record { result_detail_type = wire_detail m.result.good };
    failed = record { result_detail_type = wire_detail m.result.failed };
  };
}

abbrev pub wire_summary : SummaryResult → WireSummaryResult
wire_summary r = record {
  routing_info = wire_routing r.routing;
  detail_list = record { messages = map wire_message r.messages };
}

-- A message with an empty list of invoices in place of one that is absent.
abbrev pub filled : Option WireInvoices → Option WireInvoices
filled none = some (record { invoices = [] })
filled (some w) = some w

abbrev pub filled_detail : WireResultDetail → WireResultDetail
filled_detail d = record d { invoices = filled d.invoices }

abbrev pub filled_message : WireSummaryMessage → WireSummaryMessage
filled_message m = record m {
  result_type = record {
    total = record { result_detail_type = filled_detail m.result_type.total.result_detail_type };
    good = record { result_detail_type = filled_detail m.result_type.good.result_detail_type };
    failed = record { result_detail_type = filled_detail m.result_type.failed.result_detail_type };
  };
}

abbrev pub filled_summary : WireSummaryResult → WireSummaryResult
filled_summary w = record w {
  detail_list = record { messages = map filled_message w.detail_list.messages };
}

map_lem {ℓ} :
    {A B C : Type ℓ} (f : A → B) (g : B → C) (h : A → C) (xs : List A)
    → ((x : A) → g (f x) ≡ h x)
    → map g (map f xs) ≡ map h xs
map_lem f g h [] k = refl
map_lem f g h (x ∷ xs) k = ap₂ (λ y ys. y ∷ ys) (k x) (map_lem f g h xs k)

map_same {ℓ} :
    {A B : Type ℓ} (f : A → B) (g : B → A) (xs : List A)
    → ((x : A) → g (f x) ≡ x)
    → map g (map f xs) ≡ xs
map_same f g [] k = refl
map_same f g (x ∷ xs) k = ap₂ (λ y ys. y ∷ ys) (k x) (map_same f g xs k)

invoices_lem :
    (o : Option WireInvoices)
    → some (record { invoices = map wire_reference (references_of o) }) ≡ filled o
invoices_lem none = refl
invoices_lem (some w) =
    ap (λ is. some (record { invoices = is }))
      (map_same reference_of wire_reference w.invoices (λ i. refl))

detail_lem : (d : WireResultDetail) → wire_detail (detail_of d) ≡ filled_detail d
detail_lem d = ap (λ is. record d { invoices = is }) (invoices_lem d.invoices)

message_lem : (m : WireSummaryMessage) → wire_message (message_of m) ≡ filled_message m
message_lem m = rw (
  detail_lem m.result_type.total.result_detail_type,
  detail_lem m.result_type.good.result_detail_type,
  detail_lem m.result_type.failed.result_detail_type,
)

-- A summary holds all of the message that it is made of: the message is got back from it, with an
-- empty list of invoices where the message has none.
pub wire_summary-summary_of :
    (w : WireSummaryResult) → wire_summary (summary_of w) ≡ filled_summary w
unfolding summary_of
wire_summary-summary_of w =
    ap (λ ms. record w { detail_list = record { messages = ms } })
      (map_lem message_of wire_message filled_message w.detail_list.messages message_lem)

-- A process result holds all of the message that it is made of.
pub wire_process-process_of : (w : WireProcessResult) → wire_process (process_of w) ≡ w
unfolding process_of
wire_process-process_of w =
    ap (λ ds. record w { result = record { info = ds } })
      (map_same diagnostic_of wire_diagnostic w.result.info (λ d. refl))
