-- ===== src/Results/Tests.antt =====
-- The theorems of Results/Lossless at messages of one entry.
use tw_einvoice_rs.Base.{◌≡◌, none, some, [], ◌∷◌, codes, pos}
use tw_einvoice_rs.Results.Wire.{WireRouting, WireResultDetail, WireSummaryResult, summary_of}
use tw_einvoice_rs.Results.Lossless.{wire_summary, filled_summary, wire_summary-summary_of}

abbrev routing : WireRouting
routing = record {
  from = record { party_id = codes "A"; description = none };
  from_vac = record { routing_id = codes "A-VAC"; description = none };
  to = record { party_id = codes "B"; description = some (codes "platform") };
  to_vac = record { routing_id = codes "B-VAC"; description = none };
}

abbrev one_invoice : WireResultDetail
one_invoice = record {
  count = pos 1;
  invoices = some (record {
    invoices =
        record { reference_number = codes "QQ12345678"; invoice_date = codes "20261025" } ∷ [];
  });
}

abbrev no_invoice : WireResultDetail
no_invoice = record { count = pos 0; invoices = none }

abbrev summary : WireSummaryResult
summary = record {
  routing_info = routing;
  detail_list = record {
    messages =
        record {
          info = record {
            id = codes "m1";
            size = codes "10";
            message_type = codes "F0401";
            service = codes "S";
            action = codes "C0401";
          };
          result_type = record {
            total = record { result_detail_type = one_invoice };
            good = record { result_detail_type = one_invoice };
            failed = record { result_detail_type = no_invoice };
          };
        }
        ∷ [];
  };
}

wire_summary-summary_of_example : wire_summary (summary_of summary) ≡ filled_summary summary
wire_summary-summary_of_example = wire_summary-summary_of summary
