-- ===== src/Transport/Gateway/Tests.antt =====
-- Pfs001HttpClient of crates/einvoice-transport/src/gateway.rs on a concrete notification, with JSON
-- and HTTP that answer everything alike.
use tw_einvoice_rs.Base.{◌≡◌, ◌↔◌, refl, true, none, [], Str, codes, Result, ok, pos, ℕ}
use tw_einvoice_rs.Transport.Gateway.{
  GatewayParty, UploadNotification, GatewayProcessStatus, WireInvoiceEvent, exchange, plain,
  to_pfs001, checked_i32,
}
use tw_einvoice_rs.Transport.Gateway.Http.{
  Pfs001HttpClient, Request, Response, is_success, notify_http, notify_http_iff, endpoint_of,
}

abbrev party : GatewayParty
party = record {
  party_id = codes "12345678";
  party_description = none;
  routing_id = codes "R";
  routing_description = none;
}

abbrev notification : UploadNotification
notification = record {
  from = party;
  to = party;
  service_type = exchange;
  zip_mode = plain;
  message_type = codes "F0401";
  action = codes "C0401";
  quantity = 27;
  mig_version = codes "4.1";
  filename = codes "name";
  size = 3;
  retry = 0;
  api_version = codes "1";
  turnkey_version = codes "3.2.1";
}

abbrev client : Pfs001HttpClient
client = record {
  connect = 10;
  timeout = 120;
  endpoint = endpoint_of (codes "https://gateway//");
  credentials = record { login_id = codes "id"; login_password = codes "secret" };
}

endpoint_example : client.endpoint ≡ codes "https://gateway/pfs001i/uploadInvoiceMessage"
endpoint_example = refl

abbrev accepted : GatewayProcessStatus
accepted = record { status_code = pos 0; details = [] }

abbrev filename_only : WireInvoiceEvent → Result Str (Unit {0})
filename_only event = ok event.filename

abbrev accept : Str → Result GatewayProcessStatus (Unit {0})
accept body = ok accepted

abbrev same : Str → Str
same s = s

abbrev echo : Request → Result (Response (Unit {0})) (Unit {0})
echo request = ok (record { status = 200; bytes = ok request.body })

notify_http_iff_example :
    (notify_http filename_only accept same echo client notification ≡ ok accepted) ↔ (
      (event : WireInvoiceEvent) × (body : Str) × (status : ℕ) × (answer : Str) × (to_pfs001
          notification client.credentials
        ≡ ok event)
      × (filename_only event ≡ ok body)
      × (echo (record {
        url = client.endpoint;
        login_id = client.credentials.login_id;
        login_password = client.credentials.login_password;
        content_type = codes "application/json";
        body = body;
      })
          ≡ ok (record { status = status; bytes = ok answer }))
      × (is_success status ≡ true)
      × (accept answer ≡ ok accepted))
notify_http_iff_example =
    notify_http_iff filename_only accept same echo client notification accepted

notified : notify_http filename_only accept same echo client notification ≡ ok accepted
unfolding notify_http to_pfs001 checked_i32
notified = refl
