-- ===== src/Transport/Gateway/Wire.antt =====
-- What a notification of crates/einvoice-transport/src/gateway.rs has on the wire, field by field.
use tw_einvoice_rs.Base.{◌<◌, ◌≡◌, ◌↔◌, refl, sym, ◌∙◌, subst, Str, codes, ok, pos, i32_bound}
use tw_einvoice_rs.Transport.Gateway.{
  ServiceType, exchange, store, ZipMode, plain, zip, GatewayParty, GatewayCredentials,
  UploadNotification, WireTrans, WireInvoiceEvent, wire_event, wire_trans, service_wire, zip_wire,
  to_pfs001, to_pfs001-wire_event,
}

-- The letter of a service, and the digit of a mode.
abbrev pub service_code : ServiceType → Str
service_code exchange = codes "E"
service_code store = codes "S"

abbrev pub mode_code : ZipMode → Str
mode_code plain = codes "0"
mode_code zip = codes "1"

-- A party in its place.
abbrev pub IsParty : GatewayParty → WireTrans → Type 0
IsParty p t =
    (t.party_info.party_id ≡ p.party_id)
    × (t.party_info.description ≡ p.party_description)
    × (t.routing_info.routing_id ≡ p.routing_id)
    × (t.routing_info.description ≡ p.routing_description)

abbrev pub IsOnWire : UploadNotification → GatewayCredentials → WireInvoiceEvent → Type 0
IsOnWire n c w =
    (w.login_id ≡ c.login_id)
    × (w.login_password ≡ c.login_password)
    × IsParty n.from w.trans_from
    × IsParty n.to w.trans_to
    × (w.service_type ≡ service_code n.service_type)
    × (w.message_type ≡ n.message_type)
    × (w.action ≡ n.action)
    × (w.quantity ≡ pos n.quantity)
    × (w.mig_version ≡ n.mig_version)
    × (w.filename ≡ n.filename)
    × (w.size ≡ pos n.size)
    × (w.zip ≡ mode_code n.zip_mode)
    × (w.retry ≡ pos n.retry)
    × (w.api_version ≡ n.api_version)
    × (w.turnkey_version ≡ n.turnkey_version)

service_code_lem : (s : ServiceType) → service_code s ≡ service_wire s
service_code_lem exchange = refl
service_code_lem store = refl

mode_code_lem : (m : ZipMode) → mode_code m ≡ zip_wire m
mode_code_lem plain = refl
mode_code_lem zip = refl

wire_trans_eq : (p : GatewayParty) (t : WireTrans) → IsParty p t → t ≡ wire_trans p
wire_trans_eq p t (a, b, c, d) = λ i. record {
  party_info = record { party_id = a i; description = b i };
  routing_info = record { routing_id = c i; description = d i };
}

wire_event_eq :
    (n : UploadNotification) (c : GatewayCredentials) (w : WireInvoiceEvent)
    → IsOnWire n c w
    → w ≡ wire_event n c (pos n.quantity) (pos n.size) (pos n.retry)
wire_event_eq n c w (a, b, from, to, s, t, act, q, v, f, z, m, r, api, turnkey) =
    let from' = wire_trans_eq n.from w.trans_from from in
    let to' = wire_trans_eq n.to w.trans_to to in
    let s' = s ∙ service_code_lem n.service_type in
    let m' = m ∙ mode_code_lem n.zip_mode in
    λ i. record {
      login_id = a i;
      login_password = b i;
      trans_from = from' i;
      trans_to = to' i;
      service_type = s' i;
      message_type = t i;
      action = act i;
      quantity = q i;
      mig_version = v i;
      filename = f i;
      size = z i;
      zip = m' i;
      retry = r i;
      api_version = api i;
      turnkey_version = turnkey i;
    }

wire_event-IsOnWire :
    (n : UploadNotification) (c : GatewayCredentials)
    → IsOnWire n c (wire_event n c (pos n.quantity) (pos n.size) (pos n.retry))
wire_event-IsOnWire n c = (
  refl,
  refl,
  (refl, refl, refl, refl),
  (refl, refl, refl, refl),
  sym (service_code_lem n.service_type),
  refl,
  refl,
  refl,
  refl,
  refl,
  refl,
  sym (mode_code_lem n.zip_mode),
  refl,
  refl,
  refl,
)

-- A notification is encoded exactly when its three numbers fit in 31 bits; the credentials, both
-- parties in their places, its numbers and its texts are then on the wire, each in its field, as
-- they are, with "E" or "S" for the service and "0" or "1" for the mode.
pub to_pfs001_iff :
    (n : UploadNotification) (c : GatewayCredentials) (w : WireInvoiceEvent)
    → (to_pfs001 n c ≡ ok w)
      ↔ ((n.quantity < i32_bound) × (n.size < i32_bound) × (n.retry < i32_bound) × IsOnWire n c w)
to_pfs001_iff n c w = (
  λ h.
      let (q, s, r, e) = (to_pfs001-wire_event n c w).0 h in
      (q, s, r, subst (IsOnWire n c) e (wire_event-IsOnWire n c)),
  λ (q, s, r, e). (to_pfs001-wire_event n c w).1 (q, s, r, sym (wire_event_eq n c w e)),
)
