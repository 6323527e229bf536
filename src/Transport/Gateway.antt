-- ===== src/Transport/Gateway.antt =====
-- crates/einvoice-transport/src/gateway.rs: the notification of an upload (PFS001), its numbers on
-- the wire, and the answer. JSON is a call of a library; its child Http is the client of HTTP.
pub mod Http
pub mod Wire
mod Tests
use tw_einvoice_rs.Base.{
  ap, ℕ, ◌<◌, ◌≡◌, ◌↔◌, refl, Bool, Option, List, Str, codes, Result, ok, err, ◌>>=◌, ℤ, pos,
  int_eq, i32_bound, ltb, if◌then◌else◌, arith, ok_of->>=, eq_of_ok, ◌∙◌,
}

pub data ServiceType : Type 0 where
  exchange store : ServiceType

pub data ZipMode : Type 0 where
  plain zip : ZipMode

abbrev pub service_wire : ServiceType → Str
service_wire exchange = codes "E"
service_wire store = codes "S"

abbrev pub zip_wire : ZipMode → Str
zip_wire plain = codes "0"
zip_wire zip = codes "1"

pub record GatewayParty : Type 0 where
  pub party_id : Str
  pub party_description : Option Str
  pub routing_id : Str
  pub routing_description : Option Str

pub record GatewayCredentials : Type 0 where
  pub login_id : Str
  pub login_password : Str

pub record UploadNotification : Type 0 where
  pub from : GatewayParty
  pub to : GatewayParty
  pub service_type : ServiceType
  pub zip_mode : ZipMode
  pub message_type : Str
  pub action : Str
  pub quantity : ℕ
  pub mig_version : Str
  pub filename : Str
  pub size : ℕ
  pub retry : ℕ
  pub api_version : Str
  pub turnkey_version : Str

abbrev pub initial_retry : ℕ
initial_retry = 0

pub record WirePartyInfo : Type 0 where
  pub party_id : Str
  pub description : Option Str

pub record WireRoutingInfo : Type 0 where
  pub routing_id : Str
  pub description : Option Str

pub record WireTrans : Type 0 where
  pub party_info : WirePartyInfo
  pub routing_info : WireRoutingInfo

pub record WireInvoiceEvent : Type 0 where
  pub login_id : Str
  pub login_password : Str
  pub trans_from : WireTrans
  pub trans_to : WireTrans
  pub service_type : Str
  pub message_type : Str
  pub action : Str
  pub quantity : ℤ
  pub mig_version : Str
  pub filename : Str
  pub size : ℤ
  pub zip : Str
  pub retry : ℤ
  pub api_version : Str
  pub turnkey_version : Str

pub data WireField : Type 0 where
  quantity_field size_field retry_field : WireField

pub data GatewayEncodeError : Type 0 where
  integer_out_of_range : WireField → ℕ → GatewayEncodeError

unfoldable pub checked_i32 : WireField → ℕ → Result ℤ GatewayEncodeError
checked_i32 field value =
    if ltb value i32_bound then ok (pos value) else err (integer_out_of_range field value)

abbrev pub wire_trans : GatewayParty → WireTrans
wire_trans p = record {
  party_info = record { party_id = p.party_id; description = p.party_description };
  routing_info = record { routing_id = p.routing_id; description = p.routing_description };
}

abbrev pub wire_event : UploadNotification → GatewayCredentials → ℤ → ℤ → ℤ → WireInvoiceEvent
wire_event n credentials quantity size retry = record {
  login_id = credentials.login_id;
  login_password = credentials.login_password;
  trans_from = wire_trans n.from;
  trans_to = wire_trans n.to;
  service_type = service_wire n.service_type;
  message_type = n.message_type;
  action = n.action;
  quantity = quantity;
  mig_version = n.mig_version;
  filename = n.filename;
  size = size;
  zip = zip_wire n.zip_mode;
  retry = retry;
  api_version = n.api_version;
  turnkey_version = n.turnkey_version;
}

-- `to_pfs001_json`, up to the value that is serialized.
unfoldable pub to_pfs001 :
    UploadNotification → GatewayCredentials → Result WireInvoiceEvent GatewayEncodeError
to_pfs001 n credentials = checked_i32 quantity_field n.quantity >>= λ quantity.
    checked_i32 size_field n.size >>= λ size.
    checked_i32 retry_field n.retry >>= λ retry. ok (wire_event n credentials quantity size retry)

pub record GatewayStatusDetail : Type 0 where
  pub code : Str
  pub description : Option Str
  pub parameters : List Str

pub record GatewayProcessStatus : Type 0 where
  pub status_code : ℤ
  pub details : List GatewayStatusDetail

abbrev pub is_accepted : GatewayProcessStatus → Bool
is_accepted s = int_eq s.status_code (pos 0)

checked_i32_iff :
    (f : WireField) (v : ℕ) (z : ℤ) → (checked_i32 f v ≡ ok z) ↔ ((v < i32_bound) × (pos v ≡ z))
unfolding checked_i32
checked_i32_iff f v z = ground arith

pub to_pfs001-wire_event :
    (n : UploadNotification) (c : GatewayCredentials) (w : WireInvoiceEvent)
    → (to_pfs001 n c ≡ ok w) ↔ (
        (n.quantity < i32_bound)
        × (n.size < i32_bound)
        × (n.retry < i32_bound)
        × (wire_event n c (pos n.quantity) (pos n.size) (pos n.retry) ≡ w))
unfolding to_pfs001
to_pfs001-wire_event n c w = (
  λ h. read h,
  λ (a, b, d, e). rw ((checked_i32_iff quantity_field n.quantity (pos n.quantity)).1 (a, refl)) (
      rw ((checked_i32_iff size_field n.size (pos n.size)).1 (b, refl))
        (rw ((checked_i32_iff retry_field n.retry (pos n.retry)).1 (d, refl)) (ap ok e))),
)
  where
    read :
        to_pfs001 n c ≡ ok w
        → (n.quantity < i32_bound)
          × (n.size < i32_bound)
          × (n.retry < i32_bound)
          × (wire_event n c (pos n.quantity) (pos n.size) (pos n.retry) ≡ w)
    read h =
        let (q, eq, h1) = ok_of->>= (checked_i32 quantity_field n.quantity) _ h in
        let (s, es, h2) = ok_of->>= (checked_i32 size_field n.size) _ h1 in
        let (r, er, h3) = ok_of->>= (checked_i32 retry_field n.retry) _ h2 in
        let (a, a') = (checked_i32_iff quantity_field n.quantity q).0 eq in
        let (b, b') = (checked_i32_iff size_field n.size s).0 es in
        let (d, d') = (checked_i32_iff retry_field n.retry r).0 er in
        (
          a,
          b,
          d,
          ap (λ x. wire_event n c x (pos n.size) (pos n.retry)) a'
              ∙ ap (λ x. wire_event n c q x (pos n.retry)) b'
              ∙ ap (λ x. wire_event n c q s x) d'
              ∙ eq_of_ok h3,
        )
