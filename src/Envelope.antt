-- ===== src/Envelope.antt =====
-- crates/einvoice-envelope/src/lib.rs: the envelope of a pack of messages.
pub mod Utf8
pub mod Wire
mod Tests
use tw_einvoice_rs.Base.{
  ℕ, zero, suc, ◌≤◌, ◌<◌, ◌≡◌, ◌↔◌, refl, Option, List, [], ◌∷◌, Str, length, is_empty, ltb, ◌==◌,
  if◌then◌else◌, Result, ok, err, arith,
}
use tw_einvoice_rs.Core.{MigVersion}

pub record PartyInfo : Type 0 where
  pub identifier : Str
  pub description : Option Str

pub record RoutingInfo : Type 0 where
  pub identifier : Str
  pub description : Option Str

pub record EnvelopeRouting : Type 0 where
  pub from : PartyInfo
  pub from_vac : RoutingInfo
  pub to : PartyInfo
  pub to_vac : RoutingInfo

pub record InvoicePackMetadata : Type 0 where
  pub message_type : Str
  pub version : MigVersion

pub data EnvelopeError : Type 0 where
  empty_payload no_payloads : EnvelopeError
  too_many_payloads : ℕ → ℕ → EnvelopeError

pub record MigPayload : Type 0 where
  pub bytes : Str

unfoldable pub new_payload : Str → Result MigPayload EnvelopeError
new_payload bytes = if is_empty bytes then err empty_payload else ok (record { bytes = bytes })

pub record InvoiceEnvelope : Type 0 where
  pub routing : EnvelopeRouting
  pub metadata : InvoicePackMetadata
  pub payloads : List MigPayload

abbrev pub max_payloads : ℕ
max_payloads = 1000

unfoldable pub new_envelope :
    EnvelopeRouting → InvoicePackMetadata → List MigPayload → Result InvoiceEnvelope EnvelopeError
new_envelope routing metadata payloads =
    if length payloads == 0
    then err no_payloads
    else if ltb max_payloads (length payloads)
    then err (too_many_payloads (length payloads) max_payloads)
    else ok (record { routing = routing; metadata = metadata; payloads = payloads })

abbrev pub count : InvoiceEnvelope → ℕ
count e = length e.payloads

-- An envelope is made exactly of 1 to 1,000 payloads, and holds what it was made of.
pub new_envelope_iff :
    (r : EnvelopeRouting) (m : InvoicePackMetadata) (ps : List MigPayload) (e : InvoiceEnvelope)
    → (new_envelope r m ps ≡ ok e) ↔ (
        (0 < length ps)
        × (length ps ≤ 1000)
        × (record { routing = r; metadata = m; payloads = ps } ≡ e))
unfolding new_envelope
new_envelope_iff r m ps e = ground arith
