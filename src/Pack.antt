-- ===== src/Pack.antt =====
-- crates/einvoice-pack/src/lib.rs: an envelope is serialized, signed and armored. The signer and the
-- Base64 encoder are parameters.
use tw_einvoice_rs.Base.{ℕ, Str, length, Result, ok, map_err, ◌>>=◌}
use tw_einvoice_rs.Envelope.{InvoiceEnvelope}
use tw_einvoice_rs.Envelope.Wire.{EnvelopeSerializeError, to_turnkey_xml}
use tw_einvoice_rs.Signing.Ber.{SignatureAlgorithm}
use tw_einvoice_rs.Signing.Armor.{CmsSignedData, to_turnkey_armored}

pub record SignedArtifact : Type 0 where
  pub upload_bytes : Str
  pub envelope_size : ℕ
  pub signature_algorithm : SignatureAlgorithm

abbrev pub turnkey_reported_size : SignedArtifact → ℕ
turnkey_reported_size a = length a.upload_bytes

-- The trait `CmsSigner`.
pub record CmsSigner (E : Type 0) : Type 0 where
  pub algorithm : SignatureAlgorithm
  pub sign_attached : Str → Result CmsSignedData E

pub data PackError (E : Type 0) : Type 0 where
  envelope_error : EnvelopeSerializeError → PackError E
  signing_error : E → PackError E

module _ {E : Type 0} (encode : Str → Str) where
  unfoldable pub pack_and_sign : InvoiceEnvelope → CmsSigner E → Result SignedArtifact (PackError E)
  pack_and_sign envelope signer = map_err envelope_error (to_turnkey_xml envelope) >>= λ bytes.
      map_err signing_error (signer.sign_attached bytes) >>= λ cms. ok (record {
        upload_bytes = to_turnkey_armored encode cms;
        envelope_size = length bytes;
        signature_algorithm = signer.algorithm;
      })
