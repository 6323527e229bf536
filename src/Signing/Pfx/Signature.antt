-- ===== src/Signing/Pfx/Signature.antt =====
-- What a signer of crates/einvoice-signing/src/pfx.rs makes can be verified by who reads it.
use tw_einvoice_rs.Base.{◌+◌, ◌^◌, ◌<◌, ◌≡◌, Bool, true, some, Str, length, ok}
use tw_einvoice_rs.Signing.Ber.{tlv}
use tw_einvoice_rs.Signing.Ber.Oid.{algorithm_body}
use tw_einvoice_rs.Signing.Ber.Layout.{SignedData, read_signed_data}
use tw_einvoice_rs.Signing.Armor.{CmsSignedData}
use tw_einvoice_rs.Signing.Pfx.{OpenSsl, PfxSigner, is_rsa}

-- What OpenSSL documents: a signature is accepted by the public key that fits the private one, and
-- certificates and names are DER sequences.
pub record Documented {K P C D X : Type 0} (ssl : OpenSsl K P C D X)
    (verify : P → Bool → Str → Str → Bool) : Type 0 where
  pub verifies :
      (p : P) (k : K) (padding : Bool) (content signature : Str)
      → ssl.public_eq p k ≡ true
      → ssl.sign k padding content ≡ ok signature
      → verify p padding content signature ≡ true
  pub certificate_is_der :
      (c : C) (der : Str) → ssl.certificate_der c ≡ ok der → (body : Str) × (der ≡ tlv 0x30 body)
  pub issuer_is_der :
      (c : C) (der : Str) → ssl.issuer_der c ≡ ok der → (body : Str) × (der ≡ tlv 0x30 body)

-- The content and what OpenSSL returns for it are in memory at once: their sizes, with 200 bytes
-- for what is written around them, add up to less than the address space.
abbrev pub FitsMemory : {K P C D X : Type 0} → OpenSsl K P C D X → PfxSigner K C → Str → Type 0
FitsMemory ssl s content =
    (signature certificate issuer serial : Str)
    → ssl.sign s.private_key (is_rsa s.signature_algorithm) content ≡ ok signature
    → ssl.certificate_der s.certificate ≡ ok certificate
    → ssl.issuer_der s.certificate ≡ ok issuer
    → ssl.serial_bytes s.certificate ≡ ok serial
    → length content + length certificate + length issuer + length serial + length signature + 200
      < 2 ^ 64

module _ {K P C D X : Type 0} (ssl : OpenSsl K P C D X) (verify : P → Bool → Str → Str → Bool) where
  -- The signer's key is the one of its certificate.
  abbrev pub IsPaired : PfxSigner K C → Type 0
  IsPaired s =
      (p : P) × (ssl.public_key s.certificate ≡ ok p) × (ssl.public_eq p s.private_key ≡ true)

  -- The content and a signature of it that the certificate's key accepts are read from the bytes.
  abbrev pub IsVerified : PfxSigner K C → Str → CmsSignedData → Type 0
  IsVerified s content cms =
      (read : SignedData) × (p : P) × (read_signed_data cms.encoded ≡ some read)
      × (read.content ≡ content)
      × (ssl.certificate_der s.certificate ≡ ok (tlv 0x30 read.certificate))
      × (read.signer.algorithm ≡ algorithm_body s.signature_algorithm)
      × (ssl.public_key s.certificate ≡ ok p)
      × (verify p (is_rsa s.signature_algorithm) content read.signer.signature ≡ true)
