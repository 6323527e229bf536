-- ===== src/Signing/Pfx.antt =====
-- crates/einvoice-signing/src/pfx.rs: the signer with the key of a PFX file. OpenSSL is a parameter.
use tw_einvoice_rs.Base.{
  ℕ, ◌+◌, ◌<◌, ◌≡◌, refl, sym, ap, ◌∙◌, Bool, true, false, Option, none, some, Str, length, Result,
  ok, err, map_err, ensure, ◌>>=◌, ◌>>◌, use_ok, ok_of-map_err, ok_of-ensure, eq_of_ok, subst,
  arith,
}
use tw_einvoice_rs.Signing.Ber.{
  CmsParts, SignatureAlgorithm, rsa_pkcs1v15_sha256, ecdsa_sha256, encode_turnkey_signed_data, tlv,
}
use tw_einvoice_rs.Signing.Armor.{CmsSignedData}
pub mod Signature

pub data KeyId : Type 0 where
  rsa ec other_key : KeyId

-- What the source calls of OpenSSL: private keys `K`, public keys `P`, certificates `C`, parsed files
-- `D`, errors `X`. `sign` is what is called from `Signer::new` to `sign_to_vec`, with the padding of
-- PKCS#1 set or not.
pub record OpenSsl (K P C D X : Type 0) : Type 0 where
  pub pkcs12_from_der : Str → Result D X
  pub parse2 : D → Str → Result (Option K × Option C) X
  pub public_key : C → Result P X
  pub public_eq : P → K → Bool
  pub key_id : K → KeyId
  pub sign : K → Bool → Str → Result Str X
  pub certificate_der : C → Result Str X
  pub issuer_der : C → Result Str X
  pub serial_bytes : C → Result Str X

pub data PfxSignerError (X : Type 0) : Type 0 where
  open_ssl : X → PfxSignerError X
  missing_private_key missing_certificate : PfxSignerError X
  mismatched_key_pair unsupported_private_key : PfxSignerError X

pub record PfxSigner (K C : Type 0) : Type 0 where
  pub private_key : K
  pub certificate : C
  pub signature_algorithm : SignatureAlgorithm

-- `ok_or`.
abbrev pub ok_or : {A E : Type 0} → Option A → E → Result A E
ok_or none e = err e
ok_or (some a) e = ok a

-- `match private_key.id()`.
abbrev pub algorithm_of : {X : Type 0} → KeyId → Result SignatureAlgorithm (PfxSignerError X)
algorithm_of rsa = ok rsa_pkcs1v15_sha256
algorithm_of ec = ok ecdsa_sha256
algorithm_of other_key = err unsupported_private_key

abbrev pub is_rsa : SignatureAlgorithm → Bool
is_rsa rsa_pkcs1v15_sha256 = true
is_rsa ecdsa_sha256 = false

module _ {K P C D X : Type 0} (ssl : OpenSsl K P C D X) where
  unfoldable pub pfx_from_der : Str → Str → Result (PfxSigner K C) (PfxSignerError X)
  pfx_from_der pfx_der password = map_err open_ssl (ssl.pkcs12_from_der pfx_der) >>= λ file.
      map_err open_ssl (ssl.parse2 file password) >>= λ parsed.
      ok_or parsed.0 missing_private_key >>= λ private_key.
      ok_or parsed.1 missing_certificate >>= λ certificate.
      map_err open_ssl (ssl.public_key certificate) >>= λ certificate_key.
      ensure (ssl.public_eq certificate_key private_key) mismatched_key_pair
      >> (algorithm_of (ssl.key_id private_key) >>= λ algorithm. ok (record {
        private_key = private_key;
        certificate = certificate;
        signature_algorithm = algorithm;
      }))

  unfoldable pub sign_attached : PfxSigner K C → Str → Result CmsSignedData (PfxSignerError X)
  sign_attached s content =
      map_err open_ssl (ssl.sign s.private_key (is_rsa s.signature_algorithm) content)
      >>= λ signature. map_err open_ssl (ssl.certificate_der s.certificate) >>= λ certificate_der.
          map_err open_ssl (ssl.issuer_der s.certificate) >>= λ issuer_name_der.
          map_err open_ssl (ssl.serial_bytes s.certificate) >>= λ serial_number. ok (record {
            encoded = encode_turnkey_signed_data (record {
              content = content;
              certificate_der = certificate_der;
              issuer_name_der = issuer_name_der;
              serial_number = serial_number;
              signature_algorithm = s.signature_algorithm;
              signature = signature;
            });
          })
