-- ===== src/Signing/Tests.antt =====
-- The theorems of Signing at concrete inputs; the parts are those of the source's synthetic case.
use tw_einvoice_rs.Signing.Armor.{
  fits, without_newlines, CmsSignedData, to_turnkey_armored, to_turnkey_armored-fits,
}
use tw_einvoice_rs.Base.{
  ℕ, Bool, str_eq, ◌==◌, length, ok, Str, true, ◌≡◌, refl, some, [], ◌∷◌, ◌++◌, arith, codes,
}
use tw_einvoice_rs.Signing.Ber.{
  Bytes, CmsParts, ecdsa_sha256, rsa_pkcs1v15_sha256, write_length, tlv, positive_integer,
  encode_turnkey_signed_data,
}
use tw_einvoice_rs.Signing.Pfx.{OpenSsl, rsa, PfxSigner}
use tw_einvoice_rs.Signing.Ber.Reader.{be_value, read_tlv}
use tw_einvoice_rs.Signing.Ber.Length.{read_tlv-tlv}
use tw_einvoice_rs.Signing.Ber.Integer.{IsPositiveDer}
use tw_einvoice_rs.Signing.Ber.Layout.{read_signed_data}
use tw_einvoice_rs.Signing.Ber.RoundTrip.{read_signed_data-encode}
use tw_einvoice_rs.Signing.Ber.Oid.{algorithm_body}

test_long_length : write_length 300 ≡ 0x82 ∷ 0x01 ∷ 0x2c ∷ []
unfolding write_length
test_long_length = refl

test_sign_byte : positive_integer (0x00 ∷ 0x80 ∷ []) ≡ 0x02 ∷ 0x02 ∷ 0x00 ∷ 0x80 ∷ []
unfolding positive_integer tlv write_length
test_sign_byte = refl

abbrev parts : CmsParts
parts = record {
  content = codes "x";
  certificate_der = 0x30 ∷ 0x00 ∷ [];
  issuer_name_der = 0x30 ∷ 0x00 ∷ [];
  serial_number = 0x80 ∷ [];
  signature_algorithm = ecdsa_sha256;
  signature = 0xaa ∷ [];
}

read_tlv-tlv_example :
    read_tlv (tlv 4 (1 ∷ 2 ∷ []) ++ (9 ∷ []))
    ≡ some (record { tag = 4; body = 1 ∷ 2 ∷ []; rest = 9 ∷ [] })
read_tlv-tlv_example = read_tlv-tlv 4 (1 ∷ 2 ∷ []) (9 ∷ []) (omega arith)

tlv_empty : 0x30 ∷ 0x00 ∷ [] ≡ tlv 0x30 []
unfolding tlv write_length
tlv_empty = refl

read_signed_data-encode_example :
    (serial : Bytes) × (read_signed_data (encode_turnkey_signed_data parts)
      ≡ some (record {
        content = codes "x";
        certificate = [];
        signer = record {
          issuer = [];
          serial = serial;
          algorithm = algorithm_body ecdsa_sha256;
          signature = 0xaa ∷ [];
        };
      }))
    × (be_value 0 serial ≡ be_value 0 (0x80 ∷ []))
    × IsPositiveDer serial
read_signed_data-encode_example =
    read_signed_data-encode parts [] [] tlv_empty tlv_empty (omega arith)

-- An encoder for the example that drops line feeds.
abbrev encode : Str → Str
encode s = without_newlines s

to_turnkey_armored-fits_example :
    (fits 0 (to_turnkey_armored encode (record { encoded = codes "abc" })) ≡ true)
    × (without_newlines (to_turnkey_armored encode (record { encoded = codes "abc" }))
        ≡ codes "abc")
to_turnkey_armored-fits_example =
    to_turnkey_armored-fits encode (record { encoded = codes "abc" }) (omega arith)

-- A signature that tells the key and the length of the content.
abbrev signature_of : ℕ → Str → Str
signature_of k content = k ∷ length content ∷ []

abbrev toy : OpenSsl ℕ ℕ ℕ Str (Unit {0})
toy = record {
  pkcs12_from_der = λ der. ok der;
  parse2 = λ file password. ok (some 7, some 7);
  public_key = λ c. ok c;
  public_eq = λ p k. p == k;
  key_id = λ k. rsa;
  sign = λ k padding content. ok (signature_of k content);
  certificate_der = λ c. ok (0x30 ∷ 0x00 ∷ []);
  issuer_der = λ c. ok (0x30 ∷ 0x00 ∷ []);
  serial_bytes = λ c. ok (c ∷ []);
}

abbrev toy_verify : ℕ → Bool → Str → Str → Bool
toy_verify p padding content signature = str_eq signature (signature_of p content)

abbrev toy_signer : PfxSigner ℕ ℕ
toy_signer = record { private_key = 7; certificate = 7; signature_algorithm = rsa_pkcs1v15_sha256 }

abbrev toy_cms : CmsSignedData
toy_cms = record {
  encoded = encode_turnkey_signed_data (record {
    content = codes "x";
    certificate_der = 0x30 ∷ 0x00 ∷ [];
    issuer_name_der = 0x30 ∷ 0x00 ∷ [];
    serial_number = 7 ∷ [];
    signature_algorithm = rsa_pkcs1v15_sha256;
    signature = 7 ∷ 1 ∷ [];
  });
}
