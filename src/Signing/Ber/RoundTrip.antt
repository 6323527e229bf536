-- ===== src/Signing/Ber/RoundTrip.antt =====
-- The signed data that is written is read back: the content, the certificate, and the signer with
-- an equal serial number.
use tw_einvoice_rs.Base.{
  ◌+◌, ◌<◌, ◌≤◌, ◌^◌, ◌≡◌, refl, ap, ap₂, ◌∙◌, some, [], ◌∷◌, ◌++◌, length, length-append, arith,
}
use tw_einvoice_rs.Signing.Ber.Reader.{be_value}
use tw_einvoice_rs.Signing.Ber.Length.{length-tlv}
use tw_einvoice_rs.Signing.Ber.Integer.{
  IsPositiveDer, integer_body, length-integer_body, integer_body_value, integer_body-IsPositiveDer,
}
use tw_einvoice_rs.Signing.Ber.Oid.{
  version_one, algorithm_body, digest_identifier, header, middle, closed, trailer,
}
use tw_einvoice_rs.Signing.Ber.Layout.{
  read_signer, read_signer_lem, read_issuer_lem, read_signed_data, read_signed_data_lem,
  encode_layout,
}
use tw_einvoice_rs.Signing.Ber.{
  Bytes, CmsParts, SignatureAlgorithm, rsa_pkcs1v15_sha256, ecdsa_sha256, asn1_null, oid_sha256,
  signature_oid, tlv, write_length, constructed, sequence, set, octet_string, algorithm_identifier,
  positive_integer, issuer_and_serial, signer_info, encode_turnkey_signed_data,
}

-- The identifiers of the source are those of the standards.
signature_oid-algorithm_body :
    (a : SignatureAlgorithm) → signature_oid a ++ (asn1_null ++ []) ≡ algorithm_body a
signature_oid-algorithm_body rsa_pkcs1v15_sha256 = refl
signature_oid-algorithm_body ecdsa_sha256 = refl

sha256_identifier : algorithm_identifier oid_sha256 ≡ digest_identifier
unfolding algorithm_identifier sequence constructed tlv write_length
sha256_identifier = refl

length-algorithm_body : (a : SignatureAlgorithm) → length (algorithm_body a) ≤ 13
length-algorithm_body rsa_pkcs1v15_sha256 = omega arith
length-algorithm_body ecdsa_sha256 = omega arith

module _ (parts : CmsParts) (issuer : Bytes) where
  -- The value of `issuer_and_serial`, and of the signer info.
  names : Bytes
  names = tlv 0x30 issuer ++ (tlv 0x02 (integer_body parts.serial_number) ++ [])

  info : Bytes
  info =
      version_one
      ++ (tlv 0x30 names
          ++ (digest_identifier
              ++ (tlv 0x30 (algorithm_body parts.signature_algorithm)
                  ++ (tlv 0x04 parts.signature ++ []))))

  length-names : length names ≤ length issuer + length parts.serial_number + 21
  unfolding names
  length-names = omega (
    arith,
    length-append (tlv 0x30 issuer) (tlv 0x02 (integer_body parts.serial_number) ++ []),
    length-append (tlv 0x02 (integer_body parts.serial_number)) [],
    length-tlv 0x30 issuer,
    length-tlv 0x02 (integer_body parts.serial_number),
    length-integer_body parts.serial_number,
  )

  length-info :
      length info ≤ length issuer + length parts.serial_number + length parts.signature + 100
  unfolding info
  length-info =
      let alg = algorithm_body parts.signature_algorithm in
      let last = tlv 0x04 parts.signature ++ [] in
      omega (
        arith,
        length-names,
        length-algorithm_body parts.signature_algorithm,
        length-append (tlv 0x30 names) (digest_identifier ++ (tlv 0x30 alg ++ last)),
        length-append digest_identifier (tlv 0x30 alg ++ last),
        length-append (tlv 0x30 alg) last,
        length-append (tlv 0x04 parts.signature) [],
        length-tlv 0x30 names,
        length-tlv 0x30 alg,
        length-tlv 0x04 parts.signature,
      )

  -- The signer info of the source is the value `info` behind its tag.
  signer_info-info : parts.issuer_name_der ≡ tlv 0x30 issuer → signer_info parts ≡ tlv 0x30 info
  unfolding info names signer_info issuer_and_serial sequence constructed positive_integer
      octet_string algorithm_identifier
  signer_info-info e =
      ap (λ der. signer_info (record parts { issuer_name_der = der })) e
      ∙ ap₂
          (λ digest alg. tlv 0x30 (
            version_one
            ++ (tlv 0x30 (tlv 0x30 issuer ++ (tlv 0x02 (integer_body parts.serial_number) ++ []))
                ++ (digest ++ (tlv 0x30 alg ++ (tlv 0x04 parts.signature ++ []))))))
          sha256_identifier (signature_oid-algorithm_body parts.signature_algorithm)

  read_signer-info :
      length issuer + length parts.serial_number + length parts.signature + 200 < 2 ^ 64
      → read_signer info
        ≡ some (record {
          issuer = issuer;
          serial = integer_body parts.serial_number;
          algorithm = algorithm_body parts.signature_algorithm;
          signature = parts.signature;
        })
  unfolding info
  read_signer-info h =
      read_signer_lem names (algorithm_body parts.signature_algorithm) parts.signature issuer
        (integer_body parts.serial_number) (omega (arith, length-names))
        (omega (arith, length-algorithm_body parts.signature_algorithm)) (omega arith)
        (unfold names in
          read_issuer_lem issuer (integer_body parts.serial_number) (omega arith)
            (omega (arith, length-integer_body parts.serial_number)))

written :
    (parts : CmsParts) (certificate issuer : Bytes)
    → parts.certificate_der ≡ tlv 0x30 certificate
    → parts.issuer_name_der ≡ tlv 0x30 issuer
    → encode_turnkey_signed_data parts
      ≡ header
        ++ (tlv 0x04 parts.content
            ++ (middle
                ++ (tlv 0x30 certificate
                    ++ (closed
                        ++ (tlv 0x31 (tlv 0x30 (info parts issuer) ++ []) ++ (trailer ++ []))))))
unfolding octet_string set constructed
written parts certificate issuer ec ei =
    encode_layout parts
    ∙ ap₂
        (λ c s.
          header
          ++ (octet_string parts.content
              ++ (middle ++ (c ++ (closed ++ (set (s ∷ []) ++ (trailer ++ [])))))))
        ec (signer_info-info parts issuer ei)

-- For a certificate and an issuer name that are DER sequences, and sizes that a buffer can have,
-- the bytes that are written hold, by an independent reader, the content, the certificate, the
-- issuer, the algorithm and the signature unchanged, nothing else, and a serial number of equal
-- value that is a positive DER integer.
pub read_signed_data-encode :
    (parts : CmsParts) (certificate issuer : Bytes)
    → parts.certificate_der ≡ tlv 0x30 certificate
    → parts.issuer_name_der ≡ tlv 0x30 issuer
    → length parts.content
        + length certificate
        + length issuer
        + length parts.serial_number
        + length parts.signature
        + 200
      < 2 ^ 64
    → (serial : Bytes) × (read_signed_data (encode_turnkey_signed_data parts)
        ≡ some (record {
          content = parts.content;
          certificate = certificate;
          signer = record {
            issuer = issuer;
            serial = serial;
            algorithm = algorithm_body parts.signature_algorithm;
            signature = parts.signature;
          };
        }))
      × (be_value 0 serial ≡ be_value 0 parts.serial_number)
      × IsPositiveDer serial
read_signed_data-encode parts certificate issuer ec ei h = (
  integer_body parts.serial_number,
  ap read_signed_data (written parts certificate issuer ec ei)
      ∙ read_signed_data_lem parts.content certificate (info parts issuer) _ (omega arith)
          (omega arith) (omega (arith, length-info parts issuer))
          (omega (
            arith,
            length-info parts issuer,
            length-tlv 0x30 (info parts issuer),
            length-append (tlv 0x30 (info parts issuer)) [],
          ))
          (read_signer-info parts issuer (omega arith)),
  integer_body_value parts.serial_number,
  integer_body-IsPositiveDer parts.serial_number,
)
