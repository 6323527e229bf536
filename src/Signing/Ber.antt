-- ===== src/Signing/Ber.antt =====
-- crates/einvoice-signing/src/ber.rs: tag-length-value writers and the signed-data layout.
-- A byte is a number below 256; a `usize` is one below 2 ^ 64.
pub mod Length
pub mod Reader
pub mod Integer
pub mod Layout
pub mod Oid
pub mod RoundTrip
use tw_einvoice_rs.Base.{
  ℕ, zero, suc, ◌+◌, ◌-◌, ◌*◌, ◌/◌, ◌%◌, ◌^◌, List, [], ◌∷◌, ◌++◌, length, is_empty, ltb, leb, ◌==◌,
  if◌then◌else◌,
}

abbrev pub Bytes : Type 0
Bytes = List ℕ

abbrev pub eoc : Bytes
eoc = 0x00 ∷ 0x00 ∷ []

abbrev pub asn1_null : Bytes
asn1_null = 0x05 ∷ 0x00 ∷ []

abbrev pub oid_signed_data : Bytes
oid_signed_data = 0x06 ∷ 0x09 ∷ 0x2a ∷ 0x86 ∷ 0x48 ∷ 0x86 ∷ 0xf7 ∷ 0x0d ∷ 0x01 ∷ 0x07 ∷ 0x02 ∷ []

abbrev pub oid_data : Bytes
oid_data = 0x06 ∷ 0x09 ∷ 0x2a ∷ 0x86 ∷ 0x48 ∷ 0x86 ∷ 0xf7 ∷ 0x0d ∷ 0x01 ∷ 0x07 ∷ 0x01 ∷ []

abbrev pub oid_sha256 : Bytes
oid_sha256 = 0x06 ∷ 0x09 ∷ 0x60 ∷ 0x86 ∷ 0x48 ∷ 0x01 ∷ 0x65 ∷ 0x03 ∷ 0x04 ∷ 0x02 ∷ 0x01 ∷ []

abbrev pub oid_sha256_with_rsa : Bytes
oid_sha256_with_rsa =
    0x06 ∷ 0x09 ∷ 0x2a ∷ 0x86 ∷ 0x48 ∷ 0x86 ∷ 0xf7 ∷ 0x0d ∷ 0x01 ∷ 0x01 ∷ 0x0b ∷ []

abbrev pub oid_ecdsa_with_sha256 : Bytes
oid_ecdsa_with_sha256 = 0x06 ∷ 0x08 ∷ 0x2a ∷ 0x86 ∷ 0x48 ∷ 0xce ∷ 0x3d ∷ 0x04 ∷ 0x03 ∷ 0x02 ∷ []

pub data SignatureAlgorithm : Type 0 where
  rsa_pkcs1v15_sha256 ecdsa_sha256 : SignatureAlgorithm

pub record CmsParts : Type 0 where
  pub content : Bytes
  pub certificate_der : Bytes
  pub issuer_name_der : Bytes
  pub serial_number : Bytes
  pub signature_algorithm : SignatureAlgorithm
  pub signature : Bytes

-- The `k` low bytes of a number, most significant first; `usize::to_be_bytes` at `k` = 8.
abbrev pub be_bytes : ℕ → ℕ → Bytes
be_bytes zero n = []
be_bytes (suc k) n = (n / 256 ^ k % 256) ∷ be_bytes k n

-- `bytes[bytes.iter().position(|byte| *byte != 0)..]`; empty where every byte is 0, which the
-- callers rule out or handle.
abbrev pub skip_zeros : Bytes → Bytes
skip_zeros [] = []
skip_zeros (b ∷ bs) = let rest = skip_zeros bs in if b == 0 then rest else b ∷ bs

unfoldable pub encoded_length_size : ℕ → ℕ
encoded_length_size n = if ltb n 128 then 1 else 1 + length (skip_zeros (be_bytes 8 n))

-- `0x80 | len` is a sum: `len` is at most 8.
unfoldable pub write_length : ℕ → Bytes
write_length n =
    if ltb n 128
    then n ∷ []
    else (let significant = skip_zeros (be_bytes 8 n) in (0x80 + length significant) ∷ significant)

unfoldable pub tlv : ℕ → Bytes → Bytes
tlv tag body = tag ∷ (write_length (length body) ++ body)

abbrev pub concat : List Bytes → Bytes
concat [] = []
concat (x ∷ xs) = x ++ concat xs

unfoldable pub constructed : ℕ → List Bytes → Bytes
constructed tag elements = tlv tag (concat elements)

unfoldable pub sequence : List Bytes → Bytes
unfolding constructed
sequence elements = constructed 0x30 elements

unfoldable pub set : List Bytes → Bytes
unfolding constructed
set elements = constructed 0x31 elements

unfoldable pub octet_string : Bytes → Bytes
octet_string bytes = tlv 0x04 bytes

unfoldable pub algorithm_identifier : Bytes → Bytes
algorithm_identifier oid = sequence (oid ∷ asn1_null ∷ [])

abbrev pub integer_one : Bytes
integer_one = 0x02 ∷ 0x01 ∷ 0x01 ∷ []

-- The value without its leading zeros; one byte 0 for no byte or for zeros only.
abbrev pub significant_or_zero : Bytes → Bytes
significant_or_zero bytes = elim (skip_zeros bytes) [ [] ↦ 0 ∷ [] | b ∷ bs ↦ b ∷ bs ]

-- `if body[0] & 0x80 != 0 { body.insert(0, 0) }`.
abbrev pub protect_sign : Bytes → Bytes
protect_sign [] = []
protect_sign (b ∷ bs) = if leb 128 b then 0 ∷ b ∷ bs else b ∷ bs

unfoldable pub positive_integer : Bytes → Bytes
positive_integer bytes = tlv 0x02 (protect_sign (significant_or_zero bytes))

abbrev pub open_indefinite : ℕ → Bytes
open_indefinite tag = tag ∷ 0x80 ∷ []

abbrev pub signature_oid : SignatureAlgorithm → Bytes
signature_oid rsa_pkcs1v15_sha256 = oid_sha256_with_rsa
signature_oid ecdsa_sha256 = oid_ecdsa_with_sha256

unfoldable pub issuer_and_serial : CmsParts → Bytes
issuer_and_serial parts =
    sequence (parts.issuer_name_der ∷ positive_integer parts.serial_number ∷ [])

unfoldable pub signer_info : CmsParts → Bytes
signer_info parts = sequence (
    integer_one
    ∷ issuer_and_serial parts
    ∷ algorithm_identifier oid_sha256
    ∷ algorithm_identifier (signature_oid parts.signature_algorithm)
    ∷ octet_string parts.signature
    ∷ [])

unfoldable pub encode_turnkey_signed_data : CmsParts → Bytes
encode_turnkey_signed_data parts = concat (
    open_indefinite 0x30
    ∷ oid_signed_data
    ∷ open_indefinite 0xa0
    ∷ open_indefinite 0x30
    ∷ integer_one
    ∷ set (algorithm_identifier oid_sha256 ∷ [])
    ∷ open_indefinite 0x30
    ∷ oid_data
    ∷ open_indefinite 0xa0
    ∷ octet_string parts.content
    ∷ eoc
    ∷ eoc
    ∷ open_indefinite 0xa0
    ∷ parts.certificate_der
    ∷ eoc
    ∷ set (signer_info parts ∷ [])
    ∷ eoc
    ∷ eoc
    ∷ eoc
    ∷ [])
