-- ===== src/Signing/Ber/Oid.antt =====
-- Object identifiers of X.690 from their arcs, with those of RFC 5652, RFC 5754 and RFC 5758 that a
-- reader of the signed data of crates/einvoice-signing/src/ber.rs expects.
use tw_einvoice_rs.Base.{
  ℕ, zero, suc, ◌+◌, ◌*◌, ◌/◌, ◌%◌, List, [], ◌∷◌, ◌++◌, length, ◌==◌, if◌then◌else◌,
}
use tw_einvoice_rs.Signing.Ber.{Bytes, SignatureAlgorithm, rsa_pkcs1v15_sha256, ecdsa_sha256}

-- The groups of 7 bits in front of the last one, with fuel; an arc here has four at most.
abbrev continued : ℕ → ℕ → Bytes
continued zero n = []
continued (suc fuel) n =
    let rest = continued fuel (n / 128) in if n == 0 then [] else rest ++ (128 + n % 128) ∷ []

abbrev arc : ℕ → Bytes
arc n = continued 4 (n / 128) ++ n % 128 ∷ []

abbrev arcs : List ℕ → Bytes
arcs [] = []
arcs (n ∷ ns) = arc n ++ arcs ns

-- The value with its tag and its length; the first two arcs share a byte.
abbrev pub oid : ℕ → ℕ → List ℕ → Bytes
oid a b rest = let body = (40 * a + b) ∷ arcs rest in 0x06 ∷ length body ∷ body

abbrev pub signed_data : Bytes
signed_data = oid 1 2 (840 ∷ 113549 ∷ 1 ∷ 7 ∷ 2 ∷ [])

abbrev pub data_content : Bytes
data_content = oid 1 2 (840 ∷ 113549 ∷ 1 ∷ 7 ∷ 1 ∷ [])

abbrev pub sha256 : Bytes
sha256 = oid 2 16 (840 ∷ 1 ∷ 101 ∷ 3 ∷ 4 ∷ 2 ∷ 1 ∷ [])

abbrev pub sha256_with_rsa : Bytes
sha256_with_rsa = oid 1 2 (840 ∷ 113549 ∷ 1 ∷ 1 ∷ 11 ∷ [])

abbrev pub ecdsa_with_sha256 : Bytes
ecdsa_with_sha256 = oid 1 2 (840 ∷ 10045 ∷ 4 ∷ 3 ∷ 2 ∷ [])

-- The value of an algorithm identifier: the identifier, and NULL for the parameters.
abbrev pub algorithm_body : SignatureAlgorithm → Bytes
algorithm_body rsa_pkcs1v15_sha256 = sha256_with_rsa ++ 0x05 ∷ 0x00 ∷ []
algorithm_body ecdsa_sha256 = ecdsa_with_sha256 ++ 0x05 ∷ 0x00 ∷ []

-- SHA-256 as an algorithm identifier, a sequence of 13 bytes.
abbrev pub digest_identifier : Bytes
digest_identifier = 0x30 ∷ 0x0d ∷ (sha256 ++ 0x05 ∷ 0x00 ∷ [])

-- Version 1.
abbrev pub version_one : Bytes
version_one = 0x02 ∷ 0x01 ∷ 0x01 ∷ []

-- The bytes in front of the content, between content and certificate, behind the certificate, and
-- behind the signers: values of indefinite length are opened by 0x80 and closed by two bytes 0.
abbrev pub header : Bytes
header =
    (0x30 ∷ 0x80 ∷ signed_data)
    ++ (0xa0 ∷ 0x80 ∷ 0x30 ∷ 0x80 ∷ version_one)
    ++ (0x31 ∷ 0x0f ∷ digest_identifier)
    ++ (0x30 ∷ 0x80 ∷ data_content)
    ++ 0xa0 ∷ 0x80 ∷ []

abbrev pub middle : Bytes
middle = 0x00 ∷ 0x00 ∷ 0x00 ∷ 0x00 ∷ 0xa0 ∷ 0x80 ∷ []

abbrev pub closed : Bytes
closed = 0x00 ∷ 0x00 ∷ []

abbrev pub trailer : Bytes
trailer = 0x00 ∷ 0x00 ∷ 0x00 ∷ 0x00 ∷ 0x00 ∷ 0x00 ∷ []
