-- ===== src/Signing/Ber/Layout.antt =====
-- The signed-data layout: an independent reader takes it apart again.
use tw_einvoice_rs.Base.{
  ℕ, ◌<◌, ◌^◌, ◌≡◌, refl, ap, ◌∙◌, Option, none, some, [], ◌∷◌, ◌++◌, length, ◌==◌, if◌then◌else◌,
  arith,
}
use tw_einvoice_rs.Signing.Ber.Reader.{read_tlv}
use tw_einvoice_rs.Signing.Ber.Length.{read_tlv-tlv}
use tw_einvoice_rs.Signing.Ber.{
  Bytes, CmsParts, tlv, write_length, constructed, sequence, set, octet_string,
  algorithm_identifier, signer_info, encode_turnkey_signed_data,
}
use tw_einvoice_rs.Signing.Ber.Oid.{version_one, digest_identifier, header, middle, closed, trailer}

infixl 5 ◌>>=◌
abbrev ◌>>=◌ : {A B : Type 0} → Option A → (A → Option B) → Option B
none >>= f = none
some a >>= f = f a

-- The bytes behind a given prefix.
strip : Bytes → Bytes → Option Bytes
strip [] bs = some bs
strip (p ∷ ps) [] = none
strip (p ∷ ps) (b ∷ bs) = let rest = strip ps bs in if p == b then rest else none

strip-append : (ps bs : Bytes) → strip ps (ps ++ bs) ≡ some bs
unfolding strip
strip-append [] bs = refl
strip-append (p ∷ ps) bs = ground (arith, strip-append ps bs)

-- The body of a value with the given tag, and what follows it.
tagged : ℕ → Bytes → Option (Bytes × Bytes)
tagged tag bs = do t ← read_tlv bs; if t.tag == tag then some (t.body, t.rest) else none

tagged-tlv :
    (tag : ℕ) (body rest : Bytes)
    → length body < 2 ^ 64
    → tagged tag (tlv tag body ++ rest) ≡ some (body, rest)
unfolding tagged
tagged-tlv tag body rest h = ground (arith, read_tlv-tlv tag body rest h)

module _ {B : Type 0} where
  some-bind : {A : Type 0} (o : Option A) (a : A) (f : A → Option B) → o ≡ some a → (o >>= f) ≡ f a
  some-bind o a f e = ap (λ o'. o' >>= f) e

  strip-bind : (ps bs : Bytes) (f : Bytes → Option B) → (strip ps (ps ++ bs) >>= f) ≡ f bs
  strip-bind ps bs f = ap (λ o. o >>= f) (strip-append ps bs)

  tagged-bind :
      (tag : ℕ) (body rest : Bytes) (f : Bytes × Bytes → Option B)
      → length body < 2 ^ 64
      → (tagged tag (tlv tag body ++ rest) >>= f) ≡ f (body, rest)
  tagged-bind tag body rest f h = ap (λ o. o >>= f) (tagged-tlv tag body rest h)

-- Nothing may follow.
ended : Bytes → Option (Unit {0})
ended [] = some tt
ended (b ∷ bs) = none

-- What a receiver of the signed data is told by one signer.
pub record Signer : Type 0 where
  pub issuer : Bytes
  pub serial : Bytes
  pub algorithm : Bytes
  pub signature : Bytes

pub read_issuer : Bytes → Option (Bytes × Bytes)
unfolding ended
read_issuer bs = tagged 0x30 bs >>= λ p. tagged 0x02 p.1 >>= λ q. ended q.1 >>= λ _. some (p.0, q.0)

pub read_signer : Bytes → Option Signer
read_signer bs = strip version_one bs >>= λ r0. tagged 0x30 r0 >>= λ name.
    read_issuer name.0 >>= λ who. strip digest_identifier name.1 >>= λ r1. tagged 0x30 r1 >>= λ alg.
    tagged 0x04 alg.1 >>= λ sig. ended sig.1 >>= λ _.
    some (record { issuer = who.0; serial = who.1; algorithm = alg.0; signature = sig.0 })

pub read_issuer_lem :
    (issuer serial : Bytes)
    → length issuer < 2 ^ 64
    → length serial < 2 ^ 64
    → read_issuer (tlv 0x30 issuer ++ (tlv 0x02 serial ++ [])) ≡ some (issuer, serial)
unfolding read_issuer
read_issuer_lem issuer serial hi hs =
    tagged-bind 0x30 issuer (tlv 0x02 serial ++ []) _ hi ∙ tagged-bind 0x02 serial [] _ hs

pub read_signer_lem :
    (names alg sig issuer serial : Bytes)
    → length names < 2 ^ 64
    → length alg < 2 ^ 64
    → length sig < 2 ^ 64
    → read_issuer names ≡ some (issuer, serial)
    → read_signer (
        version_one
        ++ (tlv 0x30 names ++ (digest_identifier ++ (tlv 0x30 alg ++ (tlv 0x04 sig ++ [])))))
      ≡ some (record { issuer = issuer; serial = serial; algorithm = alg; signature = sig })
unfolding read_signer ended
read_signer_lem names alg sig issuer serial hn ha hs e =
    strip-bind version_one _ _
    ∙ tagged-bind 0x30 names _ _ hn
    ∙ some-bind (read_issuer names) (issuer, serial) _ e
    ∙ strip-bind digest_identifier _ _
    ∙ tagged-bind 0x30 alg _ _ ha
    ∙ tagged-bind 0x04 sig [] _ hs

pub record SignedData : Type 0 where
  pub content : Bytes
  pub certificate : Bytes
  pub signer : Signer

pub read_signed_data : Bytes → Option SignedData
read_signed_data bs = strip header bs >>= λ r0. tagged 0x04 r0 >>= λ content.
    strip middle content.1 >>= λ r1. tagged 0x30 r1 >>= λ certificate.
    strip closed certificate.1 >>= λ r2. tagged 0x31 r2 >>= λ infos. tagged 0x30 infos.0 >>= λ info.
    read_signer info.0 >>= λ signer. ended info.1 >>= λ _. strip trailer infos.1 >>= λ r3.
    ended r3 >>= λ _.
    some (record { content = content.0; certificate = certificate.0; signer = signer })

-- The layout of the source, piece by piece.
pub encode_layout :
    (parts : CmsParts)
    → encode_turnkey_signed_data parts
      ≡ header
        ++ (octet_string parts.content
            ++ (middle
                ++ (parts.certificate_der
                    ++ (closed ++ (set (signer_info parts ∷ []) ++ (trailer ++ []))))))
unfolding encode_turnkey_signed_data set constructed tlv write_length algorithm_identifier sequence
encode_layout parts = refl

pub read_signed_data_lem :
    (content certificate info : Bytes) (signer : Signer)
    → length content < 2 ^ 64
    → length certificate < 2 ^ 64
    → length info < 2 ^ 64
    → length (tlv 0x30 info ++ []) < 2 ^ 64
    → read_signer info ≡ some signer
    → read_signed_data (
        header
        ++ (tlv 0x04 content
            ++ (middle
                ++ (tlv 0x30 certificate
                    ++ (closed ++ (tlv 0x31 (tlv 0x30 info ++ []) ++ (trailer ++ [])))))))
      ≡ some (record { content = content; certificate = certificate; signer = signer })
unfolding read_signed_data ended
read_signed_data_lem content certificate info signer hc hd hi ht e =
    strip-bind header _ _
    ∙ tagged-bind 0x04 content _ _ hc
    ∙ strip-bind middle _ _
    ∙ tagged-bind 0x30 certificate _ _ hd
    ∙ strip-bind closed _ _
    ∙ tagged-bind 0x31 (tlv 0x30 info ++ []) _ _ ht
    ∙ tagged-bind 0x30 info [] _ hi
    ∙ some-bind (read_signer info) signer _ e
    ∙ strip-bind trailer [] _
