-- ===== src/Signing/Armor.antt =====
-- crates/einvoice-signing/src/lib.rs: the profile of a signature, and the armor of its bytes. The
-- Base64 encoder is a call of a library, and a parameter.
use tw_einvoice_rs.Base.{
  ℕ, suc, ◌+◌, ◌%◌, ◌<◌, ◌≡◌, ◌≢◌, refl, sym, ap, ◌∙◌, Bool, true, false, ◌&&◌, [], ◌∷◌, ◌++◌, Str,
  codes, length, is_empty, ltb, ◌==◌, if◌then◌else◌, Result, ok, err, Lacks, arith, ==_iff,
  Bool-cases, inl, inr, append-nil,
}
use tw_einvoice_rs.Signing.Ber.{SignatureAlgorithm, rsa_pkcs1v15_sha256, ecdsa_sha256}

pub data DigestAlgorithm : Type 0 where
  sha256 : DigestAlgorithm

abbrev pub digest_oid : DigestAlgorithm → Str
digest_oid sha256 = codes "2.16.840.1.101.3.4.2.1"

abbrev pub algorithm_oid : SignatureAlgorithm → Str
algorithm_oid rsa_pkcs1v15_sha256 = codes "1.2.840.113549.1.1.11"
algorithm_oid ecdsa_sha256 = codes "1.2.840.10045.4.3.2"

pub data CmsContentMode : Type 0 where
  attached : CmsContentMode

pub data CmsEncoding : Type 0 where
  ber_indefinite_length : CmsEncoding

pub record TurnkeyCmsProfile : Type 0 where
  pub digest : DigestAlgorithm
  pub content_mode : CmsContentMode
  pub encoding : CmsEncoding
  pub include_certificate : Bool
  pub signed_attributes : Bool

abbrev pub default_profile : TurnkeyCmsProfile
default_profile = record {
  digest = sha256;
  content_mode = attached;
  encoding = ber_indefinite_length;
  include_certificate = true;
  signed_attributes = false;
}

pub record CmsSignedData : Type 0 where
  pub encoded : Str

pub data SignedDataError : Type 0 where
  empty_signed_data : SignedDataError

unfoldable pub from_encoded : Str → Result CmsSignedData SignedDataError
from_encoded bytes =
    if is_empty bytes then err empty_signed_data else ok (record { encoded = bytes })

abbrev pub newline : ℕ
newline = 10

-- The loop over the characters, from `index` on; `& 63` is the remainder by 64.
abbrev pub wrap_lines : ℕ → Str → Str
wrap_lines index [] = []
wrap_lines index (c ∷ s) =
    let rest = wrap_lines (suc index) s in
    if suc index % 64 == 0 then c ∷ newline ∷ rest else c ∷ rest

abbrev pub last_newline : ℕ → Str
last_newline n = if n % 64 == 0 then [] else newline ∷ []

module _ (encode : Str → Str) where
  unfoldable pub to_turnkey_armored : CmsSignedData → Str
  to_turnkey_armored d = wrap_lines 0 (encode d.encoded) ++ last_newline (length (encode d.encoded))

-- What a decoder that skips line feeds reads.
abbrev pub without_newlines : Str → Str
without_newlines [] = []
without_newlines (c ∷ s) = let rest = without_newlines s in if c == newline then rest else c ∷ rest

without_newlines-append :
    (s t : Str) → without_newlines (s ++ t) ≡ without_newlines s ++ without_newlines t
without_newlines-append [] t = refl
without_newlines-append (c ∷ s) t = ground (arith, without_newlines-append s t)

without_newlines-wrap_lines :
    (i : ℕ) (s : Str) → Lacks newline s → without_newlines (wrap_lines i s) ≡ s
without_newlines-wrap_lines i [] h = refl
without_newlines-wrap_lines i (c ∷ s) h = ground (arith, without_newlines-wrap_lines (suc i) s h.1)

without_newlines-last_newline : (n : ℕ) → without_newlines (last_newline n) ≡ []
without_newlines-last_newline n = ground arith

-- Every line from column `column` on has at most 64 characters, and the last has a line feed.
abbrev pub fits : ℕ → Str → Bool
fits column [] = column == 0
fits column (c ∷ s) =
    let next = fits 0 s in
    let along = fits (suc column) s in if c == newline then next else ltb column 64 && along

fits-char :
    (column c : ℕ) (s : Str) → c ≢ newline → column < 64 → fits column (c ∷ s) ≡ fits (suc column) s
fits-char column c s h l = ground arith

fits-wrap_lines :
    (i n : ℕ) (s : Str)
    → Lacks newline s
    → n ≡ i + length s
    → fits (i % 64) (wrap_lines i s ++ last_newline n) ≡ true
fits-wrap_lines i n [] h e = ground arith
fits-wrap_lines i n (c ∷ s) h e =
    let again = fits-wrap_lines (suc i) n s h.1 (omega arith) in
    let tail = wrap_lines (suc i) s ++ last_newline n in
    elim (Bool-cases (suc i % 64 == 0)) [
      | inl full ↦
          let zero_column : suc i % 64 ≡ 0 = (==_iff (suc i % 64) 0).0 full in
          rw full (
            fits-char (i % 64) c (newline ∷ tail) h.0 (omega arith)
            ∙ ap (λ k. fits k tail) (sym zero_column)
            ∙ again)
      | inr open_line ↦
          let next_column : suc (i % 64) ≡ suc i % 64 = ground arith in
          rw open_line (
            fits-char (i % 64) c tail h.0 (omega arith) ∙ ap (λ k. fits k tail) next_column ∙ again)
    ]

-- For an encoder whose text has no line feed, the armor is that text in lines of at most 64
-- characters, each with a line feed, the last one too, and without the line feeds it is that text.
pub to_turnkey_armored-fits :
    (encode : Str → Str) (d : CmsSignedData)
    → Lacks newline (encode d.encoded)
    → (fits 0 (to_turnkey_armored encode d) ≡ true)
      × (without_newlines (to_turnkey_armored encode d) ≡ encode d.encoded)
unfolding to_turnkey_armored
to_turnkey_armored-fits encode d h = (
  ap (λ k. fits k (to_turnkey_armored encode d)) (omega arith)
      ∙ fits-wrap_lines 0 (length (encode d.encoded)) (encode d.encoded) h (omega arith),
  without_newlines-append (wrap_lines 0 (encode d.encoded))
        (last_newline (length (encode d.encoded)))
      ∙ ap (λ x. without_newlines (wrap_lines 0 (encode d.encoded)) ++ x)
          (without_newlines-last_newline (length (encode d.encoded)))
      ∙ append-nil (without_newlines (wrap_lines 0 (encode d.encoded)))
      ∙ without_newlines-wrap_lines 0 (encode d.encoded) h,
)
