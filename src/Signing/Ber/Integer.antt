-- ===== src/Signing/Ber/Integer.antt =====
-- `positive_integer`: the value is kept, is not negative, and has no byte too many.
use tw_einvoice_rs.Base.{
  ◌+◌, ◌<◌, ◌≤◌, ◌≡◌, ◌≢◌, refl, ◌∙◌, some, [], ◌∷◌, ◌++◌, length, arith, ◌^◌,
}
use tw_einvoice_rs.Signing.Ber.Reader.{be_value, read_tlv}
use tw_einvoice_rs.Signing.Ber.Length.{length-skip_zeros, be_value-skip_zeros, read_tlv-tlv}
use tw_einvoice_rs.Signing.Ber.{
  Bytes, skip_zeros, significant_or_zero, protect_sign, positive_integer,
}

-- The body is not empty, its first byte has no sign bit, and it is 0 only where it must be.
abbrev pub IsPositiveDer : Bytes → Type 0
IsPositiveDer [] = ⊥
IsPositiveDer (b ∷ []) = b < 128
IsPositiveDer (b ∷ c ∷ bs) = (b < 128) × (b ≡ 0 → 128 ≤ c)

-- The bytes without leading zeros start with another byte.
abbrev NoLeadingZero : Bytes → Type 0
NoLeadingZero [] = Unit
NoLeadingZero (b ∷ bs) = b ≢ 0

skip_zeros-NoLeadingZero : (bs : Bytes) → NoLeadingZero (skip_zeros bs)
skip_zeros-NoLeadingZero [] = tt
skip_zeros-NoLeadingZero (b ∷ bs) = ground (arith, skip_zeros-NoLeadingZero bs)

abbrev pub integer_body : Bytes → Bytes
integer_body bs = protect_sign (significant_or_zero bs)

pub integer_body-IsPositiveDer : (bs : Bytes) → IsPositiveDer (integer_body bs)
integer_body-IsPositiveDer bs = ground (arith, skip_zeros-NoLeadingZero bs)

protected_value : (bs : Bytes) → be_value 0 (protect_sign bs) ≡ be_value 0 bs
protected_value [] = refl
protected_value (b ∷ bs) = ground arith

or_zero_value : (bs : Bytes) → be_value 0 (significant_or_zero bs) ≡ be_value 0 (skip_zeros bs)
or_zero_value bs = ground arith

pub length-integer_body : (bs : Bytes) → length (integer_body bs) ≤ length bs + 1
length-integer_body bs = ground (arith, length-skip_zeros bs)

pub integer_body_value : (bs : Bytes) → be_value 0 (integer_body bs) ≡ be_value 0 bs
integer_body_value bs =
    protected_value (significant_or_zero bs) ∙ or_zero_value bs ∙ be_value-skip_zeros bs

-- The bytes of a serial number, zeros in front or none, are written as a DER INTEGER that is not
-- negative, of the same value, with no superfluous byte, and that reads back whole.
pub read_tlv-positive_integer :
    (bs rest : Bytes)
    → length bs + 1 < 2 ^ 64
    → (body : Bytes) × (read_tlv (positive_integer bs ++ rest)
        ≡ some (record { tag = 0x02; body = body; rest = rest }))
      × (be_value 0 body ≡ be_value 0 bs)
      × IsPositiveDer body
unfolding positive_integer
read_tlv-positive_integer bs rest h = (
  integer_body bs,
  read_tlv-tlv 0x02 (integer_body bs) rest (omega (arith, length-integer_body bs)),
  integer_body_value bs,
  integer_body-IsPositiveDer bs,
)
