-- ===== src/Signing/Ber/Reader.antt =====
-- An independent reader of definite-length values, after X.690: what the writers are held to.
use tw_einvoice_rs.Base.{
  ℕ, ◌+◌, ◌-◌, ◌*◌, Option, none, some, [], ◌∷◌, length, take, drop, ltb, leb, ◌==◌, if◌then◌else◌,
}
use tw_einvoice_rs.Signing.Ber.{Bytes}

-- The number that big-endian bytes spell, behind the digits `acc`.
abbrev pub be_value : ℕ → Bytes → ℕ
be_value acc [] = acc
be_value acc (b ∷ bs) = be_value (acc * 256 + b) bs

-- A length and the bytes behind it. `0x80`, the indefinite form, is no length.
unfoldable pub read_length : Bytes → Option (ℕ × Bytes)
read_length [] = none
read_length (b ∷ bs) =
    if ltb b 128
    then some (b, bs)
    else if b == 128
    then none
    else if leb (b - 128) (length bs)
    then some (be_value 0 (take (b - 128) bs), drop (b - 128) bs)
    else none

pub record Tlv : Type 0 where
  pub tag : ℕ
  pub body : Bytes
  pub rest : Bytes

cut_body : ℕ → Option (ℕ × Bytes) → Option Tlv
cut_body tag none = none
cut_body tag (some (n, bs)) =
    if leb n (length bs)
    then some (record { tag = tag; body = take n bs; rest = drop n bs })
    else none

unfoldable pub read_tlv : Bytes → Option Tlv
unfolding cut_body
read_tlv [] = none
read_tlv (tag ∷ bs) = cut_body tag (read_length bs)
