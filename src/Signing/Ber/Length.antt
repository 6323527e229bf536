-- ===== src/Signing/Ber/Length.antt =====
-- Lengths: what `write_length` writes is read back, in as few bytes as can be.
use tw_einvoice_rs.Base.{
  ℕ, suc, ◌+◌, ◌-◌, ◌^◌, ◌≤◌, ◌<◌, ◌≡◌, ◌≢◌, refl, ap, append_assoc, ◌∙◌, inl, inr, some, [], ◌∷◌,
  ◌++◌, length, length-append, drop, take-append, drop-append, ltb, Bool-cases, arith,
}
use tw_einvoice_rs.Signing.Ber.Reader.{be_value, read_length, read_tlv}
use tw_einvoice_rs.Signing.Ber.{Bytes, be_bytes, skip_zeros, encoded_length_size, write_length, tlv}

pub be_value-skip_zeros : (bs : Bytes) → be_value 0 (skip_zeros bs) ≡ be_value 0 bs
be_value-skip_zeros [] = refl
be_value-skip_zeros (b ∷ bs) = ground (arith, be_value-skip_zeros bs)

be_value-be_bytes : (n : ℕ) → n < 2 ^ 64 → be_value 0 (be_bytes 8 n) ≡ n
be_value-be_bytes n h = omega arith

pub length-skip_zeros : (bs : Bytes) → length (skip_zeros bs) ≤ length bs
length-skip_zeros [] = omega arith
length-skip_zeros (b ∷ bs) = ground (arith, length-skip_zeros bs)

-- The bytes behind the first, where the long form is used.
abbrev significant : ℕ → Bytes
significant n = skip_zeros (be_bytes 8 n)

significant_value : (n : ℕ) → n < 2 ^ 64 → be_value 0 (significant n) ≡ n
significant_value n h = be_value-skip_zeros (be_bytes 8 n) ∙ be_value-be_bytes n h

length-significant : (n : ℕ) → length (significant n) ≤ 8
length-significant n = length-skip_zeros (be_bytes 8 n)

significant_pos : (n : ℕ) → n < 2 ^ 64 → 0 < n → 0 < length (significant n)
significant_pos n h p = pos_of_value (significant n) (significant_value n h)
  where
    pos_of_value : (bs : Bytes) → be_value 0 bs ≡ n → 0 < length bs
    pos_of_value [] e = omega arith
    pos_of_value (b ∷ bs) e = omega arith

-- A long form with `bs` behind the first byte.
read_long :
    (k : ℕ) (bs rest : Bytes)
    → length bs ≡ suc k
    → read_length ((128 + length bs) ∷ (bs ++ rest)) ≡ some (be_value 0 bs, rest)
unfolding read_length
read_long k bs rest e =
    let l : 128 + length bs - 128 ≡ length bs = omega arith in
    ground (arith, l, take-append bs rest, drop-append bs rest, length-append bs rest)

-- A length below 2 ^ 64 is read back as it was written, whatever follows it.
pub read_length-write_length :
    (n : ℕ) (rest : Bytes) → n < 2 ^ 64 → read_length (write_length n ++ rest) ≡ some (n, rest)
unfolding write_length
read_length-write_length n rest h = elim (Bool-cases (ltb n 128)) [
  | inl short ↦ rw short (unfold read_length in ground arith)
  | inr long ↦
      let p = significant_pos n h (ground arith) in
      rw long (
        read_long (length (significant n) - 1) (significant n) rest (omega arith)
        ∙ ap (λ v. some (v, rest)) (significant_value n h))
]

-- The buffer that `tlv` reserves for a length is the one that `write_length` fills.
pub encoded_length_size-write_length : (n : ℕ) → encoded_length_size n ≡ length (write_length n)
unfolding encoded_length_size write_length
encoded_length_size-write_length n = ground arith

-- The first byte of the long form's number.
abbrev pub first_or : ℕ → Bytes → ℕ
first_or d [] = d
first_or d (b ∷ bs) = b

first-skip_zeros : (bs : Bytes) → first_or 1 (skip_zeros bs) ≢ 0
first-skip_zeros [] h = omega arith
first-skip_zeros (b ∷ bs) h = ground (arith, first-skip_zeros bs)

write_length_minimal_long : (n : ℕ) → 128 ≤ n → first_or 1 (drop 1 (write_length n)) ≢ 0
unfolding write_length
write_length_minimal_long n h = ground (arith, first-skip_zeros (be_bytes 8 n))

-- A value behind its tag and length is read back whole, whatever follows it.
pub read_tlv-tlv :
    (tag : ℕ) (body rest : Bytes)
    → length body < 2 ^ 64
    → read_tlv (tlv tag body ++ rest) ≡ some (record { tag = tag; body = body; rest = rest })
unfolding tlv read_tlv
read_tlv-tlv tag body rest h =
    rw (append_assoc, read_length-write_length (length body) (body ++ rest) h)
      (ground (arith, take-append body rest, drop-append body rest, length-append body rest))

pub length-tlv : (tag : ℕ) (body : Bytes) → length (tlv tag body) ≤ length body + 10
unfolding tlv write_length
length-tlv tag body =
    ground (arith, length-significant (length body), length-append (significant (length body)) body)
