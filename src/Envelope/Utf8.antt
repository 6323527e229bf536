-- ===== src/Envelope/Utf8.antt =====
-- `str::from_utf8` and `str::trim_start` of the standard library, on bytes.
use tw_einvoice_rs.Base.{
  ℕ, zero, suc, Option, none, some, Bool, true, false, ◌&&◌, ◌||◌, [], ◌∷◌, Str, leb, ◌==◌,
  if◌then◌else◌,
}

abbrev pub in_range : ℕ → ℕ → ℕ → Bool
in_range l u b = leb l b && leb b u

-- What may come next: the start of a character, or 1, 2 or 3 bytes of which the first is in a range.
pub data Expects : Type 0 where
  start : Expects
  more : ℕ → ℕ → ℕ → Expects

abbrev pub after_lead : ℕ → Option Expects
after_lead b =
    if leb b 0x7f
    then some start
    else if in_range 0xc2 0xdf b
    then some (more 0 0x80 0xbf)
    else if b == 0xe0
    then some (more 1 0xa0 0xbf)
    else if b == 0xed
    then some (more 1 0x80 0x9f)
    else if in_range 0xe1 0xef b
    then some (more 1 0x80 0xbf)
    else if b == 0xf0
    then some (more 2 0x90 0xbf)
    else if in_range 0xf1 0xf3 b
    then some (more 2 0x80 0xbf)
    else if b == 0xf4
    then some (more 2 0x80 0x8f)
    else none

abbrev pub next : Expects → ℕ → Option Expects
next start b = after_lead b
next (more zero l u) b = if in_range l u b then some start else none
next (more (suc n) l u) b = if in_range l u b then some (more n 0x80 0xbf) else none

abbrev pub is_utf8_from : Option Expects → Str → Bool
is_utf8_from none s = false
is_utf8_from (some start) [] = true
is_utf8_from (some (more n l u)) [] = false
is_utf8_from (some e) (b ∷ s) = is_utf8_from (next e b) s

unfoldable pub is_utf8 : Str → Bool
is_utf8 s = is_utf8_from (some start) s

-- The characters of Unicode's White_Space, of one, two and three bytes.
abbrev pub is_space1 : ℕ → Bool
is_space1 b = in_range 9 13 b || (b == 32)

abbrev pub is_space2 : ℕ → ℕ → Bool
is_space2 a b = (a == 0xc2) && ((b == 0x85) || (b == 0xa0))

abbrev pub is_space3 : ℕ → ℕ → ℕ → Bool
is_space3 a b c =
    ((a == 0xe1) && ((b == 0x9a) && (c == 0x80)))
    || (((a == 0xe2)
          && ((b == 0x80) && (in_range 0x80 0x8a c || (in_range 0xa8 0xa9 c || (c == 0xaf)))))
        || (((a == 0xe2) && ((b == 0x81) && (c == 0x9f)))
            || ((a == 0xe3) && ((b == 0x80) && (c == 0x80)))))

unfoldable pub trim_start : Str → Str
trim_start [] = []
trim_start (a ∷ []) = if is_space1 a then [] else a ∷ []
trim_start (a ∷ b ∷ []) =
    let rest = trim_start (b ∷ []) in
    if is_space1 a then rest else if is_space2 a b then [] else a ∷ b ∷ []
trim_start (a ∷ b ∷ c ∷ s) =
    let one = trim_start (b ∷ c ∷ s) in
    let two = trim_start (c ∷ s) in
    let three = trim_start s in
    if is_space1 a
    then one
    else if is_space2 a b
    then two
    else if is_space3 a b c
    then three
    else a ∷ b ∷ c ∷ s
