-- ===== src/Transport/CommonName.antt =====
-- crates/einvoice-transport/src/filename.rs: `MessageCommonName`, the common name of a message.
use tw_einvoice_rs.Base.{
  ℕ, zero, suc, ◌≡◌, ◌↔◌, refl, sym, ap, ◌∙◌, List, [], ◌∷◌, map, Str, length, drop, ◌==◌,
  if◌then◌else◌, split, join, join-split, Result, ok, err, Result-cases, eq_of_ok, Bool-cases, inl,
  inr, true, false, ◌≢◌, length-map, ◌>>◌, arith,
}

pub data FilenameError : Type 0 where
  invalid_pack_filename invalid_pack_count : FilenameError
  invalid_common_name_parts : ℕ → FilenameError
  invalid_common_segment_length : ℕ → ℕ → ℕ → FilenameError

pub record MessageCommonName : Type 0 where
  pub mig_version : Str
  pub message_type : Str
  pub date : Str
  pub time : Str
  pub uuid : Str

abbrev pub hyphen : ℕ
hyphen = b'-'

abbrev pub segment_lengths : List ℕ
segment_lengths = 3 ∷ 5 ∷ 8 ∷ 9 ∷ 8 ∷ 4 ∷ 4 ∷ 4 ∷ 12 ∷ []

-- The loop over `parts.iter().zip(&Self::SEGMENT_LENGTHS).enumerate()`, from `index` on.
unfoldable pub check_segments : ℕ → List Str → List ℕ → Result Unit FilenameError
check_segments index [] lengths = ok tt
check_segments index (part ∷ parts) [] = ok tt
check_segments index (part ∷ parts) (expected ∷ lengths) =
    let rest = check_segments (suc index) parts lengths in
    if length part == expected
    then rest
    else err (invalid_common_segment_length index expected (length part))

-- `parts[n]`; it is called below the length of the list only.
abbrev pub part_at : ℕ → List Str → Str
part_at n [] = []
part_at zero (p ∷ ps) = p
part_at (suc n) (p ∷ ps) = part_at n ps

abbrev pub of_segments : List Str → MessageCommonName
of_segments parts = record {
  mig_version = part_at 0 parts;
  message_type = part_at 1 parts;
  date = part_at 2 parts;
  time = part_at 3 parts;
  uuid = join hyphen (drop 4 parts);
}

unfoldable pub parse_segments : List Str → Result MessageCommonName FilenameError
parse_segments parts =
    if length parts == length segment_lengths
    then check_segments 0 parts segment_lengths >> ok (of_segments parts)
    else err (invalid_common_name_parts (length parts))

unfoldable pub parse : Str → Result MessageCommonName FilenameError
parse value = parse_segments (split hyphen value)

abbrev pub render : MessageCommonName → Str
render c = join hyphen (c.mig_version ∷ c.message_type ∷ c.date ∷ c.time ∷ c.uuid ∷ [])

unfoldable pub from_parts : Str → Str → Str → Str → Str → Result MessageCommonName FilenameError
from_parts mig_version message_type date time uuid =
    parse (join hyphen (mig_version ∷ message_type ∷ date ∷ time ∷ uuid ∷ []))

-- Nine parts are joined again by joining five of which the last is a join.
render-of_segments :
    (parts : List Str) → length parts ≡ 9 → render (of_segments parts) ≡ join hyphen parts
render-of_segments (a ∷ b ∷ c ∷ d ∷ e ∷ ps) h = refl
render-of_segments (a ∷ b ∷ c ∷ d ∷ []) h = absurd (omega arith)
render-of_segments (a ∷ b ∷ c ∷ []) h = absurd (omega arith)
render-of_segments (a ∷ b ∷ []) h = absurd (omega arith)
render-of_segments (a ∷ []) h = absurd (omega arith)
render-of_segments [] h = absurd (omega arith)

check_segments_iff :
    (index : ℕ) (parts : List Str) (lengths : List ℕ)
    → length parts ≡ length lengths
    → (check_segments index parts lengths ≡ ok tt) ↔ (map length parts ≡ lengths)
unfolding check_segments
check_segments_iff index [] [] h = (λ _. refl, λ _. refl)
check_segments_iff index [] (l ∷ ls) h = absurd (omega arith)
check_segments_iff index (p ∷ ps) [] h = absurd (omega arith)
check_segments_iff index (p ∷ ps) (l ∷ ls) h =
    ground (arith, check_segments_iff (suc index) ps ls (omega arith))

-- The two outcomes: the parts have the lengths and are taken, or an error.
pub data Parsed (value : Str) : Type 0 where
  taken :
      map length (split hyphen value) ≡ segment_lengths
      → parse value ≡ ok (of_segments (split hyphen value))
      → Parsed value
  refused :
      map length (split hyphen value) ≢ segment_lengths
      → (e : FilenameError) → parse value ≡ err e
      → Parsed value

other_count :
    (parts : List Str)
    → (length parts == 9) ≡ false
    → (map length parts ≢ segment_lengths)
      × (parse_segments parts ≡ err (invalid_common_name_parts (length parts)))
unfolding parse_segments
other_count parts h =
    (λ e. let l = sym (length-map length parts) ∙ ap length e in absurd (ground arith), rw h refl)

nine_parts :
    (parts : List Str)
    → (length parts == 9) ≡ true
    → parse_segments parts ≡ (check_segments 0 parts segment_lengths >> ok (of_segments parts))
unfolding parse_segments
nine_parts parts h = rw h refl

pub parse_cases : (value : Str) → Parsed value
unfolding parse
parse_cases value =
    let parts = split hyphen value in
    elim (Bool-cases (length parts == 9)) [
      | inr other ↦ let (l, e) = other_count parts other in refused l _ e
      | inl nine ↦
          let checked = check_segments_iff 0 parts segment_lengths (ground arith) in
          let go = λ (r : Result Unit FilenameError). r >> ok (of_segments parts) in
          elim (Result-cases (check_segments 0 parts segment_lengths)) [
            | inl (_, e) ↦ taken (checked.0 e) (nine_parts parts nine ∙ ap go e)
            | inr (x, e) ↦
                refused (λ l. let f = checked.1 l in cc) x (nine_parts parts nine ∙ ap go e)
          ]
    ]

-- Every name that is parsed is the rendering of what was parsed.
pub render-parse : (value : Str) {c : MessageCommonName} → parse value ≡ ok c → render c ≡ value
render-parse value h = elim (parse_cases value) [
  | taken l e ↦
      ap render (eq_of_ok (sym h ∙ e))
      ∙ render-of_segments (split hyphen value)
          (sym (length-map length (split hyphen value)) ∙ ap length l)
      ∙ join-split hyphen value
  | refused _ x e ↦ cc
]

-- A name is parsed exactly when it splits at the hyphens into nine parts of 3, 5, 8, 9, 8, 4, 4, 4
-- and 12 bytes.
pub parse_iff :
    (value : Str)
    → ((c : MessageCommonName) × (parse value ≡ ok c))
      ↔ (map length (split hyphen value) ≡ segment_lengths)
parse_iff value = elim (parse_cases value) [
  | taken l e ↦ (λ _. l, λ _. (_, e))
  | refused l x e ↦ (λ h. absurd (let (c, p) = h in let q = sym p ∙ e in cc), λ h. absurd (l h))
]
