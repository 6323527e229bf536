-- ===== src/Core.antt =====
-- crates/einvoice-core/src/lib.rs: the identifiers that the other crates share.
use tw_einvoice_rs.Base.{
  Bool, false, ◌&&◌, [], ◌∷◌, Str, codes, length, all, leb, ◌==◌, is_ascii_digit,
  is_ascii_uppercase, str_eq, Result, ok, err, if◌then◌else◌,
}

pub data MigVersion : Type 0 where
  v4_1 : MigVersion

abbrev pub version_str : MigVersion → Str
version_str v4_1 = codes "4.1"

pub record Ban : Type 0 where
  pub digits : Str

pub data BanError : Type 0 where
  ban_error : BanError

abbrev pub b2c_buyer : Str
b2c_buyer = codes "0000000000"

unfoldable pub parse_ban : Str → Result Ban BanError
parse_ban value =
    if (leb 8 (length value) && leb (length value) 10) && all is_ascii_digit value
    then ok (record { digits = value })
    else err ban_error

abbrev pub is_b2c_buyer : Ban → Bool
is_b2c_buyer b = str_eq b.digits b2c_buyer

pub record MessageCode : Type 0 where
  pub text : Str

pub data MessageCodeError : Type 0 where
  message_code_error : MessageCodeError

-- `bytes[0].is_ascii_uppercase() && bytes[1..].iter().all(u8::is_ascii_digit)`, on five bytes.
abbrev pub is_code : Str → Bool
is_code [] = false
is_code (c ∷ cs) = is_ascii_uppercase c && all is_ascii_digit cs

unfoldable pub parse_message_code : Str → Result MessageCode MessageCodeError
parse_message_code value =
    if (length value == 5) && is_code value
    then ok (record { text = value })
    else err message_code_error

pub data SubmissionState : Type 0 where
  created validated queued packaged signed uploaded enqueued platform_processing accepted rejected :
      SubmissionState
