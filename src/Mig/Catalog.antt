-- ===== src/Mig/Catalog.antt =====
-- crates/einvoice-mig/src/catalog.rs: the message codes of MIG 4.1, which are of the form that
-- crates/einvoice-core/src/lib.rs checks.
use tw_einvoice_rs.Base.{
  ◌≡◌, ◌↔◌, refl, sym, ap, ◌∙◌, Bool-cases, inl, inr, Option, none, some, List, [], ◌∷◌, Str, codes,
  str_eq, str_eq_iff, Result, ok, err, if◌then◌else◌, eq_of_some,
}
use tw_einvoice_rs.Core.{parse_message_code}

pub data Mig41MessageCode : Type 0 where
  a0101 a0102 a0201 a0202 a0301 a0302 b0101 b0102 b0201 b0202 e0401 : Mig41MessageCode
  e0402 e0501 e0502 e0503 e0504 f0401 f0501 f0701 g0401 g0501 : Mig41MessageCode

abbrev pub all_codes : List Mig41MessageCode
all_codes =
    a0101 ∷ a0102 ∷ a0201 ∷ a0202 ∷ a0301 ∷ a0302 ∷ b0101 ∷ b0102 ∷ b0201 ∷ b0202 ∷ e0401 ∷ e0402
    ∷ e0501 ∷ e0502 ∷ e0503 ∷ e0504 ∷ f0401 ∷ f0501 ∷ f0701 ∷ g0401 ∷ g0501 ∷ []

abbrev pub as_str : Mig41MessageCode → Str
as_str a0101 = codes "A0101"
as_str a0102 = codes "A0102"
as_str a0201 = codes "A0201"
as_str a0202 = codes "A0202"
as_str a0301 = codes "A0301"
as_str a0302 = codes "A0302"
as_str b0101 = codes "B0101"
as_str b0102 = codes "B0102"
as_str b0201 = codes "B0201"
as_str b0202 = codes "B0202"
as_str e0401 = codes "E0401"
as_str e0402 = codes "E0402"
as_str e0501 = codes "E0501"
as_str e0502 = codes "E0502"
as_str e0503 = codes "E0503"
as_str e0504 = codes "E0504"
as_str f0401 = codes "F0401"
as_str f0501 = codes "F0501"
as_str f0701 = codes "F0701"
as_str g0401 = codes "G0401"
as_str g0501 = codes "G0501"

pub data UnknownMig41MessageCode : Type 0 where
  unknown_code : Str → UnknownMig41MessageCode

-- `into_iter().find(|code| code.as_str() == value)`.
unfoldable pub find_code : Str → List Mig41MessageCode → Option Mig41MessageCode
find_code value [] = none
find_code value (c ∷ cs) =
    let rest = find_code value cs in if str_eq (as_str c) value then some c else rest

abbrev ok_or : Str → Option Mig41MessageCode → Result Mig41MessageCode UnknownMig41MessageCode
ok_or value (some c) = ok c
ok_or value none = err (unknown_code value)

unfoldable pub from_str : Str → Result Mig41MessageCode UnknownMig41MessageCode
from_str value = ok_or value (find_code value all_codes)

find_code-as_str :
    (value : Str) (cs : List Mig41MessageCode) {c : Mig41MessageCode}
    → find_code value cs ≡ some c
    → as_str c ≡ value
unfolding find_code
find_code-as_str value [] h = cc
find_code-as_str value (d ∷ cs) {c} h = elim (Bool-cases (str_eq (as_str d) value)) [
  | inl e ↦ ap as_str (sym (eq_of_some (rw e at h))) ∙ (str_eq_iff (as_str d) value).0 e
  | inr e ↦ find_code-as_str value cs {c = c} (rw e at h)
]

ok_or_ok :
    (value : Str) (o : Option Mig41MessageCode) {c : Mig41MessageCode}
    → ok_or value o ≡ ok c
    → o ≡ some c
ok_or_ok value (some c) h = cc
ok_or_ok value none h = cc

from_str-as_str : (c : Mig41MessageCode) → from_str (as_str c) ≡ ok c
unfolding from_str find_code
from_str-as_str a0101 = refl
from_str-as_str a0102 = refl
from_str-as_str a0201 = refl
from_str-as_str a0202 = refl
from_str-as_str a0301 = refl
from_str-as_str a0302 = refl
from_str-as_str b0101 = refl
from_str-as_str b0102 = refl
from_str-as_str b0201 = refl
from_str-as_str b0202 = refl
from_str-as_str e0401 = refl
from_str-as_str e0402 = refl
from_str-as_str e0501 = refl
from_str-as_str e0502 = refl
from_str-as_str e0503 = refl
from_str-as_str e0504 = refl
from_str-as_str f0401 = refl
from_str-as_str f0501 = refl
from_str-as_str f0701 = refl
from_str-as_str g0401 = refl
from_str-as_str g0501 = refl

-- A text is read as a code exactly when it is the text of that code: every code is in the table,
-- and no two codes have one text.
pub from_str_iff :
    (value : Str) (c : Mig41MessageCode) → (from_str value ≡ ok c) ↔ (as_str c ≡ value)
unfolding from_str
from_str_iff value c = (
  λ h. find_code-as_str value all_codes (ok_or_ok value (find_code value all_codes) h),
  λ e. ap from_str (sym e) ∙ from_str-as_str c,
)

-- Every code of the catalog is of the form that a message code must have.
pub parse_message_code-as_str :
    (c : Mig41MessageCode) → parse_message_code (as_str c) ≡ ok (record { text = as_str c })
unfolding parse_message_code
parse_message_code-as_str a0101 = refl
parse_message_code-as_str a0102 = refl
parse_message_code-as_str a0201 = refl
parse_message_code-as_str a0202 = refl
parse_message_code-as_str a0301 = refl
parse_message_code-as_str a0302 = refl
parse_message_code-as_str b0101 = refl
parse_message_code-as_str b0102 = refl
parse_message_code-as_str b0201 = refl
parse_message_code-as_str b0202 = refl
parse_message_code-as_str e0401 = refl
parse_message_code-as_str e0402 = refl
parse_message_code-as_str e0501 = refl
parse_message_code-as_str e0502 = refl
parse_message_code-as_str e0503 = refl
parse_message_code-as_str e0504 = refl
parse_message_code-as_str f0401 = refl
parse_message_code-as_str f0501 = refl
parse_message_code-as_str f0701 = refl
parse_message_code-as_str g0401 = refl
parse_message_code-as_str g0501 = refl
