-- ===== src/Base/Text.antt =====
-- Rust strings as the lists of their UTF-8 bytes, and the methods of `str` that the sources call.
use Prim.Native.Char.{code}
use Prim.Native.Nat.{ℕ, suc, ◌/◌}
use Prim.Native.String.{String}
use mathlib.Core.Bool.{Bool, true, false, ◌&&◌, ◌||◌}
use mathlib.Core.List.{List, [], ◌∷◌}
use mathlib.Core.Logic.{◌≢◌, ◌↔◌}
use mathlib.Core.Path.{◌≡◌, refl}
use native.Mathlib.Omega.{arith}
use tw_einvoice_rs.Base.Tests.{◌==◌, leb, if◌then◌else◌}
use tw_einvoice_rs.Base.Lists.{All}

abbrev pub Str : Type 0
Str = List ℕ

-- An ASCII literal as its bytes.
abbrev pub codes : String → Str
codes String.[] = []
codes (String.◌∷◌ c s) = code c ∷ codes s

-- `u8::is_ascii_digit`, `u8::is_ascii_uppercase`.
abbrev pub is_ascii_digit : ℕ → Bool
is_ascii_digit c = leb b'0' c && leb c b'9'

abbrev pub is_ascii_uppercase : ℕ → Bool
is_ascii_uppercase c = leb b'A' c && leb c b'Z'

-- `==` on strings.
abbrev pub str_eq : Str → Str → Bool
str_eq [] [] = true
str_eq [] (d ∷ t) = false
str_eq (c ∷ s) [] = false
str_eq (c ∷ s) (d ∷ t) = (c == d) && str_eq s t

-- `contains(char)`, `starts_with`, `ends_with`.
abbrev pub contains : ℕ → Str → Bool
contains c [] = false
contains c (d ∷ s) = (d == c) || contains c s

abbrev pub starts_with : Str → Str → Bool
starts_with s [] = true
starts_with [] (d ∷ t) = false
starts_with (c ∷ s) (d ∷ t) = (c == d) && starts_with s t

abbrev pub ends_with : Str → Str → Bool
ends_with [] t = str_eq [] t
ends_with (c ∷ s) t = str_eq (c ∷ s) t || ends_with s t

-- `chars().count()`: the bytes that do not continue a character.
abbrev pub char_count : Str → ℕ
char_count [] = 0
char_count (c ∷ s) = if (c / 64) == 2 then char_count s else suc (char_count s)

abbrev pub Lacks : ℕ → Str → Type 0
Lacks c = All (λ d. d ≢ c)

pub str_eq_iff : (s t : Str) → (str_eq s t ≡ true) ↔ (s ≡ t)
str_eq_iff [] [] = (λ _. refl, λ _. refl)
str_eq_iff [] (d ∷ t) = (λ h. cc, λ h. cc)
str_eq_iff (c ∷ s) [] = (λ h. cc, λ h. cc)
str_eq_iff (c ∷ s) (d ∷ t) = ground (arith, str_eq_iff s t)

pub str_eq_refl : (s : Str) → str_eq s s ≡ true
str_eq_refl s = (str_eq_iff s s).1 refl

pub str_eq_of_ne : (s t : Str) → s ≢ t → str_eq s t ≡ false
str_eq_of_ne s t h = ground (arith, str_eq_iff s t)

pub Lacks-contains : (c : ℕ) (s : Str) → contains c s ≡ false → Lacks c s
Lacks-contains c [] h = tt
Lacks-contains c (d ∷ s) h = ground (arith, Lacks-contains c s)
