-- ===== src/Base/Int.antt =====
-- `i32` and `i64` values as integers, with the wrap-around of a release build, and the checked
-- conversions `try_from`.
use Prim.Native.Nat.{ℕ, suc, ◌+◌, ◌-◌, ◌%◌, ◌<◌}
use mathlib.Core.Bool.{Bool, true, false}
use mathlib.Core.Logic.{◌↔◌}
use mathlib.Core.Option.{Option, none, some}
use mathlib.Core.Path.{◌≡◌}
use native.Mathlib.Decide.{ℕ_discrete}
use native.Mathlib.Omega.{arith}
use tw_einvoice_rs.Base.Tests.{ltb, leb, ◌==◌, if◌then◌else◌}

-- `negsuc n` is -(n + 1).
pub data ℤ : Type 0 where
  pos : ℕ → ℤ
  negsuc : ℕ → ℤ

unfoldable pub ℤ-discrete : Discrete ℤ
ℤ-discrete = hlevel ℕ_discrete

abbrev pub is_negative : ℤ → Bool
is_negative (pos n) = false
is_negative (negsuc n) = true

abbrev pub int_eq : ℤ → ℤ → Bool
int_eq (pos a) (pos b) = a == b
int_eq (negsuc a) (negsuc b) = a == b
int_eq _ _ = false

-- a - b, as an integer.
abbrev pub sub_ℕ : ℕ → ℕ → ℤ
sub_ℕ a b = if leb b a then pos (a - b) else negsuc (b - a - 1)

infixl 65 ◌+ℤ◌
abbrev pub ◌+ℤ◌ : ℤ → ℤ → ℤ
pos a +ℤ pos b = pos (a + b)
pos a +ℤ negsuc b = sub_ℕ a (suc b)
negsuc a +ℤ pos b = sub_ℕ b (suc a)
negsuc a +ℤ negsuc b = negsuc (suc (a + b))

abbrev pub i32_bound : ℕ
i32_bound = 2147483648

abbrev pub u32_mod : ℕ
u32_mod = 4294967296

-- The value is one that an `i32` holds.
abbrev pub IsI32 : ℤ → Type 0
IsI32 (pos n) = n < i32_bound
IsI32 (negsuc n) = n < i32_bound

wrap_pos : ℕ → ℤ
wrap_pos r = if ltb r i32_bound then pos r else negsuc (u32_mod - r - 1)

wrap_neg : ℕ → ℤ
wrap_neg r = if ltb r i32_bound then negsuc r else pos (u32_mod - r - 1)

-- The `i32` that the low 32 bits of an integer stand for.
unfoldable pub wrap_i32 : ℤ → ℤ
unfolding wrap_pos wrap_neg
wrap_i32 (pos n) = wrap_pos (n % u32_mod)
wrap_i32 (negsuc n) = wrap_neg (n % u32_mod)

-- `u32::try_from`, `usize::try_from` and `u64::try_from` of an `i32`, without the error value.
abbrev pub try_unsigned : ℤ → Option ℕ
try_unsigned (pos n) = some n
try_unsigned (negsuc n) = none

pub int_eq_iff : (a b : ℤ) → (int_eq a b ≡ true) ↔ (a ≡ b)
int_eq_iff a b = ground arith

pub wrap_i32-IsI32 : (a : ℤ) → IsI32 (wrap_i32 a)
unfolding wrap_i32
wrap_i32-IsI32 a = ground arith

-- An `i32` is its own wrap.
pub wrap_i32_id : (a : ℤ) → IsI32 a → wrap_i32 a ≡ a
unfolding wrap_i32
wrap_i32_id a h = ground arith

-- A sum of two non-negative values that leaves the `i32` range wraps to a negative value.
pub wrap_i32_pos :
    (a b t : ℕ)
    → a < i32_bound
    → b < i32_bound
    → t < i32_bound
    → (pos t ≡ wrap_i32 (pos a +ℤ pos b)) ↔ (t ≡ a + b)
unfolding wrap_i32
wrap_i32_pos a b t ha hb ht = ground arith
