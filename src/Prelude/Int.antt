-- ===== src/Prelude/Int.antt =====
-- Signed integers over the native numbers, and their wrap-around on `w` bits.
use Prim.Native.Nat.{ℕ, suc, ◌+◌, ◌-◌, ◌%◌, ◌^◌, ◌≤◌, ◌<◌}
use mathlib.Core.Path.{◌≡◌}
use mathlib.Core.Bool.{Bool}
use native.Mathlib.Omega.{arith}
use spot_exchange.Prelude.Tests.{ltb, leb, if◌then◌else◌}

-- `negsuc n` is -(n + 1).
pub data ℤ : Type 0 where
  pos : ℕ → ℤ
  negsuc : ℕ → ℤ

abbrev pub pos_part : ℤ → ℕ
pos_part (pos n) = n
pos_part (negsuc n) = 0

abbrev pub neg_part : ℤ → ℕ
neg_part (pos n) = 0
neg_part (negsuc n) = suc n

-- a - b, as an integer.
abbrev pub sub_ℕ : ℕ → ℕ → ℤ
sub_ℕ a b = if leb b a then pos (a - b) else negsuc (b - a - 1)

infixl 65 ◌+ℤ◌ ◌-ℤ◌
unfoldable pub ◌+ℤ◌ : ℤ → ℤ → ℤ
a +ℤ b = sub_ℕ (pos_part a + pos_part b) (neg_part a + neg_part b)

unfoldable pub ◌-ℤ◌ : ℤ → ℤ → ℤ
a -ℤ b = sub_ℕ (pos_part a + neg_part b) (neg_part a + pos_part b)

unfoldable pub ltb_ℤ : ℤ → ℤ → Bool
ltb_ℤ a b = ltb (pos_part a + neg_part b) (pos_part b + neg_part a)

-- The integer that the `w` bits of `n` represent.
unfoldable pub signed : ℕ → ℕ → ℤ
signed w n = if ltb n (2 ^ (w - 1)) then pos n else negsuc (2 ^ w - 1 - n)

-- An integer cut to `w` bits.
unfoldable pub wrap : ℕ → ℤ → ℤ
unfolding signed
wrap w (pos n) = signed w (n % 2 ^ w)
wrap w (negsuc n) = signed w (2 ^ w - 1 - n % 2 ^ w)

pub signed-small : (w n : ℕ) → n < 2 ^ (w - 1) → signed w n ≡ pos n
unfolding signed
signed-small w n h = ground arith

pub wrap_32-small : (n : ℕ) → n < 2 ^ 31 → wrap 32 (pos n) ≡ pos n
unfolding wrap signed
wrap_32-small n h = ground arith

pub wrap_64-small : (n : ℕ) → n < 2 ^ 63 → wrap 64 (pos n) ≡ pos n
unfolding wrap signed
wrap_64-small n h = ground arith

pub add-pos : (m n : ℕ) → pos m +ℤ pos n ≡ pos (m + n)
unfolding ◌+ℤ◌
add-pos m n = ground arith

pub sub-pos : (m n : ℕ) → n ≤ m → pos m -ℤ pos n ≡ pos (m - n)
unfolding ◌-ℤ◌
sub-pos m n h = ground arith

pub ltb_ℤ-pos : (m n : ℕ) → ltb_ℤ (pos m) (pos n) ≡ ltb m n
unfolding ltb_ℤ
ltb_ℤ-pos m n = ground arith
