-- ===== src/Prelude/Int.antt =====
-- `int32_t` values and their readings as `uint32_t`, over the native numbers.
use Prim.Native.Nat.{ℕ, zero, suc, ◌+◌, ◌-◌, ◌%◌, ◌^◌}
use mathlib.Core.Bool.{Bool, true, false}
use ece391_sp.Prelude.Tests.{ltb, leb, ◌==◌, if◌then◌else◌}

-- `negsuc n` is -(n + 1).
pub data ℤ : Type 0 where
  pos : ℕ → ℤ
  negsuc : ℕ → ℤ

abbrev pub pos_part : ℤ → ℕ
pos_part (pos n) = n
pos_part (negsuc n) = 0

abbrev pub neg_part : ℤ → ℕ
neg_part (pos n) = 0
neg_part (negsuc n) = suc n

-- a - b, as an integer.
abbrev pub sub_ℕ : ℕ → ℕ → ℤ
sub_ℕ a b = if leb b a then pos (a - b) else negsuc (b - a - 1)

-- The value -1 that the kernel's functions return on failure.
abbrev pub fail : ℤ
fail = negsuc 0

abbrev pub u32_mod : ℕ
u32_mod = 2 ^ 32

-- The conversion of an `int32_t` to `uint32_t`.
abbrev pub to_u32 : ℤ → ℕ
to_u32 (pos n) = n % u32_mod
to_u32 (negsuc n) = (u32_mod - suc n % u32_mod) % u32_mod

-- The conversion of a `uint32_t` to `int32_t`.
abbrev pub to_s32 : ℕ → ℤ
to_s32 n = if ltb n (2 ^ 31) then pos n else negsuc (u32_mod - 1 - n)

-- Tests of an `int32_t` against a constant that is not negative.
abbrev pub ltb_ℤ : ℤ → ℕ → Bool
ltb_ℤ (pos n) k = ltb n k
ltb_ℤ (negsuc n) k = true

abbrev pub eqb_ℤ : ℤ → ℤ → Bool
eqb_ℤ (pos n) (pos m) = n == m
eqb_ℤ (negsuc n) (negsuc m) = n == m
eqb_ℤ _ _ = false

-- One more and one less, for an `int32_t` far from its limits.
abbrev pub inc : ℤ → ℤ
inc (pos n) = pos (n + 1)
inc (negsuc zero) = pos 0
inc (negsuc (suc n)) = negsuc n

abbrev pub dec : ℤ → ℤ
dec (pos zero) = negsuc 0
dec (pos (suc n)) = pos n
dec (negsuc n) = negsuc (n + 1)
