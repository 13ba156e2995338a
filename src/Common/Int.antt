-- ===== src/Common/Int.antt =====
-- Signed integers over the native numbers, and the wrap-around of an `int32` conversion.
use Prim.Native.Nat.{ℕ, suc, ◌-◌, ◌%◌, ◌^◌, compare, Ordering}
use mathlib.Core.Bool.{Bool, true, false}

-- `negsuc n` is -(n + 1).
pub data ℤ : Type 0 where
  pos : ℕ → ℤ
  negsuc : ℕ → ℤ

-- `int32(n)` of a non-negative `int64` or `int`.
unfoldable pub to_int32 : ℕ → ℤ
to_int32 n = elim (compare (n % 2 ^ 32) (2 ^ 31)) [
  | Ordering.lt ↦ pos (n % 2 ^ 32)
  | _ ↦ negsuc (2 ^ 32 - n % 2 ^ 32 - 1)
]

-- `0 < z`
abbrev pub is_positive : ℤ → Bool
is_positive (pos n) = elim n [ ℕ.zero ↦ false | suc k ↦ true ]
is_positive (negsuc n) = false
