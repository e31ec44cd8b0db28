-- ===== src/Prelude/Int.antt =====
-- The integers over the native numbers, and the casts of fixed width that the program makes.
use Prim.Native.Nat.{ℕ, ◌+◌, ◌-◌, ◌^◌, ◌%◌}
use mathlib.Core.Bool.{Bool, false}
use kasmcloud.Prelude.Tests.{ltb, nat_eq, if◌then◌else◌}

pub data ℤ : Type 0 where
  pos : ℕ → ℤ
  negsuc : ℕ → ℤ

-- `as usize` of an `i32`, on a target of `w` bits: the sign is extended.
unfoldable pub as_usize : ℕ → ℤ → ℕ
as_usize w (pos n) = n % 2 ^ w
as_usize w (negsuc n) = 2 ^ w - (n + 1)

-- `as i64` of a `u64`
unfoldable pub as_i64 : ℕ → ℤ
as_i64 n = if ltb (n % 2 ^ 64) (2 ^ 63) then pos (n % 2 ^ 64) else negsuc (2 ^ 64 - 1 - n % 2 ^ 64)

abbrev pub int_eq : ℤ → ℤ → Bool
int_eq (pos m) (pos n) = nat_eq m n
int_eq (negsuc m) (negsuc n) = nat_eq m n
int_eq _ _ = false
