-- ===== src/Common/Numbers.antt =====
-- Unsigned 64-bit integers: plain numbers, with the wrap-around of an unchecked addition.
use Prim.Native.Nat.{ℕ, ◌+◌, ◌%◌, ◌<◌}
use mathlib.Core.Path.{◌≡◌}
use mathlib.Core.Option.{Option, none, some}
use native.Mathlib.Omega.{arith}
use duckdb_object_storage.Common.Tests.{ltb, if◌then◌else◌}

abbrev pub IsU64 : ℕ → Type 0
IsU64 n = n < 18446744073709551616

abbrev pub u64_max : ℕ
u64_max = 18446744073709551615

-- What a u64 register keeps of a sum.
unfoldable pub wrap : ℕ → ℕ
wrap n = n % 18446744073709551616

pub wrap_lem : (n : ℕ) → IsU64 n → wrap n ≡ n
unfolding wrap
wrap_lem n h = omega arith

pub wrap_bound : (n : ℕ) → IsU64 (wrap n)
unfolding wrap
wrap_bound n = omega arith

-- `u64::checked_add`
abbrev pub checked_add : ℕ → ℕ → Option ℕ
checked_add a b = if ltb (a + b) 18446744073709551616 then some (a + b) else none
