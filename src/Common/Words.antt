-- ===== src/Common/Words.antt =====
-- Rust's `u64` and `i64`: a `u64` is a number below 2^64, an `i64` an integer from -2^63 to 2^63 - 1.
use Prim.Native.Nat.{ℕ, suc, ◌+◌, ◌-◌, ◌≤◌, ◌^◌}
use mathlib.Core.Path.{◌≡◌}
use mathlib.Core.Bool.{Bool, ◌&&◌}
use mathlib.Core.Option.{Option, none, some}
use native.Mathlib.Omega.{arith}
use arcana_server.Common.Tests.{ltb, leb, if◌then◌else◌}
use arcana_server.Common.Int.{ℤ, pos, negsuc, ◌≤ℤ◌, ltb_ℤ, leb_ℤ, ◌+ℤ◌, ◌-ℤ◌}

abbrev pub max_u64 : ℕ
max_u64 = 2 ^ 64 - 1

abbrev pub max_i64 : ℤ
max_i64 = pos (2 ^ 63 - 1)

abbrev pub min_i64 : ℤ
min_i64 = negsuc (2 ^ 63 - 1)

-- the range of `i64`
abbrev pub InI64 : ℤ → Type 0
InI64 i = (min_i64 ≤ℤ i) × (i ≤ℤ max_i64)

abbrev pub in_i64 : ℤ → Bool
in_i64 i = leb_ℤ min_i64 i && leb_ℤ i max_i64

-- `as i64` and `as u64`: the same 64 bits
abbrev pub as_i64 : ℕ → ℤ
as_i64 u = if ltb u (2 ^ 63) then pos u else negsuc (2 ^ 64 - suc u)

abbrev pub as_u64 : ℤ → ℕ
as_u64 (pos n) = n
as_u64 (negsuc n) = 2 ^ 64 - suc n

abbrev pub checked_add_u64 : ℕ → ℕ → Option ℕ
checked_add_u64 a b = if leb (a + b) max_u64 then some (a + b) else none

abbrev pub checked_sub_u64 : ℕ → ℕ → Option ℕ
checked_sub_u64 a b = if leb b a then some (a - b) else none

abbrev pub saturating_add_u64 : ℕ → ℕ → ℕ
saturating_add_u64 a b = if leb (a + b) max_u64 then a + b else max_u64

abbrev pub saturating_sub_u64 : ℕ → ℕ → ℕ
saturating_sub_u64 a b = a - b

abbrev checked_i64 : ℤ → Option ℤ
checked_i64 i = if in_i64 i then some i else none

abbrev clamp_i64 : ℤ → ℤ
clamp_i64 i = if ltb_ℤ i min_i64 then min_i64 else if ltb_ℤ max_i64 i then max_i64 else i

abbrev pub checked_add_i64 : ℤ → ℤ → Option ℤ
checked_add_i64 a b = checked_i64 (a +ℤ b)

abbrev pub checked_sub_i64 : ℤ → ℤ → Option ℤ
checked_sub_i64 a b = checked_i64 (a -ℤ b)

abbrev pub saturating_add_i64 : ℤ → ℤ → ℤ
saturating_add_i64 a b = clamp_i64 (a +ℤ b)

abbrev pub saturating_sub_i64 : ℤ → ℤ → ℤ
saturating_sub_i64 a b = clamp_i64 (a -ℤ b)

pub as_u64-as_i64 : (u : ℕ) → u ≤ max_u64 → as_u64 (as_i64 u) ≡ u
as_u64-as_i64 u h = ground arith

pub as_i64-as_u64 : (i : ℤ) → InI64 i → as_i64 (as_u64 i) ≡ i
as_i64-as_u64 i h = ground arith

pub as_i64-InI64 : (u : ℕ) → u ≤ max_u64 → InI64 (as_i64 u)
as_i64-InI64 u h = ground arith
