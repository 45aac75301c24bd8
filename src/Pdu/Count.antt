-- ===== src/Pdu/Count.antt =====
-- src/core/matrix/pdu/count.rs: the count of an event in its room, positive for events as they
-- arrive and not positive for events from before. An error is `none`; the assertions of debug builds
-- and the texts are left out.
pub mod Encoding
pub mod Arithmetic
use Prim.Native.Nat.{Ordering}
use arcana_server.Common.{ℕ, ◌-◌, ◌^◌, Option, none, some, if◌then◌else◌}
use arcana_server.Common.Int.{ℤ, pos, leb_ℤ, cmp_ℤ}
use arcana_server.Common.Words.{
  min_i64, as_i64, as_u64, checked_add_u64, checked_sub_u64, saturating_add_u64, saturating_sub_u64,
  checked_add_i64, checked_sub_i64, saturating_add_i64, saturating_sub_i64,
}

pub data Count : Type 0 where
  normal : ℕ → Count
  backfilled : ℤ → Count

-- `ruma::api::Direction`
pub data Direction : Type 0 where
  forward backward : Direction

unfoldable pub from_signed : ℤ → Count
from_signed signed = if leb_ℤ signed (pos 0) then backfilled signed else normal (as_u64 signed)

unfoldable pub from_unsigned : ℕ → Count
unfolding from_signed
from_unsigned unsigned = from_signed (as_i64 unsigned)

unfoldable pub into_unsigned : Count → ℕ
into_unsigned (normal i) = i
into_unsigned (backfilled i) = as_u64 i

unfoldable pub into_signed : Count → ℤ
into_signed (normal i) = as_i64 i
into_signed (backfilled i) = i

unfoldable pub into_normal : Count → Count
into_normal (normal i) = normal i
into_normal (backfilled i) = normal 0

abbrev with_normal : Option ℕ → Option Count
with_normal none = none
with_normal (some i) = some (normal i)

abbrev with_backfilled : Option ℤ → Option Count
with_backfilled none = none
with_backfilled (some i) = some (backfilled i)

unfoldable pub checked_add : Count → ℕ → Option Count
checked_add (normal i) add = with_normal (checked_add_u64 i add)
checked_add (backfilled i) add = with_backfilled (checked_add_i64 i (as_i64 add))

unfoldable pub checked_sub : Count → ℕ → Option Count
checked_sub (normal i) sub = with_normal (checked_sub_u64 i sub)
checked_sub (backfilled i) sub = with_backfilled (checked_sub_i64 i (as_i64 sub))

unfoldable pub checked_inc : Count → Direction → Option Count
unfolding checked_add checked_sub
checked_inc self forward = checked_add self 1
checked_inc self backward = checked_sub self 1

unfoldable pub saturating_add : Count → ℕ → Count
saturating_add (normal i) add = normal (saturating_add_u64 i add)
saturating_add (backfilled i) add = backfilled (saturating_add_i64 i (as_i64 add))

unfoldable pub saturating_sub : Count → ℕ → Count
saturating_sub (normal i) sub = normal (saturating_sub_u64 i sub)
saturating_sub (backfilled i) sub = backfilled (saturating_sub_i64 i (as_i64 sub))

unfoldable pub saturating_inc : Count → Direction → Count
unfolding saturating_add saturating_sub
saturating_inc self forward = saturating_add self 1
saturating_inc self backward = saturating_sub self 1

unfoldable pub min : Count
min = backfilled min_i64

unfoldable pub max : Count
max = normal (2 ^ 63 - 1)

-- `Ord`
unfoldable pub cmp : Count → Count → Ordering
unfolding into_signed
cmp self other = cmp_ℤ (into_signed self) (into_signed other)

-- `Default`
unfoldable pub default : Count
default = normal 0
