-- ===== src/Pdu/Count/Encoding.antt =====
-- Counts as machine words, and their order.
use Prim.Native.Nat.{Ordering}
use arcana_server.Common.{ℕ, ◌≤◌, ◌<◌, ◌^◌, ◌≡◌, ◌↔◌, ◌⊎◌, arith}
use arcana_server.Common.Int.{ℤ, pos, ◌≤ℤ◌}
use arcana_server.Common.Words.{max_u64, min_i64, InI64}
use arcana_server.Pdu.Count.{
  Count, normal, backfilled, from_signed, from_unsigned, into_unsigned, into_signed, min, max, cmp,
}

-- the counts that `from_signed` makes
abbrev pub Canonical : Count → Type 0
Canonical (normal i) = (0 < i) × (i < 2 ^ 63)
Canonical (backfilled i) = (min_i64 ≤ℤ i) × (i ≤ℤ pos 0)

-- a count within the ranges of its words
abbrev pub InRange : Count → Type 0
InRange (normal i) = i ≤ max_u64
InRange (backfilled i) = InI64 i

into_signed-from_signed :
    (i : ℤ) → InI64 i → (into_signed (from_signed i) ≡ i) × Canonical (from_signed i)
unfolding into_signed from_signed
into_signed-from_signed i h = ground arith

from_signed-into_signed : (c : Count) → Canonical c → from_signed (into_signed c) ≡ c
unfolding into_signed from_signed
from_signed-into_signed (normal i) h = ground arith
from_signed-into_signed (backfilled i) h = ground arith

-- Every 64-bit word is read as a canonical count, and written back as the same word.
pub into_unsigned-from_unsigned :
    (u : ℕ) → u ≤ max_u64 → (into_unsigned (from_unsigned u) ≡ u) × Canonical (from_unsigned u)
unfolding into_unsigned from_unsigned from_signed
into_unsigned-from_unsigned u h = ground arith

-- A canonical count is written as a 64-bit word and read back.
pub from_unsigned-into_unsigned :
    (c : Count) → Canonical c → (from_unsigned (into_unsigned c) ≡ c) × (into_unsigned c ≤ max_u64)
unfolding into_unsigned from_unsigned from_signed
from_unsigned-into_unsigned (normal i) h = ground arith
from_unsigned-into_unsigned (backfilled i) h = ground arith

-- Among canonical counts, `cmp` answers "equal" for the same count only, and all lie between `min`
-- and `max`.
cmp-Canonical :
    (c d : Count)
    → Canonical c
    → Canonical d
    → ((cmp c d ≡ Ordering.eq) ↔ (c ≡ d))
      × ((cmp min c ≡ Ordering.lt) ⊎ (c ≡ min))
      × ((cmp c max ≡ Ordering.lt) ⊎ (c ≡ max))
unfolding cmp into_signed min max
cmp-Canonical (normal i) (normal j) c d = ground arith
cmp-Canonical (normal i) (backfilled j) c d = ground arith
cmp-Canonical (backfilled i) (normal j) c d = ground arith
cmp-Canonical (backfilled i) (backfilled j) c d = ground arith
