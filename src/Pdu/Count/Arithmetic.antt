-- ===== src/Pdu/Count/Arithmetic.antt =====
-- The sums and differences of counts: the checked ones are exact, and the others keep to the bounds.
use Prim.Native.Nat.{Ordering}
use arcana_server.Common.{ℕ, ◌<◌, ◌^◌, ◌≡◌, ◌≢◌, ◌↔◌, ◌⊎◌, arith, some, Bool, true, false}
use arcana_server.Common.Int.{ℤ, pos, ◌<ℤ◌, ◌+ℤ◌, ◌-ℤ◌}
use arcana_server.Common.Words.{max_u64, max_i64, min_i64}
use arcana_server.Pdu.Count.{
  Count, normal, backfilled, forward, backward, into_signed, checked_add, checked_sub, checked_inc,
  saturating_add, saturating_sub, max, cmp,
}
use arcana_server.Pdu.Count.Encoding.{Canonical, InRange}

-- the number that a count holds
abbrev pub number : Count → ℤ
number (normal i) = pos i
number (backfilled i) = i

abbrev pub is_normal : Count → Bool
is_normal (normal i) = true
is_normal (backfilled i) = false

-- A count of the same kind as the first, within range, that holds the exact result.
abbrev pub Exact : Count → ℤ → Count → Type 0
Exact c exact d = (number d ≡ exact) × (is_normal d ≡ is_normal c) × InRange d

-- For numbers below 2^63: the checked sum and difference are returned exactly if the exact result is
-- within the range of the word that holds the count, and then it is what the returned count holds.
pub checked-Exact :
    (c d : Count) (n : ℕ)
    → InRange c
    → n < 2 ^ 63
    → ((checked_add c n ≡ some d) ↔ Exact c (number c +ℤ pos n) d)
      × ((checked_sub c n ≡ some d) ↔ Exact c (number c -ℤ pos n) d)
unfolding checked_add checked_sub
checked-Exact (normal i) (normal j) n c small = ground arith
checked-Exact (normal i) (backfilled j) n c small = ground arith
checked-Exact (backfilled i) (normal j) n c small = ground arith
checked-Exact (backfilled i) (backfilled j) n c small = ground arith

-- the bounds of the word that holds a count
abbrev lowest : Count → ℤ
lowest (normal i) = pos 0
lowest (backfilled i) = min_i64

abbrev highest : Count → ℤ
highest (normal i) = pos max_u64
highest (backfilled i) = max_i64

-- A count of the same kind as the first, within range, that holds the exact result or the bound that
-- the exact result is beyond.
abbrev pub Saturates : Count → ℤ → Count → Type 0
Saturates c exact d =
    InRange d
    × (is_normal d ≡ is_normal c)
    × ((number d ≡ exact)
        ⊎ (((exact <ℤ lowest c) × (number d ≡ lowest c))
            ⊎ ((highest c <ℤ exact) × (number d ≡ highest c))))

-- For numbers below 2^63: the saturating sum and difference are exact, or they are the bound that the
-- exact result is beyond.
pub saturating-Saturates :
    (c : Count) (n : ℕ)
    → InRange c
    → n < 2 ^ 63
    → Saturates c (number c +ℤ pos n) (saturating_add c n)
      × Saturates c (number c -ℤ pos n) (saturating_sub c n)
unfolding saturating_add saturating_sub
saturating-Saturates (normal i) n c small = ground arith
saturating-Saturates (backfilled i) n c small = ground arith

-- Where a canonical count is incremented with success: the result is canonical and greater, and its
-- decrement gives the count back, except that the increment of `Backfilled(0)` and of the greatest
-- count is not canonical.
pub checked_inc-forward :
    (c d : Count)
    → Canonical c
    → checked_inc c forward ≡ some d
    → (checked_inc d backward ≡ some c)
      × ((Canonical d × (cmp c d ≡ Ordering.lt)) ⊎ ((c ≡ backfilled (pos 0)) ⊎ (c ≡ max)))
      × (Canonical d → (c ≢ backfilled (pos 0)) × (c ≢ max))
unfolding checked_inc checked_add checked_sub cmp into_signed max
checked_inc-forward (normal i) (normal j) c h = ground arith
checked_inc-forward (normal i) (backfilled j) c h = ground arith
checked_inc-forward (backfilled i) (normal j) c h = ground arith
checked_inc-forward (backfilled i) (backfilled j) c h = ground arith
