-- ===== src/Pdu/Tests.antt =====
-- The theorems on counts and keys at concrete ones.
use Prim.Native.Nat.{Ordering}
use arcana_server.Common.{◌≡◌, ◌≢◌, ◌↔◌, ◌⊎◌, refl, some, arith}
use arcana_server.Common.Int.{pos, negsuc, ◌+ℤ◌, ◌-ℤ◌}
use arcana_server.Common.Words.{max_u64}
use arcana_server.Pdu.Count.{
  Count, normal, backfilled, forward, backward, from_unsigned, into_unsigned, into_signed,
  checked_add, checked_sub, checked_inc, saturating_add, saturating_sub, max, cmp,
}
use arcana_server.Pdu.Count.Encoding.{Canonical, into_unsigned-from_unsigned}
use arcana_server.Pdu.Count.Arithmetic.{
  number, Exact, checked-Exact, Saturates, saturating-Saturates, checked_inc-forward,
}
use arcana_server.Pdu.RawId.{Ident, be_bytes, as_bytes, from_bytes, from_id, to_id, pdu_count}
use arcana_server.Pdu.RawId.Bytes.{cmp_bytes}
use arcana_server.Pdu.RawId.RoundTrip.{to_id-from_id}
use arcana_server.Pdu.RawId.Order.{cmp_bytes-from_id}

into_unsigned-from_unsigned_example :
    (into_unsigned (from_unsigned max_u64) ≡ max_u64) × Canonical (from_unsigned max_u64)
into_unsigned-from_unsigned_example = into_unsigned-from_unsigned max_u64 (omega arith)

checked-Exact_example :
    ((checked_add (normal 3) 4 ≡ some (normal 7))
      ↔ Exact (normal 3) (number (normal 3) +ℤ pos 4) (normal 7))
    × ((checked_sub (normal 3) 4 ≡ some (normal 7))
        ↔ Exact (normal 3) (number (normal 3) -ℤ pos 4) (normal 7))
checked-Exact_example = checked-Exact (normal 3) (normal 7) 4 (omega arith) (omega arith)

saturating-Saturates_example :
    Saturates (normal 3) (number (normal 3) +ℤ pos 4) (saturating_add (normal 3) 4)
    × Saturates (normal 3) (number (normal 3) -ℤ pos 4) (saturating_sub (normal 3) 4)
saturating-Saturates_example = saturating-Saturates (normal 3) 4 (omega arith) (omega arith)

three_inc : checked_inc (normal 3) forward ≡ some (normal 4)
unfolding checked_inc checked_add
three_inc = refl

checked_inc-forward_example :
    (checked_inc (normal 4) backward ≡ some (normal 3))
    × ((Canonical (normal 4) × (cmp (normal 3) (normal 4) ≡ Ordering.lt))
        ⊎ ((normal 3 ≡ backfilled (pos 0)) ⊎ (normal 3 ≡ max)))
    × (Canonical (normal 4) → (normal 3 ≢ backfilled (pos 0)) × (normal 3 ≢ max))
checked_inc-forward_example =
    checked_inc-forward (normal 3) (normal 4) (omega arith, omega arith) three_inc

abbrev old_event : Ident
old_event = record { shortroomid = 258; shorteventid = backfilled (negsuc 1) }

to_id-from_id_example :
    (to_id (from_id old_event) ≡ old_event)
    × (from_bytes (as_bytes (from_id old_event)) ≡ some (from_id old_event))
    × (pdu_count (from_id old_event) ≡ backfilled (negsuc 1))
to_id-from_id_example =
    to_id-from_id old_event (record { room = omega arith; canonical = (omega arith, omega arith) })

abbrev key_of : Count → Ident
key_of count = record { shortroomid = 258; shorteventid = count }

cmp_bytes-from_id_example :
    cmp_bytes
      (as_bytes (from_id (key_of (backfilled (negsuc 1)))))
      (as_bytes (from_id (key_of (normal 1))))
    ≡ cmp (backfilled (negsuc 1)) (normal 1)
cmp_bytes-from_id_example =
    cmp_bytes-from_id 258 (backfilled (negsuc 1)) (normal 1) (omega arith, omega arith)
      (omega arith, omega arith) (λ e. ground arith) (λ e. ground arith)

-- the key of `Backfilled(0)` stands before that of `Backfilled(-2)`, which is the lesser count
zero_is_first :
    (cmp_bytes
        (as_bytes (from_id (key_of (backfilled (pos 0)))))
        (as_bytes (from_id (key_of (backfilled (negsuc 1)))))
      ≡ Ordering.lt)
    × (cmp (backfilled (pos 0)) (backfilled (negsuc 1)) ≡ Ordering.gt)
unfolding as_bytes from_id be_bytes cmp into_signed
zero_is_first = (refl, refl)

-- a sum on a word from before takes numbers from 2^63 on as negative
large_sum : checked_add (backfilled (pos 0)) max_u64 ≡ some (backfilled (negsuc 0))
unfolding checked_add
large_sum = refl
