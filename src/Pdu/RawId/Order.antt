-- ===== src/Pdu/RawId/Order.antt =====
-- The keys of the events of a room are ordered like their counts.
use Prim.Native.Nat.{compare}
use arcana_server.Common.{ℕ, ◌≤◌, ◌≡◌, ◌≢◌, refl, sym, ◌∙◌, [], ◌∷◌, ◌++◌, arith, length, then_cmp}
use arcana_server.Common.Int.{pos}
use arcana_server.Common.Words.{max_u64, as_u64}
use arcana_server.Pdu.Count.{Count, normal, backfilled, into_signed, cmp}
use arcana_server.Pdu.Count.Encoding.{Canonical}
use arcana_server.Pdu.RawId.{Bytes, to_be_bytes, as_bytes, from_id}
use arcana_server.Pdu.RawId.Bytes.{
  length-be_bytes, cmp_bytes, cmp_bytes-append, cmp_bytes-be_bytes, cmp_bytes_refl,
}

-- the bytes of a key after those of the room
abbrev tail_of : Count → Bytes
tail_of (normal i) = to_be_bytes i
tail_of (backfilled i) = to_be_bytes 0 ++ to_be_bytes (as_u64 i)

key_bytes :
    (room : ℕ) (c : Count)
    → as_bytes (from_id (record { shortroomid = room; shorteventid = c }))
      ≡ to_be_bytes room ++ tail_of c
unfolding as_bytes from_id
key_bytes room (normal i) = refl
key_bytes room (backfilled i) = refl

cmp_words :
    (n m : ℕ) → n ≤ max_u64 → m ≤ max_u64 → cmp_bytes (to_be_bytes n) (to_be_bytes m) ≡ compare n m
cmp_words n m hn hm = cmp_bytes-be_bytes 8 n m (omega (arith, hn)) (omega (arith, hm))

lengths : (n m : ℕ) → length (to_be_bytes n) ≡ length (to_be_bytes m)
lengths n m = length-be_bytes 8 n ∙ sym (length-be_bytes 8 m)

-- more bytes decide only after equal ones
cmp_longer :
    (xs ys vs : Bytes)
    → length xs ≡ length ys
    → (cmp_bytes xs (ys ++ vs) ≡ then_cmp (cmp_bytes xs ys) (cmp_bytes [] vs))
      × (cmp_bytes (ys ++ vs) xs ≡ then_cmp (cmp_bytes ys xs) (cmp_bytes vs []))
cmp_longer [] [] vs h = (refl, refl)
cmp_longer [] (y ∷ ys) vs h = absurd (omega (arith, h))
cmp_longer (x ∷ xs) [] vs h = absurd (omega (arith, h))
cmp_longer (x ∷ xs) (y ∷ ys) vs h = ground (arith, cmp_longer xs ys vs)

cmp_tails :
    (c d : Count)
    → Canonical c
    → Canonical d
    → c ≢ backfilled (pos 0)
    → d ≢ backfilled (pos 0)
    → cmp_bytes (tail_of c) (tail_of d) ≡ cmp c d
unfolding cmp into_signed
cmp_tails (normal i) (normal j) hc hd nc nd =
    ground (arith, cmp_words i j (omega (arith, hc)) (omega (arith, hd)))
cmp_tails (normal i) (backfilled j) hc hd nc nd =
    let first = cmp_words i 0 (omega (arith, hc)) (omega arith) in
    let whole = cmp_longer (to_be_bytes i) (to_be_bytes 0) (to_be_bytes (as_u64 j)) (lengths i 0) in
    ground (arith, first, whole.0)
cmp_tails (backfilled i) (normal j) hc hd nc nd =
    let first = cmp_words 0 j (omega arith) (omega (arith, hd)) in
    let whole = cmp_longer (to_be_bytes j) (to_be_bytes 0) (to_be_bytes (as_u64 i)) (lengths j 0) in
    ground (arith, first, whole.1)
cmp_tails (backfilled i) (backfilled j) hc hd nc nd =
    let whole =
      cmp_bytes-append (to_be_bytes 0) (to_be_bytes 0) (to_be_bytes (as_u64 i))
        (to_be_bytes (as_u64 j)) refl in
    let words = cmp_words (as_u64 i) (as_u64 j) (ground arith) (ground arith) in
    ground (arith, whole, words, cmp_bytes_refl (to_be_bytes 0))

-- For two identifiers of a room, with canonical counts other than `Backfilled(0)`: the bytes of their
-- keys are ordered like the counts.
pub cmp_bytes-from_id :
    (room : ℕ) (c d : Count)
    → Canonical c
    → Canonical d
    → c ≢ backfilled (pos 0)
    → d ≢ backfilled (pos 0)
    → cmp_bytes
        (as_bytes (from_id (record { shortroomid = room; shorteventid = c })))
        (as_bytes (from_id (record { shortroomid = room; shorteventid = d })))
      ≡ cmp c d
cmp_bytes-from_id room c d hc hd nc nd =
    let split =
      cmp_bytes-append (to_be_bytes room) (to_be_bytes room) (tail_of c) (tail_of d) refl in
    let tails = cmp_tails c d hc hd nc nd in
    rw (key_bytes room c, key_bytes room d, split, cmp_bytes_refl (to_be_bytes room)) tails
