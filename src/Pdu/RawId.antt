-- ===== src/Pdu/RawId.antt =====
-- src/core/matrix/pdu/raw_id.rs and id.rs: the key of an event in the database, the bytes of its room
-- and of its count. `none` is a panic: of the slices and conversions on other lengths.
pub mod Bytes
pub mod RoundTrip
pub mod Order
use arcana_server.Common.{
  ℕ, zero, suc, ◌+◌, ◌*◌, ◌/◌, ◌%◌, Option, none, some, List, [], ◌∷◌, ◌++◌, length, if◌then◌else◌,
  nat_eq,
}
use arcana_server.Common.Words.{as_u64}
use arcana_server.Pdu.Count.{Count, normal, backfilled, from_unsigned}

abbrev pub Bytes : Type 0
Bytes = List ℕ

-- `to_be_bytes` of a word of `width` bytes
unfoldable pub be_bytes : ℕ → ℕ → Bytes
be_bytes zero n = []
be_bytes (suc width) n = be_bytes width (n / 256) ++ (n % 256 ∷ [])

abbrev pub to_be_bytes : ℕ → Bytes
to_be_bytes n = be_bytes 8 n

-- `from_be_bytes`, on what the bytes before give
unfoldable pub from_be_bytes : ℕ → Bytes → ℕ
from_be_bytes high [] = high
from_be_bytes high (byte ∷ bytes) = from_be_bytes (high * 256 + byte) bytes

-- `u64_from_u8x8`
unfoldable pub u64_from_u8x8 : Bytes → ℕ
unfolding from_be_bytes
u64_from_u8x8 bytes = from_be_bytes 0 bytes

abbrev pub take : ℕ → Bytes → Bytes
take zero bytes = []
take (suc n) [] = []
take (suc n) (byte ∷ bytes) = byte ∷ take n bytes

abbrev pub drop : ℕ → Bytes → Bytes
drop zero bytes = bytes
drop (suc n) [] = []
drop (suc n) (byte ∷ bytes) = drop n bytes

pub record Ident : Type 0 where
  pub shortroomid : ℕ
  pub shorteventid : Count

-- arrays of 16 and of 24 bytes
pub data RawId : Type 0 where
  raw_normal : Bytes → RawId
  raw_backfilled : Bytes → RawId

unfoldable pub as_bytes : RawId → Bytes
as_bytes (raw_normal raw) = raw
as_bytes (raw_backfilled raw) = raw

unfoldable pub shortroomid : RawId → Bytes
shortroomid (raw_normal raw) = take 8 raw
shortroomid (raw_backfilled raw) = take 8 raw

unfoldable pub shorteventid : RawId → Bytes
shorteventid (raw_normal raw) = take 8 (drop 8 raw)
shorteventid (raw_backfilled raw) = take 8 (drop 16 raw)

-- `From<&[u8]>`
unfoldable pub from_bytes : Bytes → Option RawId
from_bytes id =
    if nat_eq (length id) 16
    then some (raw_normal id)
    else if nat_eq (length id) 24
    then some (raw_backfilled id)
    else none

-- `From<Id> for RawId`
unfoldable pub from_id : Ident → RawId
unfolding be_bytes
from_id id = elim id.shorteventid [
  | normal i ↦ raw_normal (to_be_bytes id.shortroomid ++ to_be_bytes i)
  | backfilled i ↦
      raw_backfilled (to_be_bytes id.shortroomid ++ (to_be_bytes 0 ++ to_be_bytes (as_u64 i)))
]

-- `From<RawId> for Id`
unfoldable pub to_id : RawId → Ident
unfolding shortroomid shorteventid u64_from_u8x8
to_id raw = record {
  shortroomid = u64_from_u8x8 (shortroomid raw);
  shorteventid = from_unsigned (u64_from_u8x8 (shorteventid raw));
}

unfoldable pub pdu_count : RawId → Count
unfolding to_id
pdu_count raw = (to_id raw).shorteventid
