-- ===== src/Pdu/RawId/RoundTrip.antt =====
-- Identifiers, their keys, and the bytes of the keys: each is read back.
use arcana_server.Common.{ℕ, ◌≤◌, ◌≡◌, refl, ap, ◌∙◌, some, arith}
use arcana_server.Common.Words.{max_u64}
use arcana_server.Pdu.Count.{Count, normal, backfilled, from_unsigned, into_unsigned}
use arcana_server.Pdu.Count.Encoding.{Canonical, from_unsigned-into_unsigned}
use arcana_server.Pdu.RawId.{
  to_be_bytes, u64_from_u8x8, Ident, as_bytes, shortroomid, shorteventid, from_bytes, from_id,
  to_id, pdu_count,
}
use arcana_server.Pdu.RawId.Bytes.{from_be_bytes-be_bytes}

-- an identifier within the ranges of its words
pub record IsIdent (id : Ident) : Type 0 where
  pub room : id.shortroomid ≤ max_u64
  pub canonical : Canonical id.shorteventid

pub read_back : (n : ℕ) → n ≤ max_u64 → u64_from_u8x8 (to_be_bytes n) ≡ n
unfolding u64_from_u8x8
read_back n h = from_be_bytes-be_bytes 8 n (omega (arith, h))

-- the two parts of the key's bytes
parts :
    (room : ℕ) (count : Count)
    → (shortroomid (from_id (record { shortroomid = room; shorteventid = count }))
        ≡ to_be_bytes room)
      × (shorteventid (from_id (record { shortroomid = room; shorteventid = count }))
          ≡ to_be_bytes (into_unsigned count))
unfolding shortroomid shorteventid from_id into_unsigned
parts room (normal i) = (refl, refl)
parts room (backfilled i) = (refl, refl)

bytes_back :
    (room : ℕ) (count : Count)
    → from_bytes (as_bytes (from_id (record { shortroomid = room; shorteventid = count })))
      ≡ some (from_id (record { shortroomid = room; shorteventid = count }))
unfolding from_bytes as_bytes from_id
bytes_back room (normal i) = refl
bytes_back room (backfilled i) = refl

-- For an identifier with a 64-bit room and a canonical count: its key gives the identifier back, and
-- the bytes of the key give the key back.
pub to_id-from_id :
    (id : Ident)
    → IsIdent id
    → (to_id (from_id id) ≡ id)
      × (from_bytes (as_bytes (from_id id)) ≡ some (from_id id))
      × (pdu_count (from_id id) ≡ id.shorteventid)
unfolding to_id pdu_count
to_id-from_id id h =
    let room = id.shortroomid in
    let count = id.shorteventid in
    let (at_room, at_count) = parts room count in
    let (back, small) = from_unsigned-into_unsigned count h.canonical in
    let room_back : u64_from_u8x8 (shortroomid (from_id id)) ≡ room =
      ap u64_from_u8x8 at_room ∙ read_back room h.room in
    let count_back : from_unsigned (u64_from_u8x8 (shorteventid (from_id id))) ≡ count =
      ap (λ bytes. from_unsigned (u64_from_u8x8 bytes)) at_count
      ∙ ap from_unsigned (read_back (into_unsigned count) small)
      ∙ back in
    (rw (room_back, count_back) refl, bytes_back room count, count_back)
