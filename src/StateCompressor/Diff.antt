-- ===== src/StateCompressor/Diff.antt =====
-- src/service/rooms/state_compressor/mod.rs: `StateDiff` and its bytes in the database. The order of
-- the items of a set is the order in which they were put in.
use arcana_server.Common.{
  ℕ, zero, suc, ◌≡◌, ◌↔◌, Bool, true, false, ◌&&◌, Option, none, some, List, [], ◌∷◌, ◌++◌, arith,
  length, lookup, insert, ltb, nat_eq, nat_Eq, if◌then◌else◌, Eq,
}
use arcana_server.Common.Sets.{set_insert}
use arcana_server.Pdu.RawId.{Bytes, be_bytes, to_be_bytes, u64_from_u8x8, take, drop}

-- 16 bytes
abbrev pub CompressedStateEvent : Type 0
CompressedStateEvent = Bytes

abbrev pub bytes_eq : Bytes → Bytes → Bool
bytes_eq [] [] = true
bytes_eq [] (y ∷ ys) = false
bytes_eq (x ∷ xs) [] = false
bytes_eq (x ∷ xs) (y ∷ ys) = nat_eq x y && bytes_eq xs ys

pub bytes_eq_iff : (xs ys : Bytes) → (bytes_eq xs ys ≡ true) ↔ (xs ≡ ys)
bytes_eq_iff [] [] = ground arith
bytes_eq_iff [] (y ∷ ys) = ground arith
bytes_eq_iff (x ∷ xs) [] = ground arith
bytes_eq_iff (x ∷ xs) (y ∷ ys) = ground (arith, bytes_eq_iff xs ys)

instance abbrev pub Event_Eq : Eq Bytes
Event_Eq = record { eq = bytes_eq; eq_iff = bytes_eq_iff }

abbrev pub CompressedState : Type 0
CompressedState = List CompressedStateEvent

pub record StateDiff : Type 0 where
  pub parent : Option ℕ
  pub added : CompressedState
  pub removed : CompressedState

pub record ShortStateInfo : Type 0 where
  pub shortstatehash : ℕ
  pub full_state : CompressedState
  pub added : CompressedState
  pub removed : CompressedState

abbrev pub Db : Type 0
Db = List (ℕ × Bytes)

abbrev pub flatten : CompressedState → Bytes
flatten [] = []
flatten (event ∷ events) = event ++ flatten events

-- `0_u64.to_be_bytes()`
abbrev pub zeros : Bytes
zeros = 0 ∷ 0 ∷ 0 ∷ 0 ∷ 0 ∷ 0 ∷ 0 ∷ 0 ∷ []

-- the separator, where something was removed
abbrev pub removed_bytes : CompressedState → Bytes
removed_bytes [] = []
removed_bytes (event ∷ events) = zeros ++ flatten (event ∷ events)

abbrev pub parent_or_zero : Option ℕ → ℕ
parent_or_zero none = 0
parent_or_zero (some parent) = parent

unfoldable pub encode : StateDiff → Bytes
unfolding be_bytes
encode diff =
    to_be_bytes (parent_or_zero diff.parent) ++ (flatten diff.added ++ removed_bytes diff.removed)

unfoldable pub save_statediff : ℕ → StateDiff → Db → Db
unfolding encode
save_statediff shortstatehash diff db = insert shortstatehash (encode diff) db

-- the loop of `get_statediff`, which takes at least 8 bytes in each round
unfoldable pub read_events :
    ℕ → Bool → Bytes → CompressedState → CompressedState → CompressedState × CompressedState
read_events zero add_mode value added removed = (added, removed)
read_events (suc fuel) add_mode value added removed =
    let event = take 16 value in
    let skipped = read_events fuel false (drop 8 value) added removed in
    let as_added = read_events fuel add_mode (drop 16 value) (set_insert event added) removed in
    let as_removed = read_events fuel add_mode (drop 16 value) added (set_insert event removed) in
    if ltb (length value) 16
    then (added, removed)
    else if add_mode && bytes_eq (take 8 event) zeros
    then skipped
    else if add_mode
    then as_added
    else as_removed

abbrev pub parent_of : ℕ → Option ℕ
parent_of zero = none
parent_of (suc n) = some (suc n)

unfoldable pub decode : Bytes → StateDiff
unfolding read_events u64_from_u8x8
decode value =
    let events = read_events (length value) true (drop 8 value) [] [] in
    record {
      parent = parent_of (u64_from_u8x8 (take 8 value));
      added = events.0;
      removed = events.1;
    }

-- a value that is too short for the slice of its parent is a panic of the source
unfoldable pub diff_of : Option Bytes → Option StateDiff
unfolding decode
diff_of none = none
diff_of (some value) = if ltb (length value) 8 then none else some (decode value)

unfoldable pub get_statediff : Db → ℕ → Option StateDiff
unfolding diff_of
get_statediff db shortstatehash = diff_of (lookup shortstatehash db)

-- `compress_state_event` and `parse_compressed_state_event`
unfoldable pub compress_state_event : ℕ → ℕ → CompressedStateEvent
unfolding be_bytes
compress_state_event shortstatekey shorteventid =
    to_be_bytes shortstatekey ++ to_be_bytes shorteventid

unfoldable pub parse_compressed_state_event : CompressedStateEvent → ℕ × ℕ
unfolding u64_from_u8x8
parse_compressed_state_event compressed_event =
    (u64_from_u8x8 (take 8 compressed_event), u64_from_u8x8 (drop 8 compressed_event))
