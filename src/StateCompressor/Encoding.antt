-- ===== src/StateCompressor/Encoding.antt =====
-- What is written to the database is read back.
use arcana_server.Common.{
  ℕ, zero, suc, ◌+◌, ◌*◌, ◌-◌, ◌≤◌, ◌<◌, ◌≡◌, ◌≢◌, refl, ◌∙◌, inl, inr, Bool, true, false, Option,
  none, some, [], ◌∷◌, ◌++◌, arith, length, length-append, NoRepeat, In, ltb,
}
use mathlib.Core.List.{append_assoc}
use arcana_server.Common.Sets.{set_insert, set_extend, set_extend-new}
use arcana_server.Common.Words.{max_u64}
use arcana_server.Pdu.RawId.{Bytes, to_be_bytes, take}
use arcana_server.Pdu.RawId.RoundTrip.{read_back}
use arcana_server.Pdu.RawId.Bytes.{length-be_bytes, take-append}
use arcana_server.StateCompressor.Diff.{
  bytes_eq, Event_Eq, CompressedState, StateDiff, flatten, zeros, removed_bytes, parent_or_zero,
  encode, read_events, parent_of, decode, compress_state_event, parse_compressed_state_event,
}

-- a state key and an event of 8 bytes each, the key not zero
abbrev pub IsEvent : Bytes → Type 0
IsEvent event = (length event ≡ 16) × (bytes_eq (take 8 event) zeros ≡ false)

abbrev pub EachEvent : CompressedState → Type 0
EachEvent events = (event : Bytes) → In event events → IsEvent event

pub record IsDiff (diff : StateDiff) : Type 0 where
  pub parent : parent_or_zero diff.parent ≤ max_u64
  pub not_zero : diff.parent ≢ some 0
  pub added_once : NoRepeat diff.added
  pub removed_once : NoRepeat diff.removed
  pub added : EachEvent diff.added
  pub removed : EachEvent diff.removed

length-flatten :
    (events : CompressedState) → EachEvent events → length (flatten events) ≡ 16 * length events
length-flatten [] each = omega arith
length-flatten (event ∷ events) each =
    let rest = length-flatten events (λ e m. each e (inr m)) in
    omega (arith, length-append event (flatten events), rest, (each event (inl refl)).0)

module _ (fuel : ℕ) (event rest : Bytes) (added removed : CompressedState)
    (is : IsEvent event) where
  long : ltb (length (event ++ rest)) 16 ≡ false
  long = ground (arith, length-append event rest, is.0)

  read_added :
      read_events (suc fuel) true (event ++ rest) added removed
      ≡ read_events fuel true rest (set_insert event added) removed
  unfolding read_events
  read_added = let (t, d) = take-append 16 event rest is.0 in rw (long, t, d, is.1) refl

  read_removed :
      read_events (suc fuel) false (event ++ rest) added removed
      ≡ read_events fuel false rest added (set_insert event removed)
  unfolding read_events
  read_removed = let (t, d) = take-append 16 event rest is.0 in rw (long, t, d) refl

read_all_added :
    (fuel left : ℕ) (events : CompressedState) (rest : Bytes) (added removed : CompressedState)
    → fuel ≡ length events + left
    → EachEvent events
    → read_events fuel true (flatten events ++ rest) added removed
      ≡ read_events left true rest (set_extend added events) removed
unfolding set_extend
read_all_added fuel left [] rest added removed e each =
    let same : fuel ≡ left = omega (arith, e) in rw same refl
read_all_added zero left (event ∷ events) rest added removed e each = absurd (omega (arith, e))
read_all_added (suc fuel) left (event ∷ events) rest added removed e each =
    rw (append_assoc event (flatten events) rest) (
      read_added fuel event (flatten events ++ rest) added removed (each event (inl refl))
      ∙ read_all_added fuel left events rest (set_insert event added) removed (omega (arith, e))
          (λ other m. each other (inr m)))

read_nothing :
    (fuel : ℕ) (mode : Bool) (added removed : CompressedState)
    → read_events fuel mode [] added removed ≡ (added, removed)
unfolding read_events
read_nothing zero mode added removed = refl
read_nothing (suc fuel) mode added removed = refl

read_all_removed :
    (fuel : ℕ) (events added removed : CompressedState)
    → length events ≤ fuel
    → EachEvent events
    → read_events fuel false (flatten events) added removed ≡ (added, set_extend removed events)
unfolding set_extend
read_all_removed fuel [] added removed enough each = read_nothing fuel false added removed
read_all_removed zero (event ∷ events) added removed enough each = absurd (omega (arith, enough))
read_all_removed (suc fuel) (event ∷ events) added removed enough each =
    read_removed fuel event (flatten events) added removed (each event (inl refl))
    ∙ read_all_removed fuel events added (set_insert event removed) (omega (arith, enough))
        (λ other m. each other (inr m))

read_separated :
    (fuel : ℕ) (events added : CompressedState)
    → EachEvent events
    → NoRepeat events
    → length events < fuel
    → read_events fuel true (removed_bytes events) added [] ≡ (added, events)
unfolding read_events
read_separated fuel [] added each once enough = read_nothing fuel true added []
read_separated zero (event ∷ events) added each once enough = absurd (omega (arith, enough))
read_separated (suc fuel) (event ∷ events) added each once enough =
    let size = length-flatten (event ∷ events) each in
    let separated : ltb (length (zeros ++ flatten (event ∷ events))) 16 ≡ false =
      ground (arith, size) in
    let read = read_all_removed fuel (event ∷ events) added [] (omega (arith, enough)) each in
    let new = set_extend-new [] (event ∷ events) once (λ y m in_none. in_none) in
    rw separated (read ∙ rw new refl)

decode-append :
    (n : ℕ) (tail : Bytes)
    → n ≤ max_u64
    → decode (to_be_bytes n ++ tail) ≡ record {
      parent = parent_of n;
      added = (read_events (8 + length tail) true tail [] []).0;
      removed = (read_events (8 + length tail) true tail [] []).1;
    }
unfolding decode
decode-append n tail h =
    let (t, d) = take-append 8 (to_be_bytes n) tail (length-be_bytes 8 n) in
    let size : length (to_be_bytes n ++ tail) ≡ 8 + length tail =
      omega (arith, length-append (to_be_bytes n) tail, length-be_bytes 8 n) in
    rw (t, d, size, read_back n h) refl

length-removed_bytes :
    (events : CompressedState) → EachEvent events → length events ≤ length (removed_bytes events)
length-removed_bytes [] each = omega arith
length-removed_bytes (event ∷ events) each = ground (arith, length-flatten (event ∷ events) each)

parent_back : (parent : Option ℕ) → parent ≢ some 0 → parent_of (parent_or_zero parent) ≡ parent
parent_back none h = refl
parent_back (some zero) h = absurd (h refl)
parent_back (some (suc n)) h = refl

encode_parts :
    (diff : StateDiff)
    → decode (encode diff)
      ≡ decode (
          to_be_bytes (parent_or_zero diff.parent)
          ++ (flatten diff.added ++ removed_bytes diff.removed))
unfolding encode
encode_parts diff = refl

-- what is written is long enough for the slice of the parent
pub encode_is_long : (diff : StateDiff) → ltb (length (encode diff)) 8 ≡ false
unfolding encode
encode_is_long diff =
    let rest = flatten diff.added ++ removed_bytes diff.removed in
    let parent = to_be_bytes (parent_or_zero diff.parent) in
    ground (arith, length-append parent rest, length-be_bytes 8 (parent_or_zero diff.parent))

-- For a difference with a parent that is not 0 and sets of events whose keys are not 0: the bytes that
-- `save_statediff` writes are read back as the same difference.
pub decode-encode : (diff : StateDiff) → IsDiff diff → decode (encode diff) ≡ diff
decode-encode diff is =
    let tail = flatten diff.added ++ removed_bytes diff.removed in
    let size = length-append (flatten diff.added) (removed_bytes diff.removed) in
    let fuel = 8 + length tail in
    let left = fuel - length diff.added in
    let flat = length-flatten diff.added is.added in
    let short = length-removed_bytes diff.removed is.removed in
    let events : read_events fuel true tail [] [] ≡ (diff.added, diff.removed) =
      read_all_added fuel left diff.added (removed_bytes diff.removed) [] []
        (omega (arith, size, flat)) is.added
      ∙ read_separated left diff.removed (set_extend [] diff.added) is.removed is.removed_once
          (omega (arith, size, flat, short))
      ∙ rw (set_extend-new [] diff.added is.added_once (λ y m in_none. in_none)) refl in
    encode_parts diff
    ∙ decode-append (parent_or_zero diff.parent) tail is.parent
    ∙ rw (events, parent_back diff.parent is.not_zero) refl

-- For 64-bit words: a compressed event is parsed back.
parse_compressed_state_event-compress_state_event :
    (shortstatekey shorteventid : ℕ)
    → shortstatekey ≤ max_u64
    → shorteventid ≤ max_u64
    → parse_compressed_state_event (compress_state_event shortstatekey shorteventid)
      ≡ (shortstatekey, shorteventid)
unfolding parse_compressed_state_event compress_state_event
parse_compressed_state_event-compress_state_event shortstatekey shorteventid hk he =
    rw (read_back shortstatekey hk, read_back shorteventid he) refl
