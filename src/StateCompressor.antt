-- ===== src/StateCompressor.antt =====
-- src/service/rooms/state_compressor/mod.rs: room states as layers of differences. The database is
-- the map `shortstatehash_statediff` from hashes to bytes; the cache of the source only keeps results
-- of `new_shortstatehash_info` and is left out. `none` is an error: a missing entry, or a sum or
-- product that overflows. It is also the panic on a stored value of fewer than 8 bytes, which the
-- source never writes.
pub mod Diff
pub mod Encoding
pub mod Merge
pub mod Layers
pub mod Saved
pub mod State
pub mod Returns
mod Tests
use arcana_server.Common.{
  ℕ, zero, suc, ◌+◌, ◌*◌, ◌^◌, ◌≡◌, refl, Bool, true, false, ◌&&◌, Option, none, some, List, [],
  ◌∷◌, ◌++◌, arith, length, lookup, insert, contains, ltb, leb, nat_eq, ◌==◌, nat_Eq, if◌then◌else◌,
  Eq,
}
use arcana_server.Common.Sets.{set_insert, set_remove, set_extend, set_remove_all, set_difference}
use arcana_server.Common.Words.{max_u64}
use arcana_server.Pdu.RawId.{Bytes, to_be_bytes, u64_from_u8x8, take, drop}
use Diff.{CompressedState, Event_Eq, StateDiff, ShortStateInfo, Db, get_statediff, save_statediff}

-- `checked!(…)?` on `usize`
abbrev checked : ℕ → Option ℕ
checked n = if leb n max_u64 then some n else none

-- what follows an operation that may fail
infixl 5 ◌>>=?◌
abbrev pub ◌>>=?◌ : {A B : Type 0} → Option A → (A → Option B) → Option B
none >>=? next = none
some a >>=? next = next a

-- a state's stack, the last layer first
abbrev pub Stack : Type 0
Stack = List ShortStateInfo

-- the layer on top of the stack of the parent
abbrev pub layer : ℕ → StateDiff → Stack → Option Stack
layer shortstatehash diff [] = none
layer shortstatehash diff (top ∷ below) = some (
    record {
      shortstatehash = shortstatehash;
      full_state = set_remove_all (set_extend top.full_state diff.added) diff.removed;
      added = diff.added;
      removed = diff.removed;
    }
    ∷ top
    ∷ below)

-- `new_shortstatehash_info`; each layer takes one fuel
unfoldable pub new_shortstatehash_info : ℕ → Db → ℕ → Option Stack
new_shortstatehash_info zero db shortstatehash = none
new_shortstatehash_info (suc fuel) db shortstatehash = get_statediff db shortstatehash >>=? λ diff.
    elim diff.parent [
      | none ↦ some (
          record {
            shortstatehash = shortstatehash;
            full_state = diff.added;
            added = diff.added;
            removed = diff.removed;
          }
          ∷ [])
      | some parent ↦
          new_shortstatehash_info fuel db parent >>=? λ stack. layer shortstatehash diff stack
    ]

-- a change that is undone in the parent's difference is forgotten
unfoldable pub merge_removed :
    CompressedState → CompressedState → CompressedState → CompressedState × CompressedState
merge_removed parent_new parent_removed [] = (parent_new, parent_removed)
merge_removed parent_new parent_removed (removed ∷ rest) =
    merge_removed (set_remove removed parent_new)
      (if contains parent_new removed then parent_removed else set_insert removed parent_removed)
      rest

unfoldable pub merge_new :
    CompressedState → CompressedState → CompressedState → CompressedState × CompressedState
merge_new parent_new parent_removed [] = (parent_new, parent_removed)
merge_new parent_new parent_removed (new ∷ rest) =
    merge_new (if contains parent_removed new then parent_new else set_insert new parent_new)
      (set_remove new parent_removed) rest

abbrev pub merge :
    ShortStateInfo → CompressedState → CompressedState → CompressedState × CompressedState
merge parent statediffnew statediffremoved =
    let first = merge_removed parent.added parent.removed statediffremoved in
    merge_new first.0 first.1 statediffnew

-- `checked!(diffsum * diffsum)? >= checked!(2 * diff_to_sibling * parent_diff)?`
abbrev pub is_too_big : ℕ → ℕ → ℕ → Option Bool
is_too_big diffsum diff_to_sibling parent_diff = checked (diffsum * diffsum) >>=? λ square.
    checked (2 * diff_to_sibling) >>=? λ twice.
    checked (twice * parent_diff) >>=? λ limit. some (leb limit square)

unfoldable pub save_state_from_diff :
    ℕ → CompressedState → CompressedState → ℕ → Stack → Db → Option Db
unfolding merge_removed merge_new
save_state_from_diff shortstatehash statediffnew statediffremoved diff_to_sibling [] db =
    checked (length statediffnew + length statediffremoved) >>=? λ diffsum. some (
      save_statediff shortstatehash
        (record { parent = none; added = statediffnew; removed = statediffremoved }) db)
save_state_from_diff shortstatehash statediffnew statediffremoved diff_to_sibling
      (parent ∷ parent_states) db =
    let merged = merge parent statediffnew statediffremoved in
    let diffsum = length statediffnew + length statediffremoved in
    let replaced = save_state_from_diff shortstatehash merged.0 merged.1 diffsum parent_states db in
    let on_top =
      save_statediff shortstatehash
        (record {
          parent = some parent.shortstatehash;
          added = statediffnew;
          removed = statediffremoved;
        })
        db in
    checked diffsum >>=? λ sum.
    if ltb 3 (length (parent ∷ parent_states))
    then replaced
    else (checked (length parent.added + length parent.removed) >>=? λ parent_diff.
        is_too_big diffsum diff_to_sibling parent_diff >>=? λ too_big.
        if too_big then replaced else some on_top)

-- the state of the room before, if it can be loaded
abbrev parents_of : Option Stack → Stack
parents_of none = []
parents_of (some stack) = stack

abbrev pub difference_to : Stack → CompressedState → CompressedState × CompressedState
difference_to [] new_state = (new_state, [])
difference_to (top ∷ below) new_state =
    (set_difference new_state top.full_state, set_difference top.full_state new_state)

-- `HashSetCompressStateEvent`
pub record HashSetCompressStateEvent : Type 0 where
  pub shortstatehash : ℕ
  pub added : CompressedState
  pub removed : CompressedState

abbrev pub load_previous : ℕ → Db → Option ℕ → Stack
load_previous fuel db none = []
load_previous fuel db (some previous) = parents_of (new_shortstatehash_info fuel db previous)

abbrev pub is_hash : Option ℕ → ℕ → Bool
is_hash none hash = false
is_hash (some previous) hash = hash == previous

abbrev saved_if_new : Bool → Option Db → Db → Option Db
saved_if_new true saved db = some db
saved_if_new false saved db = saved

-- `save_state`, given the hash of the room's state, the hash of the new state and whether that hash
-- was there before
unfoldable pub save_state :
    ℕ → Option ℕ → ℕ → Bool → CompressedState → Db → Option (HashSetCompressStateEvent × Db)
unfolding save_state_from_diff new_shortstatehash_info
save_state fuel previous new_hash already_existed new_state db =
    let states_parents = load_previous fuel db previous in
    let diff = difference_to states_parents new_state in
    if is_hash previous new_hash
    then some (record { shortstatehash = new_hash; added = []; removed = [] }, db)
    else (saved_if_new already_existed
          (save_state_from_diff new_hash diff.0 diff.1 2 states_parents db) db
        >>=? λ saved.
            some (record { shortstatehash = new_hash; added = diff.0; removed = diff.1 }, saved))
