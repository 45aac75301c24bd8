-- ===== src/StateCompressor/State.antt =====
-- `save_state`: the state that is saved is the state that is loaded.
use arcana_server.Common.{
  ℕ, ◌≤◌, ◌<◌, ◌≡◌, ◌↔◌, inl, inr, sym, ap, ◌∙◌, false, Option, some, [], ◌∷◌, arith, In, NoRepeat,
  nat_Eq, Option-cases,
}
use arcana_server.Common.Sets.{
  set_extend, set_difference, In-set_difference, set_difference-NoRepeat, set_extend-NoRepeat,
  set_remove_all-NoRepeat, In-cases,
}
use arcana_server.Common.Words.{max_u64}
use arcana_server.Pdu.RawId.{Bytes}
use arcana_server.StateCompressor.Diff.{Event_Eq, CompressedState, ShortStateInfo, Db}
use arcana_server.StateCompressor.Encoding.{EachEvent}
use arcana_server.StateCompressor.Merge.{IsChange, In-after}
use arcana_server.StateCompressor.Layers.{
  base_of, full_on, Layered, In-full_on, new_shortstatehash_info-Layered, Absent,
}
use arcana_server.StateCompressor.Saved.{Stored, save_state_from_diff-Stored}
use arcana_server.StateCompressor.{
  Stack, new_shortstatehash_info, save_state_from_diff, HashSetCompressStateEvent, difference_to,
  is_hash, load_previous, save_state,
}

full_on-NoRepeat :
    (below : Stack) (added removed : CompressedState)
    → NoRepeat (base_of below)
    → NoRepeat added
    → NoRepeat (full_on below added removed)
full_on-NoRepeat [] added removed b a = a
full_on-NoRepeat (top ∷ below) added removed b a =
    set_remove_all-NoRepeat (set_extend top.full_state added) removed
      (set_extend-NoRepeat top.full_state added b)

Stored-loaded :
    (stack : Stack) (hash : ℕ) (new gone : CompressedState) (saved : Db)
    (s : Stored stack hash new gone saved)
    → new_shortstatehash_info 4 saved hash ≡ some (s.info ∷ s.below)
Stored-loaded stack hash new gone saved s =
    ap (λ h. new_shortstatehash_info 4 saved h) (sym s.has_hash)
    ∙ new_shortstatehash_info-Layered 4 saved s.info s.below s.layered s.short

-- the full states of a stack are sets of events
base_of-EachEvent :
    (db : Db) (stack : Stack)
    → Layered db stack
    → EachEvent (base_of stack) × NoRepeat (base_of stack)
base_of-EachEvent db [] l = (λ x m. absurd m, tt)
base_of-EachEvent db (top ∷ below) l =
    let layer = l.0 in
    let (each, once) = base_of-EachEvent db below l.1 in
    let at_full = λ (x : Bytes). In-full_on below top.added top.removed x layer.change in
    (
      λ x m. elim ((at_full x).0 (rw layer.full at m)).0 [
        | inl old ↦ each x old
        | inr new ↦ layer.added x new
      ],
      rw layer.full (full_on-NoRepeat below top.added top.removed once layer.change.added_once),
    )

-- the difference to a stack
difference_to-IsChange :
    (db : Db) (stack : Stack) (state : CompressedState)
    → Layered db stack
    → NoRepeat state
    → IsChange (base_of stack) (difference_to stack state).0 (difference_to stack state).1
      × ((x : Bytes)
          → In x (full_on stack (difference_to stack state).0 (difference_to stack state).1)
            ↔ In x state)
difference_to-IsChange db [] state l n = (
  record { new = λ x m k. k; old = λ x m. m; added_once = n; removed_once = tt },
  λ x. (λ m. m, λ m. m),
)
difference_to-IsChange db (top ∷ below) state l n =
    let full = top.full_state in
    let (each, once) = base_of-EachEvent db (top ∷ below) l in
    let added = λ (x : Bytes). In-set_difference state full x in
    let removed = λ (x : Bytes). In-set_difference full state x in
    (
      record {
        new = λ x m k. ground (arith, added x);
        old = λ x m. ground (arith, removed x);
        added_once = set_difference-NoRepeat state full n;
        removed_once = set_difference-NoRepeat full state once;
      },
      λ x. ground (
        arith,
        In-after full (set_difference state full) (set_difference full state) x,
        added x,
        removed x,
        In-cases state x,
        In-cases full x,
      ),
    )

difference_to-EachEvent :
    (db : Db) (stack : Stack) (state : CompressedState)
    → Layered db stack
    → EachEvent state
    → EachEvent (difference_to stack state).0 × EachEvent (difference_to stack state).1
difference_to-EachEvent db [] state l each = (each, λ x m. absurd m)
difference_to-EachEvent db (top ∷ below) state l each = (
  λ x m. each x ((In-set_difference state top.full_state x).0 m).0,
  λ x m.
      (base_of-EachEvent db (top ∷ below) l).0 x ((In-set_difference top.full_state state x).0 m).0,
)

-- Where the layers that are loaded of the previous state are well formed (each is stored under a hash
-- that is not 0 and fits 64 bits, its full state is that of the layer below with its difference, and
-- the difference adds only events that were not there and removes only events that were), for a hash
-- of that kind that is not one of these layers, is not that of the previous state and was not there
-- before, and a set of events of 16 bytes whose state keys are not 0: what a `save_state` that returns
-- has saved under the hash is loaded within four layers, which are well formed again, as a state with
-- the same events.
pub save_state_loaded :
    (fuel : ℕ) (previous : Option ℕ) (hash : ℕ) (state : CompressedState) (db saved : Db)
    (event : HashSetCompressStateEvent)
    → is_hash previous hash ≡ false
    → Layered db (load_previous fuel db previous)
    → Absent hash (load_previous fuel db previous)
    → NoRepeat state
    → EachEvent state
    → 0 < hash
    → hash ≤ max_u64
    → save_state fuel previous hash false state db ≡ some (event, saved)
    → (info : ShortStateInfo) × (below : Stack) × (new_shortstatehash_info 4 saved hash
        ≡ some (info ∷ below))
      × Layered saved (info ∷ below)
      × ((x : Bytes) → In x info.full_state ↔ In x state)
unfolding save_state
save_state_loaded fuel previous hash state db saved event other l absent once each pos word h =
    let stack = load_previous fuel db previous in
    let diff = difference_to stack state in
    let (change, same) = difference_to-IsChange db stack state l once in
    let returned : save_state_from_diff hash diff.0 diff.1 2 stack db ≡ some saved =
      elim (Option-cases (save_state_from_diff hash diff.0 diff.1 2 stack db)) [
        | inl failed ↦ absurd (ground arith)
        | inr (out, o) ↦ ground arith
      ] in
    let events = difference_to-EachEvent db stack state l each in
    let s =
      save_state_from_diff-Stored hash diff.0 diff.1 2 stack db saved
        (record {
          layered = l;
          absent = absent;
          change = change;
          new_events = events.0;
          gone_events = events.1;
          not_zero = pos;
          word = word;
        })
        returned in
    let loaded = Stored-loaded stack hash diff.0 diff.1 saved s in
    (s.info, s.below, loaded, s.layered, λ x. ground (arith, s.same x, same x))
