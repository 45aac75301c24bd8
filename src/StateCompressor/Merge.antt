-- ===== src/StateCompressor/Merge.antt =====
-- A difference on top of another, merged into one.
use arcana_server.Common.{
  ◌↔◌, ◌⊎◌, [], ◌∷◌, arith, In, NoRepeat, contains, contains_iff, if◌then◌else◌,
}
use arcana_server.Common.Sets.{
  set_insert, set_remove, set_extend, set_remove_all, In-set_insert, In-set_remove, In-set_extend,
  In-set_remove_all, In-cases, set_insert-NoRepeat, set_remove-NoRepeat,
}
use arcana_server.Pdu.RawId.{Bytes}
use arcana_server.StateCompressor.Diff.{bytes_eq_iff, Event_Eq, CompressedState, ShortStateInfo}
use arcana_server.StateCompressor.{merge_removed, merge_new, merge}

In-merge_removed :
    (new removed gone : CompressedState) (x : Bytes)
    → NoRepeat gone
    → (In x (merge_removed new removed gone).0 ↔ (In x new × (In x gone → ⊥)))
      × (In x (merge_removed new removed gone).1 ↔ (In x removed ⊎ (In x gone × (In x new → ⊥))))
unfolding merge_removed
In-merge_removed new removed [] x once = ground arith
In-merge_removed new removed (r ∷ rest) x once =
    let next = if contains new r then removed else set_insert r removed in
    ground (
      arith,
      In-merge_removed (set_remove r new) next rest x once.1,
      In-set_remove r new x,
      In-set_insert r removed x,
      contains_iff new r,
      In-cases new x,
      In-cases rest x,
      bytes_eq_iff x r,
    )

In-merge_new :
    (new removed fresh : CompressedState) (x : Bytes)
    → NoRepeat fresh
    → (In x (merge_new new removed fresh).0 ↔ (In x new ⊎ (In x fresh × (In x removed → ⊥))))
      × (In x (merge_new new removed fresh).1 ↔ (In x removed × (In x fresh → ⊥)))
unfolding merge_new
In-merge_new new removed [] x once = ground arith
In-merge_new new removed (n ∷ rest) x once =
    let next = if contains removed n then new else set_insert n new in
    ground (
      arith,
      In-merge_new next (set_remove n removed) rest x once.1,
      In-set_remove n removed x,
      In-set_insert n new x,
      contains_iff removed n,
      In-cases removed x,
      In-cases rest x,
      bytes_eq_iff x n,
    )

-- A difference to a state: it adds what the state does not have and removes what it has.
pub record IsChange (state added removed : CompressedState) : Type 0 where
  pub new : (x : Bytes) → In x added → In x state → ⊥
  pub old : (x : Bytes) → In x removed → In x state
  pub added_once : NoRepeat added
  pub removed_once : NoRepeat removed

-- the state after a difference
abbrev pub after : CompressedState → CompressedState → CompressedState → CompressedState
after state added removed = set_remove_all (set_extend state added) removed

pub In-after :
    (state added removed : CompressedState) (x : Bytes)
    → In x (after state added removed) ↔ ((In x state ⊎ In x added) × (In x removed → ⊥))
In-after state added removed x =
    ground
      (arith, In-set_remove_all (set_extend state added) removed x, In-set_extend state added x)

merge_removed-NoRepeat :
    (new removed gone : CompressedState)
    → NoRepeat new
    → NoRepeat removed
    → NoRepeat (merge_removed new removed gone).0 × NoRepeat (merge_removed new removed gone).1
unfolding merge_removed
merge_removed-NoRepeat new removed [] n r = (n, r)
merge_removed-NoRepeat new removed (x ∷ rest) n r =
    merge_removed-NoRepeat (set_remove x new)
      (if contains new x then removed else set_insert x removed) rest (set_remove-NoRepeat x new n)
      (ground (arith, set_insert-NoRepeat x removed r))

merge_new-NoRepeat :
    (new removed fresh : CompressedState)
    → NoRepeat new
    → NoRepeat removed
    → NoRepeat (merge_new new removed fresh).0 × NoRepeat (merge_new new removed fresh).1
unfolding merge_new
merge_new-NoRepeat new removed [] n r = (n, r)
merge_new-NoRepeat new removed (x ∷ rest) n r =
    merge_new-NoRepeat (if contains removed x then new else set_insert x new) (set_remove x removed)
      rest (ground (arith, set_insert-NoRepeat x new n)) (set_remove-NoRepeat x removed r)

-- `middle` is `state` after the parent's difference, and `new` and `gone` are a difference to it.
module _ (state middle : CompressedState) (parent : ShortStateInfo) (new gone : CompressedState)
    (at_middle : (x : Bytes)
      → In x middle ↔ ((In x state ⊎ In x parent.added) × (In x parent.removed → ⊥)))
    (first : IsChange state parent.added parent.removed) (second : IsChange middle new gone) where
  -- What is merged.
  pub In-merge :
      (x : Bytes)
      → (In x (merge parent new gone).0
          ↔ ((In x parent.added × (In x gone → ⊥)) ⊎ (In x new × (In x parent.removed → ⊥))))
        × (In x (merge parent new gone).1
            ↔ ((In x parent.removed ⊎ (In x gone × (In x parent.added → ⊥))) × (In x new → ⊥)))
  In-merge x =
      let one = merge_removed parent.added parent.removed gone in
      ground (
        arith,
        In-merge_removed parent.added parent.removed gone x second.removed_once,
        In-merge_new one.0 one.1 new x second.added_once,
        second.new x,
        second.old x,
        at_middle x,
        In-cases new x,
        In-cases gone x,
        In-cases parent.added x,
        In-cases parent.removed x,
      )

  pub merge-IsChange : IsChange state (merge parent new gone).0 (merge parent new gone).1
  merge-IsChange =
      let one = merge_removed parent.added parent.removed gone in
      let once =
        merge_removed-NoRepeat parent.added parent.removed gone first.added_once
          first.removed_once in
      let merged = merge_new-NoRepeat one.0 one.1 new once.0 once.1 in
      record {
        new = λ x m in_state. ground (arith, In-merge x, first.new x, second.new x, at_middle x);
        old = λ x m. ground (arith, In-merge x, first.old x, second.old x, at_middle x);
        added_once = merged.0;
        removed_once = merged.1;
      }

  -- The merged difference leads to where the two lead one after the other.
  pub merge-same :
      (x : Bytes)
      → ((In x state ⊎ In x (merge parent new gone).0) × (In x (merge parent new gone).1 → ⊥))
        ↔ ((In x middle ⊎ In x new) × (In x gone → ⊥))
  merge-same x = ground (
    arith,
    In-merge x,
    at_middle x,
    first.new x,
    first.old x,
    second.new x,
    second.old x,
    In-cases state x,
    In-cases new x,
    In-cases gone x,
    In-cases parent.added x,
    In-cases parent.removed x,
  )
