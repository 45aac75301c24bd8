-- ===== src/StateCompressor/Saved.antt =====
-- Saving a difference stores the state that it leads to.
use arcana_server.Common.{
  ℕ, ◌+◌, ◌≤◌, ◌<◌, ◌≡◌, ◌↔◌, ◌⊎◌, inl, inr, refl, ◌∙◌, true, some, [], ◌∷◌, arith, In, length, ltb,
  nat_Eq, nat_eq_iff, ◌==◌, Bool-cases,
}
use arcana_server.Common.Words.{max_u64}
use arcana_server.Pdu.RawId.{Bytes}
use arcana_server.StateCompressor.Diff.{
  Event_Eq, CompressedState, ShortStateInfo, Db, save_statediff,
}
use arcana_server.StateCompressor.Encoding.{EachEvent, IsDiff}
use arcana_server.StateCompressor.Merge.{IsChange, In-after, In-merge, merge-IsChange, merge-same}
use arcana_server.StateCompressor.{Stack, merge, save_state_from_diff}
use arcana_server.StateCompressor.Layers.{
  base_of, full_on, diff_on, Layered, In-full_on, get_statediff-save_statediff, Absent,
  save_statediff-Layered, hash_is_parent,
}

-- What can be saved on a stack: a difference to its state, for a hash that it does not have.
pub record CanSave (db : Db) (stack : Stack) (hash : ℕ) (new gone : CompressedState) : Type 0 where
  pub layered : Layered db stack
  pub absent : Absent hash stack
  pub change : IsChange (base_of stack) new gone
  pub new_events : EachEvent new
  pub gone_events : EachEvent gone
  pub not_zero : 0 < hash
  pub word : hash ≤ max_u64

-- A stack of at most four layers is in the database, with the hash on top and the state that the
-- difference leads to.
pub record Stored (stack : Stack) (hash : ℕ) (new gone : CompressedState) (saved : Db)
    : Type 0 where
  pub info : ShortStateInfo
  pub below : Stack
  pub layered : Layered saved (info ∷ below)
  pub has_hash : info.shortstatehash ≡ hash
  pub same : (x : Bytes) → In x info.full_state ↔ In x (full_on stack new gone)
  pub short : length (info ∷ below) ≤ 4

put-Stored :
    (db : Db) (stack : Stack) (hash : ℕ) (new gone : CompressedState)
    → CanSave db stack hash new gone
    → length stack ≤ 3
    → Stored stack hash new gone (save_statediff hash (diff_on stack new gone) db)
put-Stored db stack hash new gone c few =
    let parent = hash_is_parent db stack c.layered in
    let is : IsDiff (diff_on stack new gone) = record {
      parent = parent.0;
      not_zero = parent.1;
      added_once = c.change.added_once;
      removed_once = c.change.removed_once;
      added = c.new_events;
      removed = c.gone_events;
    } in
    let here : (hash == hash) ≡ true = (nat_eq_iff hash hash).1 refl in
    record {
      info = record {
        shortstatehash = hash;
        full_state = full_on stack new gone;
        added = new;
        removed = gone;
      };
      below = stack;
      layered = (
        record {
          stored =
              get_statediff-save_statediff db hash hash (diff_on stack new gone) is ∙ rw here refl;
          full = refl;
          change = c.change;
          added = c.new_events;
          removed = c.gone_events;
          not_zero = c.not_zero;
          word = c.word;
        },
        save_statediff-Layered db hash (diff_on stack new gone) stack is c.absent c.layered,
      );
      has_hash = refl;
      same = λ x. (λ m. m, λ m. m);
      short = omega (arith, few);
    }

-- The parent's difference can be replaced by the merged one.
merge-CanSave :
    (db : Db) (parent : ShortStateInfo) (stack : Stack) (hash : ℕ) (new gone : CompressedState)
    → CanSave db (parent ∷ stack) hash new gone
    → CanSave db stack hash (merge parent new gone).0 (merge parent new gone).1
      × ((x : Bytes)
          → In x (full_on stack (merge parent new gone).0 (merge parent new gone).1)
            ↔ In x (full_on (parent ∷ stack) new gone))
merge-CanSave db parent stack hash new gone c =
    let layer = c.layered.0 in
    let first = layer.change in
    let at_middle : (x : Bytes)
        → In x parent.full_state
          ↔ ((In x (base_of stack) ⊎ In x parent.added) × (In x parent.removed → ⊥)) =
      λ x. rw layer.full (In-full_on stack parent.added parent.removed x first) in
    let merged =
      In-merge (base_of stack) parent.full_state parent new gone at_middle first c.change in
    let change =
      merge-IsChange (base_of stack) parent.full_state parent new gone at_middle first c.change in
    (
      record {
        layered = c.layered.1;
        absent = c.absent.1;
        change = change;
        new_events = λ x m. elim ((merged x).0.0 m) [
          | inl (old, kept) ↦ layer.added x old
          | inr (fresh, kept) ↦ c.new_events x fresh
        ];
        gone_events = λ x m. elim ((merged x).1.0 m).0 [
          | inl old ↦ layer.removed x old
          | inr (lost, kept) ↦ c.gone_events x lost
        ];
        not_zero = c.not_zero;
        word = c.word;
      },
      λ x. ground (
        arith,
        In-full_on stack (merge parent new gone).0 (merge parent new gone).1 x change,
        merge-same (base_of stack) parent.full_state parent new gone at_middle first c.change x,
        In-after parent.full_state new gone x,
      ),
    )

-- The difference is put on the stack, or it is merged into the layer below.
save_state_from_diff-cases :
    (hash : ℕ) (new gone : CompressedState) (sibling : ℕ) (parent : ShortStateInfo) (stack : Stack)
    (db saved : Db)
    → save_state_from_diff hash new gone sibling (parent ∷ stack) db ≡ some saved
    → (save_state_from_diff hash
          (merge parent new gone).0
          (merge parent new gone).1
          (length new + length gone)
          stack
          db
        ≡ some saved)
      ⊎ ((length (parent ∷ stack) ≤ 3)
          × (saved ≡ save_statediff hash (diff_on (parent ∷ stack) new gone) db))
unfolding save_state_from_diff
save_state_from_diff-cases hash new gone sibling parent stack db saved h =
    elim (Bool-cases (ltb 3 (length (parent ∷ stack)))) [
      | inl deep ↦ ground arith
      | inr shallow ↦ ground arith
    ]

-- Where a difference to the state of a stack of the database can be saved, and the save returns: the
-- database has a stack of at most four layers with the hash on top, whose full state is the one that
-- the difference leads to.
pub save_state_from_diff-Stored :
    (hash : ℕ) (new gone : CompressedState) (sibling : ℕ) (stack : Stack) (db saved : Db)
    → CanSave db stack hash new gone
    → save_state_from_diff hash new gone sibling stack db ≡ some saved
    → Stored stack hash new gone saved
unfolding save_state_from_diff
save_state_from_diff-Stored hash new gone sibling [] db saved c h =
    let put : saved ≡ save_statediff hash (diff_on [] new gone) db = ground arith in
    rw put (put-Stored db [] hash new gone c (omega arith))
save_state_from_diff-Stored hash new gone sibling (parent ∷ stack) db saved c h =
    elim (save_state_from_diff-cases hash new gone sibling parent stack db saved h) [
      | inr (few, put) ↦ rw put (put-Stored db (parent ∷ stack) hash new gone c few)
      | inl below ↦
          let (merged, same) = merge-CanSave db parent stack hash new gone c in
          let s =
            save_state_from_diff-Stored hash (merge parent new gone).0 (merge parent new gone).1
              (length new + length gone) stack db saved merged below in
          record {
            info = s.info;
            below = s.below;
            layered = s.layered;
            has_hash = s.has_hash;
            same = λ x. ground (arith, s.same x, same x);
            short = s.short;
          }
    ]
