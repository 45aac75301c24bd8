-- ===== src/StateCompressor/Returns.antt =====
-- The sums and products of `save_state_from_diff` overflow only for very large differences.
use arcana_server.Common.{
  ℕ, ◌+◌, ◌*◌, ◌^◌, ◌≤◌, ◌<◌, ◌≡◌, true, [], ◌∷◌, arith, length, is_some, contains, if◌then◌else◌,
}
use arcana_server.Common.Sets.{set_insert, set_remove, length-set_insert, length-set_remove}
use arcana_server.StateCompressor.Diff.{Event_Eq, CompressedState, ShortStateInfo, Db}
use arcana_server.StateCompressor.{
  Stack, merge_removed, merge_new, merge, is_too_big, save_state_from_diff,
}

length-merge_removed :
    (new removed gone : CompressedState)
    → length (merge_removed new removed gone).0 + length (merge_removed new removed gone).1
      ≤ length new + length removed + length gone
unfolding merge_removed
length-merge_removed new removed [] = omega arith
length-merge_removed new removed (x ∷ rest) =
    let next = if contains new x then removed else set_insert x removed in
    let more = length-merge_removed (set_remove x new) next rest in
    ground (arith, more, length-set_insert x removed, length-set_remove x new)

length-merge_new :
    (new removed fresh : CompressedState)
    → length (merge_new new removed fresh).0 + length (merge_new new removed fresh).1
      ≤ length new + length removed + length fresh
unfolding merge_new
length-merge_new new removed [] = omega arith
length-merge_new new removed (x ∷ rest) =
    let next = if contains removed x then new else set_insert x new in
    let more = length-merge_new next (set_remove x removed) rest in
    ground (arith, more, length-set_insert x new, length-set_remove x removed)

length-merge :
    (parent : ShortStateInfo) (new gone : CompressedState)
    → length (merge parent new gone).0 + length (merge parent new gone).1
      ≤ length parent.added + length parent.removed + length new + length gone
length-merge parent new gone =
    let one = merge_removed parent.added parent.removed gone in
    omega (
      arith,
      length-merge_removed parent.added parent.removed gone,
      length-merge_new one.0 one.1 new,
    )

product_le : (a b c d : ℕ) → a ≤ c → b ≤ d → a * b ≤ c * d
product_le a b c d h k = grind arith

is_too_big-returns :
    (diffsum sibling parent_diff : ℕ)
    → diffsum < 2 ^ 31
    → sibling < 2 ^ 31
    → parent_diff < 2 ^ 31
    → is_some (is_too_big diffsum sibling parent_diff) ≡ true
is_too_big-returns diffsum sibling parent_diff d s p =
    let square =
      product_le diffsum diffsum (2 ^ 31) (2 ^ 31) (omega (arith, d)) (omega (arith, d)) in
    let limit =
      product_le (2 * sibling) parent_diff (2 ^ 32) (2 ^ 31) (omega (arith, s))
        (omega (arith, p)) in
    ground (arith, square, limit)

-- the changes of all layers
abbrev pub changes : Stack → ℕ
changes [] = 0
changes (info ∷ below) = length info.added + length info.removed + changes below

-- Where `diff_to_sibling` is below 2^31, and the difference and those of all layers have fewer than
-- 2^31 changes together: `save_state_from_diff` returns.
pub save_state_from_diff-returns :
    (hash : ℕ) (new gone : CompressedState) (sibling : ℕ) (stack : Stack) (db : Db)
    → sibling < 2 ^ 31
    → length new + length gone + changes stack < 2 ^ 31
    → is_some (save_state_from_diff hash new gone sibling stack db) ≡ true
unfolding save_state_from_diff
save_state_from_diff-returns hash new gone sibling [] db s few = ground arith
save_state_from_diff-returns hash new gone sibling (parent ∷ stack) db s few =
    let merged = merge parent new gone in
    let diffsum = length new + length gone in
    let parent_diff = length parent.added + length parent.removed in
    let below =
      save_state_from_diff-returns hash merged.0 merged.1 diffsum stack db (omega (arith, few))
        (omega (arith, few, length-merge parent new gone)) in
    let tested =
      is_too_big-returns diffsum sibling parent_diff (omega (arith, few)) s (omega (arith, few)) in
    ground (arith, below, tested)
