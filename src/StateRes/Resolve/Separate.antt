-- ===== src/StateRes/Resolve/Separate.antt =====
-- `separate` and `get_auth_chain_diff` of src/core/matrix/state_res/mod.rs. Hash maps are lists of
-- entries with the first entry of a key counting; what is shown holds for every order of entries.
pub mod Counts
pub mod Tallies
mod Placing
pub mod Agree
pub mod Chains
pub mod Unique
use Prim.Native.Nat.{min}
use arcana_server.Common.{
  ℕ, ◌+◌, ◌-◌, ◌^◌, Option, none, some, List, [], ◌∷◌, ◌++◌, length, lookup, insert, Eq, ◌==◌,
  nat_Eq, if◌then◌else◌, ltb, nat_eq,
}
use Counts.{Tally, bump, saturating_inc, wrapping_inc}

-- `or_default()`
abbrev pub tally_of : {Ident : Type 0} → Option (Tally Ident) → Tally Ident
tally_of none = []
tally_of (some tally) = tally

-- `for id in v`: one occurrence of an event ID for a key. `states` is the pair of maps.
module _ {K Ident : Type 0} ⦃k : Eq K⦄ where
  abbrev pub push_conflict : K → Ident → List (K × List Ident) → List (K × List Ident)
  push_conflict key id conflicted = elim (lookup key conflicted) [
    | none ↦ insert key (id ∷ []) conflicted
    | some ids ↦ insert key (ids ++ (id ∷ [])) conflicted
  ]

  unfoldable pub place :
      ℕ
      → K
      → List (K × Ident) × List (K × List Ident)
      → Ident × ℕ
      → List (K × Ident) × List (K × List Ident)
  place total key (unconflicted, conflicted) (id, occurrences) =
      if nat_eq occurrences total
      then (insert key id unconflicted, conflicted)
      else (unconflicted, push_conflict key id conflicted)

  unfoldable pub place_all :
      ℕ
      → K
      → List (K × Ident) × List (K × List Ident)
      → Tally Ident
      → List (K × Ident) × List (K × List Ident)
  unfolding place
  place_all total key states [] = states
  place_all total key states (entry ∷ rest) =
      place_all total key (place total key states entry) rest

  unfoldable pub split_occurrences :
      ℕ
      → List (K × Ident) × List (K × List Ident)
      → List (K × Tally Ident)
      → List (K × Ident) × List (K × List Ident)
  unfolding place_all
  split_occurrences total states [] = states
  split_occurrences total states ((key, tally) ∷ rest) =
      split_occurrences total (place_all total key states tally) rest

module _ {K Ident : Type 0} ⦃k : Eq K⦄ ⦃i : Eq Ident⦄ where
  -- `occurrences.entry(k).or_default().entry(v).and_modify(…).or_insert(1)`
  unfoldable pub count_pair : List (K × Tally Ident) → K × Ident → List (K × Tally Ident)
  count_pair occurrences (key, id) =
      insert key (bump saturating_inc id (tally_of (lookup key occurrences))) occurrences

  unfoldable pub count_set : List (K × Tally Ident) → List (K × Ident) → List (K × Tally Ident)
  unfolding count_pair
  count_set occurrences [] = occurrences
  count_set occurrences (pair ∷ rest) = count_set (count_pair occurrences pair) rest

  unfoldable pub count_sets :
      List (K × Tally Ident) → List (List (K × Ident)) → List (K × Tally Ident)
  unfolding count_set
  count_sets occurrences [] = occurrences
  count_sets occurrences (set ∷ rest) = count_sets (count_set occurrences set) rest

  -- `state_set_count` saturates like the counts.
  abbrev pub set_count : ℕ → List (List (K × Ident)) → ℕ
  set_count n [] = n
  set_count n (set ∷ rest) = set_count (saturating_inc n) rest

  unfoldable pub separate : List (List (K × Ident)) → List (K × Ident) × List (K × List Ident)
  unfolding count_sets split_occurrences
  separate state_sets =
      split_occurrences (set_count 0 state_sets) ([], []) (count_sets [] state_sets)

module _ {Ident : Type 0} ⦃i : Eq Ident⦄ where
  unfoldable pub count_ids : Tally Ident → List Ident → Tally Ident
  count_ids tally [] = tally
  count_ids tally (id ∷ rest) = count_ids (bump wrapping_inc id tally) rest

  unfoldable pub count_chains : Tally Ident → List (List Ident) → Tally Ident
  unfolding count_ids
  count_chains tally [] = tally
  count_chains tally (chain ∷ rest) = count_chains (count_ids tally chain) rest

  unfoldable pub below_count : ℕ → Tally Ident → List Ident
  below_count total [] = []
  below_count total ((id, count) ∷ rest) =
      if ltb count total then id ∷ below_count total rest else below_count total rest

  unfoldable pub get_auth_chain_diff : List (List Ident) → List Ident
  unfolding count_chains below_count
  get_auth_chain_diff auth_chain_sets =
      below_count (length auth_chain_sets) (count_chains [] auth_chain_sets)
