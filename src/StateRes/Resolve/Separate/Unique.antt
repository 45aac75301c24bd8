-- ===== src/StateRes/Resolve/Separate/Unique.antt =====
-- The unconflicted state has one entry for each key.
use arcana_server.Common.{
  ℕ, List, [], ◌∷◌, UniqueKeys, insert-UniqueKeys, Eq, Bool-cases, inl, inr, nat_eq,
}
use arcana_server.StateRes.Resolve.Separate.{
  place, place_all, split_occurrences, count_sets, set_count, separate,
}
use arcana_server.StateRes.Resolve.Separate.Counts.{Tally}

module _ {K Ident : Type 0} ⦃k : Eq K⦄ where
  place-UniqueKeys :
      (total : ℕ) (key : K) (states : List (K × Ident) × List (K × List Ident)) (entry : Ident × ℕ)
      → UniqueKeys states.0
      → UniqueKeys (place total key states entry).0
  unfolding place
  place-UniqueKeys total key (unconflicted, conflicted) (id, occurrences) u =
      elim (Bool-cases (nat_eq occurrences total)) [
        | inl full ↦ rw full (insert-UniqueKeys key id unconflicted u)
        | inr differs ↦ rw differs u
      ]

  place_all-UniqueKeys :
      (total : ℕ) (key : K) (states : List (K × Ident) × List (K × List Ident))
      (tally : Tally Ident)
      → UniqueKeys states.0
      → UniqueKeys (place_all total key states tally).0
  unfolding place_all
  place_all-UniqueKeys total key states [] u = u
  place_all-UniqueKeys total key states (entry ∷ rest) u =
      place_all-UniqueKeys total key (place total key states entry) rest
        (place-UniqueKeys total key states entry u)

  split_occurrences-UniqueKeys :
      (total : ℕ) (states : List (K × Ident) × List (K × List Ident))
      (occurrences : List (K × Tally Ident))
      → UniqueKeys states.0
      → UniqueKeys (split_occurrences total states occurrences).0
  unfolding split_occurrences
  split_occurrences-UniqueKeys total states [] u = u
  split_occurrences-UniqueKeys total states ((key, tally) ∷ rest) u =
      split_occurrences-UniqueKeys total (place_all total key states tally) rest
        (place_all-UniqueKeys total key states tally u)

pub separate-UniqueKeys :
    {K Ident : Type 0} ⦃k : Eq K⦄ ⦃i : Eq Ident⦄ (sets : List (List (K × Ident)))
    → UniqueKeys (separate sets).0
unfolding separate
separate-UniqueKeys sets =
    split_occurrences-UniqueKeys (set_count 0 sets) ([], []) (count_sets [] sets) tt
