-- ===== src/StateRes/Resolve/Separate/Chains.antt =====
-- `get_auth_chain_diff`: the event IDs of some auth chains but not of all.
use arcana_server.Common.{
  ℕ, ◌+◌, ◌≤◌, ◌<◌, ◌≡◌, ◌↔◌, refl, true, false, not, ◌||◌, none, List, [], ◌∷◌, length, lookup, Eq,
  ◌==◌, if◌then◌else◌, arith, UniqueKeys, is_some, In, contains, any,
}
use arcana_server.StateRes.Resolve.Separate.{
  count_ids, count_chains, below_count, get_auth_chain_diff,
}
use arcana_server.StateRes.Resolve.Separate.Counts.{
  Tally, bump, wrapping_inc, count_of, count_of-bump, bump-UniqueKeys, max_usize,
}

module _ {Ident : Type 0} ⦃i : Eq Ident⦄ where
  -- a set, as a list that names nothing twice
  abbrev pub Distinct : List Ident → Type 0
  Distinct [] = Unit
  Distinct (x ∷ xs) = (contains xs x ≡ false) × Distinct xs

  abbrev pub AllDistinct : List (List Ident) → Type 0
  AllDistinct [] = Unit
  AllDistinct (chain ∷ rest) = Distinct chain × AllDistinct rest

  -- how many chains have the event ID
  abbrev having : Ident → List (List Ident) → ℕ
  having id [] = 0
  having id (chain ∷ rest) = (if contains chain id then 1 else 0) + having id rest

  count_of-count_ids :
      (id : Ident) (chain : List Ident) (tally : Tally Ident)
      → Distinct chain
      → count_of id (count_ids tally chain)
        ≡ (if contains chain id then wrapping_inc (count_of id tally) else count_of id tally)
  unfolding count_ids
  count_of-count_ids id [] tally d = refl
  count_of-count_ids id (x ∷ xs) tally d = ground (
    arith,
    i.eq_iff x id,
    count_of-bump wrapping_inc x id tally,
    count_of-count_ids id xs (bump wrapping_inc x tally) d.1,
  )

  count_of-count_chains :
      (id : Ident) (chains : List (List Ident)) (tally : Tally Ident)
      → AllDistinct chains
      → count_of id tally + length chains ≤ max_usize
      → count_of id (count_chains tally chains) ≡ count_of id tally + having id chains
  unfolding count_chains
  count_of-count_chains id [] tally d h = omega arith
  count_of-count_chains id (chain ∷ rest) tally d h = ground (
    arith,
    count_of-count_ids id chain tally d.0,
    count_of-count_chains id rest (count_ids tally chain) d.1,
  )

  is_some-bump :
      (id j : Ident) (tally : Tally Ident)
      → is_some (lookup j (bump wrapping_inc id tally)) ≡ (id == j || is_some (lookup j tally))
  unfolding bump
  is_some-bump id j [] = ground arith
  is_some-bump id j ((other, n) ∷ rest) =
      ground (arith, i.eq_iff other id, i.eq_iff other j, i.eq_iff id j, is_some-bump id j rest)

  is_some-count_ids :
      (id : Ident) (chain : List Ident) (tally : Tally Ident)
      → is_some (lookup id (count_ids tally chain))
        ≡ (contains chain id || is_some (lookup id tally))
  unfolding count_ids
  is_some-count_ids id [] tally = refl
  is_some-count_ids id (x ∷ xs) tally =
      ground (arith, is_some-count_ids id xs (bump wrapping_inc x tally), is_some-bump x id tally)

  is_some-count_chains :
      (id : Ident) (chains : List (List Ident)) (tally : Tally Ident)
      → is_some (lookup id (count_chains tally chains))
        ≡ (any (λ chain. contains chain id) chains || is_some (lookup id tally))
  unfolding count_chains
  is_some-count_chains id [] tally = refl
  is_some-count_chains id (chain ∷ rest) tally = ground (
    arith,
    is_some-count_chains id rest (count_ids tally chain),
    is_some-count_ids id chain tally,
  )

  count_ids-UniqueKeys :
      (chain : List Ident) (tally : Tally Ident)
      → UniqueKeys tally
      → UniqueKeys (count_ids tally chain)
  unfolding count_ids
  count_ids-UniqueKeys [] tally u = u
  count_ids-UniqueKeys (x ∷ xs) tally u =
      count_ids-UniqueKeys xs (bump wrapping_inc x tally) (bump-UniqueKeys wrapping_inc x tally u)

  count_chains-UniqueKeys :
      (chains : List (List Ident)) (tally : Tally Ident)
      → UniqueKeys tally
      → UniqueKeys (count_chains tally chains)
  unfolding count_chains
  count_chains-UniqueKeys [] tally u = u
  count_chains-UniqueKeys (chain ∷ rest) tally u =
      count_chains-UniqueKeys rest (count_ids tally chain) (count_ids-UniqueKeys chain tally u)

  -- a listed ID is one of the map
  below_count-absent :
      (total : ℕ) (id : Ident) (tally : Tally Ident)
      → lookup id tally ≡ none
      → In id (below_count total tally)
      → ⊥
  unfolding below_count
  below_count-absent total id [] h m = m
  below_count-absent total id ((other, n) ∷ rest) h m =
      ground (arith, i.eq_iff other id, below_count-absent total id rest)

  below_count_iff :
      (total : ℕ) (id : Ident) (tally : Tally Ident)
      → UniqueKeys tally
      → In id (below_count total tally)
        ↔ ((is_some (lookup id tally) ≡ true) × (count_of id tally < total))
  unfolding below_count
  below_count_iff total id [] u = ground arith
  below_count_iff total id ((other, n) ∷ rest) u = ground (
    arith,
    i.eq_iff other id,
    below_count_iff total id rest u.1,
    below_count-absent total id rest,
  )

  having_lacking :
      (id : Ident) (chains : List (List Ident))
      → ((having id chains < length chains)
          ↔ (any (λ chain. not (contains chain id)) chains ≡ true))
        × (having id chains ≤ length chains)
  having_lacking id [] = ground arith
  having_lacking id (chain ∷ rest) = ground (arith, having_lacking id rest)

  -- For fewer than 2^64 auth chains, each a set: the difference lists exactly the event IDs that some
  -- chain has and some chain lacks.
  pub get_auth_chain_diff_iff :
      (chains : List (List Ident)) (id : Ident)
      → AllDistinct chains
      → length chains ≤ max_usize
      → In id (get_auth_chain_diff chains) ↔ (
          (any (λ chain. contains chain id) chains ≡ true)
          × (any (λ chain. not (contains chain id)) chains ≡ true))
  unfolding get_auth_chain_diff
  get_auth_chain_diff_iff chains id d few = ground (
    arith,
    below_count_iff (length chains) id (count_chains [] chains)
        (count_chains-UniqueKeys chains [] tt),
    is_some-count_chains id chains [],
    count_of-count_chains id chains [] d,
    having_lacking id chains,
  )
