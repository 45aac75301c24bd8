-- ===== src/StateRes/Resolve/Separate/Agree.antt =====
-- `separate`: the unconflicted state is what all state sets agree on.
use arcana_server.Common.{
  ℕ, ◌≤◌, ◌<◌, ◌≡◌, ◌↔◌, sym, ◌∙◌, true, some, List, [], ◌∷◌, length, lookup, Eq, ◌==◌, arith,
  UniqueKeys, insert-UniqueKeys, UniqueKeys-lookup, Entries, Entries-imp, Entries-and,
  Entries-insert, is_some, Option-cases, option_eq_iff, Bool-cases, inl, inr, ap,
}
use arcana_server.StateRes.Resolve.Separate.{
  tally_of, count_pair, count_set, count_sets, set_count, separate,
}
use arcana_server.StateRes.Resolve.Separate.Counts.{
  Tally, saturating_inc, count_of, bump-UniqueKeys, max_usize,
}
use arcana_server.StateRes.Resolve.Separate.Placing.{
  split_occurrences-Holds, split_occurrences-full,
}
use arcana_server.StateRes.Resolve.Separate.Tallies.{
  count_at, holders, AllUnique, count_at-count_sets, set_count-length,
}

lookup-count_of :
    {Ident : Type 0} ⦃i : Eq Ident⦄ (id : Ident) (n : ℕ) (tally : Tally Ident)
    → lookup id tally ≡ some n
    → count_of id tally ≡ n
lookup-count_of id n [] h = cc
lookup-count_of id n ((j, m) ∷ rest) h = ground (arith, lookup-count_of id n rest)

module _ {K Ident : Type 0} ⦃k : Eq K⦄ ⦃i : Eq Ident⦄ where
  -- Every state set has the event ID at the key.
  abbrev pub AllHold : K → Ident → List (List (K × Ident)) → Type 0
  AllHold key id [] = Unit
  AllHold key id (set ∷ rest) = (lookup key set ≡ some id) × AllHold key id rest

  holders-le :
      (key : K) (id : Ident) (sets : List (List (K × Ident))) → holders key id sets ≤ length sets
  holders-le key id [] = omega arith
  holders-le key id (set ∷ rest) = ground (arith, holders-le key id rest)

  holders_all :
      (key : K) (id : Ident) (sets : List (List (K × Ident)))
      → (holders key id sets ≡ length sets) ↔ AllHold key id sets
  holders_all key id [] = ground arith
  holders_all key id (set ∷ rest) = ground (
    arith,
    holders_all key id rest,
    holders-le key id rest,
    option_eq_iff (lookup key set) (some id),
  )

  AllHold-unique :
      (key : K) (a b : Ident) (sets : List (List (K × Ident)))
      → 0 < length sets
      → AllHold key a sets
      → AllHold key b sets
      → a ≡ b
  AllHold-unique key a b [] pos h g = absurd (omega arith)
  AllHold-unique key a b (set ∷ rest) pos h g = ground arith

  -- the maps that the first loop builds have one entry for each key and for each event ID
  abbrev Tidy : List (K × Tally Ident) → Type 0
  Tidy occurrences = UniqueKeys occurrences × Entries (λ key tally. UniqueKeys tally) occurrences

  tally_of-UniqueKeys :
      (key : K) (occurrences : List (K × Tally Ident))
      → Entries (λ key tally. UniqueKeys tally) occurrences
      → UniqueKeys (tally_of (lookup key occurrences))
  tally_of-UniqueKeys key [] t = tt
  tally_of-UniqueKeys key ((j, tally) ∷ rest) t = elim (Bool-cases (j == key)) [
    | inl same ↦ rw same t.0
    | inr differs ↦ rw differs (tally_of-UniqueKeys key rest t.1)
  ]

  count_pair-Tidy :
      (occurrences : List (K × Tally Ident)) (pair : K × Ident)
      → Tidy occurrences
      → Tidy (count_pair occurrences pair)
  unfolding count_pair
  count_pair-Tidy occurrences (key, id) (u, t) = (
    insert-UniqueKeys key _ occurrences u,
    Entries-insert (λ key tally. UniqueKeys tally) key _ occurrences
        (bump-UniqueKeys saturating_inc id _ (tally_of-UniqueKeys key occurrences t)) t,
  )

  count_set-Tidy :
      (occurrences : List (K × Tally Ident)) (set : List (K × Ident))
      → Tidy occurrences
      → Tidy (count_set occurrences set)
  unfolding count_set
  count_set-Tidy occurrences [] t = t
  count_set-Tidy occurrences (pair ∷ rest) t =
      count_set-Tidy (count_pair occurrences pair) rest (count_pair-Tidy occurrences pair t)

  count_sets-Tidy :
      (occurrences : List (K × Tally Ident)) (sets : List (List (K × Ident)))
      → Tidy occurrences
      → Tidy (count_sets occurrences sets)
  unfolding count_sets
  count_sets-Tidy occurrences [] t = t
  count_sets-Tidy occurrences (set ∷ rest) t =
      count_sets-Tidy (count_set occurrences set) rest (count_set-Tidy occurrences set t)

  -- in a tidy map, what stands in an entry is the count of its key and its event ID
  Tidy-count_at :
      (occurrences : List (K × Tally Ident))
      → Tidy occurrences
      → Entries (λ key. Entries (λ id n. count_at key id occurrences ≡ n)) occurrences
  Tidy-count_at occurrences (u, t) =
      Entries-and (λ key tally. lookup key occurrences ≡ some tally) (λ key tally. UniqueKeys tally)
        _ occurrences
        (λ key tally l v.
          Entries-imp (λ id n. lookup id tally ≡ some n) _ tally
            (λ id n h. rw l (lookup-count_of id n tally h)) (UniqueKeys-lookup tally v))
        (UniqueKeys-lookup occurrences u) t

  module _ (sets : List (List (K × Ident))) (unique : AllUnique sets)
      (few : length sets ≤ max_usize) where
    total_count :
        (key : K) (id : Ident) → count_at key id (count_sets [] sets) ≡ holders key id sets
    total_count key id = count_at-count_sets key id sets [] unique (omega arith) ∙ omega arith

    separate_sound :
        (key : K) (id : Ident) → lookup key (separate sets).0 ≡ some id → AllHold key id sets
    unfolding separate
    separate_sound key id h =
        let occurrences = count_sets [] sets in
        let total = set_count 0 sets in
        let counted =
          split_occurrences-Holds (λ key id. count_at key id occurrences ≡ total) total ([], [])
            occurrences
            (Entries-imp _ _ occurrences (λ key tally. Entries-imp _ _ tally (λ id n c e. c ∙ e))
              (Tidy-count_at occurrences (count_sets-Tidy [] sets (tt, tt))))
            (λ key id l. cc) key id h in
        (holders_all key id sets).0
          (sym (total_count key id) ∙ counted ∙ set_count-length 0 sets (omega arith) ∙ omega arith)

    separate_full :
        (key : K) (id : Ident)
        → 0 < length sets
        → AllHold key id sets
        → is_some (lookup key (separate sets).0) ≡ true
    unfolding separate
    separate_full key id pos all =
        let size : set_count 0 sets ≡ length sets =
          set_count-length 0 sets (omega arith) ∙ omega arith in
        split_occurrences-full (set_count 0 sets) key id ([], []) (count_sets [] sets) (omega arith)
          (total_count key id ∙ (holders_all key id sets).1 all ∙ sym size)

    -- For at least one state set, fewer than 2^64, and sets with one event ID for each key: the
    -- unconflicted state has an event ID at a key exactly if every state set has it there.
    pub separate-agree :
        0 < length sets
        → (key : K) (id : Ident) → (lookup key (separate sets).0 ≡ some id) ↔ AllHold key id sets
    separate-agree pos key id = (
      separate_sound key id,
      λ all. elim (Option-cases (lookup key (separate sets).0)) [
        | inl n ↦ absurd (ground (arith, separate_full key id pos all))
        | inr (other, found) ↦
            found
            ∙ ap some (AllHold-unique key other id sets pos (separate_sound key other found) all)
      ],
    )
