-- ===== src/StateRes/Resolve/Separate/Tallies.antt =====
-- What the first loop of `separate` counts: in how many state sets an event ID stands at a key.
use arcana_server.Common.{
  ℕ, ◌+◌, ◌≤◌, ◌≡◌, refl, Bool, ◌&&◌, none, some, List, [], ◌∷◌, length, lookup, lookup-insert, Eq,
  ◌==◌, option_Eq, if◌then◌else◌, arith, UniqueKeys, Bool-cases, inl, inr, ◌∙◌,
}
use arcana_server.StateRes.Resolve.Separate.{tally_of, count_pair, count_set, count_sets, set_count}
use arcana_server.StateRes.Resolve.Separate.Counts.{
  Tally, saturating_inc, count_of, count_of-bump, max_usize,
}

module _ {K Ident : Type 0} ⦃k : Eq K⦄ ⦃i : Eq Ident⦄ where
  -- the count of an event ID at a key
  abbrev pub count_at : K → Ident → List (K × Tally Ident) → ℕ
  count_at key id occurrences = count_of id (tally_of (lookup key occurrences))

  -- the state set has the event ID at the key
  abbrev pub holds : K → Ident → List (K × Ident) → Bool
  holds key id set = lookup key set == some id

  -- how many of the state sets have it
  abbrev pub holders : K → Ident → List (List (K × Ident)) → ℕ
  holders key id [] = 0
  holders key id (set ∷ rest) = (if holds key id set then 1 else 0) + holders key id rest

  abbrev pub AllUnique : List (List (K × Ident)) → Type 0
  AllUnique [] = Unit
  AllUnique (set ∷ rest) = UniqueKeys set × AllUnique rest

  count_at-count_pair :
      (key : K) (id : Ident) (occurrences : List (K × Tally Ident)) (pkey : K) (pid : Ident)
      → count_at key id (count_pair occurrences (pkey, pid)) ≡ (
          if pkey == key && pid == id
          then saturating_inc (count_at key id occurrences)
          else count_at key id occurrences)
  unfolding count_pair
  count_at-count_pair key id occurrences pkey pid =
      rw lookup-insert (elim (Bool-cases (pkey == key)) [
        | inr differs ↦ rw differs
        | inl same ↦
            rw (same, (k.eq_iff pkey key).0 same)
              (count_of-bump saturating_inc pid id (tally_of (lookup key occurrences)) refl)
      ])

  count_at-count_set-none :
      (key : K) (id : Ident) (set : List (K × Ident)) (occurrences : List (K × Tally Ident))
      → lookup key set ≡ none
      → count_at key id (count_set occurrences set) ≡ count_at key id occurrences
  unfolding count_set
  count_at-count_set-none key id [] occurrences h = refl
  count_at-count_set-none key id ((pkey, pid) ∷ rest) occurrences h =
      elim (Bool-cases (pkey == key)) [
        | inl same ↦ absurd (ground arith)
        | inr differs ↦
            count_at-count_set-none key id rest (count_pair occurrences (pkey, pid)) (ground arith)
            ∙ count_at-count_pair key id occurrences pkey pid
            ∙ rw differs
      ]

  count_at-count_set :
      (key : K) (id : Ident) (set : List (K × Ident)) (occurrences : List (K × Tally Ident))
      → UniqueKeys set
      → count_at key id (count_set occurrences set) ≡ (
          if holds key id set
          then saturating_inc (count_at key id occurrences)
          else count_at key id occurrences)
  unfolding count_set
  count_at-count_set key id [] occurrences u = refl
  count_at-count_set key id ((pkey, pid) ∷ rest) occurrences u = elim (Bool-cases (pkey == key)) [
    | inl same ↦
        count_at-count_set-none key id rest (count_pair occurrences (pkey, pid))
          (rw (← (k.eq_iff pkey key).0 same) u.0)
        ∙ count_at-count_pair key id occurrences pkey pid
        ∙ rw (same)
    | inr differs ↦
        count_at-count_set key id rest (count_pair occurrences (pkey, pid)) u.1
        ∙ rw (count_at-count_pair key id occurrences pkey pid) (rw differs)
  ]

  pub count_at-count_sets :
      (key : K) (id : Ident) (sets : List (List (K × Ident))) (occurrences : List (K × Tally Ident))
      → AllUnique sets
      → count_at key id occurrences + length sets ≤ max_usize
      → count_at key id (count_sets occurrences sets)
        ≡ count_at key id occurrences + holders key id sets
  unfolding count_sets
  count_at-count_sets key id [] occurrences u h = omega arith
  count_at-count_sets key id (set ∷ rest) occurrences u h = ground (
    arith,
    count_at-count_set key id set occurrences u.0,
    count_at-count_sets key id rest (count_set occurrences set) u.1,
  )

  pub set_count-length :
      (n : ℕ) (sets : List (List (K × Ident)))
      → n + length sets ≤ max_usize
      → set_count n sets ≡ n + length sets
  set_count-length n [] h = omega arith
  set_count-length n (set ∷ rest) h = ground (arith, set_count-length (saturating_inc n) rest)
