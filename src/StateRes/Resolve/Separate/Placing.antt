-- ===== src/StateRes/Resolve/Separate/Placing.antt =====
-- What the second loop of `separate` puts into the unconflicted state.
use mathlib.Core.Path.{subst₂}
use arcana_server.Common.{
  ℕ, ◌<◌, ◌≡◌, true, some, List, [], ◌∷◌, lookup, lookup-insert, Eq, ◌==◌, arith, nat_eq,
  nat_eq_iff, Bool-cases, inl, inr, Entries, is_some, eq_refl,
}
use arcana_server.StateRes.Resolve.Separate.{tally_of, place, place_all, split_occurrences}
use arcana_server.StateRes.Resolve.Separate.Counts.{Tally, count_of}

abbrev pub Maps : Type 0 → Type 0 → Type 0
Maps K Ident = List (K × Ident) × List (K × List Ident)

module _ {K Ident : Type 0} ⦃k : Eq K⦄ where
  -- Whatever the unconflicted map holds is good.
  abbrev pub Holds : (K → Ident → Type 0) → Maps K Ident → Type 0
  Holds Good states = (key : K) (id : Ident) → lookup key states.0 ≡ some id → Good key id

  place-Holds :
      (Good : K → Ident → Type 0) (total : ℕ) (key : K) (states : Maps K Ident) (entry : Ident × ℕ)
      → (entry.1 ≡ total → Good key entry.0)
      → Holds Good states
      → Holds Good (place total key states entry)
  unfolding place
  place-Holds Good total key (unconflicted, conflicted) (id, n) good h j found l =
      elim (Bool-cases (nat_eq n total)) [
        | inr differs ↦ h j found (rw differs at l)
        | inl same ↦ elim (Bool-cases (key == j)) [
          | inl here ↦
              let value : id ≡ found = ground (arith, lookup-insert key j id unconflicted) in
              subst₂ Good ((k.eq_iff key j).0 here) value (good ((nat_eq_iff n total).0 same))
          | inr there ↦ h j found (ground (arith, lookup-insert key j id unconflicted))
        ]
      ]

  place_all-Holds :
      (Good : K → Ident → Type 0) (total : ℕ) (key : K) (states : Maps K Ident)
      (tally : Tally Ident)
      → Entries (λ id n. n ≡ total → Good key id) tally
      → Holds Good states
      → Holds Good (place_all total key states tally)
  unfolding place_all
  place_all-Holds Good total key states [] good h = h
  place_all-Holds Good total key states ((id, n) ∷ rest) good h =
      place_all-Holds Good total key (place total key states (id, n)) rest good.1
        (place-Holds Good total key states (id, n) good.0 h)

  pub split_occurrences-Holds :
      (Good : K → Ident → Type 0) (total : ℕ) (states : Maps K Ident)
      (occurrences : List (K × Tally Ident))
      → Entries (λ key. Entries (λ id n. n ≡ total → Good key id)) occurrences
      → Holds Good states
      → Holds Good (split_occurrences total states occurrences)
  unfolding split_occurrences
  split_occurrences-Holds Good total states [] good h = h
  split_occurrences-Holds Good total states ((key, tally) ∷ rest) good h =
      split_occurrences-Holds Good total (place_all total key states tally) rest good.1
        (place_all-Holds Good total key states tally good.0 h)

  -- A key that has a value keeps one.
  place-is_some :
      (total : ℕ) (j key : K) (states : Maps K Ident) (entry : Ident × ℕ)
      → is_some (lookup j states.0) ≡ true
      → is_some (lookup j (place total key states entry).0) ≡ true
  unfolding place
  place-is_some total j key (unconflicted, conflicted) (id, n) h =
      ground (arith, lookup-insert key j id unconflicted)

  place_all-is_some :
      (total : ℕ) (j key : K) (states : Maps K Ident) (tally : Tally Ident)
      → is_some (lookup j states.0) ≡ true
      → is_some (lookup j (place_all total key states tally).0) ≡ true
  unfolding place_all
  place_all-is_some total j key states [] h = h
  place_all-is_some total j key states (entry ∷ rest) h =
      place_all-is_some total j key (place total key states entry) rest
        (place-is_some total j key states entry h)

  split_occurrences-is_some :
      (total : ℕ) (j : K) (states : Maps K Ident) (occurrences : List (K × Tally Ident))
      → is_some (lookup j states.0) ≡ true
      → is_some (lookup j (split_occurrences total states occurrences).0) ≡ true
  unfolding split_occurrences
  split_occurrences-is_some total j states [] h = h
  split_occurrences-is_some total j states ((key, tally) ∷ rest) h =
      split_occurrences-is_some total j (place_all total key states tally) rest
        (place_all-is_some total j key states tally h)

module _ {K Ident : Type 0} ⦃k : Eq K⦄ ⦃i : Eq Ident⦄ where
  -- An event ID that is counted in every state set gives its key a value.
  place_all-full :
      (total : ℕ) (key : K) (id : Ident) (states : Maps K Ident) (tally : Tally Ident)
      → 0 < total
      → count_of id tally ≡ total
      → is_some (lookup key (place_all total key states tally).0) ≡ true
  unfolding place_all
  place_all-full total key id states [] pos h = absurd (omega arith)
  place_all-full total key id states ((other, n) ∷ rest) pos h = elim (Bool-cases (other == id)) [
    | inl same ↦
        place_all-is_some total key key (place total key states (other, n)) rest
          (ground (arith, lookup-insert key key other states.0, eq_refl key))
    | inr differs ↦
        place_all-full total key id (place total key states (other, n)) rest pos (rw differs at h)
  ]

  pub split_occurrences-full :
      (total : ℕ) (key : K) (id : Ident) (states : Maps K Ident)
      (occurrences : List (K × Tally Ident))
      → 0 < total
      → count_of id (tally_of (lookup key occurrences)) ≡ total
      → is_some (lookup key (split_occurrences total states occurrences).0) ≡ true
  unfolding split_occurrences
  split_occurrences-full total key id states [] pos h = absurd (omega arith)
  split_occurrences-full total key id states ((j, tally) ∷ rest) pos h =
      elim (Bool-cases (j == key)) [
        | inl same ↦ split_occurrences-is_some total key (place_all total j states tally) rest (
            rw ((k.eq_iff j key).0 same)
              (place_all-full total key id states tally pos (rw same at h)))
        | inr differs ↦
            split_occurrences-full total key id (place_all total j states tally) rest pos
              (rw differs at h)
      ]
