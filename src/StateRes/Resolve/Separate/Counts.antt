-- ===== src/StateRes/Resolve/Separate/Counts.antt =====
-- Counters of a hash map: `*counts.entry(id).or_default() += 1` and its saturating form. The counts
-- are `usize`, on 64 bits.
use arcana_server.Common.{
  ℕ, ◌+◌, ◌-◌, ◌^◌, ◌%◌, ◌≡◌, none, List, [], ◌∷◌, Eq, ◌==◌, if◌then◌else◌, arith, ltb, lookup,
  UniqueKeys, false,
}

abbrev pub max_usize : ℕ
max_usize = 2 ^ 64 - 1

-- `x.saturating_add(1)`
abbrev pub saturating_inc : ℕ → ℕ
saturating_inc n = if ltb n max_usize then n + 1 else n

-- `x += 1` where overflow wraps
abbrev pub wrapping_inc : ℕ → ℕ
wrapping_inc n = (n + 1) % 2 ^ 64

abbrev pub Tally : Type 0 → Type 0
Tally Ident = List (Ident × ℕ)

module _ {Ident : Type 0} ⦃e : Eq Ident⦄ where
  unfoldable pub bump : (ℕ → ℕ) → Ident → Tally Ident → Tally Ident
  bump inc id [] = (id, 1) ∷ []
  bump inc id ((other, n) ∷ rest) =
      if other == id then (other, inc n) ∷ rest else (other, n) ∷ bump inc id rest

  -- how often an ID was counted
  abbrev pub count_of : Ident → Tally Ident → ℕ
  count_of id [] = 0
  count_of id ((other, n) ∷ rest) = if other == id then n else count_of id rest

  pub count_of-bump :
      (inc : ℕ → ℕ) (id j : Ident) (tally : Tally Ident)
      → inc 0 ≡ 1
      → count_of j (bump inc id tally)
        ≡ (if id == j then inc (count_of j tally) else count_of j tally)
  unfolding bump
  count_of-bump inc id j [] one = ground arith
  count_of-bump inc id j ((other, n) ∷ rest) one =
      ground
        (arith, e.eq_iff other id, e.eq_iff other j, e.eq_iff id j, count_of-bump inc id j rest)

  lookup-bump-none :
      (inc : ℕ → ℕ) (id j : Ident) (tally : Tally Ident)
      → lookup j tally ≡ none
      → (id == j) ≡ false
      → lookup j (bump inc id tally) ≡ none
  unfolding bump
  lookup-bump-none inc id j [] h d = ground arith
  lookup-bump-none inc id j ((other, n) ∷ rest) h d = ground (arith, lookup-bump-none inc id j rest)

  pub bump-UniqueKeys :
      (inc : ℕ → ℕ) (id : Ident) (tally : Tally Ident)
      → UniqueKeys tally
      → UniqueKeys (bump inc id tally)
  unfolding bump
  bump-UniqueKeys inc id [] h = ground arith
  bump-UniqueKeys inc id ((other, n) ∷ rest) h = ground (
    arith,
    e.eq_iff other id,
    e.eq_iff id other,
    lookup-bump-none inc id other rest,
    bump-UniqueKeys inc id rest,
  )
