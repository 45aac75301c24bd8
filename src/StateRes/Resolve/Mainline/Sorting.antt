-- ===== src/StateRes/Resolve/Mainline/Sorting.antt =====
-- `sort_by_key` of `mainline_sort`: the result ascends and has the same entries.
use Prim.Native.Nat.{Ordering}
use arcana_server.Common.{
  ◌≡◌, ◌⊎◌, ◌↔◌, inl, inr, true, false, List, [], ◌∷◌, arith, In, keys, Entries, NoRepeat,
  Bool-cases, then_cmp,
}
use arcana_server.StateRes.Content.{Ruma}
use arcana_server.StateRes.Event.{EventId}
use arcana_server.StateRes.Resolve.Mainline.{SortKey, cmp_key, is_gt, insert_by_key, sort_by_key}

-- The order of event IDs is asymmetric.
abbrev pub Asymmetric : Ruma → Type 0
Asymmetric r = (a b : EventId) → is_gt (r.cmp_event a b) ≡ true → is_gt (r.cmp_event b a) ≡ false

-- No entry stands before one with a smaller key that follows it.
abbrev pub Ascending : Ruma → List (EventId × SortKey) → Type 0
Ascending r [] = Unit
Ascending r (a ∷ []) = Unit
Ascending r (a ∷ b ∷ rest) = (is_gt (cmp_key r a.1 b.1) ≡ false) × Ascending r (b ∷ rest)

then_cmp-asymmetric :
    (a b c d : Ordering)
    → (is_gt a ≡ true → b ≡ Ordering.lt)
    → (a ≡ Ordering.eq → b ≡ Ordering.eq)
    → (is_gt c ≡ true → is_gt d ≡ false)
    → is_gt (then_cmp a c) ≡ true
    → is_gt (then_cmp b d) ≡ false
then_cmp-asymmetric a b c d g e f h = ground arith

module _ (r : Ruma) (asymmetric : Asymmetric r) where
  cmp_key-asymmetric :
      (a b : SortKey) → is_gt (cmp_key r a b) ≡ true → is_gt (cmp_key r b a) ≡ false
  cmp_key-asymmetric (d, t, i) (d', t', i') h = ground (arith, asymmetric i i')

  insert_by_key-Ascending :
      (entry : EventId × SortKey) (entries : List (EventId × SortKey))
      → Ascending r entries
      → Ascending r (insert_by_key r entry entries)
  unfolding insert_by_key
  insert_by_key-Ascending entry [] s = tt
  insert_by_key-Ascending entry (a ∷ []) s = ground (arith, cmp_key-asymmetric entry.1 a.1)
  insert_by_key-Ascending entry (a ∷ b ∷ rest) s =
      ground (arith, cmp_key-asymmetric entry.1 a.1, insert_by_key-Ascending entry (b ∷ rest))

  pub sort_by_key-Ascending :
      (entries : List (EventId × SortKey)) → Ascending r (sort_by_key r entries)
  unfolding sort_by_key
  sort_by_key-Ascending [] = tt
  sort_by_key-Ascending (entry ∷ rest) =
      insert_by_key-Ascending entry (sort_by_key r rest) (sort_by_key-Ascending rest)

module _ (r : Ruma) where
  keys-insert_by_key :
      (id : EventId) (entry : EventId × SortKey) (entries : List (EventId × SortKey))
      → In id (keys (insert_by_key r entry entries)) ↔ ((id ≡ entry.0) ⊎ In id (keys entries))
  unfolding insert_by_key
  keys-insert_by_key id entry [] = ground arith
  keys-insert_by_key id entry (a ∷ rest) = ground (arith, keys-insert_by_key id entry rest)

  pub keys-sort_by_key :
      (id : EventId) (entries : List (EventId × SortKey))
      → In id (keys (sort_by_key r entries)) ↔ In id (keys entries)
  unfolding sort_by_key
  keys-sort_by_key id [] = ground arith
  keys-sort_by_key id (entry ∷ rest) =
      ground (arith, keys-insert_by_key id entry (sort_by_key r rest), keys-sort_by_key id rest)

  insert_by_key-NoRepeat :
      (entry : EventId × SortKey) (entries : List (EventId × SortKey))
      → (In entry.0 (keys entries) → ⊥)
      → NoRepeat (keys entries)
      → NoRepeat (keys (insert_by_key r entry entries))
  unfolding insert_by_key
  insert_by_key-NoRepeat entry [] absent n = ground arith
  insert_by_key-NoRepeat entry (a ∷ rest) absent n =
      ground (arith, keys-insert_by_key a.0 entry rest, insert_by_key-NoRepeat entry rest)

  pub sort_by_key-NoRepeat :
      (entries : List (EventId × SortKey))
      → NoRepeat (keys entries)
      → NoRepeat (keys (sort_by_key r entries))
  unfolding sort_by_key
  sort_by_key-NoRepeat [] n = tt
  sort_by_key-NoRepeat (entry ∷ rest) n =
      insert_by_key-NoRepeat entry (sort_by_key r rest)
        (λ m. n.0 ((keys-sort_by_key entry.0 rest).0 m)) (sort_by_key-NoRepeat rest n.1)

  Entries-insert_by_key :
      (P : EventId → SortKey → Type 0) (entry : EventId × SortKey)
      (entries : List (EventId × SortKey))
      → P entry.0 entry.1
      → Entries P entries
      → Entries P (insert_by_key r entry entries)
  unfolding insert_by_key
  Entries-insert_by_key P entry [] p h = (p, tt)
  Entries-insert_by_key P entry (a ∷ rest) p h = elim (Bool-cases (is_gt (cmp_key r entry.1 a.1))) [
    | inl after ↦ rw after (h.0, Entries-insert_by_key P entry rest p h.1)
    | inr here ↦ rw here (p, h)
  ]

  pub Entries-sort_by_key :
      (P : EventId → SortKey → Type 0) (entries : List (EventId × SortKey))
      → Entries P entries
      → Entries P (sort_by_key r entries)
  unfolding sort_by_key
  Entries-sort_by_key P [] h = tt
  Entries-sort_by_key P (entry ∷ rest) h =
      Entries-insert_by_key P entry (sort_by_key r rest) h.0 (Entries-sort_by_key P rest h.1)
