-- ===== src/StateRes/Resolve/Topological/Keyed.antt =====
-- Each event that the sort returns has a key: `key_fn` was called for it and returned.
use arcana_server.Common.{
  ℕ, zero, suc, ◌≡◌, inl, inr, some, List, [], ◌∷◌, ◌++◌, arith, In, In-append, lookup, string_Eq,
  Option-cases,
}
use arcana_server.Common.Int.{ℤ}
use arcana_server.StateRes.Content.{Ruma}
use arcana_server.StateRes.Event.{EventId}
use arcana_server.StateRes.Result.{ok, bind-eq-ok, unwrap, Result-cases}
use arcana_server.StateRes.Resolve.Topological.{
  Graph, TieBreaker, KeyFn, pop_least, remove, push, push_if_empty, scan, visit, kahn,
  lexicographical_topological_sort,
}
use arcana_server.StateRes.Resolve.Topological.Weight.{ids_of, pop_least-ids}

module _ (key_fn : KeyFn) where
  abbrev Keyed : List EventId → Type 0
  Keyed ids = (p : EventId) → In p ids → (k : ℤ × ℕ) × (key_fn p ≡ ok k)

  push_if_empty-Keyed :
      (left : List EventId) (p : EventId) (heap pushed : List TieBreaker)
      → push_if_empty key_fn left p heap ≡ ok pushed
      → Keyed (ids_of heap)
      → Keyed (ids_of pushed)
  unfolding push_if_empty push
  push_if_empty-Keyed (x ∷ left) p heap pushed h k q m = k q (ground arith)
  push_if_empty-Keyed [] p heap pushed h k q m =
      let (key, known, whole) = bind-eq-ok (key_fn p) _ h in
      let new : pushed
          ≡ record { power_level = key.0; origin_server_ts = key.1; event_id = p } ∷ heap =
        ground arith in
      elim (rw new at m) [ inl e ↦ rw e (key, known) | inr old ↦ k q old ]

  scan-Keyed :
      (nodes reverse reverse' : Graph) (heap heap' : List TieBreaker)
      → scan key_fn nodes reverse heap ≡ ok (reverse', heap')
      → Keyed (ids_of heap)
      → Keyed (ids_of heap')
  unfolding scan
  scan-Keyed [] reverse reverse' heap heap' h k =
      let same : heap' ≡ heap = ground arith in rw same k
  scan-Keyed ((p, edges) ∷ rest) reverse reverse' heap heap' h k =
      let (next, pushed, h1) = bind-eq-ok (push_if_empty key_fn edges p heap) _ h in
      scan-Keyed rest _ reverse' next heap' h1 (push_if_empty-Keyed edges p heap next pushed k)

  visit-Keyed :
      (node : EventId) (ps : List EventId) (outdegree final : Graph) (heap heap' : List TieBreaker)
      → visit key_fn node ps outdegree heap ≡ ok (final, heap')
      → Keyed (ids_of heap)
      → Keyed (ids_of heap')
  unfolding visit
  visit-Keyed node [] outdegree final heap heap' h k =
      let same : heap' ≡ heap = ground arith in rw same k
  visit-Keyed node (p ∷ ps) outdegree final heap heap' h k =
      let (out, l, h1) = bind-eq-ok (unwrap (lookup p outdegree)) _ h in
      let (next, pushed, h2) = bind-eq-ok (push_if_empty key_fn (remove node out) p heap) _ h1 in
      visit-Keyed node ps _ final next heap' h2
        (push_if_empty-Keyed (remove node out) p heap next pushed k)

  kahn-Keyed :
      (r : Ruma) (reverse : Graph) (fuel : ℕ) (outdegree : Graph) (heap : List TieBreaker)
      (sorted final : List EventId)
      → kahn fuel r key_fn reverse outdegree heap sorted ≡ some (ok final)
      → Keyed (ids_of heap)
      → Keyed sorted
      → Keyed final
  unfolding kahn
  kahn-Keyed r reverse fuel outdegree [] sorted final h heaped k =
      let same : final ≡ sorted = ground arith in rw same k
  kahn-Keyed r reverse zero outdegree (t ∷ heap) sorted final h heaped k = absurd (ground arith)
  kahn-Keyed r reverse (suc fuel) outdegree (t ∷ heap) sorted final h heaped k =
      let n = (pop_least r t heap).0.event_id in
      let others = (pop_least r t heap).1 in
      elim (Option-cases (lookup n reverse)) [
        | inl none_found ↦ absurd (ground arith)
        | inr (parents, q) ↦ elim (Result-cases (visit key_fn n parents outdegree others)) [
          | inr failed ↦ absurd (ground arith)
          | inl ((outdegree', heap'), v) ↦
              kahn-Keyed r reverse fuel outdegree' heap' (sorted ++ (n ∷ [])) final (ground arith)
                (visit-Keyed n parents outdegree outdegree' others heap' v
                  (λ p m. heaped p ((pop_least-ids r t heap p).0 (inr m))))
                (λ p m. elim ((In-append p sorted (n ∷ [])).0 m) [
                  | inl old ↦ k p old
                  | inr (inl e) ↦ heaped p ((pop_least-ids r t heap p).0 (inl e))
                  | inr (inr nothing) ↦ absurd nothing
                ])
        ]
      ]

-- Each event of the list that the sort returns has a key.
pub lexicographical_topological_sort-Keyed :
    (fuel : ℕ) (r : Ruma) (graph : Graph) (key_fn : KeyFn) (sorted : List EventId)
    → lexicographical_topological_sort fuel r graph key_fn ≡ some (ok sorted)
    → (p : EventId) → In p sorted
    → (k : ℤ × ℕ) × (key_fn p ≡ ok k)
unfolding lexicographical_topological_sort
lexicographical_topological_sort-Keyed fuel r graph key_fn sorted h =
    elim (Result-cases (scan key_fn graph [] [])) [
      | inr failed ↦ absurd (ground arith)
      | inl ((reverse, heap), s) ↦
          kahn-Keyed key_fn r reverse fuel graph heap [] sorted (ground arith)
            (scan-Keyed key_fn graph [] reverse [] heap s (λ p m. absurd m)) (λ p m. absurd m)
    ]
