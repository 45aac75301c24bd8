-- ===== src/StateRes/Resolve/Topological/Visit.antt =====
-- What the loop of the sort relies on, kept by the visit of a node's parents; and the fuel it needs.
use arcana_server.Common.{
  ℕ, zero, suc, ◌+◌, ◌≤◌, ◌<◌, ◌≡◌, ◌≢◌, ◌⊎◌, inl, inr, refl, true, some, List, [], ◌∷◌, ◌++◌,
  arith, In, In-append, length, lookup, insert, string_Eq, Option-cases, NoRepeat, is_some,
}
use arcana_server.StateRes.Content.{Ruma}
use arcana_server.StateRes.Event.{EventId}
use arcana_server.StateRes.Result.{ok, bind-eq-ok, Result-cases}
use arcana_server.StateRes.Resolve.Topological.{
  Graph, TieBreaker, KeyFn, pop_least, remove, push, push_if_empty, visit, kahn,
}
use arcana_server.StateRes.Resolve.Topological.Parents.{
  edges_of, In-remove, edges_of-insert, edges_of-inserted,
}
use arcana_server.StateRes.Resolve.Topological.Weight.{
  edge_count, ids_of, length-remove, edge_count-insert, length-pop_least, pop_least-ids,
  pop_least-NoRepeat,
}

-- The reverse graph is `reverse`, `seen` has been sorted or popped, and the parents `ps` of `node`
-- are to be visited.
module _ (reverse : Graph) where
  pub record Inv (seen : List EventId) (outdegree : Graph) (heap : List TieBreaker) : Type 0 where
    pub cleared : (s : EventId) → In s seen → edges_of outdegree s ≡ []
    pub heaped : (id : EventId) → In id (ids_of heap) → edges_of outdegree id ≡ []
    pub fresh : (id : EventId) → In id (ids_of heap) → In id seen → ⊥
    pub once : NoRepeat (ids_of heap)

  -- A node that has not been sorted is still among the edges of its parents.
  abbrev pub Waiting : List EventId → Graph → Type 0
  Waiting seen outdegree =
      (n p : EventId) → In p (edges_of reverse n) → (In n seen → ⊥) → In n (edges_of outdegree p)

  pub push_if_empty-ids :
      (key_fn : KeyFn) (left : List EventId) (p : EventId) (heap pushed : List TieBreaker)
      → push_if_empty key_fn left p heap ≡ ok pushed
      → (pushed ≡ heap)
        ⊎ ((left ≡ []) × (ids_of pushed ≡ p ∷ ids_of heap) × (length pushed ≡ suc (length heap)))
  unfolding push_if_empty push
  push_if_empty-ids key_fn (x ∷ left) p heap pushed h = ground arith
  push_if_empty-ids key_fn [] p heap pushed h =
      let (key, k, whole) = bind-eq-ok (key_fn p) _ h in
      let new : pushed
          ≡ record { power_level = key.0; origin_server_ts = key.1; event_id = p } ∷ heap =
        ground arith in
      rw new (ground arith)

  -- the edges of the other nodes stay
  pub edges-kept :
      (p s : EventId) (left : List EventId) (outdegree : Graph)
      → edges_of outdegree s ≡ []
      → (edges_of outdegree p ≡ [] → ⊥)
      → edges_of (insert p left outdegree) s ≡ []
  edges-kept p s left outdegree e ne = ground (arith, edges_of-insert p left outdegree s)

  pub not_empty : (n : EventId) (ids : List EventId) → In n ids → ids ≡ [] → ⊥
  not_empty n [] m e = m
  not_empty n (x ∷ ids) m e = ground arith

  pub visit_one-Inv :
      (key_fn : KeyFn) (seen : List EventId) (node p : EventId) (outdegree : Graph)
      (heap pushed : List TieBreaker)
      → push_if_empty key_fn (remove node (edges_of outdegree p)) p heap ≡ ok pushed
      → In node (edges_of outdegree p)
      → Inv seen outdegree heap
      → Inv seen (insert p (remove node (edges_of outdegree p)) outdegree) pushed
  visit_one-Inv key_fn seen node p outdegree heap pushed h m i =
      let left = remove node (edges_of outdegree p) in
      let full = not_empty node (edges_of outdegree p) m in
      let same : edges_of (insert p left outdegree) p ≡ left = edges_of-inserted p left outdegree in
      let clear = λ (s : EventId) (in_seen : In s seen).
        edges-kept p s left outdegree (i.cleared s in_seen) full in
      let heap_clear = λ (s : EventId) (in_heap : In s (ids_of heap)).
        edges-kept p s left outdegree (i.heaped s in_heap) full in
      elim (push_if_empty-ids key_fn left p heap pushed h) [
        | inl none_pushed ↦
            rw none_pushed
              (record { cleared = clear; heaped = heap_clear; fresh = i.fresh; once = i.once })
        | inr (empty, ids, size) ↦ record {
          cleared = clear;
          heaped = λ id in_pushed. ground (arith, heap_clear id);
          fresh = λ id in_pushed in_seen. ground (arith, i.fresh id, i.cleared id, full);
          once = ground (arith, i.heaped p, full);
        }
      ]

  -- the weight that a round of the loop lowers
  abbrev pub weight : Graph → List TieBreaker → ℕ
  weight outdegree heap = edge_count outdegree + length heap

  pub lookup-edges_of :
      (n p : EventId) (graph : Graph)
      → In n (edges_of graph p)
      → lookup p graph ≡ some (edges_of graph p)
  lookup-edges_of n p graph m = elim (Option-cases (lookup p graph)) [
    | inl none_found ↦ absurd (rw none_found at m)
    | inr (edges, found) ↦ rw found refl
  ]

  pub visit_one-weight :
      (key_fn : KeyFn) (node p : EventId) (outdegree : Graph) (heap pushed : List TieBreaker)
      → push_if_empty key_fn (remove node (edges_of outdegree p)) p heap ≡ ok pushed
      → In node (edges_of outdegree p)
      → weight (insert p (remove node (edges_of outdegree p)) outdegree) pushed
        ≤ weight outdegree heap
  visit_one-weight key_fn node p outdegree heap pushed h m =
      let out = edges_of outdegree p in
      let count =
        edge_count-insert p (remove node out) out outdegree (lookup-edges_of node p outdegree m) in
      let less : length (remove node out) < length out = (length-remove node out).1 m in
      ground (arith, push_if_empty-ids key_fn (remove node out) p heap pushed h)

  -- The visit keeps what the loop relies on, and does not raise the weight.
  pub record Visited (seen : List EventId) (outdegree : Graph) (heap : List TieBreaker)
      (final : Graph) (pushed : List TieBreaker) : Type 0 where
    pub keeps : Inv seen final pushed
    pub waits : Waiting seen final
    pub light : weight final pushed ≤ weight outdegree heap

  pub visit_one-Waiting :
      (seen : List EventId) (node p : EventId) (outdegree : Graph)
      → In node seen
      → Waiting seen outdegree
      → Waiting seen (insert p (remove node (edges_of outdegree p)) outdegree)
  visit_one-Waiting seen node p outdegree in_seen w n q m fresh =
      let left = remove node (edges_of outdegree p) in
      let before = w n q m fresh in
      elim (edges_of-insert p left outdegree q) [
        | inr (other, kept) ↦ rw kept before
        | inl (same, new) ↦ rw new (
            (In-remove node (edges_of outdegree p) n).1 (rw same before, λ e. fresh (rw e in_seen)))
      ]

  pub other_parent :
      (node p q : EventId) (left : List EventId) (outdegree : Graph)
      → In node (edges_of outdegree q)
      → p ≢ q
      → In node (edges_of (insert p left outdegree) q)
  other_parent node p q left outdegree m ne = elim (edges_of-insert p left outdegree q) [
    | inl (same, new) ↦ absurd (ne same)
    | inr (other, kept) ↦ rw kept m
  ]

  pub visit-cons-eq-ok :
      (key_fn : KeyFn) (node p : EventId) (ps out : List EventId) (outdegree final : Graph)
      (heap pushed : List TieBreaker)
      → visit key_fn node (p ∷ ps) outdegree heap ≡ ok (final, pushed)
      → lookup p outdegree ≡ some out
      → (next : List TieBreaker) × (push_if_empty key_fn (remove node out) p heap ≡ ok next)
        × (visit key_fn node ps (insert p (remove node out) outdegree) next ≡ ok (final, pushed))
  unfolding visit
  visit-cons-eq-ok key_fn node p ps out outdegree final heap pushed h l =
      bind-eq-ok (push_if_empty key_fn (remove node out) p heap) _ (rw l at h)

  pub visit-Visited :
      (key_fn : KeyFn) (seen : List EventId) (node : EventId) (ps : List EventId)
      (outdegree final : Graph) (heap pushed : List TieBreaker)
      → In node seen
      → visit key_fn node ps outdegree heap ≡ ok (final, pushed)
      → ((p : EventId) → In p ps → In node (edges_of outdegree p))
      → NoRepeat ps
      → Inv seen outdegree heap
      → Waiting seen outdegree
      → Visited seen outdegree heap final pushed
  unfolding visit
  visit-Visited key_fn seen node [] outdegree final heap pushed m h parents apart i w =
      let same : final ≡ outdegree = ground arith in
      let same_heap : pushed ≡ heap = ground arith in
      rw (same, same_heap) (record { keeps = i; waits = w; light = omega arith })
  visit-Visited key_fn seen node (p ∷ ps) outdegree final heap pushed m h parents apart i w =
      let at_p = parents p (inl refl) in
      let left = remove node (edges_of outdegree p) in
      let (next, n, rest) =
        visit-cons-eq-ok key_fn node p ps (edges_of outdegree p) outdegree final heap pushed h
          (lookup-edges_of node p outdegree at_p) in
      let others = λ (q : EventId) (in_ps : In q ps).
        other_parent node p q left outdegree (parents q (inr in_ps)) (λ e. apart.0 (rw e in_ps)) in
      let v =
        visit-Visited key_fn seen node ps (insert p left outdegree) final next pushed m rest others
          apart.1 (visit_one-Inv key_fn seen node p outdegree heap next n at_p i)
          (visit_one-Waiting seen node p outdegree m w) in
      let one = visit_one-weight key_fn node p outdegree heap next n at_p in
      record { keeps = v.keeps; waits = v.waits; light = omega (arith, v.light, one) }

  -- the least item moves from the heap to what has been sorted
  popped-Inv :
      (r : Ruma) (t : TieBreaker) (heap : List TieBreaker) (sorted : List EventId)
      (outdegree : Graph)
      → Inv sorted outdegree (t ∷ heap)
      → Inv (sorted ++ ((pop_least r t heap).0.event_id ∷ [])) outdegree (pop_least r t heap).1
  popped-Inv r t heap sorted outdegree i =
      let n = (pop_least r t heap).0.event_id in
      let at_n = λ (s : EventId). In-append s sorted (n ∷ []) in
      record {
        cleared = λ s m. elim ((at_n s).0 m) [
          | inl old ↦ i.cleared s old
          | inr (inl e) ↦ rw e (i.heaped n ((pop_least-ids r t heap n).0 (inl refl)))
          | inr (inr none_left) ↦ absurd none_left
        ];
        heaped = λ id m. i.heaped id ((pop_least-ids r t heap id).0 (inr m));
        fresh = λ id m in_seen. elim ((at_n id).0 in_seen) [
          | inl old ↦ i.fresh id ((pop_least-ids r t heap id).0 (inr m)) old
          | inr (inl e) ↦ (pop_least-NoRepeat r t heap i.once).0 (rw e at m)
          | inr (inr none_left) ↦ none_left
        ];
        once = (pop_least-NoRepeat r t heap i.once).1;
      }

  -- a parent of the popped node still has the node among its edges
  pub popped-Waiting :
      (r : Ruma) (t : TieBreaker) (heap : List TieBreaker) (sorted parents : List EventId)
      (outdegree : Graph)
      → lookup (pop_least r t heap).0.event_id reverse ≡ some parents
      → Inv sorted outdegree (t ∷ heap)
      → Waiting sorted outdegree
      → (p : EventId) → In p parents
      → In (pop_least r t heap).0.event_id (edges_of outdegree p)
  popped-Waiting r t heap sorted parents outdegree q i w p m =
      let n = (pop_least r t heap).0.event_id in
      let listed : edges_of reverse n ≡ parents = rw q refl in
      w n p (rw listed m) (i.fresh n ((pop_least-ids r t heap n).0 (inl refl)))

  -- one round of the loop
  pub popped-Visited :
      (r : Ruma) (key_fn : KeyFn) (t : TieBreaker) (heap heap' : List TieBreaker)
      (sorted parents : List EventId) (outdegree outdegree' : Graph)
      → ((n : EventId) → NoRepeat (edges_of reverse n))
      → lookup (pop_least r t heap).0.event_id reverse ≡ some parents
      → visit key_fn (pop_least r t heap).0.event_id parents outdegree (pop_least r t heap).1
        ≡ ok (outdegree', heap')
      → Inv sorted outdegree (t ∷ heap)
      → Waiting sorted outdegree
      → Visited
          (sorted ++ ((pop_least r t heap).0.event_id ∷ []))
          outdegree
          (pop_least r t heap).1
          outdegree'
          heap'
  popped-Visited r key_fn t heap heap' sorted parents outdegree outdegree' apart q v i w =
      let n = (pop_least r t heap).0.event_id in
      let listed : edges_of reverse n ≡ parents = rw q refl in
      let apart_n : NoRepeat (edges_of reverse n) = apart n in
      visit-Visited key_fn (sorted ++ (n ∷ [])) n parents outdegree outdegree'
        (pop_least r t heap).1 heap' ((In-append n sorted (n ∷ [])).1 (inr (inl refl))) v
        (popped-Waiting r t heap sorted parents outdegree q i w) (rw listed at apart_n)
        (popped-Inv r t heap sorted outdegree i)
        (λ m p in_p fresh. w m p in_p (λ s. fresh ((In-append m sorted (n ∷ [])).1 (inl s))))

  pub kahn-returns :
      (r : Ruma) (key_fn : KeyFn) (fuel : ℕ) (outdegree : Graph) (heap : List TieBreaker)
      (sorted : List EventId)
      → ((n : EventId) → NoRepeat (edges_of reverse n))
      → Inv sorted outdegree heap
      → Waiting sorted outdegree
      → weight outdegree heap ≤ fuel
      → is_some (kahn fuel r key_fn reverse outdegree heap sorted) ≡ true
  unfolding kahn
  kahn-returns r key_fn fuel outdegree [] sorted apart i w enough = refl
  kahn-returns r key_fn zero outdegree (t ∷ heap) sorted apart i w enough =
      absurd (omega (arith, enough))
  kahn-returns r key_fn (suc fuel) outdegree (t ∷ heap) sorted apart i w enough =
      let n = (pop_least r t heap).0.event_id in
      let others = (pop_least r t heap).1 in
      elim (Option-cases (lookup n reverse)) [
        | inl none_found ↦ ground arith
        | inr (parents, q) ↦ elim (Result-cases (visit key_fn n parents outdegree others)) [
          | inr failed ↦ ground arith
          | inl ((outdegree', heap'), v) ↦
              let visited =
                popped-Visited r key_fn t heap heap' sorted parents outdegree outdegree' apart q v i
                  w in
              let smaller : weight outdegree' heap' ≤ fuel =
                omega (arith, visited.light, length-pop_least r t heap, enough) in
              let rest =
                kahn-returns r key_fn fuel outdegree' heap' (sorted ++ (n ∷ [])) apart visited.keeps
                  visited.waits smaller in
              ground (arith, rest)
        ]
      ]
