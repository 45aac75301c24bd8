-- ===== src/StateRes/Resolve/Topological/Returns.antt =====
-- The fuel that the sort needs: the edges and the nodes of the graph.
use arcana_server.Common.{
  ℕ, ◌+◌, ◌≤◌, ◌≡◌, inl, inr, true, some, List, [], ◌∷◌, arith, In, length, lookup, insert,
  string_Eq, Entries, UniqueKeys, UniqueKeys-lookup, NoRepeat, keys, lookup-keys, is_some,
}
use arcana_server.StateRes.Content.{Ruma}
use arcana_server.StateRes.Event.{EventId}
use arcana_server.StateRes.Result.{ok, bind-eq-ok, Result-cases}
use arcana_server.StateRes.Resolve.Topological.{
  Graph, TieBreaker, KeyFn, add_edges, push_if_empty, scan, lexicographical_topological_sort,
}
use arcana_server.StateRes.Resolve.Topological.Parents.{edges_of, scan-heaped}
use arcana_server.StateRes.Resolve.Topological.Weight.{edge_count, ids_of, ids_of-mem}
use arcana_server.StateRes.Resolve.Topological.Visit.{Inv, push_if_empty-ids, kahn-returns}
use arcana_server.StateRes.Resolve.Topological.Turned.{Turned, insert-Turned, add_edges-Turned}

UniqueKeys-NoRepeat : (graph : Graph) → UniqueKeys graph → NoRepeat (keys graph)
UniqueKeys-NoRepeat [] u = tt
UniqueKeys-NoRepeat ((p, edges) ∷ rest) u = (lookup-keys p rest u.0, UniqueKeys-NoRepeat rest u.1)

-- What the scan leaves for the loop.
pub record Ready (graph reverse : Graph) (heap : List TieBreaker) (size : ℕ) : Type 0 where
  pub turns : Turned graph reverse
  pub once : NoRepeat (ids_of heap)
  pub short : length heap ≤ size

scan-Ready :
    (key_fn : KeyFn) (graph nodes reverse reverse' : Graph) (heap heap' : List TieBreaker)
    → scan key_fn nodes reverse heap ≡ ok (reverse', heap')
    → Entries (λ p edges. lookup p graph ≡ some edges) nodes
    → NoRepeat (keys nodes)
    → ((id : EventId) → In id (ids_of heap) → In id (keys nodes) → ⊥)
    → Turned graph reverse
    → NoRepeat (ids_of heap)
    → Ready graph reverse' heap' (length nodes + length heap)
unfolding scan
scan-Ready key_fn graph [] reverse reverse' heap heap' h all apart new t once =
    let same : reverse' ≡ reverse = ground arith in
    let same_heap : heap' ≡ heap = ground arith in
    rw (same, same_heap) (record { turns = t; once = once; short = omega arith })
scan-Ready key_fn graph ((p, edges) ∷ rest) reverse reverse' heap heap' h all apart new t once =
    let (next, n, h1) = bind-eq-ok (push_if_empty key_fn edges p heap) _ h in
    let pushed = push_if_empty-ids reverse key_fn edges p heap next n in
    let entered = insert-Turned graph reverse p (edges_of reverse p) t (t.apart p) (t.turned p) in
    let ready =
      scan-Ready key_fn graph rest (add_edges p edges (insert p (edges_of reverse p) reverse))
        reverse' next heap' h1 all.1 apart.1
        (λ id in_next in_rest. ground (arith, pushed, new id, apart.0))
        (add_edges-Turned graph (insert p (edges_of reverse p) reverse) p edges entered
          (λ e m. rw all.0 m))
        (ground (arith, pushed, new p)) in
    record { turns = ready.turns; once = ready.once; short = ground (arith, pushed, ready.short) }

-- After the scan of a graph, the loop has what it relies on.
pub scan-start :
    (key_fn : KeyFn) (graph reverse : Graph) (heap : List TieBreaker)
    → UniqueKeys graph
    → scan key_fn graph [] [] ≡ ok (reverse, heap)
    → Ready graph reverse heap (length graph) × Inv reverse [] graph heap
scan-start key_fn graph reverse heap u s =
    let entries = UniqueKeys-lookup graph u in
    let ready =
      scan-Ready key_fn graph graph [] reverse [] heap s entries (UniqueKeys-NoRepeat graph u)
        (λ id m k. m) (record { turned = λ n p m. absurd m; apart = λ n. tt }) tt in
    (
      record { turns = ready.turns; once = ready.once; short = omega (arith, ready.short) },
      record {
        cleared = λ s m. absurd m;
        heaped = λ id m.
            let (t, in_heap, e) = ids_of-mem id heap m in
            rw (← e) (
              scan-heaped graph key_fn graph [] reverse [] heap s entries (λ t m. absurd m) t
                in_heap);
        fresh = λ id m k. k;
        once = ready.once;
      },
    )

-- For a graph with one entry for each node: fuel for all its edges and nodes is enough, so that the
-- sort does not run out of fuel.
pub lexicographical_topological_sort-returns :
    (fuel : ℕ) (r : Ruma) (graph : Graph) (key_fn : KeyFn)
    → UniqueKeys graph
    → edge_count graph + length graph ≤ fuel
    → is_some (lexicographical_topological_sort fuel r graph key_fn) ≡ true
unfolding lexicographical_topological_sort
lexicographical_topological_sort-returns fuel r graph key_fn u enough =
    elim (Result-cases (scan key_fn graph [] [])) [
      | inr failed ↦ ground arith
      | inl ((reverse, heap), s) ↦
          let (ready, start) = scan-start key_fn graph reverse heap u s in
          let done =
            kahn-returns reverse r key_fn fuel graph heap [] ready.turns.apart start
              (λ n p m fresh. ready.turns.turned n p m) (omega (arith, ready.short, enough)) in
          ground (arith, done)
    ]
