-- ===== src/StateRes/Resolve/Topological/Complete.antt =====
-- Which nodes the sort returns: a node is missing only where one of its edges leads to a missing one.
use arcana_server.Common.{
  ℕ, zero, suc, ◌<◌, ◌≡◌, ◌⊎◌, inl, inr, refl, sym, true, some, List, [], ◌∷◌, ◌++◌, arith, In,
  In-append, lookup, insert, string_Eq, Option-cases, is_some, ◌∙◌,
}
use arcana_server.StateRes.Content.{Ruma}
use arcana_server.StateRes.Event.{EventId}
use arcana_server.StateRes.Result.{ok, bind-eq-ok, unwrap, Result-cases}
use arcana_server.StateRes.Resolve.Topological.{
  Graph, TieBreaker, KeyFn, pop_least, remove, push_if_empty, scan, visit, kahn,
  lexicographical_topological_sort,
}
use arcana_server.StateRes.Resolve.Topological.Parents.{
  edges_of, In-remove, edges_of-insert, unwrap-eq-ok,
}
use arcana_server.StateRes.Resolve.Topological.Weight.{ids_of, pop_least-ids}
use arcana_server.StateRes.Resolve.Topological.Visit.{visit-cons-eq-ok}
use arcana_server.StateRes.Resolve.Topological.Entered.{push_if_empty-mem, scan-Entered}

module _ (graph reverse : Graph) where
  -- `ps` are the parents that `node` is still to be removed from.
  record Full (seen : List EventId) (node : EventId) (ps : List EventId) (outdegree : Graph)
      (heap : List TieBreaker) : Type 0 where
    emptied :
        (p : EventId)
        → is_some (lookup p graph) ≡ true
        → edges_of outdegree p ≡ []
        → In p seen ⊎ In p (ids_of heap)
    gone :
        (p e : EventId)
        → In e (edges_of outdegree p)
        → In e (edges_of graph p) × (In e seen → (e ≡ node) × In p ps)

  visit_one-Full :
      (key_fn : KeyFn) (seen : List EventId) (node p : EventId) (ps out : List EventId)
      (outdegree : Graph) (heap next : List TieBreaker)
      → lookup p outdegree ≡ some out
      → push_if_empty key_fn (remove node out) p heap ≡ ok next
      → Full seen node (p ∷ ps) outdegree heap
      → Full seen node ps (insert p (remove node out) outdegree) next
  visit_one-Full key_fn seen node p ps out outdegree heap next l n f = record {
    emptied = λ q known empty. elim (edges_of-insert p (remove node out) outdegree q) [
      | inl (same, new) ↦ inr (
          push_if_empty-mem key_fn (remove node out) p heap next q n
            (inl (sym new ∙ empty, sym same)))
      | inr (other, kept) ↦ elim (f.emptied q known (sym kept ∙ empty)) [
        | inl s ↦ inl s
        | inr m ↦ inr (push_if_empty-mem key_fn (remove node out) p heap next q n (inr m))
      ]
    ];
    gone = λ q e m. elim (edges_of-insert p (remove node out) outdegree q) [
      | inl (same, new) ↦
          let (in_out, ne) = (In-remove node out e).0 (rw new at m) in
          let there : edges_of outdegree p ≡ out = rw l refl in
          let (g, k) = f.gone p e (rw there in_out) in (rw (← same) g, λ s. absurd (ne (k s).0))
      | inr (other, kept) ↦ let (g, k) = f.gone q e (rw kept at m) in (g, λ s. ground (arith, k s))
    ];
  }

  visit-Full :
      (key_fn : KeyFn) (seen : List EventId) (node : EventId) (ps : List EventId)
      (outdegree final : Graph) (heap pushed : List TieBreaker)
      → visit key_fn node ps outdegree heap ≡ ok (final, pushed)
      → Full seen node ps outdegree heap
      → Full seen node [] final pushed
  unfolding visit
  visit-Full key_fn seen node [] outdegree final heap pushed h f =
      let same : final ≡ outdegree = ground arith in
      let same_heap : pushed ≡ heap = ground arith in rw (same, same_heap) f
  visit-Full key_fn seen node (p ∷ ps) outdegree final heap pushed h f =
      let (out, l, unused) = bind-eq-ok (unwrap (lookup p outdegree)) _ h in
      let found = unwrap-eq-ok (lookup p outdegree) l in
      let (next, n, rest) =
        visit-cons-eq-ok reverse key_fn node p ps out outdegree final heap pushed h found in
      visit-Full key_fn seen node ps (insert p (remove node out) outdegree) final next pushed rest
        (visit_one-Full key_fn seen node p ps out outdegree heap next found n f)

  -- A list has no element or a first one.
  no_or_first : (ids : List EventId) → (ids ≡ []) ⊎ ((e : EventId) × In e ids)
  no_or_first [] = inl refl
  no_or_first (e ∷ ids) = inr (e, inl refl)

  -- The node is in the list, or one of its edges leads out of the list.
  abbrev Listed : List EventId → EventId → Type 0
  Listed final p = In p final ⊎ ((e : EventId) × In e (edges_of graph p) × (In e final → ⊥))

  kahn-Listed :
      (r : Ruma) (key_fn : KeyFn) (fuel : ℕ) (outdegree : Graph) (heap : List TieBreaker)
      (sorted final : List EventId) (node : EventId)
      → ((n p : EventId) → In n (edges_of graph p) → In p (edges_of reverse n))
      → kahn fuel r key_fn reverse outdegree heap sorted ≡ some (ok final)
      → Full sorted node [] outdegree heap
      → (p : EventId) → is_some (lookup p graph) ≡ true
      → Listed final p
  unfolding kahn
  kahn-Listed r key_fn fuel outdegree [] sorted final node both h f p known =
      let same : final ≡ sorted = ground arith in
      rw same (elim (no_or_first (edges_of outdegree p)) [
        | inl empty ↦ elim (f.emptied p known empty) [ inl s ↦ inl s | inr m ↦ absurd m ]
        | inr (e, m) ↦ let (g, k) = f.gone p e m in inr (e, g, λ s. (k s).1)
      ])
  kahn-Listed r key_fn zero outdegree (t ∷ heap) sorted final node both h f p known =
      absurd (ground arith)
  kahn-Listed r key_fn (suc fuel) outdegree (t ∷ heap) sorted final node both h f p known =
      let n = (pop_least r t heap).0.event_id in
      let others = (pop_least r t heap).1 in
      elim (Option-cases (lookup n reverse)) [
        | inl none_found ↦ absurd (ground arith)
        | inr (parents, q) ↦ elim (Result-cases (visit key_fn n parents outdegree others)) [
          | inr failed ↦ absurd (ground arith)
          | inl ((outdegree', heap'), v) ↦
              let listed : edges_of reverse n ≡ parents = rw q refl in
              let popped : Full (sorted ++ (n ∷ [])) n parents outdegree others = record {
                emptied = λ a is_node empty. elim (f.emptied a is_node empty) [
                  | inl s ↦ inl ((In-append a sorted (n ∷ [])).1 (inl s))
                  | inr m ↦ elim ((pop_least-ids r t heap a).1 m) [
                    | inl e ↦ inl ((In-append a sorted (n ∷ [])).1 (inr (inl e)))
                    | inr other ↦ inr other
                  ]
                ];
                gone = λ a e m.
                    let (g, k) = f.gone a e m in
                    (
                      g,
                      λ s. elim ((In-append e sorted (n ∷ [])).0 s) [
                        | inl old ↦ absurd (k old).1
                        | inr (inl e_n) ↦ (e_n, rw (← listed) (both n a (rw e_n at g)))
                        | inr (inr nothing) ↦ absurd nothing
                      ],
                    );
              } in
              kahn-Listed r key_fn fuel outdegree' heap' (sorted ++ (n ∷ [])) final n both
                (ground arith)
                (visit-Full key_fn (sorted ++ (n ∷ [])) n parents outdegree outdegree' others heap'
                  v popped)
                p known
        ]
      ]

by_rank :
    (graph : Graph) (sorted : List EventId) (rank : EventId → ℕ)
    → ((p e : EventId)
        → In e (edges_of graph p)
        → (rank e < rank p) × (is_some (lookup e graph) ≡ true))
    → ((p : EventId)
        → is_some (lookup p graph) ≡ true
        → In p sorted ⊎ ((e : EventId) × In e (edges_of graph p) × (In e sorted → ⊥)))
    → (bound : ℕ) (p : EventId) → is_some (lookup p graph) ≡ true
    → rank p < bound
    → In p sorted
by_rank graph sorted rank lower listed zero p known less = absurd (omega arith)
by_rank graph sorted rank lower listed (suc bound) p known less = elim (listed p known) [
  | inl m ↦ m
  | inr (e, g, missing) ↦
      let (below, is_node) = lower p e g in
      absurd (missing (by_rank graph sorted rank lower listed bound e is_node (omega arith)))
]

-- In a graph whose edges lead to nodes of lower rank, so that it has no cycle: the list that the
-- sort returns has every node.
pub lexicographical_topological_sort_complete :
    (fuel : ℕ) (r : Ruma) (graph : Graph) (key_fn : KeyFn) (sorted : List EventId)
    (rank : EventId → ℕ)
    → ((p e : EventId)
        → In e (edges_of graph p)
        → (rank e < rank p) × (is_some (lookup e graph) ≡ true))
    → lexicographical_topological_sort fuel r graph key_fn ≡ some (ok sorted)
    → (p : EventId) → is_some (lookup p graph) ≡ true
    → In p sorted
unfolding lexicographical_topological_sort
lexicographical_topological_sort_complete fuel r graph key_fn sorted rank lower h p known =
    elim (Result-cases (scan key_fn graph [] [])) [
      | inr failed ↦ absurd (ground arith)
      | inl ((reverse, heap), s) ↦
          let entered = scan-Entered key_fn graph [] reverse [] heap s in
          let start : Full graph reverse [] "" [] graph heap = record {
            emptied = λ q is_node empty. inr (entered.starts q (inr (is_node, empty)));
            gone = λ q e m. (m, λ in_none. absurd in_none);
          } in
          by_rank graph sorted rank lower
            (kahn-Listed graph reverse r key_fn fuel graph heap [] sorted ""
              (λ n q m. entered.turns n q (inr m)) (ground arith) start)
            (suc (rank p)) p known (omega arith)
    ]
