-- ===== src/StateRes/Resolve/Topological/Parents.antt =====
-- The sorted list has every node after the nodes that its edges lead to.
use arcana_server.Common.{
  ℕ, zero, suc, ◌≡◌, ◌≢◌, ◌⊎◌, ◌↔◌, inl, inr, refl, Option, none, some, List, [], ◌∷◌, ◌++◌, arith,
  In, In-append, lookup, insert, lookup-insert, string_Eq, ◌∙◌, Option-cases, Bool-cases, Entries,
  UniqueKeys, UniqueKeys-lookup, ◌==◌,
}
use arcana_server.StateRes.Content.{Ruma}
use arcana_server.StateRes.Event.{EventId}
use arcana_server.StateRes.Result.{ok, bind-eq-ok, unwrap, Result-cases}
use arcana_server.StateRes.Resolve.Topological.{
  Graph, TieBreaker, KeyFn, is_before, pop_least, remove, set_of, add_edges, push, push_if_empty,
  scan, visit, kahn, lexicographical_topological_sort,
}
use text.Mathlib.TextEquality.{eq_iff}

-- the edges of a node; none for a node that the graph does not have
abbrev pub edges_of : Graph → EventId → List EventId
edges_of graph p = set_of (lookup p graph)

-- Each node of the list has its edges among `seen` and the nodes before it.
abbrev pub EdgesFirst : Graph → List EventId → List EventId → Type 0
EdgesFirst graph seen [] = Unit
EdgesFirst graph seen (p ∷ rest) =
    ((e : EventId) → In e (edges_of graph p) → In e seen) × EdgesFirst graph (p ∷ seen) rest

pub In-remove :
    (id : EventId) (ids : List EventId) (e : EventId) → In e (remove id ids) ↔ (In e ids × (e ≢ id))
unfolding remove
In-remove id [] e = ground arith
In-remove id (other ∷ rest) e = ground (arith, eq_iff other id, In-remove id rest e)

pub pop_least-In :
    (r : Ruma) (item : TieBreaker) (rest : List TieBreaker) (t : TieBreaker)
    → ((t ≡ (pop_least r item rest).0) ⊎ In t (pop_least r item rest).1) ↔ In t (item ∷ rest)
unfolding pop_least
pop_least-In r item [] t = ground arith
pop_least-In r item (other ∷ rest) t = elim (Bool-cases (is_before r other item)) [
  | inl b ↦ rw b (ground (arith, pop_least-In r other rest t))
  | inr b ↦ rw b (ground (arith, pop_least-In r item rest t))
]

remove_empty : (id : EventId) (ids : List EventId) → ids ≡ [] → remove id ids ≡ []
unfolding remove
remove_empty id [] h = refl
remove_empty id (x ∷ ids) h = ground arith

pub edges_of-insert :
    (p : EventId) (ids : List EventId) (graph : Graph) (q : EventId)
    → ((p ≡ q) × (edges_of (insert p ids graph) q ≡ ids))
      ⊎ ((p ≢ q) × (edges_of (insert p ids graph) q ≡ edges_of graph q))
edges_of-insert p ids graph q = elim (Bool-cases (p == q)) [
  | inl same ↦
      let found : lookup q (insert p ids graph) ≡ some ids =
        lookup-insert p q ids graph ∙ ground arith in
      inl ((eq_iff p q).0 same, rw found refl)
  | inr differs ↦
      let found : lookup q (insert p ids graph) ≡ lookup q graph =
        lookup-insert p q ids graph ∙ ground arith in
      inr ((λ e. ground (arith, eq_iff p q)), rw found refl)
]

pub edges_of-inserted :
    (p : EventId) (ids : List EventId) (graph : Graph) → edges_of (insert p ids graph) p ≡ ids
edges_of-inserted p ids graph = ground (arith, edges_of-insert p ids graph p)

pub unwrap-eq-ok : {A : Type 0} (o : Option A) {a : A} → unwrap o ≡ ok a → o ≡ some a
unwrap-eq-ok none h = absurd (ground arith)
unwrap-eq-ok (some a) h = ground arith

EdgesFirst-append :
    (graph : Graph) (seen xs : List EventId) (n : EventId)
    → EdgesFirst graph seen xs
    → ((e : EventId) → In e (edges_of graph n) → In e seen ⊎ In e xs)
    → EdgesFirst graph seen (xs ++ (n ∷ []))
EdgesFirst-append graph seen [] n h k = (λ e m. ground (arith, k e), tt)
EdgesFirst-append graph seen (x ∷ xs) n h k =
    (h.0, EdgesFirst-append graph (x ∷ seen) xs n h.1 (λ e m. ground (arith, k e)))

module _ (graph : Graph) where
  -- What has been sorted is `seen`: edges that are not left lead there, and the nodes of the heap
  -- have no edge left.
  record Inv (seen : List EventId) (outdegree : Graph) (heap : List TieBreaker) : Type 0 where
    left : (p e : EventId) → In e (edges_of graph p) → In e (edges_of outdegree p) ⊎ In e seen
    heaped : (t : TieBreaker) → In t heap → edges_of outdegree t.event_id ≡ []

  push_if_empty-heaped :
      (key_fn : KeyFn) (left : List EventId) (outdegree : Graph) (p : EventId)
      (heap pushed : List TieBreaker)
      → push_if_empty key_fn left p heap ≡ ok pushed
      → edges_of outdegree p ≡ left
      → ((t : TieBreaker) → In t heap → edges_of outdegree t.event_id ≡ [])
      → (t : TieBreaker) → In t pushed
      → edges_of outdegree t.event_id ≡ []
  unfolding push_if_empty push
  push_if_empty-heaped key_fn (x ∷ left) outdegree p heap pushed h e old t m = ground (arith, old t)
  push_if_empty-heaped key_fn [] outdegree p heap pushed h e old t m =
      let (key, k, whole) = bind-eq-ok (key_fn p) _ h in
      let new : pushed
          ≡ record { power_level = key.0; origin_server_ts = key.1; event_id = p } ∷ heap =
        ground arith in
      ground (arith, old t)

  remove_or_seen :
      (node : EventId) (out seen : List EventId) (e : EventId)
      → In node seen
      → In e out
      → In e (remove node out) ⊎ In e seen
  remove_or_seen node out seen e m in_out = elim (Bool-cases (e == node)) [
    | inl same ↦ inr (rw ((eq_iff e node).0 same) m)
    | inr differs ↦ inl ((In-remove node out e).1 (in_out, λ q. ground (arith, eq_iff e node)))
  ]

  visit_one-Inv :
      (seen : List EventId) (node p : EventId) (out : List EventId) (outdegree : Graph)
      (heap : List TieBreaker)
      → In node seen
      → lookup p outdegree ≡ some out
      → Inv seen outdegree heap
      → Inv seen (insert p (remove node out) outdegree) heap
  visit_one-Inv seen node p out outdegree heap m l i = record {
    left = λ q e in_q. elim (edges_of-insert p (remove node out) outdegree q) [
      | inr (other, kept) ↦ rw kept (i.left q e in_q)
      | inl (same, new) ↦ rw new (elim (i.left q e in_q) [
        | inr s ↦ inr s
        | inl in_left ↦
            let at_p : edges_of outdegree q ≡ out = rw (← same, l) refl in
            remove_or_seen node out seen e m (rw at_p at in_left)
      ])
    ];
    heaped = λ t in_heap. ground (
      arith,
      edges_of-insert p (remove node out) outdegree t.event_id,
      remove_empty node out,
      i.heaped t,
    );
  }

  visit-Inv :
      (key_fn : KeyFn) (seen : List EventId) (node : EventId) (ps : List EventId)
      (outdegree final : Graph) (heap pushed : List TieBreaker)
      → In node seen
      → visit key_fn node ps outdegree heap ≡ ok (final, pushed)
      → Inv seen outdegree heap
      → Inv seen final pushed
  unfolding visit
  visit-Inv key_fn seen node [] outdegree final heap pushed m h i =
      let same : final ≡ outdegree = ground arith in
      let same_heap : pushed ≡ heap = ground arith in rw (same, same_heap) i
  visit-Inv key_fn seen node (p ∷ ps) outdegree final heap pushed m h i =
      let (out, l, h1) = bind-eq-ok (unwrap (lookup p outdegree)) _ h in
      let (next, n, h2) = bind-eq-ok (push_if_empty key_fn (remove node out) p heap) _ h1 in
      let found : lookup p outdegree ≡ some out = unwrap-eq-ok (lookup p outdegree) l in
      let one = visit_one-Inv seen node p out outdegree heap m found i in
      visit-Inv key_fn seen node ps (insert p (remove node out) outdegree) final next pushed m h2
        (record {
          left = one.left;
          heaped =
              push_if_empty-heaped key_fn (remove node out) (insert p (remove node out) outdegree) p
                heap next n (edges_of-inserted p (remove node out) outdegree) one.heaped;
        })

  kahn-EdgesFirst :
      (r : Ruma) (key_fn : KeyFn) (reverse : Graph) (fuel : ℕ) (outdegree : Graph)
      (heap : List TieBreaker) (sorted final : List EventId)
      → kahn fuel r key_fn reverse outdegree heap sorted ≡ some (ok final)
      → Inv sorted outdegree heap
      → EdgesFirst graph [] sorted
      → EdgesFirst graph [] final
  unfolding kahn
  kahn-EdgesFirst r key_fn reverse fuel outdegree [] sorted final h i e =
      let same : final ≡ sorted = ground arith in rw same e
  kahn-EdgesFirst r key_fn reverse zero outdegree (t ∷ heap) sorted final h i e =
      absurd (ground arith)
  kahn-EdgesFirst r key_fn reverse (suc fuel) outdegree (t ∷ heap) sorted final h i e =
      let n = (pop_least r t heap).0.event_id in
      let others = (pop_least r t heap).1 in
      elim (Option-cases (lookup n reverse)) [
        | inl none_found ↦ absurd (ground arith)
        | inr (parents, q) ↦ elim (Result-cases (visit key_fn n parents outdegree others)) [
          | inr failed ↦ absurd (ground arith)
          | inl ((outdegree', heap'), v) ↦
              let popped : Inv (sorted ++ (n ∷ [])) outdegree others = record {
                left = λ p e' m. ground (arith, i.left p e' m, In-append e' sorted (n ∷ []));
                heaped = λ t' m. i.heaped t' ((pop_least-In r t heap t').0 (inr m));
              } in
              let cleared : edges_of outdegree n ≡ [] =
                i.heaped (pop_least r t heap).0
                  ((pop_least-In r t heap (pop_least r t heap).0).0 (inl refl)) in
              kahn-EdgesFirst r key_fn reverse fuel outdegree' heap' (sorted ++ (n ∷ [])) final
                (ground arith)
                (visit-Inv key_fn (sorted ++ (n ∷ [])) n parents outdegree outdegree' others heap'
                  ((In-append n sorted (n ∷ [])).1 (inr (inl refl))) v popped)
                (EdgesFirst-append graph [] sorted n e (λ e' m. elim (i.left n e' m) [
                  | inr s ↦ inr s
                  | inl remaining ↦ absurd (rw cleared at remaining)
                ]))
        ]
      ]

  pub scan-heaped :
      (key_fn : KeyFn) (nodes reverse reverse' : Graph) (heap heap' : List TieBreaker)
      → scan key_fn nodes reverse heap ≡ ok (reverse', heap')
      → Entries (λ p edges. lookup p graph ≡ some edges) nodes
      → ((t : TieBreaker) → In t heap → edges_of graph t.event_id ≡ [])
      → (t : TieBreaker) → In t heap'
      → edges_of graph t.event_id ≡ []
  unfolding scan
  scan-heaped key_fn [] reverse reverse' heap heap' h all old =
      let same : heap' ≡ heap = ground arith in rw same old
  scan-heaped key_fn ((p, edges) ∷ rest) reverse reverse' heap heap' h all old =
      let (next, n, h1) = bind-eq-ok (push_if_empty key_fn edges p heap) _ h in
      scan-heaped key_fn rest (add_edges p edges (insert p (set_of (lookup p reverse)) reverse))
        reverse' next heap' h1 all.1
        (push_if_empty-heaped key_fn edges graph p heap next n (rw all.0 refl) old)

-- In the list that the sort returns for a graph with one entry for each node, every node stands
-- after all the nodes that its edges lead to.
pub lexicographical_topological_sort-EdgesFirst :
    (fuel : ℕ) (r : Ruma) (graph : Graph) (key_fn : KeyFn) (sorted : List EventId)
    → UniqueKeys graph
    → lexicographical_topological_sort fuel r graph key_fn ≡ some (ok sorted)
    → EdgesFirst graph [] sorted
unfolding lexicographical_topological_sort
lexicographical_topological_sort-EdgesFirst fuel r graph key_fn sorted u h =
    elim (Result-cases (scan key_fn graph [] [])) [
      | inr failed ↦ absurd (ground arith)
      | inl ((reverse, heap), s) ↦
          kahn-EdgesFirst graph r key_fn reverse fuel graph heap [] sorted (ground arith)
            (record {
              left = λ p e m. inl m;
              heaped =
                  scan-heaped graph key_fn graph [] reverse [] heap s (UniqueKeys-lookup graph u)
                    (λ t m. absurd m);
            })
            tt
    ]
