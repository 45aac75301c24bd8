-- ===== src/StateRes/Resolve/Topological/Entered.antt =====
-- What the scan of the graph enters into the reverse graph and the heap.
use arcana_server.Common.{
  ◌≡◌, ◌⊎◌, inl, inr, refl, sym, true, List, [], ◌∷◌, arith, In, contains_iff, lookup, insert,
  string_Eq, is_some, ◌∙◌,
}
use arcana_server.StateRes.Event.{EventId}
use arcana_server.StateRes.Result.{ok, bind-eq-ok}
use arcana_server.StateRes.Resolve.Topological.{
  Graph, TieBreaker, KeyFn, push, push_if_empty, add, add_edges, scan,
}
use arcana_server.StateRes.Resolve.Topological.Parents.{edges_of, edges_of-insert}
use arcana_server.StateRes.Resolve.Topological.Weight.{ids_of}
use text.Mathlib.TextEquality.{eq_iff}

pub push_if_empty-mem :
    (key_fn : KeyFn) (left : List EventId) (p : EventId) (heap pushed : List TieBreaker)
    (id : EventId)
    → push_if_empty key_fn left p heap ≡ ok pushed
    → ((left ≡ []) × (id ≡ p)) ⊎ In id (ids_of heap)
    → In id (ids_of pushed)
unfolding push_if_empty push
push_if_empty-mem key_fn (x ∷ left) p heap pushed id h m = ground arith
push_if_empty-mem key_fn [] p heap pushed id h m =
    let (key, k, whole) = bind-eq-ok (key_fn p) _ h in
    let new : pushed
        ≡ record { power_level = key.0; origin_server_ts = key.1; event_id = p } ∷ heap =
      ground arith in
    rw new (ground arith)

pub add-mem :
    (n : EventId) (ids : List EventId) (e : EventId) → (e ≡ n) ⊎ In e ids → In e (add n ids)
add-mem n ids e m = ground (arith, contains_iff ids n)

pub add_edges-mem :
    (node : EventId) (edges : List EventId) (reverse : Graph) (n p : EventId)
    → In p (edges_of reverse n) ⊎ ((p ≡ node) × In n edges)
    → In p (edges_of (add_edges node edges reverse) n)
unfolding add_edges
add_edges-mem node [] reverse n p m = ground arith
add_edges-mem node (e ∷ edges) reverse n p m =
    let there = edges_of reverse e in
    add_edges-mem node edges (insert e (add node there) reverse) n p
      (elim (edges_of-insert e (add node there) reverse n) [
        | inl (same, new) ↦ inl (
            rw new (
              add-mem node there p
                (elim m [ inl old ↦ inr (rw same old) | inr (at_node, listed) ↦ inl at_node ])))
        | inr (other, kept) ↦ rw kept (elim m [
          | inl old ↦ inl old
          | inr (at_node, inl first) ↦ absurd (other (sym first))
          | inr (at_node, inr later) ↦ inr (at_node, later)
        ])
      ])

-- What the scan has entered: the edges turned round, and the nodes without edges.
pub record Entered (nodes reverse reverse' : Graph) (heap heap' : List TieBreaker) : Type 0 where
  pub turns :
      (n p : EventId)
      → In p (edges_of reverse n) ⊎ In n (edges_of nodes p)
      → In p (edges_of reverse' n)
  pub starts :
      (id : EventId)
      → In id (ids_of heap) ⊎ ((is_some (lookup id nodes) ≡ true) × (edges_of nodes id ≡ []))
      → In id (ids_of heap')

pub entered_once :
    (q n : EventId) (reverse : Graph)
    → edges_of (insert q (edges_of reverse q) reverse) n ≡ edges_of reverse n
entered_once q n reverse = elim (edges_of-insert q (edges_of reverse q) reverse n) [
  | inl (same, new) ↦ new ∙ rw same refl
  | inr (other, kept) ↦ kept
]

pub scan-Entered :
    (key_fn : KeyFn) (nodes reverse reverse' : Graph) (heap heap' : List TieBreaker)
    → scan key_fn nodes reverse heap ≡ ok (reverse', heap')
    → Entered nodes reverse reverse' heap heap'
unfolding scan
scan-Entered key_fn [] reverse reverse' heap heap' h =
    let same : reverse' ≡ reverse = ground arith in
    let same_heap : heap' ≡ heap = ground arith in
    rw (same, same_heap) (record { turns = λ n p m. ground arith; starts = λ id m. ground arith })
scan-Entered key_fn ((q, edges) ∷ rest) reverse reverse' heap heap' h =
    let (next, pushed, h1) = bind-eq-ok (push_if_empty key_fn edges q heap) _ h in
    let first = insert q (edges_of reverse q) reverse in
    let later = scan-Entered key_fn rest (add_edges q edges first) reverse' next heap' h1 in
    record {
      turns = λ n p m. ground (
        arith,
        eq_iff q p,
        entered_once q n reverse,
        add_edges-mem q edges first n p,
        later.turns n p,
      );
      starts = λ id m. ground (
        arith,
        eq_iff q id,
        push_if_empty-mem key_fn edges q heap next id pushed,
        later.starts id,
      );
    }
