-- ===== src/StateRes/Resolve/Topological/Turned.antt =====
-- The reverse graph: its parents of a node have the node among their edges.
use arcana_server.Common.{
  ◌≡◌, ◌⊎◌, inl, inr, refl, List, [], ◌∷◌, arith, In, insert, string_Eq, Bool-cases, NoRepeat,
  contains, contains_iff,
}
use arcana_server.StateRes.Event.{EventId}
use arcana_server.StateRes.Resolve.Topological.{Graph, add, add_edges}
use arcana_server.StateRes.Resolve.Topological.Parents.{edges_of, edges_of-insert}

-- `reverse` has turned round the edges of the nodes scanned so far.
pub record Turned (graph reverse : Graph) : Type 0 where
  pub turned : (n p : EventId) → In p (edges_of reverse n) → In n (edges_of graph p)
  pub apart : (n : EventId) → NoRepeat (edges_of reverse n)

pub insert-Turned :
    (graph reverse : Graph) (n : EventId) (parents : List EventId)
    → Turned graph reverse
    → NoRepeat parents
    → ((p : EventId) → In p parents → In n (edges_of graph p))
    → Turned graph (insert n parents reverse)
insert-Turned graph reverse n parents t a h = record {
  turned = λ m p in_p. elim (edges_of-insert n parents reverse m) [
    | inl (same, new) ↦ rw (← same) (h p (rw new at in_p))
    | inr (other, kept) ↦ t.turned m p (rw kept at in_p)
  ];
  apart = λ m. elim (edges_of-insert n parents reverse m) [
    | inl (same, new) ↦ rw new a
    | inr (other, kept) ↦ rw kept (t.apart m)
  ];
}

pub In-add :
    (n : EventId) (ids : List EventId) (e : EventId) → In e (add n ids) → (e ≡ n) ⊎ In e ids
In-add n ids e m = elim (Bool-cases (contains ids n)) [
  | inl old ↦ inr (rw old at m)
  | inr new ↦ rw new at m
]

pub add-NoRepeat : (n : EventId) (ids : List EventId) → NoRepeat ids → NoRepeat (add n ids)
add-NoRepeat n ids h = elim (Bool-cases (contains ids n)) [
  | inl old ↦ rw old h
  | inr new ↦ rw new ((λ m. ground (arith, contains_iff ids n)), h)
]

pub add_edges-Turned :
    (graph reverse : Graph) (node : EventId) (edges : List EventId)
    → Turned graph reverse
    → ((e : EventId) → In e edges → In e (edges_of graph node))
    → Turned graph (add_edges node edges reverse)
unfolding add_edges
add_edges-Turned graph reverse node [] t h = t
add_edges-Turned graph reverse node (e ∷ edges) t h =
    let there = edges_of reverse e in
    add_edges-Turned graph (insert e (add node there) reverse) node edges
      (insert-Turned graph reverse e (add node there) t (add-NoRepeat node there (t.apart e))
        (λ p in_p. elim (In-add node there p in_p) [
          | inl same ↦ rw same (h e (inl refl))
          | inr old ↦ t.turned e p old
        ]))
      (λ a m. h a (inr m))
