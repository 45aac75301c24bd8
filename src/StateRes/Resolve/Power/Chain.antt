-- ===== src/StateRes/Resolve/Power/Chain.antt =====
-- The graph of the power events while chains are added: each node with its auth events in the auth difference as edges.
use arcana_server.Common.{
  ℕ, zero, suc, ◌≡◌, ◌⊎◌, ◌↔◌, inl, inr, refl, sym, ◌∙◌, Bool, true, some, List, [], ◌∷◌, arith, In,
  lookup, insert, lookup-insert, contains, contains_iff, string_Eq, is_some, UniqueKeys,
  insert-UniqueKeys, Bool-cases, if◌then◌else◌, ◌&&◌, not,
}
use arcana_server.StateRes.Event.{EventId}
use arcana_server.StateRes.Resolve.Iterative.{Fetch}
use arcana_server.StateRes.Resolve.Power.{auth_events_of, add_auth_events, add_chain}
use arcana_server.StateRes.Resolve.Topological.{Graph, add}
use arcana_server.StateRes.Resolve.Topological.Parents.{edges_of, edges_of-insert}
use text.Mathlib.TextEquality.{eq_iff}

-- The graph has the node.
abbrev pub IsNode : Graph → EventId → Type 0
IsNode graph p = is_some (lookup p graph) ≡ true

pub In-add_iff :
    (n : EventId) (ids : List EventId) (e : EventId) → In e (add n ids) ↔ ((e ≡ n) ⊎ In e ids)
In-add_iff n ids e = ground (arith, contains_iff ids n)

pub IsNode-insert :
    (p : EventId) (ids : List EventId) (graph : Graph) (q : EventId)
    → IsNode (insert p ids graph) q ↔ ((p ≡ q) ⊎ IsNode graph q)
IsNode-insert p ids graph q = ground (arith, lookup-insert p q ids graph, eq_iff p q)

-- the edges after one is added
grown :
    (eid aid : EventId) (graph : Graph) (p e : EventId)
    → In e (edges_of (insert eid (add aid (edges_of graph eid)) graph) p)
      ↔ (In e (edges_of graph p) ⊎ ((p ≡ eid) × (e ≡ aid)))
grown eid aid graph p e = elim (edges_of-insert eid (add aid (edges_of graph eid)) graph p) [
  | inr (other, kept) ↦
      rw kept (inl, λ m. elim m [ inl old ↦ old | inr (s, n) ↦ absurd (other (sym s)) ])
  | inl (same, new) ↦
      rw (new, ← same)
        (
          λ m. elim ((In-add_iff aid (edges_of graph eid) e).0 m) [
            | inl n ↦ inr (refl, n)
            | inr old ↦ inl old
          ],
          λ m.
              (In-add_iff aid (edges_of graph eid) e).1
                (elim m [ inl old ↦ inr old | inr (s, n) ↦ inl n ]),
        )
]

entered :
    (eid : EventId) (graph : Graph) (p : EventId)
    → edges_of (insert eid (edges_of graph eid) graph) p ≡ edges_of graph p
entered eid graph p = elim (edges_of-insert eid (edges_of graph eid) graph p) [
  | inl (same, new) ↦ new ∙ rw same refl
  | inr (other, kept) ↦ kept
]

on_top :
    (aid e : EventId) (state : List EventId) (known : Bool)
    → In e state
    → In e (if not known then aid ∷ state else state)
on_top aid e state known m = ground arith

from_top :
    (aid e : EventId) (state : List EventId) (known : Bool)
    → In e (if not known then aid ∷ state else state)
    → (e ≡ aid) ⊎ In e state
from_top aid e state known m = ground arith

module _ (fetch : Fetch) (auth_diff : List EventId) (roots : List EventId) where
  -- What is known of an event that a node or the stack names.
  abbrev pub Known : EventId → Type 0
  Known p = In p roots ⊎ (contains auth_diff p ≡ true)

  -- `aids` are the auth events of `eid` that are still to be added.
  pub record Chained (eid : EventId) (aids : List EventId) (graph : Graph) (state : List EventId)
      : Type 0 where
    pub unique : UniqueKeys graph
    pub sound :
        (p e : EventId)
        → In e (edges_of graph p)
        → In e (auth_events_of (fetch p)) × (contains auth_diff e ≡ true)
    pub full :
        (p e : EventId)
        → IsNode graph p
        → In e (auth_events_of (fetch p))
        → contains auth_diff e ≡ true
        → In e (edges_of graph p) ⊎ ((p ≡ eid) × In e aids)
    pub pending : (p e : EventId) → In e (edges_of graph p) → IsNode graph e ⊎ In e state
    pub nodes : (p : EventId) → IsNode graph p → Known p
    pub stacked : (p : EventId) → In p state → Known p

  add_listed-Chained :
      (eid aid : EventId) (aids : List EventId) (graph : Graph) (state : List EventId)
      → contains auth_diff aid ≡ true
      → In aid (auth_events_of (fetch eid))
      → IsNode graph eid
      → Chained eid (aid ∷ aids) graph state
      → Chained eid aids
          (insert eid (add aid (edges_of graph eid)) graph)
          (if not (is_some (lookup aid graph)) then aid ∷ state else state)
  add_listed-Chained eid aid aids graph state listed is_auth here c =
      let grows = grown eid aid graph in
      let nodes = IsNode-insert eid (add aid (edges_of graph eid)) graph in
      record {
        unique = insert-UniqueKeys eid (add aid (edges_of graph eid)) graph c.unique;
        sound = λ p e m. elim ((grows p e).0 m) [
          | inl old ↦ c.sound p e old
          | inr (at_eid, e_aid) ↦ rw (at_eid, e_aid) (is_auth, listed)
        ];
        full = λ p e is_node m l. elim (c.full p e (ground (arith, nodes p)) m l) [
          | inl old ↦ inl ((grows p e).1 (inl old))
          | inr (at_eid, inl first) ↦ inl ((grows p e).1 (inr (at_eid, first)))
          | inr (at_eid, inr later) ↦ inr (at_eid, later)
        ];
        pending = λ p e m. elim ((grows p e).0 m) [
          | inl old ↦ elim (c.pending p e old) [
            | inl is_node ↦ inl ((nodes e).1 (inr is_node))
            | inr on ↦ inr (on_top aid e state (is_some (lookup aid graph)) on)
          ]
          | inr (at_eid, e_aid) ↦ elim (Bool-cases (is_some (lookup aid graph))) [
            | inl is_node ↦ inl ((nodes e).1 (inr (rw e_aid is_node)))
            | inr missing ↦ inr (rw missing (inl e_aid))
          ]
        ];
        nodes = λ p n. c.nodes p (ground (arith, nodes p));
        stacked = λ p m. elim (from_top aid p state (is_some (lookup aid graph)) m) [
          | inl e ↦ inr (rw e listed)
          | inr old ↦ c.stacked p old
        ];
      }

  add_one-Chained :
      (eid aid : EventId) (aids : List EventId) (graph : Graph) (state : List EventId)
      → In aid (auth_events_of (fetch eid))
      → IsNode graph eid
      → Chained eid (aid ∷ aids) graph state
      → Chained eid aids
          (if contains auth_diff aid
            then insert eid (add aid (edges_of graph eid)) graph
            else graph)
          (if contains auth_diff aid && not (is_some (lookup aid graph))
            then aid ∷ state
            else state)
  add_one-Chained eid aid aids graph state is_auth here c =
      elim (Bool-cases (contains auth_diff aid)) [
        | inl listed ↦ rw listed (add_listed-Chained eid aid aids graph state listed is_auth here c)
        | inr other ↦ rw other (record {
          unique = c.unique;
          sound = c.sound;
          pending = c.pending;
          nodes = c.nodes;
          stacked = c.stacked;
          full = λ p e is_node m l. elim (c.full p e is_node m l) [
            | inl old ↦ inl old
            | inr (at_eid, inl first) ↦ absurd (ground arith)
            | inr (at_eid, inr later) ↦ inr (at_eid, later)
          ];
        })
      ]

  add_auth_events-Chained :
      (eid : EventId) (aids : List EventId) (graph : Graph) (state : List EventId)
      → ((a : EventId) → In a aids → In a (auth_events_of (fetch eid)))
      → IsNode graph eid
      → Chained eid aids graph state
      → Chained eid []
          (add_auth_events auth_diff eid aids graph state).0
          (add_auth_events auth_diff eid aids graph state).1
  unfolding add_auth_events
  add_auth_events-Chained eid [] graph state auth here c = c
  add_auth_events-Chained eid (aid ∷ aids) graph state auth here c =
      add_auth_events-Chained eid aids _ _ (λ a m. auth a (inr m))
        (ground (arith, IsNode-insert eid (add aid (edges_of graph eid)) graph eid))
        (add_one-Chained eid aid aids graph state (auth aid (inl refl)) here c)

  -- `graph.entry(eid).or_default()` for the event that is taken from the stack
  enter-Chained :
      (previous eid : EventId) (graph : Graph) (state : List EventId)
      → Chained previous [] graph (eid ∷ state)
      → Chained eid (auth_events_of (fetch eid)) (insert eid (edges_of graph eid) graph) state
  enter-Chained previous eid graph state c =
      let same = entered eid graph in
      let nodes = IsNode-insert eid (edges_of graph eid) graph in
      record {
        unique = insert-UniqueKeys eid (edges_of graph eid) graph c.unique;
        sound = λ p e m. c.sound p e (rw (same p) at m);
        full = λ p e is_node m l. elim ((nodes p).0 is_node) [
          | inl at_eid ↦ inr (sym at_eid, rw at_eid m)
          | inr old ↦ elim (c.full p e old m l) [
            | inl there ↦ inl (rw (same p) there)
            | inr (at_previous, none_left) ↦ absurd none_left
          ]
        ];
        pending = λ p e m. elim (c.pending p e (rw (same p) at m)) [
          | inl is_node ↦ inl ((nodes e).1 (inr is_node))
          | inr (inl at_eid) ↦ inl ((nodes e).1 (inl (sym at_eid)))
          | inr (inr on) ↦ inr on
        ];
        nodes = λ p n. elim ((nodes p).0 n) [
          | inl at_eid ↦ c.stacked p (inl (sym at_eid))
          | inr old ↦ c.nodes p old
        ];
        stacked = λ p m. c.stacked p (inr m);
      }

  pub add_chain-Chained :
      (fuel : ℕ) (previous : EventId) (graph final : Graph) (state : List EventId)
      → add_chain fuel fetch auth_diff graph state ≡ some final
      → Chained previous [] graph state
      → (last : EventId) × Chained last [] final []
  unfolding add_chain
  add_chain-Chained fuel previous graph final [] h c =
      let same : final ≡ graph = ground arith in rw same (previous, c)
  add_chain-Chained zero previous graph final (eid ∷ state) h c = absurd (ground arith)
  add_chain-Chained (suc fuel) previous graph final (eid ∷ state) h c =
      add_chain-Chained fuel eid _ final _ h (
        add_auth_events-Chained eid (auth_events_of (fetch eid))
          (insert eid (edges_of graph eid) graph) state (λ a m. m)
          ((IsNode-insert eid (edges_of graph eid) graph eid).1 (inl refl))
          (enter-Chained previous eid graph state c))
