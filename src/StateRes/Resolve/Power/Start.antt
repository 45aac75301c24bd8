-- ===== src/StateRes/Resolve/Power/Start.antt =====
-- The graph of the power events, from no nodes: which events are its nodes.
use arcana_server.Common.{
  ℕ, zero, suc, ◌≡◌, ◌⊎◌, inl, inr, some, List, [], ◌∷◌, arith, In, insert, string_Eq, Option-cases,
}
use arcana_server.StateRes.Event.{EventId}
use arcana_server.StateRes.Resolve.Iterative.{Fetch}
use arcana_server.StateRes.Resolve.Power.{
  auth_events_of, add_auth_events, add_chain, add_event_and_auth_chain_to_graph, power_graph,
}
use arcana_server.StateRes.Resolve.Topological.{Graph, add}
use arcana_server.StateRes.Resolve.Topological.Parents.{edges_of}
use arcana_server.StateRes.Resolve.Power.Chain.{IsNode, IsNode-insert, Chained, add_chain-Chained}

module _ (fetch : Fetch) (auth_diff : List EventId) (roots : List EventId) where
  -- A node, or an event on the stack, is a node in the end.
  add_auth_events-keeps :
      (eid : EventId) (aids : List EventId) (graph : Graph) (state : List EventId) (x : EventId)
      → IsNode graph x ⊎ In x state
      → IsNode (add_auth_events auth_diff eid aids graph state).0 x
        ⊎ In x (add_auth_events auth_diff eid aids graph state).1
  unfolding add_auth_events
  add_auth_events-keeps eid [] graph state x m = m
  add_auth_events-keeps eid (aid ∷ aids) graph state x m =
      add_auth_events-keeps eid aids _ _ x
        (ground (arith, IsNode-insert eid (add aid (edges_of graph eid)) graph x))

  add_chain-keeps :
      (fuel : ℕ) (graph final : Graph) (state : List EventId) (x : EventId)
      → add_chain fuel fetch auth_diff graph state ≡ some final
      → IsNode graph x ⊎ In x state
      → IsNode final x
  unfolding add_chain
  add_chain-keeps fuel graph final [] x h m = ground arith
  add_chain-keeps zero graph final (eid ∷ state) x h m = absurd (ground arith)
  add_chain-keeps (suc fuel) graph final (eid ∷ state) x h m = add_chain-keeps fuel _ final _ x h (
      add_auth_events-keeps eid (auth_events_of (fetch eid)) (insert eid (edges_of graph eid) graph)
        state x (ground (arith, IsNode-insert eid (edges_of graph eid) graph x)))

  power_graph-Chained :
      (fuel : ℕ) (events : List EventId) (previous : EventId) (graph final : Graph)
      → power_graph fuel fetch auth_diff events graph ≡ some final
      → ((x : EventId) → In x events → In x roots)
      → Chained fetch auth_diff roots previous [] graph []
      → (last : EventId) × Chained fetch auth_diff roots last [] final []
  unfolding power_graph add_event_and_auth_chain_to_graph
  power_graph-Chained fuel [] previous graph final h r c =
      let same : final ≡ graph = ground arith in rw same (previous, c)
  power_graph-Chained fuel (event ∷ rest) previous graph final h r c =
      elim (Option-cases (add_chain fuel fetch auth_diff graph (event ∷ []))) [
        | inl n ↦ absurd (ground arith)
        | inr (next, a) ↦
            let start : Chained fetch auth_diff roots previous [] graph (event ∷ []) = record {
              unique = c.unique;
              sound = c.sound;
              full = c.full;
              nodes = c.nodes;
              pending = λ p e m. elim (c.pending p e m) [ inl n ↦ inl n | inr n ↦ absurd n ];
              stacked = λ p m. inl (ground (arith, r event));
            } in
            let (last, d) =
              add_chain-Chained fetch auth_diff roots fuel previous graph next (event ∷ []) a
                start in
            power_graph-Chained fuel rest last next final (ground arith) (λ x m. r x (inr m)) d
      ]

  pub power_graph-keeps :
      (fuel : ℕ) (events : List EventId) (graph final : Graph) (x : EventId)
      → power_graph fuel fetch auth_diff events graph ≡ some final
      → IsNode graph x ⊎ In x events
      → IsNode final x
  unfolding power_graph add_event_and_auth_chain_to_graph
  power_graph-keeps fuel [] graph final x h m = ground arith
  power_graph-keeps fuel (event ∷ rest) graph final x h m =
      elim (Option-cases (add_chain fuel fetch auth_diff graph (event ∷ []))) [
        | inl n ↦ absurd (ground arith)
        | inr (next, a) ↦
            power_graph-keeps fuel rest next final x (ground arith)
              (ground (arith, add_chain-keeps fuel graph next (event ∷ []) x a))
      ]

-- the graph of the events, from no nodes
pub power_graph-start :
    (fetch : Fetch) (auth_diff : List EventId) (fuel : ℕ) (events : List EventId) (graph : Graph)
    → power_graph fuel fetch auth_diff events [] ≡ some graph
    → (last : EventId) × Chained fetch auth_diff events last [] graph []
power_graph-start fetch auth_diff fuel events graph g =
    power_graph-Chained fetch auth_diff events fuel events "" [] graph g (λ x m. m)
      (record {
        unique = tt;
        sound = λ p e m. absurd m;
        full = λ p e n. ground arith;
        pending = λ p e m. absurd m;
        nodes = λ p n. ground arith;
        stacked = λ p m. absurd m;
      })
