-- ===== src/StateRes/Resolve/Power/Fuel.antt =====
-- The fuel that the loop over the auth chains needs, where each event costs more than its auth
-- events together: the paths of the chain from it, when there is no cycle.
use arcana_server.Common.{
  ℕ, zero, suc, ◌+◌, ◌≤◌, ◌<◌, ◌≡◌, inl, inr, refl, Bool, true, List, [], ◌∷◌, arith, In, insert,
  length, contains, lookup, is_some, string_Eq, Option-cases, if◌then◌else◌, ◌&&◌, not, keys,
}
use arcana_server.StateRes.Content.{Ruma}
use arcana_server.StateRes.Event.{EventId}
use arcana_server.StateRes.Resolve.Iterative.{Fetch, Arrival}
use arcana_server.StateRes.Resolve.Topological.{Graph, add, set_of}
use arcana_server.StateRes.Resolve.Topological.Weight.{edge_count}
use arcana_server.StateRes.Resolve.Topological.Returns.{lexicographical_topological_sort-returns}
use arcana_server.StateRes.Resolve.Mainline.Walk.{Ranked}
use arcana_server.StateRes.Resolve.Power.{
  auth_events_of, add_auth_events, add_chain, add_event_and_auth_chain_to_graph, power_graph,
  event_to_pl, power_key, reverse_topological_power_sort,
}
use arcana_server.StateRes.Resolve.Power.Start.{power_graph-start}

abbrev pub total : (EventId → ℕ) → List EventId → ℕ
total cost [] = 0
total cost (id ∷ ids) = cost id + total cost ids

-- Each event costs more than its auth events together.
abbrev pub Costs : Fetch → (EventId → ℕ) → Type 0
Costs fetch cost = (id : EventId) → total cost (auth_events_of (fetch id)) < cost id

pub total-In :
    (cost : EventId → ℕ) (ids : List EventId) (id : EventId) → In id ids → cost id ≤ total cost ids
total-In cost [] id m = absurd m
total-In cost (other ∷ ids) id m = ground (arith, total-In cost ids id)

-- The cost of an event is a rank.
pub Costs-Ranked : (fetch : Fetch) (cost : EventId → ℕ) → Costs fetch cost → Ranked fetch cost
Costs-Ranked fetch cost costs id e f a m =
    let aids : auth_events_of (fetch id) ≡ e.auth_events = rw f refl in
    let less = costs id in omega (arith, total-In cost e.auth_events a m, rw aids at less)

module _ (fetch : Fetch) (cost : EventId → ℕ) (costs : Costs fetch cost)
    (auth_diff : List EventId) where
  on_top-total :
      (push : Bool) (aid : EventId) (state : List EventId)
      → total cost (if push then aid ∷ state else state) ≤ cost aid + total cost state
  on_top-total push aid state = ground arith

  add_auth_events-total :
      (eid : EventId) (aids : List EventId) (graph : Graph) (state : List EventId)
      → total cost (add_auth_events auth_diff eid aids graph state).1
        ≤ total cost aids + total cost state
  unfolding add_auth_events
  add_auth_events-total eid [] graph state = omega arith
  add_auth_events-total eid (aid ∷ aids) graph state =
      let push = contains auth_diff aid && not (is_some (lookup aid graph)) in
      let next = if push then aid ∷ state else state in
      let graph' =
        if contains auth_diff aid
        then insert eid (add aid (set_of (lookup eid graph))) graph
        else graph in
      let rest = add_auth_events-total eid aids graph' next in
      omega (arith, rest, on_top-total push aid state)

  add_chain-returns :
      (fuel : ℕ) (graph : Graph) (state : List EventId)
      → total cost state ≤ fuel
      → is_some (add_chain fuel fetch auth_diff graph state) ≡ true
  unfolding add_chain
  add_chain-returns fuel graph [] enough = refl
  add_chain-returns zero graph (eid ∷ state) enough = absurd (omega (arith, enough, costs eid))
  add_chain-returns (suc fuel) graph (eid ∷ state) enough =
      let aids = auth_events_of (fetch eid) in
      let next = insert eid (set_of (lookup eid graph)) graph in
      let less = add_auth_events-total eid aids next state in
      add_chain-returns fuel _ _ (omega (arith, enough, costs eid, less))

  power_graph-returns :
      (fuel : ℕ) (events : List EventId) (graph : Graph)
      → total cost events ≤ fuel
      → is_some (power_graph fuel fetch auth_diff events graph) ≡ true
  unfolding power_graph add_event_and_auth_chain_to_graph
  power_graph-returns fuel [] graph enough = refl
  power_graph-returns fuel (id ∷ rest) graph enough =
      let one = add_chain-returns fuel graph (id ∷ []) (omega (arith, enough)) in
      elim (Option-cases (add_chain fuel fetch auth_diff graph (id ∷ []))) [
        | inl out ↦ absurd (ground arith)
        | inr (next, e) ↦
            let more = power_graph-returns fuel rest next (omega (arith, enough)) in
            ground (arith, more)
      ]

  -- Where each event costs more than its auth events together: with the cost of the events to sort
  -- as fuel for the auth chains there is a fuel with which the power sort does not run out.
  pub reverse_topological_power_sort-returns :
      (chain_fuel : ℕ) (r : Ruma) (arrive : Arrival) (events : List EventId)
      → total cost events ≤ chain_fuel
      → (fuel : ℕ) × (is_some
            (reverse_topological_power_sort chain_fuel fuel r arrive fetch events auth_diff)
          ≡ true)
  unfolding reverse_topological_power_sort
  reverse_topological_power_sort-returns chain_fuel r arrive events enough =
      let built = power_graph-returns chain_fuel events [] enough in
      elim (Option-cases (power_graph chain_fuel fetch auth_diff events [])) [
        | inl out ↦ absurd (ground arith)
        | inr (graph, g) ↦
            let (last, chained) = power_graph-start fetch auth_diff chain_fuel events graph g in
            let fuel = edge_count graph + length graph in
            let key = power_key fetch (event_to_pl r arrive fetch (keys graph)) in
            let sorts =
              lexicographical_topological_sort-returns fuel r graph key chained.unique
                (omega arith) in
            (fuel, ground (arith, sorts))
      ]
