-- ===== src/StateRes/Resolve/Power/Sorted.antt =====
-- The order of the power events: each event stands after its auth events.
use arcana_server.Common.{
  ℕ, ◌<◌, ◌≡◌, ◌⊎◌, inl, inr, refl, true, some, List, [], ◌∷◌, arith, In, lookup, lookup-mem,
  lookup-keys, string_Eq, Option-cases, contains, keys,
}
use arcana_server.Common.Int.{ℤ}
use arcana_server.StateRes.Content.{Ruma}
use arcana_server.StateRes.Event.{EventId}
use arcana_server.StateRes.Result.{ok, Result-cases}
use arcana_server.StateRes.Resolve.Iterative.{Fetch, Arrival}
use arcana_server.StateRes.Resolve.Topological.{Graph, lexicographical_topological_sort}
use arcana_server.StateRes.Resolve.Topological.Parents.{
  edges_of, EdgesFirst, lexicographical_topological_sort-EdgesFirst,
}
use arcana_server.StateRes.Resolve.Topological.Complete.{lexicographical_topological_sort_complete}
use arcana_server.StateRes.Resolve.Topological.Keyed.{lexicographical_topological_sort-Keyed}
use arcana_server.StateRes.Resolve.Mainline.Walk.{Ranked}
use arcana_server.StateRes.Resolve.Power.{
  auth_events_of, get_power_level_for_sender, power_graph, event_to_pl, power_key,
  reverse_topological_power_sort,
}
use arcana_server.StateRes.Resolve.Power.Chain.{IsNode, Chained}
use arcana_server.StateRes.Resolve.Power.Start.{power_graph-start, power_graph-keeps}

-- Each event of the list has its auth events of the auth difference among `seen` and the events
-- before it.
abbrev pub AuthFirst : Fetch → List EventId → List EventId → List EventId → Type 0
AuthFirst fetch auth_diff seen [] = Unit
AuthFirst fetch auth_diff seen (p ∷ rest) =
    ((e : EventId) → In e (auth_events_of (fetch p)) → contains auth_diff e ≡ true → In e seen)
    × AuthFirst fetch auth_diff (p ∷ seen) rest

lower_auth :
    (fetch : Fetch) (rank : EventId → ℕ)
    → Ranked fetch rank
    → (p e : EventId) → In e (auth_events_of (fetch p))
    → rank e < rank p
lower_auth fetch rank ranked p e m = elim (Option-cases (fetch p)) [
  | inl missing ↦ absurd (rw missing at m)
  | inr (event, found) ↦ ranked p event found e (rw found at m)
]

event_to_pl-keys :
    (r : Ruma) (arrive : Arrival) (fetch : Fetch) (ids : List EventId) (p : EventId)
    → In p (keys (event_to_pl r arrive fetch ids))
    → In p ids
unfolding event_to_pl
event_to_pl-keys r arrive fetch [] p m = m
event_to_pl-keys r arrive fetch (id ∷ rest) p m =
    elim (Result-cases (get_power_level_for_sender r arrive fetch id)) [
      | inl (level, l) ↦ ground (arith, event_to_pl-keys r arrive fetch rest p)
      | inr failed ↦ ground (arith, event_to_pl-keys r arrive fetch rest p)
    ]

-- a key is given only for events with a level
power_key-listed :
    (fetch : Fetch) (levels : List (EventId × ℤ)) (p : EventId) (k : ℤ × ℕ)
    → power_key fetch levels p ≡ ok k
    → In p (keys levels)
unfolding power_key
power_key-listed fetch levels p k h = elim (Option-cases (lookup p levels)) [
  | inl missing ↦ absurd (ground arith)
  | inr (level, found) ↦ lookup-mem p levels found
]

keys-IsNode : (graph : Graph) (p : EventId) → In p (keys graph) → IsNode graph p
keys-IsNode graph p m = elim (Option-cases (lookup p graph)) [
  | inl missing ↦ absurd (lookup-keys p graph missing m)
  | inr (edges, found) ↦ rw found refl
]

AuthFirst-of-EdgesFirst :
    (fetch : Fetch) (auth_diff : List EventId) (graph : Graph) (seen sorted : List EventId)
    → ((p e : EventId)
        → In p sorted
        → In e (auth_events_of (fetch p))
        → contains auth_diff e ≡ true
        → In e (edges_of graph p))
    → EdgesFirst graph seen sorted
    → AuthFirst fetch auth_diff seen sorted
AuthFirst-of-EdgesFirst fetch auth_diff graph seen [] full f = tt
AuthFirst-of-EdgesFirst fetch auth_diff graph seen (p ∷ sorted) full f = (
  λ e m l. f.0 e (full p e (inl refl) m l),
  AuthFirst-of-EdgesFirst fetch auth_diff graph (p ∷ seen) sorted (λ q e in_s. full q e (inr in_s))
      f.1,
)

module _ (chain_fuel fuel : ℕ) (r : Ruma) (arrive : Arrival) (fetch : Fetch)
    (events auth_diff sorted : List EventId) where
  -- The sort returned: its graph, with what is known of it.
  record Run : Type 0 where
    graph : Graph
    last : EventId
    chained : Chained fetch auth_diff events last [] graph []
    nodes : (x : EventId) → In x events → IsNode graph x
    returned :
        lexicographical_topological_sort fuel r graph
          (power_key fetch (event_to_pl r arrive fetch (keys graph)))
        ≡ some (ok sorted)

  sort-Run :
      reverse_topological_power_sort chain_fuel fuel r arrive fetch events auth_diff
        ≡ some (ok sorted)
      → Run
  unfolding reverse_topological_power_sort
  sort-Run h = elim (Option-cases (power_graph chain_fuel fetch auth_diff events [])) [
    | inl out ↦ absurd (ground arith)
    | inr (graph, g) ↦
        let (last, chained) = power_graph-start fetch auth_diff chain_fuel events graph g in
        record {
          graph = graph;
          last = last;
          chained = chained;
          nodes = λ x m.
              power_graph-keeps fetch auth_diff events chain_fuel events [] graph x g (inr m);
          returned = ground arith;
        }
  ]

  sorted-IsNode : (run : Run) (p : EventId) → In p sorted → IsNode run.graph p
  sorted-IsNode run p m =
      let levels = event_to_pl r arrive fetch (keys run.graph) in
      let (k, key) =
        lexicographical_topological_sort-Keyed fuel r run.graph (power_key fetch levels) sorted
          run.returned p m in
      keys-IsNode run.graph p
        (event_to_pl-keys r arrive fetch (keys run.graph) p (power_key-listed fetch levels p k key))

  -- each sorted event is one to sort, or is in the auth difference
  pub sorted_from :
      reverse_topological_power_sort chain_fuel fuel r arrive fetch events auth_diff
        ≡ some (ok sorted)
      → (p : EventId) → In p sorted
      → In p events ⊎ (contains auth_diff p ≡ true)
  sorted_from h p m = let run = sort-Run h in run.chained.nodes p (sorted-IsNode run p m)

  -- In the order that the power sort returns, each event stands after those of its auth events that
  -- are in the auth difference.
  pub reverse_topological_power_sort-AuthFirst :
      reverse_topological_power_sort chain_fuel fuel r arrive fetch events auth_diff
        ≡ some (ok sorted)
      → AuthFirst fetch auth_diff [] sorted
  reverse_topological_power_sort-AuthFirst h =
      let run = sort-Run h in
      let key = power_key fetch (event_to_pl r arrive fetch (keys run.graph)) in
      AuthFirst-of-EdgesFirst fetch auth_diff run.graph [] sorted
        (λ p e m a l. elim (run.chained.full p e (sorted-IsNode run p m) a l) [
          | inl there ↦ there
          | inr (at_last, none_left) ↦ absurd none_left
        ])
        (lexicographical_topological_sort-EdgesFirst fuel r run.graph key sorted run.chained.unique
          run.returned)

  -- Where auth events have a lower rank, the order that the power sort returns has every event to
  -- sort, and each of its events is one of them or is in the auth difference.
  pub reverse_topological_power_sort_complete :
      (rank : EventId → ℕ)
      → Ranked fetch rank
      → reverse_topological_power_sort chain_fuel fuel r arrive fetch events auth_diff
        ≡ some (ok sorted)
      → ((p : EventId) → In p events → In p sorted)
        × ((p : EventId) → In p sorted → In p events ⊎ (contains auth_diff p ≡ true))
  reverse_topological_power_sort_complete rank ranked h =
      let run = sort-Run h in
      let key = power_key fetch (event_to_pl r arrive fetch (keys run.graph)) in
      (
        λ p m.
            lexicographical_topological_sort_complete fuel r run.graph key sorted rank
              (λ q e edge. (
                lower_auth fetch rank ranked q e (run.chained.sound q e edge).0,
                elim (run.chained.pending q e edge) [ inl n ↦ n | inr nothing ↦ absurd nothing ],
              ))
              run.returned p (run.nodes p m),
        sorted_from h,
      )
