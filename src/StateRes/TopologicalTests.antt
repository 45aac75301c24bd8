-- ===== src/StateRes/TopologicalTests.antt =====
-- The theorems on the topological sort at the graph of `test_lexicographical_sort`.
use arcana_server.Common.{
  ◌≢◌, In, List, UniqueKeys, [], arith, if◌then◌else◌, insert, is_some, lookup, refl, some,
  string_Eq, true, ℕ, ◌<◌, ◌==◌, ◌∷◌, ◌≡◌,
}
use arcana_server.Common.Int.{int}
use arcana_server.StateRes.Event.{EventId}
use arcana_server.StateRes.Result.{ok}
use arcana_server.StateRes.Samples.{ruma}
use arcana_server.StateRes.Resolve.Topological.{
  Graph, KeyFn, pop_least, remove, add_edges, push, push_if_empty, scan, visit, kahn,
  lexicographical_topological_sort,
}
use arcana_server.StateRes.Resolve.Topological.Parents.{
  EdgesFirst, edges_of, lexicographical_topological_sort-EdgesFirst,
}
use arcana_server.StateRes.Resolve.Topological.Complete.{lexicographical_topological_sort_complete}
use text.Mathlib.TextEquality.{eq_iff}
use arcana_server.StateRes.Resolve.Topological.Returns.{lexicographical_topological_sort-returns}

abbrev graph : Graph
graph =
    ("$l", "$o" ∷ [])
    ∷ ("$m", "$n" ∷ "$o" ∷ [])
    ∷ ("$n", "$o" ∷ [])
    ∷ ("$o", [])
    ∷ ("$p", "$o" ∷ [])
    ∷ []

abbrev keys_of : KeyFn
keys_of id = ok (int 0, 0)

abbrev order : List EventId
order = "$o" ∷ "$l" ∷ "$n" ∷ "$m" ∷ "$p" ∷ []

graph-UniqueKeys : UniqueKeys graph
graph-UniqueKeys = (refl, (refl, (refl, (refl, (refl, tt)))))

graph_sorted : lexicographical_topological_sort 10 ruma graph keys_of ≡ some (ok order)
unfolding lexicographical_topological_sort scan kahn visit push push_if_empty remove add_edges
    pop_least insert
graph_sorted = refl

lexicographical_topological_sort-EdgesFirst_example : EdgesFirst graph [] order
lexicographical_topological_sort-EdgesFirst_example =
    lexicographical_topological_sort-EdgesFirst 10 ruma graph keys_of order graph-UniqueKeys
      graph_sorted

lexicographical_topological_sort-returns_example :
    is_some (lexicographical_topological_sort 10 ruma graph keys_of) ≡ true
lexicographical_topological_sort-returns_example =
    lexicographical_topological_sort-returns 10 ruma graph keys_of graph-UniqueKeys (omega arith)

-- an edge from one node to another
abbrev edge : Graph
edge = ("$m", "$o" ∷ []) ∷ ("$o", []) ∷ []

edge_sorted : lexicographical_topological_sort 3 ruma edge keys_of ≡ some (ok ("$o" ∷ "$m" ∷ []))
unfolding lexicographical_topological_sort scan kahn visit push push_if_empty remove add_edges
    pop_least insert
edge_sorted = refl

abbrev rank : EventId → ℕ
rank id = if "$m" == id then 1 else 0

different_nodes : ◌≢◌ {A = EventId} "$m" "$o"
different_nodes = ground (arith, eq_iff "$m" "$o")

edge_ranked :
    (p e : EventId) → In e (edges_of edge p) → (rank e < rank p) × (is_some (lookup e edge) ≡ true)
edge_ranked p e m =
    ground (arith, eq_iff "$m" p, eq_iff "$o" p, eq_iff "$m" e, eq_iff "$o" e, different_nodes)

lexicographical_topological_sort_complete_example : In {A = EventId} "$m" ("$o" ∷ "$m" ∷ [])
lexicographical_topological_sort_complete_example =
    lexicographical_topological_sort_complete 3 ruma edge keys_of ("$o" ∷ "$m" ∷ []) rank
      edge_ranked edge_sorted "$m" refl
