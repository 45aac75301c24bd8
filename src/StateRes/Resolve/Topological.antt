-- ===== src/StateRes/Resolve/Topological.antt =====
-- `lexicographical_topological_sort` of src/core/matrix/state_res/mod.rs: Kahn's algorithm from the
-- nodes without outgoing edges. Sets are lists; `none` is a run out of fuel.
pub mod Parents
pub mod Weight
mod Visit
mod Turned
pub mod Returns
mod Entered
pub mod Complete
pub mod Keyed
use Prim.Native.Nat.{compare, Ordering}
use arcana_server.Common.{
  ℕ, zero, suc, String, Bool, true, false, Option, none, some, List, [], ◌∷◌, ◌++◌, lookup, insert,
  contains, ◌==◌, string_Eq, if◌then◌else◌, map,
}
use arcana_server.Common.Int.{ℤ, ltb_ℤ}
use arcana_server.StateRes.Content.{Ruma}
use arcana_server.StateRes.Event.{EventId}
use arcana_server.StateRes.Result.{Result, ok, err, panic, ◌>>=◌, unwrap}

abbrev pub Graph : Type 0
Graph = List (EventId × List EventId)

pub record TieBreaker : Type 0 where
  pub power_level : ℤ
  pub origin_server_ts : ℕ
  pub event_id : EventId

abbrev pub KeyFn : Type 0
KeyFn = EventId → Result (ℤ × ℕ)

-- `self < other` in the order of `TieBreaker`: the higher power level comes first
abbrev pub is_before : Ruma → TieBreaker → TieBreaker → Bool
is_before r self other =
    if ltb_ℤ other.power_level self.power_level
    then true
    else if ltb_ℤ self.power_level other.power_level
    then false
    else elim (compare self.origin_server_ts other.origin_server_ts) [
      | Ordering.lt ↦ true
      | Ordering.gt ↦ false
      | Ordering.eq ↦ elim (r.cmp_event self.event_id other.event_id) [
        | Ordering.lt ↦ true
        | _ ↦ false
      ]
    ]

-- `BinaryHeap::pop` on reversed items: a least item, and the others
unfoldable pub pop_least : Ruma → TieBreaker → List TieBreaker → TieBreaker × List TieBreaker
pop_least r item [] = (item, [])
pop_least r item (other ∷ rest) =
    if is_before r other item
    then (let (least, others) = pop_least r other rest in (least, item ∷ others))
    else (let (least, others) = pop_least r item rest in (least, other ∷ others))

-- `HashSet::remove`
unfoldable pub remove : EventId → List EventId → List EventId
remove id [] = []
remove id (other ∷ rest) = let left = remove id rest in if other == id then left else other ∷ left

abbrev pub set_of : Option (List EventId) → List EventId
set_of none = []
set_of (some ids) = ids

abbrev pub add : EventId → List EventId → List EventId
add id ids = if contains ids id then ids else id ∷ ids

-- `for edge in edges { reverse_graph.entry(edge).or_default().insert(node) }`
unfoldable pub add_edges : EventId → List EventId → Graph → Graph
add_edges node [] reverse = reverse
add_edges node (edge ∷ edges) reverse =
    add_edges node edges (insert edge (add node (set_of (lookup edge reverse))) reverse)

unfoldable pub push : KeyFn → EventId → List TieBreaker → Result (List TieBreaker)
push key_fn id heap = do
  key ← key_fn id
  ok (record { power_level = key.0; origin_server_ts = key.1; event_id = id } ∷ heap)

abbrev pub is_empty : List EventId → Bool
is_empty [] = true
is_empty _ = false

-- `if edges.is_empty() { … push … }`
unfoldable pub push_if_empty :
    KeyFn → List EventId → EventId → List TieBreaker → Result (List TieBreaker)
unfolding push
push_if_empty key_fn edges id heap = if is_empty edges then push key_fn id heap else ok heap

-- the loop over the graph: the reverse graph, and the nodes without outgoing edges
unfoldable pub scan : KeyFn → Graph → Graph → List TieBreaker → Result (Graph × List TieBreaker)
unfolding push_if_empty add_edges
scan key_fn [] reverse heap = ok (reverse, heap)
scan key_fn ((node, edges) ∷ rest) reverse heap = do
  pushed ← push_if_empty key_fn edges node heap
  scan key_fn rest (add_edges node edges (insert node (set_of (lookup node reverse)) reverse))
      pushed

-- the loop over the parents of a node
unfoldable pub visit :
    KeyFn → EventId → List EventId → Graph → List TieBreaker → Result (Graph × List TieBreaker)
unfolding push_if_empty remove
visit key_fn node [] outdegree heap = ok (outdegree, heap)
visit key_fn node (parent ∷ parents) outdegree heap = do
  out ← unwrap (lookup parent outdegree)
  let left = remove node out
  pushed ← push_if_empty key_fn left parent heap
  visit key_fn node parents (insert parent left outdegree) pushed

abbrev visit_node :
    KeyFn → EventId → Graph → Graph → List TieBreaker → Result (Graph × List TieBreaker)
visit_node key_fn node reverse outdegree heap = do
  parents ← unwrap (lookup node reverse)
  visit key_fn node parents outdegree heap

-- `while let Some(Reverse(item)) = heap.pop()`
unfoldable pub kahn :
    ℕ
    → Ruma
    → KeyFn
    → Graph
    → Graph
    → List TieBreaker
    → List EventId
    → Option (Result (List EventId))
unfolding pop_least visit
kahn fuel r key_fn reverse outdegree [] sorted = some (ok sorted)
kahn zero r key_fn reverse outdegree (item ∷ rest) sorted = none
kahn (suc fuel) r key_fn reverse outdegree (item ∷ rest) sorted =
    let (least, others) = pop_least r item rest in
    elim (visit_node key_fn least.event_id reverse outdegree others) [
      | ok (outdegree', heap) ↦
          kahn fuel r key_fn reverse outdegree' heap (sorted ++ (least.event_id ∷ []))
      | err e ↦ some (err e)
      | panic ↦ some panic
    ]

unfoldable pub lexicographical_topological_sort :
    ℕ → Ruma → Graph → KeyFn → Option (Result (List EventId))
unfolding scan kahn
lexicographical_topological_sort fuel r graph key_fn = elim (scan key_fn graph [] []) [
  | ok (reverse, heap) ↦ kahn fuel r key_fn reverse graph heap []
  | err e ↦ some (err e)
  | panic ↦ some panic
]
