-- ===== src/StateRes/Resolve/Subgraph.antt =====
-- `calculate_conflicted_subgraph` of src/core/matrix/state_res/mod.rs: a search from the conflicted
-- events through their auth events, on fuel. Vectors are lists with the last item first, sets are
-- lists; the conflicted events come in the order in which the search takes them.
pub mod Sound
pub mod Fuel
use arcana_server.Common.{
  ℕ, zero, suc, Bool, true, ◌&&◌, Option, none, some, List, [], ◌∷◌, ◌++◌, length, contains, ltb,
  string_Eq, if◌then◌else◌,
}
use arcana_server.StateRes.Event.{EventId, Event}
use arcana_server.StateRes.Resolve.Iterative.{Fetch}

abbrev pub Stack : Type 0
Stack = List (List EventId)

-- `Vec::pop`
abbrev pub rest_of : List EventId → List EventId
rest_of [] = []
rest_of (id ∷ path) = path

-- the items in the order in which `Vec::pop` takes them
unfoldable pub popping_order : List EventId → List EventId
popping_order [] = []
popping_order (id ∷ ids) = popping_order ids ++ (id ∷ [])

-- the next event, with the stack and the path that are left
unfoldable pub next_event : Stack → List EventId → Option (EventId × Stack × List EventId)
next_event [] path = none
next_event ([] ∷ stack) path = next_event stack (rest_of path)
next_event ((id ∷ ids) ∷ stack) path = some (id, ids ∷ stack, path)

-- the state of the search
pub record Search : Type 0 where
  pub stack : Stack
  pub path : List EventId
  pub seen : List EventId
  pub subgraph : List EventId

-- `if … && path.len() > 1 { subgraph.extend(path) }`
abbrev pub extend_if : Bool → List EventId → List EventId → List EventId
extend_if test path subgraph = if test && ltb 1 (length path) then path ++ subgraph else subgraph

-- the end of a round, for an event that is not in the subgraph: its auth events are pushed
unfoldable pub expand : Fetch → EventId → Search → Search
expand fetch event_id s =
    if contains s.seen event_id then record s { path = rest_of s.path } else elim (fetch event_id) [
      | none ↦ record s { path = rest_of s.path }
      | some evt ↦ record s {
        stack = popping_order evt.auth_events ∷ s.stack;
        seen = event_id ∷ s.seen;
      }
    ]

-- a round of the search; the path already ends in the event
unfoldable pub explore : List EventId → Fetch → EventId → Search → Search
unfolding expand
explore conflicted fetch event_id s =
    if contains s.subgraph event_id
    then record s { path = rest_of s.path; subgraph = extend_if true s.path s.subgraph }
    else expand fetch event_id
        (record s { subgraph = extend_if (contains conflicted event_id) s.path s.subgraph })

-- `while let Some(event_id) = next_event(…)`
unfoldable pub search : ℕ → List EventId → Fetch → Search → Option (List EventId)
unfolding next_event explore
search zero conflicted fetch s = none
search (suc fuel) conflicted fetch s = elim (next_event s.stack s.path) [
  | none ↦ some s.subgraph
  | some (event_id, stack, path) ↦
      search fuel conflicted fetch
        (explore conflicted fetch event_id (record s { stack = stack; path = event_id ∷ path }))
]

unfoldable pub calculate_conflicted_subgraph : ℕ → List EventId → Fetch → Option (List EventId)
unfolding search
calculate_conflicted_subgraph fuel conflicted fetch =
    search fuel conflicted fetch
      (record { stack = conflicted ∷ []; path = []; seen = []; subgraph = [] })
