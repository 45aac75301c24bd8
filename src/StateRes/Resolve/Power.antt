-- ===== src/StateRes/Resolve/Power.antt =====
-- The power events and their order, from src/core/matrix/state_res/mod.rs: `is_power_event`,
-- `get_power_level_for_sender`, `add_event_and_auth_chain_to_graph` and
-- `reverse_topological_power_sort`. The loop over an auth chain runs on fuel.
pub mod Chain
pub mod Start
pub mod Sorted
pub mod Fuel
use arcana_server.Common.{
  ℕ, zero, suc, String, Bool, true, false, not, ◌&&◌, ◌||◌, Option, none, some, List, [], ◌∷◌,
  lookup, insert, keys, contains, is_some, ◌==◌, string_Eq, option_Eq, if◌then◌else◌,
}
use arcana_server.Common.Int.{ℤ, int}
use arcana_server.StateRes.Content.{Ruma, PowerLevelsContentFields}
use arcana_server.StateRes.Event.{
  EventId, UserId, Event, MembershipState, membership_Eq, leave, ban, EventType, room_create,
  room_member, room_power_levels, room_join_rules, is_type_and_key,
}
use arcana_server.StateRes.PowerLevels.{get_user_power}
use arcana_server.StateRes.Result.{Result, ok, err, panic, not_found, ◌>>=◌, json, ok_or}
use arcana_server.StateRes.Resolve.Iterative.{Fetch, Arrival}
use arcana_server.StateRes.Resolve.Topological.{
  Graph, KeyFn, add, set_of, lexicographical_topological_sort,
}

-- `[Leave, Ban].contains(&membership) && Some(sender) != state_key`
abbrev removes_other : Event → Option MembershipState → Bool
removes_other e none = false
removes_other e (some m) = (m == leave || m == ban) && not (some e.sender == e.state_key)

abbrev is_power_type : Ruma → Event → EventType → Bool
is_power_type r e room_power_levels = e.state_key == some ""
is_power_type r e room_join_rules = e.state_key == some ""
is_power_type r e room_create = e.state_key == some ""
is_power_type r e room_member = removes_other e (r.member_content e.content)
is_power_type r e _ = false

unfoldable pub is_power_event : Ruma → Event → Bool
is_power_event r e = is_power_type r e e.event_type

unfoldable pub is_power_event_id : Ruma → Fetch → EventId → Bool
unfolding is_power_event
is_power_event_id r fetch id = elim (fetch id) [ none ↦ false | some e ↦ is_power_event r e ]

-- `event.as_ref().map(Event::auth_events).into_iter().flatten()`
abbrev pub auth_events_of : Option Event → List EventId
auth_events_of none = []
auth_events_of (some e) = e.auth_events

-- the first power levels event to arrive
unfoldable pub find_power_levels : Fetch → List EventId → Option Event
find_power_levels fetch [] = none
find_power_levels fetch (aid ∷ rest) =
    let later = find_power_levels fetch rest in
    elim (fetch aid) [
      | none ↦ later
      | some aev ↦ if is_type_and_key aev room_power_levels "" then some aev else later
    ]

-- the level of the event's sender, `users_default` where it has none or there is no event
abbrev sender_level : Ruma → PowerLevelsContentFields → Option Event → ℤ
sender_level r content none = content.users_default
sender_level r content (some e) = elim (get_user_power r content e.sender) [
  | some level ↦ level
  | none ↦ content.users_default
]

abbrev level_from : Ruma → Option Event → Option Event → Result ℤ
level_from r event none = ok (int 0)
level_from r event (some ev) = do
  content ← json (r.power_fields ev.content)
  ok (sender_level r content event)

unfoldable pub get_power_level_for_sender : Ruma → Arrival → Fetch → EventId → Result ℤ
unfolding find_power_levels
get_power_level_for_sender r arrive fetch id =
    level_from r (fetch id) (find_power_levels fetch (arrive (auth_events_of (fetch id))))

-- the loop over the auth events of `eid`: the graph and the stack
unfoldable pub add_auth_events :
    List EventId → EventId → List EventId → Graph → List EventId → Graph × List EventId
add_auth_events auth_diff eid [] graph state = (graph, state)
add_auth_events auth_diff eid (aid ∷ aids) graph state =
    let listed = contains auth_diff aid in
    add_auth_events auth_diff eid aids
      (if listed then insert eid (add aid (set_of (lookup eid graph))) graph else graph)
      (if listed && not (is_some (lookup aid graph)) then aid ∷ state else state)

-- `while let Some(eid) = state.pop()`
unfoldable pub add_chain : ℕ → Fetch → List EventId → Graph → List EventId → Option Graph
unfolding add_auth_events
add_chain fuel fetch auth_diff graph [] = some graph
add_chain zero fetch auth_diff graph (eid ∷ state) = none
add_chain (suc fuel) fetch auth_diff graph (eid ∷ state) =
    let next =
      add_auth_events auth_diff eid (auth_events_of (fetch eid))
        (insert eid (set_of (lookup eid graph)) graph) state in
    add_chain fuel fetch auth_diff next.0 next.1

unfoldable pub add_event_and_auth_chain_to_graph :
    ℕ → Fetch → List EventId → Graph → EventId → Option Graph
unfolding add_chain
add_event_and_auth_chain_to_graph fuel fetch auth_diff graph event_id =
    add_chain fuel fetch auth_diff graph (event_id ∷ [])

-- the loop over the events to sort
unfoldable pub power_graph : ℕ → Fetch → List EventId → List EventId → Graph → Option Graph
unfolding add_event_and_auth_chain_to_graph
power_graph fuel fetch auth_diff [] graph = some graph
power_graph fuel fetch auth_diff (event_id ∷ rest) graph =
    elim (add_event_and_auth_chain_to_graph fuel fetch auth_diff graph event_id) [
      | none ↦ none
      | some next ↦ power_graph fuel fetch auth_diff rest next
    ]

-- `event_to_pl`: events whose level is an error are left out
unfoldable pub event_to_pl : Ruma → Arrival → Fetch → List EventId → List (EventId × ℤ)
unfolding get_power_level_for_sender
event_to_pl r arrive fetch [] = []
event_to_pl r arrive fetch (id ∷ rest) = elim (get_power_level_for_sender r arrive fetch id) [
  | ok level ↦ (id, level) ∷ event_to_pl r arrive fetch rest
  | _ ↦ event_to_pl r arrive fetch rest
]

-- `fetcher`
unfoldable pub power_key : Fetch → List (EventId × ℤ) → KeyFn
power_key fetch levels event_id = do
  pl ← ok_or (lookup event_id levels) not_found
  ev ← ok_or (fetch event_id) not_found
  ok (pl, ev.origin_server_ts)

-- `chain_fuel` is for one auth chain, `fuel` for the sort.
unfoldable pub reverse_topological_power_sort :
    ℕ → ℕ → Ruma → Arrival → Fetch → List EventId → List EventId → Option (Result (List EventId))
unfolding power_graph event_to_pl power_key
reverse_topological_power_sort chain_fuel fuel r arrive fetch events_to_sort auth_diff =
    elim (power_graph chain_fuel fetch auth_diff events_to_sort []) [
      | none ↦ none
      | some graph ↦
          lexicographical_topological_sort fuel r graph
            (power_key fetch (event_to_pl r arrive fetch (keys graph)))
    ]
