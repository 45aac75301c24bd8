-- ===== src/StateRes/WholeTests.antt =====
-- The theorems on state resolution as a whole at a room in which two states of the power levels are
-- in conflict.
use arcana_server.Common.{
  ℕ, ◌≡◌, ◌⊎◌, inl, refl, true, Option, none, some, List, [], ◌∷◌, arith, is_some, ◌==◌, string_Eq,
  if◌then◌else◌, insert, In, contains,
}
use arcana_server.StateRes.Event.{
  EventId, Event, room_create, room_member, room_power_levels, is_type_and_key, TypeStateKey,
  type_state_key_Eq, room_id_or_hash,
}
use arcana_server.StateRes.Result.{ok}
use arcana_server.StateRes.RoomVersion.{id_v6, new, stateres_version}
use arcana_server.StateRes.Samples.{ruma, create_event, levels_event, alice_joins}
use arcana_server.StateRes.Resolve.Iterative.{StateMap, iterative_auth_check, check_event}
use arcana_server.StateRes.PowerLevels.{
  deserialize_power_levels, deserialize_power_levels_content_fields, get_user_power,
}
use arcana_server.StateRes.Auth.Check.{auth_check, check_in_room}
use arcana_server.StateRes.Auth.Check.Stages.{
  sender_power_level, is_unsupported, check_room, check_sent, check_sender_membership, check_power,
  check_levels_change, privileged_creators, check_redacts,
}
use arcana_server.StateRes.Auth.Levels.{
  check_power_levels, change_ok, users_ok, events_ok, notifications_ok, levels_ok,
}
use arcana_server.StateRes.Auth.Send.{can_send_event, get_send_level}
use arcana_server.StateRes.Auth.Types.{auth_types_for_event}
use arcana_server.StateRes.Resolve.Separate.Counts.{bump}
use arcana_server.StateRes.Resolve.Separate.Agree.{AllHold}
use arcana_server.StateRes.Resolve.Separate.{
  place, place_all, split_occurrences, count_pair, count_set, count_sets, separate, count_ids,
  count_chains, below_count, get_auth_chain_diff,
}
use arcana_server.StateRes.Resolve.Mainline.{mainline_sort}
use arcana_server.StateRes.Resolve.Topological.{
  pop_least, remove, add_edges, push, push_if_empty, scan, visit, kahn,
  lexicographical_topological_sort,
}
use arcana_server.StateRes.Resolve.Power.{
  is_power_event, is_power_event_id, find_power_levels, get_power_level_for_sender, add_auth_events,
  add_chain, add_event_and_auth_chain_to_graph, power_graph, event_to_pl, power_key,
  reverse_topological_power_sort,
}
use arcana_server.StateRes.Resolve.Power.Fuel.{
  Costs, Costs-Ranked, reverse_topological_power_sort-returns,
}
use arcana_server.StateRes.Resolve.Power.Sorted.{
  AuthFirst, reverse_topological_power_sort-AuthFirst, reverse_topological_power_sort_complete,
}
use arcana_server.StateRes.Resolve.Subgraph.{
  calculate_conflicted_subgraph, search, explore, expand, next_event, popping_order,
}
use arcana_server.StateRes.Resolve.Subgraph.Sound.{
  Below, Above, calculate_conflicted_subgraph-between,
}
use arcana_server.StateRes.Resolve.Subgraph.Fuel.{calculate_conflicted_subgraph-returns}
use arcana_server.StateRes.Resolve.Whole.{
  Setting, to_set, conflicting_ids, extend, starting_state, full_conflicted_set, resolve_remaining,
  resolve_conflicted, resolve_parts, resolve,
}
use arcana_server.StateRes.Resolve.Whole.Conflicted.{AcceptedIn}
use arcana_server.StateRes.Resolve.Whole.Resolved.{FullSet, resolve-AgreedOrAccepted}
use arcana_server.StateRes.Resolve.Whole.Fuel.{fuelled, resolve-returns}
use text.Mathlib.TextEquality.{eq_iff}

abbrev fork_alice : Event
fork_alice = record alice_joins { auth_events = "$create" ∷ [] }

abbrev fork_levels : Event
fork_levels = record levels_event { auth_events = "$create" ∷ "$alice" ∷ [] }

abbrev fork_later : Event
fork_later = record levels_event {
  event_id = "$later";
  auth_events = "$create" ∷ "$alice" ∷ "$levels" ∷ [];
}

abbrev fetch_fork : EventId → Option Event
fetch_fork id =
    if id == "$create"
    then some create_event
    else if id == "$alice"
    then some fork_alice
    else if id == "$levels"
    then some fork_levels
    else if id == "$later"
    then some fork_later
    else none

abbrev cost : EventId → ℕ
cost id =
    if id == "$alice" then 2 else if id == "$levels" then 4 else if id == "$later" then 8 else 1

fork-Costs : Costs fetch_fork cost
fork-Costs id =
    ground (arith, eq_iff id "$create", eq_iff id "$alice", eq_iff id "$levels", eq_iff id "$later")

abbrev power_events : List EventId
power_events = "$later" ∷ "$levels" ∷ []

fork_sorted :
    reverse_topological_power_sort 20 20 ruma (λ ids. ids) fetch_fork power_events power_events
    ≡ some (ok ("$levels" ∷ "$later" ∷ []))
unfolding reverse_topological_power_sort power_graph add_event_and_auth_chain_to_graph add_chain
    add_auth_events event_to_pl get_power_level_for_sender find_power_levels power_key
    lexicographical_topological_sort scan kahn visit push push_if_empty remove add_edges pop_least
    insert is_type_and_key get_user_power
fork_sorted = refl

reverse_topological_power_sort-AuthFirst_example :
    AuthFirst fetch_fork power_events [] ("$levels" ∷ "$later" ∷ [])
reverse_topological_power_sort-AuthFirst_example =
    reverse_topological_power_sort-AuthFirst 20 20 ruma (λ ids. ids) fetch_fork power_events
      power_events ("$levels" ∷ "$later" ∷ []) fork_sorted

reverse_topological_power_sort_complete_example :
    ((p : EventId) → In p power_events → In p ("$levels" ∷ "$later" ∷ []))
    × ((p : EventId)
        → In p ("$levels" ∷ "$later" ∷ [])
        → In p power_events ⊎ (contains power_events p ≡ true))
reverse_topological_power_sort_complete_example =
    reverse_topological_power_sort_complete 20 20 ruma (λ ids. ids) fetch_fork power_events
      power_events ("$levels" ∷ "$later" ∷ []) cost (Costs-Ranked fetch_fork cost fork-Costs)
      fork_sorted

reverse_topological_power_sort-returns_example :
    (fuel : ℕ) × (is_some (
        reverse_topological_power_sort 12 fuel ruma
          (λ ids. ids)
          fetch_fork
          power_events
          power_events)
      ≡ true)
reverse_topological_power_sort-returns_example =
    reverse_topological_power_sort-returns fetch_fork cost fork-Costs power_events 12 ruma
      (λ ids. ids) power_events (omega arith)

fork_between :
    calculate_conflicted_subgraph 20 power_events fetch_fork ≡ some ("$levels" ∷ "$later" ∷ [])
unfolding calculate_conflicted_subgraph search explore expand next_event popping_order
fork_between = refl

calculate_conflicted_subgraph-between_example :
    Below fetch_fork power_events "$levels" × Above fetch_fork power_events "$levels"
calculate_conflicted_subgraph-between_example =
    calculate_conflicted_subgraph-between 20 power_events fetch_fork ("$levels" ∷ "$later" ∷ [])
      fork_between "$levels" (inl refl)

abbrev universe : List EventId
universe = "$create" ∷ "$alice" ∷ "$levels" ∷ "$later" ∷ []

universe_known : (id : EventId) (e : Event) → fetch_fork id ≡ some e → In id universe
universe_known id e f =
    ground (arith, eq_iff id "$create", eq_iff id "$alice", eq_iff id "$levels", eq_iff id "$later")

calculate_conflicted_subgraph-returns_example :
    is_some (calculate_conflicted_subgraph 9 power_events fetch_fork) ≡ true
calculate_conflicted_subgraph-returns_example =
    calculate_conflicted_subgraph-returns fetch_fork universe power_events 9 universe_known
      (omega arith)

abbrev setting : Setting
setting = record {
  ruma = ruma;
  arrive = λ ids. ids;
  entries = λ entries. entries;
  fetch = fetch_fork;
  exists = λ id. true;
  subgraph_fuel = 20;
  chain_fuel = 20;
  sort_fuel = 20;
  mainline_fuel = 20;
}

abbrev levels_key : TypeStateKey
levels_key = (room_power_levels, "")

abbrev agreed : StateMap
agreed = ((room_create, ""), "$create") ∷ ((room_member, "@alice"), "$alice") ∷ []

abbrev state_sets : List StateMap
state_sets = ((levels_key, "$levels") ∷ agreed) ∷ ((levels_key, "$later") ∷ agreed) ∷ []

abbrev auth_chains : List (List EventId)
auth_chains = ("$create" ∷ "$alice" ∷ []) ∷ ("$create" ∷ "$alice" ∷ "$levels" ∷ []) ∷ []

abbrev resolved : StateMap
resolved =
    ((room_create, ""), "$create")
    ∷ ((room_member, "@alice"), "$alice")
    ∷ (levels_key, "$later")
    ∷ []

fork_resolved : resolve setting id_v6 state_sets auth_chains ≡ some (ok resolved)
unfolding resolve resolve_parts separate count_sets count_set count_pair bump split_occurrences
    place_all place starting_state stateres_version conflicting_ids full_conflicted_set to_set
    get_auth_chain_diff count_chains count_ids below_count resolve_conflicted resolve_remaining
    extend is_power_event_id is_power_event new mainline_sort reverse_topological_power_sort
    power_graph add_event_and_auth_chain_to_graph add_chain add_auth_events event_to_pl
    get_power_level_for_sender find_power_levels power_key lexicographical_topological_sort scan
    kahn visit push push_if_empty remove add_edges pop_least insert is_type_and_key get_user_power
    iterative_auth_check check_event auth_types_for_event auth_check check_in_room is_unsupported
    room_id_or_hash check_room check_sent check_sender_membership sender_power_level
    deserialize_power_levels_content_fields check_power can_send_event get_send_level
    check_levels_change privileged_creators check_power_levels deserialize_power_levels
    check_redacts change_ok users_ok events_ok notifications_ok levels_ok
fork_resolved = refl

resolve-AgreedOrAccepted_example :
    (AllHold (room_create, "") "$create" state_sets
      → ◌≡◌ {A = Option EventId} (some "$create") (some "$create"))
    × (◌≡◌ {A = Option EventId} (some "$create") (some "$create")
        → AllHold (room_create, "") "$create" state_sets
          ⊎ ((all : List EventId) × FullSet setting id_v6 auth_chains
                (separate state_sets).0
                (separate state_sets).1
                all
              × AcceptedIn setting id_v6 all (room_create, "") "$create"))
resolve-AgreedOrAccepted_example =
    resolve-AgreedOrAccepted setting id_v6 state_sets auth_chains resolved (λ ids a m. m)
      ((refl, (refl, (refl, tt))), ((refl, (refl, (refl, tt))), tt)) (omega arith) (omega arith)
      fork_resolved (room_create, "") "$create"

resolve-returns_example :
    (f1 : ℕ) × (f2 : ℕ) × (f3 : ℕ) × (f4 : ℕ) × (is_some
        (resolve (fuelled setting f1 f2 f3 f4) id_v6 state_sets auth_chains)
      ≡ true)
resolve-returns_example =
    resolve-returns setting cost fork-Costs universe universe_known id_v6 state_sets auth_chains
