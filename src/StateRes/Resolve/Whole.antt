-- ===== src/StateRes/Resolve/Whole.antt =====
-- `resolve` of src/core/matrix/state_res/mod.rs: the whole of state resolution. The fuels are for
-- the conflicted subgraph, an auth chain, the topological sort and the mainline; `none` is a run out
-- of one of them.
pub mod Conflicted
pub mod Resolved
pub mod Fuel
use arcana_server.Common.{
  ℕ, Bool, true, false, not, Option, none, some, List, [], ◌∷◌, ◌++◌, lookup, insert, contains,
  string_Eq, if◌then◌else◌,
}
use arcana_server.StateRes.Content.{Ruma}
use arcana_server.StateRes.Event.{
  EventId, Event, TypeStateKey, type_state_key_Eq, room_power_levels,
}
use arcana_server.StateRes.Result.{Result, ok, err, panic, ◌>>=◌}
use arcana_server.StateRes.RoomVersion.{
  RoomVersion, RoomVersionId, StateResolutionVersion, res_v1, res_v2, res_v2_1, new,
  stateres_version,
}
use arcana_server.StateRes.Resolve.Separate.{separate, get_auth_chain_diff}
use arcana_server.StateRes.Resolve.Iterative.{
  Fetch, Arrival, MapOrder, StateMap, iterative_auth_check,
}
use arcana_server.StateRes.Resolve.Mainline.{mainline_sort}
use arcana_server.StateRes.Resolve.Topological.{add}
use arcana_server.StateRes.Resolve.Power.{is_power_event_id, reverse_topological_power_sort}
use arcana_server.StateRes.Resolve.Subgraph.{calculate_conflicted_subgraph}

-- What `resolve` is given and what bounds its loops; `arrive` is also the order in which a set gives
-- its items, and `entries` that in which a map gives its entries.
pub record Setting : Type 0 where
  pub ruma : Ruma
  pub arrive : Arrival
  pub entries : MapOrder
  pub fetch : Fetch
  pub exists : EventId → Bool
  pub subgraph_fuel : ℕ
  pub chain_fuel : ℕ
  pub sort_fuel : ℕ
  pub mainline_fuel : ℕ

abbrev pub filter : (EventId → Bool) → List EventId → List EventId
filter test [] = []
filter test (id ∷ ids) = if test id then id ∷ filter test ids else filter test ids

-- `.collect()` into a set
unfoldable pub to_set : List EventId → List EventId
to_set [] = []
to_set (id ∷ ids) = add id (to_set ids)

-- `into_values().flatten()`
unfoldable pub conflicting_ids : List (TypeStateKey × List EventId) → List EventId
conflicting_ids [] = []
conflicting_ids ((key, ids) ∷ rest) = ids ++ conflicting_ids rest

-- `extend`
unfoldable pub extend : StateMap → StateMap → StateMap
extend state [] = state
extend state ((key, id) ∷ rest) = extend (insert key id state) rest

-- an outcome of a loop on fuel, and what is done with it
infixl 5 ◌then_run◌
abbrev pub ◌then_run◌ :
    {A B : Type 0} → Option (Result A) → (A → Option (Result B)) → Option (Result B)
none then_run next = none
some (ok a) then_run next = next a
some (err e) then_run next = some (err e)
some panic then_run next = some panic

-- the conflicted subgraph, whose search takes the conflicted events from a set, and the state that
-- the checks start from
unfoldable pub starting_state :
    Setting
    → StateResolutionVersion
    → List EventId
    → StateMap
    → Option (Result (List EventId × StateMap))
unfolding to_set
starting_state s res_v2_1 conflicted unconflicted =
    elim (calculate_conflicted_subgraph s.subgraph_fuel (s.arrive (to_set conflicted)) s.fetch) [
      | none ↦ none
      | some subgraph ↦ some (ok (subgraph, []))
    ]
starting_state s _ conflicted unconflicted = some (ok ([], unconflicted))

-- `all_conflicted`
unfoldable pub full_conflicted_set :
    Setting → List (List EventId) → List EventId → List EventId → List EventId
unfolding to_set
full_conflicted_set s auth_chain_sets conflicted subgraph =
    s.arrive
      (to_set (filter s.exists (get_auth_chain_diff auth_chain_sets ++ conflicted) ++ subgraph))

-- the end of `resolve`: the events that are not control events
unfoldable pub resolve_remaining :
    Setting
    → RoomVersion
    → StateMap
    → List EventId
    → List EventId
    → StateMap
    → Option (Result StateMap)
unfolding extend
resolve_remaining s version unconflicted all_conflicted sorted_control_levels resolved_control =
    mainline_sort s.mainline_fuel s.ruma s.fetch
      (filter (λ id. not (contains sorted_control_levels id)) all_conflicted)
      (lookup (room_power_levels, "") resolved_control)
    then_run λ sorted_left_events.
        some (
          iterative_auth_check s.ruma version s.arrive s.entries s.fetch sorted_left_events
            resolved_control)
        then_run λ resolved_state. some (ok (extend resolved_state unconflicted))

-- from the sort of the control events on
unfoldable pub resolve_conflicted :
    Setting → RoomVersionId → StateMap → List EventId → StateMap → Option (Result StateMap)
unfolding resolve_remaining
resolve_conflicted s room_version unconflicted all_conflicted initial_state =
    let control_events = s.arrive (filter (is_power_event_id s.ruma s.fetch) all_conflicted) in
    reverse_topological_power_sort s.chain_fuel s.sort_fuel s.ruma s.arrive s.fetch control_events
      all_conflicted
    then_run λ sorted_control_levels. some (new room_version) then_run λ version.
        some (
          iterative_auth_check s.ruma version s.arrive s.entries s.fetch sorted_control_levels
            initial_state)
        then_run λ resolved_control.
            resolve_remaining s version unconflicted all_conflicted sorted_control_levels
              resolved_control

-- without conflicts nothing is left to resolve
unfoldable pub resolve_parts :
    Setting
    → RoomVersionId
    → List (List EventId)
    → StateMap
    → List (TypeStateKey × List EventId)
    → Option (Result StateMap)
unfolding starting_state full_conflicted_set resolve_conflicted
resolve_parts s room_version auth_chain_sets unconflicted [] = some (ok unconflicted)
resolve_parts s room_version auth_chain_sets unconflicted (entry ∷ rest) =
    let conflicted = conflicting_ids (entry ∷ rest) in
    starting_state s (stateres_version room_version) conflicted unconflicted then_run λ start.
    resolve_conflicted s room_version unconflicted
      (full_conflicted_set s auth_chain_sets conflicted start.0) start.1

unfoldable pub resolve :
    Setting → RoomVersionId → List StateMap → List (List EventId) → Option (Result StateMap)
unfolding resolve_parts
resolve s room_version state_sets auth_chain_sets =
    let parts = separate state_sets in resolve_parts s room_version auth_chain_sets parts.0 parts.1
