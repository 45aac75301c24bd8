-- ===== src/StateRes/Resolve/Iterative.antt =====
-- `iterative_auth_check` of src/core/matrix/state_res/mod.rs. The streams of the source fetch
-- events concurrently and collect them in the order in which the fetches finish, which is a
-- parameter for the events to check; the auth events go into a map.
pub mod Provenance
use arcana_server.Common.{
  String, ◌≡◌, Bool, true, false, not, Option, none, some, List, [], ◌∷◌, ◌++◌, lookup, insert,
  contains, ◌==◌, string_Eq, if◌then◌else◌,
}
use arcana_server.StateRes.Content.{Ruma}
use arcana_server.StateRes.Event.{
  EventId, Event, EventType, event_type_Eq, room_create, room_third_party_invite, TypeStateKey,
  type_state_key_Eq, room_id_or_hash,
}
use arcana_server.StateRes.Result.{
  Result, ok, err, panic, not_found, invalid_pdu, ◌>>=◌, ok_or, unwrap,
}
use arcana_server.StateRes.RoomVersion.{RoomVersion}
use arcana_server.StateRes.Auth.Check.{auth_check}
use arcana_server.StateRes.Auth.Types.{auth_types_for_event}

abbrev pub Fetch : Type 0
Fetch = EventId → Option Event

-- The order in which concurrent fetches of the listed events finish.
abbrev pub Arrival : Type 0
Arrival = List EventId → List EventId

abbrev pub StateMap : Type 0
StateMap = List (TypeStateKey × EventId)

abbrev pub AuthState : Type 0
AuthState = List (TypeStateKey × Event)

-- The order in which a state, which is a hash map, gives its entries.
abbrev pub MapOrder : Type 0
MapOrder = AuthState → AuthState

-- `try_collect` of the events to check
unfoldable pub fetch_all : Fetch → List EventId → Result (List Event)
fetch_all fetch [] = ok []
fetch_all fetch (id ∷ rest) = do
  event ← ok_or (fetch id) not_found
  events ← fetch_all fetch rest
  ok (event ∷ events)

-- the set of the auth event IDs of all events
add_ids : List EventId → List EventId → List EventId
add_ids [] ids = ids
add_ids (id ∷ rest) ids = add_ids rest (if contains ids id then ids else ids ++ (id ∷ []))

unfoldable pub auth_event_ids : List Event → List EventId → List EventId
unfolding add_ids
auth_event_ids [] ids = ids
auth_event_ids (event ∷ rest) ids = auth_event_ids rest (add_ids event.auth_events ids)

-- the fetched auth events, by their own IDs
unfoldable pub fetch_auth_events :
    Fetch → List EventId → List (EventId × Event) → List (EventId × Event)
fetch_auth_events fetch [] events = events
fetch_auth_events fetch (id ∷ rest) events =
    fetch_auth_events fetch rest
      (elim (fetch id) [ none ↦ events | some event ↦ insert event.event_id event events ])

-- the creation event, where the room ID is its hash
create_by_hash : Ruma → RoomVersion → Fetch → Event → Result AuthState
create_by_hash r version fetch event =
    if version.room_ids_as_hashes
    then (do
      room_id ← room_id_or_hash r.as_room_id event
      create_id ← ok_or (r.as_event_id room_id) invalid_pdu
      create_event ← ok_or (fetch create_id) not_found
      ok (((create_event.event_type, ""), create_event) ∷ []))
    else ok []

-- the loop over the event's own auth events
add_auth_events : List (EventId × Event) → List EventId → AuthState → Result AuthState
add_auth_events auth_events [] state = ok state
add_auth_events auth_events (aid ∷ rest) state = elim (lookup aid auth_events) [
  | none ↦ add_auth_events auth_events rest state
  | some ev ↦ do
    state_key ← ok_or ev.state_key invalid_pdu
    add_auth_events auth_events rest (insert (ev.event_type, state_key) ev state)
]

-- the event of a key of the resolved state
resolved_event : Fetch → List (EventId × Event) → StateMap → TypeStateKey → Option Event
resolved_event fetch auth_events resolved key = elim (lookup key resolved) [
  | none ↦ none
  | some id ↦ elim (lookup id auth_events) [ some event ↦ some event | none ↦ fetch id ]
]

-- what the resolved state says overrides the event's own auth events
add_resolved : Fetch → List (EventId × Event) → StateMap → List TypeStateKey → AuthState → AuthState
unfolding resolved_event
add_resolved fetch auth_events resolved [] state = state
add_resolved fetch auth_events resolved (key ∷ rest) state =
    add_resolved fetch auth_events resolved rest
      (elim (resolved_event fetch auth_events resolved key) [
        | none ↦ state
        | some event ↦ insert key event state
      ])

-- `find_map` over the entries, in the order in which the hash map gives them
third_party_event : AuthState → Option Event
third_party_event [] = none
third_party_event ((key, pdu) ∷ rest) =
    if pdu.event_type == room_third_party_invite then some pdu else third_party_event rest

-- the state that an event is checked against
unfoldable pub auth_state_of :
    Ruma
    → RoomVersion
    → Fetch
    → List (EventId × Event)
    → StateMap
    → String
    → Event
    → Result AuthState
unfolding create_by_hash add_auth_events add_resolved
auth_state_of r version fetch auth_events resolved state_key event = do
  auth_types ←
      auth_types_for_event r event.event_type event.sender (some state_key) event.content version
  created ← create_by_hash r version fetch event
  own ← add_auth_events auth_events event.auth_events created
  ok (add_resolved fetch auth_events resolved auth_types own)

abbrev pub fetch_from : AuthState → EventType → String → Option Event
fetch_from state ty key = lookup (ty, key) state

-- `auth_check` on that state; the `expect` of the creation event panics
unfoldable pub check_event : Ruma → RoomVersion → MapOrder → AuthState → Event → Result Bool
unfolding third_party_event
check_event r version entries state event = do
  create_event ← unwrap (fetch_from state room_create "")
  auth_check r version event (third_party_event (entries state)) (fetch_from state) create_event

-- the loop over the events to check
unfoldable pub check_loop :
    Ruma
    → RoomVersion
    → MapOrder
    → Fetch
    → List (EventId × Event)
    → List Event
    → StateMap
    → Result StateMap
unfolding auth_state_of
check_loop r version entries fetch auth_events [] resolved = ok resolved
check_loop r version entries fetch auth_events (event ∷ rest) resolved = do
  state_key ← ok_or event.state_key invalid_pdu
  state ← auth_state_of r version fetch auth_events resolved state_key event
  accepted ← check_event r version entries state event
  check_loop r version entries fetch auth_events rest
      (if accepted then insert (event.event_type, state_key) event.event_id resolved else resolved)

unfoldable pub iterative_auth_check :
    Ruma → RoomVersion → Arrival → MapOrder → Fetch → List EventId → StateMap → Result StateMap
unfolding fetch_all auth_event_ids fetch_auth_events check_loop
iterative_auth_check r version arrive entries fetch events_to_check unconflicted_state = do
  events ← fetch_all fetch (arrive events_to_check)
  let auth_events = fetch_auth_events fetch (auth_event_ids events []) []
  check_loop r version entries fetch auth_events events unconflicted_state
