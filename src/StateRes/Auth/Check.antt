-- ===== src/StateRes/Auth/Check.antt =====
-- `auth_check` of event_auth.rs. Each stage is a function that ends in the next one, so a rejection
-- is the early `return Ok(false)` of the source; log lines are left out.
pub mod Stages
pub mod Create
pub mod Sound
pub mod Power
use arcana_server.Common.{
  ◌≡◌, Bool, true, false, ◌&&◌, not, Option, none, some, List, ◌==◌, string_Eq, if◌then◌else◌,
  is_some,
}
use arcana_server.StateRes.Content.{Ruma}
use arcana_server.StateRes.Event.{
  EventId, Event, EventType, event_type_Eq, room_create, room_aliases, room_member,
  room_power_levels, room_id_or_hash,
}
use arcana_server.StateRes.Result.{Result, ok, ◌>>=◌, json, unwrap}
use arcana_server.StateRes.RoomVersion.{RoomVersion}
pub use Stages.{
  State, check_create, check_room, check_aliases, check_member, check_sender_membership,
  sender_power_level, check_levels_change, check_redacts, check_sent, is_unsupported,
}

-- from the comparison of room IDs on, for an event that is not the creation of its room
unfoldable pub check_in_room :
    Ruma → RoomVersion → Event → Option Event → State → Event → Result Bool
check_in_room r version incoming third_party fetch_state create_event = do
  create_content ← json (r.create_fields create_event.content)
  if is_unsupported create_content.room_version then ok false else (do
    expected_room_id ← room_id_or_hash r.as_room_id create_event
    let power_levels_event = fetch_state room_power_levels ""
    let sender_member_event = fetch_state room_member incoming.sender
    in_room ←
        check_room r version incoming power_levels_event create_event create_content
          expected_room_id
    if not in_room
        then ok false
        else if version.special_case_aliases_auth && incoming.event_type == room_aliases
        then ok (check_aliases r incoming)
        else if incoming.event_type == room_member
        then check_member r version incoming third_party fetch_state sender_member_event
            power_levels_event create_event
        else check_sent r version incoming sender_member_event power_levels_event create_event
            create_content expected_room_id)

unfoldable pub auth_check : Ruma → RoomVersion → Event → Option Event → State → Event → Result Bool
auth_check r version incoming third_party fetch_state create_event =
    if incoming.event_type == room_create
    then check_create r version incoming
    else check_in_room r version incoming third_party fetch_state create_event
