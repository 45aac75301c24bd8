-- ===== src/StateRes/Auth/Send.antt =====
-- `get_send_level`, `can_send_event` and `check_redaction` of event_auth.rs.
use arcana_server.Common.{
  String, Bool, true, false, ◌&&◌, not, Option, none, some, lookup, ◌==◌, string_Eq, option_Eq,
  if◌then◌else◌, is_some, is_some_and,
}
use arcana_server.Common.Int.{ℤ, int, ltb_ℤ, leb_ℤ}
use arcana_server.StateRes.Content.{Ruma, PowerLevelsContent}
use arcana_server.StateRes.Event.{EventId, Event, EventType, event_type_Eq, ServerName}
use text.Mathlib.Text.{starts_with}

-- the level of an event type in a content
abbrev level_in : EventType → Option String → PowerLevelsContent → ℤ
level_in e_type state_key content = elim (lookup e_type content.events) [
  | some level ↦ level
  | none ↦ if is_some state_key then content.state_default else content.events_default
]

abbrev level_without_content : Option String → ℤ
level_without_content state_key = if is_some state_key then int 50 else int 0

abbrev parsed_level : EventType → Option String → Option PowerLevelsContent → ℤ
parsed_level e_type state_key none = level_without_content state_key
parsed_level e_type state_key (some content) = level_in e_type state_key content

unfoldable pub get_send_level : Ruma → EventType → Option String → Option Event → ℤ
get_send_level r e_type state_key none = level_without_content state_key
get_send_level r e_type state_key (some ple) =
    parsed_level e_type state_key (r.power_levels ple.content)

unfoldable pub can_send_event : Ruma → Event → Option Event → ℤ → Bool
can_send_event r event ple user_level =
    if ltb_ℤ user_level (get_send_level r event.event_type event.state_key ple)
    then false
    else if is_some_and event.state_key (λ k. starts_with k "@")
        && not (event.state_key == some event.sender)
    then false
    else true

-- `.and_then(|id| id.server_name())`
abbrev server_of : Ruma → Option EventId → Option ServerName
server_of r none = none
server_of r (some id) = r.event_server id

unfoldable pub check_redaction : Ruma → Event → ℤ → ℤ → Bool
check_redaction r redaction_event user_level redact_level =
    if leb_ℤ redact_level user_level
    then true
    else if r.event_server redaction_event.event_id == server_of r redaction_event.redacts
    then true
    else false
