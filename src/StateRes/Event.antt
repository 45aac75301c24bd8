-- ===== src/StateRes/Event.antt =====
-- Identifiers, event types and events: src/core/matrix/event.rs (trait `Event`), the impl of
-- src/core/matrix/pdu.rs, and the ruma enumerations that the authorisation rules compare with.
-- Identifiers are texts, and a content is the text of a JSON object, as in `RawJsonValue`.
use text.Mathlib.TextEquality.{eq_iff}
use arcana_server.Common.{
  ℕ, String, ◌≡◌, ◌↔◌, Bool, true, false, ◌&&◌, Option, none, some, List, arith, Eq, string_Eq,
  option_Eq, ◌==◌, if◌then◌else◌, not,
}
use arcana_server.StateRes.Result.{Result, ok, unwrap}

abbrev pub UserId : Type 0
UserId = String

abbrev pub EventId : Type 0
EventId = String

abbrev pub RoomId : Type 0
RoomId = String

abbrev pub ServerName : Type 0
ServerName = String

abbrev pub Content : Type 0
Content = String

-- `TimelineEventType` and `StateEventType`: the variants that the code names, and the rest.
pub data EventType : Type 0 where
  room_create room_member room_power_levels room_join_rules : EventType
  room_third_party_invite room_aliases room_redaction : EventType
  other : String → EventType

abbrev pub event_type_eq : EventType → EventType → Bool
event_type_eq room_create room_create = true
event_type_eq room_member room_member = true
event_type_eq room_power_levels room_power_levels = true
event_type_eq room_join_rules room_join_rules = true
event_type_eq room_third_party_invite room_third_party_invite = true
event_type_eq room_aliases room_aliases = true
event_type_eq room_redaction room_redaction = true
event_type_eq (other a) (other b) = a == b
event_type_eq _ _ = false

pub event_type_eq_iff : (a b : EventType) → (event_type_eq a b ≡ true) ↔ (a ≡ b)
event_type_eq_iff (other a) (other b) = ground (arith, eq_iff a b)
event_type_eq_iff _ _ = ground arith

instance abbrev pub event_type_Eq : Eq EventType
event_type_Eq = record { eq = event_type_eq; eq_iff = event_type_eq_iff }

-- `MembershipState`; the last constructor stands for the custom values
pub data MembershipState : Type 0 where
  join invite leave ban knock custom : MembershipState

abbrev pub membership_eq : MembershipState → MembershipState → Bool
membership_eq join join = true
membership_eq invite invite = true
membership_eq leave leave = true
membership_eq ban ban = true
membership_eq knock knock = true
membership_eq custom custom = true
membership_eq _ _ = false

pub membership_eq_iff : (a b : MembershipState) → (membership_eq a b ≡ true) ↔ (a ≡ b)
membership_eq_iff join b = ground arith
membership_eq_iff _ b = ground arith

instance abbrev pub membership_Eq : Eq MembershipState
membership_Eq = record { eq = membership_eq; eq_iff = membership_eq_iff }

-- `JoinRule`; the allow rules of the restricted variants are not read by the code
pub data JoinRule : Type 0 where
  public invite_only knocking restricted knock_restricted private custom_rule : JoinRule

-- What the code reads of an event, by the accessors of the trait `Event`.
pub record Event : Type 0 where
  pub event_id : EventId
  pub room_id : Option RoomId
  pub sender : UserId
  pub event_type : EventType
  pub state_key : Option String
  pub content : Content
  pub prev_events : List EventId
  pub auth_events : List EventId
  pub redacts : Option EventId
  pub origin_server_ts : ℕ

-- `Pdu::room_id_or_hash`. `as_room_id` is the event ID with `!` for `$`, where ruma parses it.
unfoldable pub room_id_or_hash : (EventId → Option RoomId) → Event → Result RoomId
room_id_or_hash as_room_id e =
    if not (e.event_type == room_create)
    then unwrap e.room_id
    else elim e.room_id [ some room_id ↦ ok room_id | none ↦ unwrap (as_room_id e.event_id) ]

-- A key of a state map.
abbrev pub TypeStateKey : Type 0
TypeStateKey = EventType × String

abbrev pub type_state_key_eq : TypeStateKey → TypeStateKey → Bool
type_state_key_eq (t, k) (u, j) = t == u && k == j

pub type_state_key_eq_iff : (a b : TypeStateKey) → (type_state_key_eq a b ≡ true) ↔ (a ≡ b)
type_state_key_eq_iff (t, k) (u, j) = ground (arith, event_type_eq_iff t u, eq_iff k j)

instance abbrev pub type_state_key_Eq : Eq TypeStateKey
type_state_key_Eq = record { eq = type_state_key_eq; eq_iff = type_state_key_eq_iff }

-- `is_type_and_key` of src/core/matrix/state_res/mod.rs
unfoldable pub is_type_and_key : Event → EventType → String → Bool
is_type_and_key ev ev_type state_key = ev.event_type == ev_type && ev.state_key == some state_key
