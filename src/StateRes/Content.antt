-- ===== src/StateRes/Content.antt =====
-- The contents that the authorisation rules read: the structs of
-- src/core/matrix/state_res/event_auth.rs and power_levels.rs, and those of ruma. Parsing is
-- serde_json's and ruma's, so the parsers are the fields of `Ruma`, a parameter of the model.
use Prim.Native.Nat.{Ordering}
use arcana_server.Common.{String, Option, Bool, List}
use arcana_server.Common.Int.{ℤ}
use arcana_server.StateRes.Event.{
  UserId, EventId, RoomId, ServerName, Content, EventType, MembershipState, JoinRule,
}

-- `Raw<T>`: a value that is parsed when it is read; `none` where that fails
pub record Raw {ℓ} (A : Type ℓ) : Type ℓ where
  pub deserialize : Option A

pub record RoomMemberContentFields : Type 0 where
  pub membership : Option (Raw MembershipState)
  pub join_authorised_via_users_server : Option (Raw UserId)

-- `room_version` is parsed into an identifier, which is used by nothing but the parse's success.
pub record RoomCreateContentFields : Type 0 where
  pub room_version : Option (Raw String)
  pub creator : Option (Raw (Unit {0}))
  pub additional_creators : Option (List (Raw UserId))
  pub federate : Bool

-- `ThirdPartyInvite` of ruma, with the fields of its `signed`
pub record ThirdPartyInvite : Type 0 where
  pub mxid : UserId
  pub token : String

-- `RoomThirdPartyInviteEventContent`: the decoded key, and the list of decoded keys
pub record ThirdPartyInviteContent : Type 0 where
  pub public_key : String
  pub public_keys : Option (List String)

-- the fields that `auth_types_for_event` reads of a member event
pub record AuthTypesContentFields : Type 0 where
  pub membership : Option (Raw MembershipState)
  pub third_party_invite : Option (Raw ThirdPartyInvite)
  pub join_authorised_via_users_server : Option (Raw UserId)

-- `NotificationPowerLevels` and `IntNotificationPowerLevels`
pub record NotificationPowerLevels : Type 0 where
  pub room : ℤ

-- `RoomPowerLevelsEventContent`; its maps are `BTreeMap`s
pub record PowerLevelsContent : Type 0 where
  pub ban : ℤ
  pub events : List (EventType × ℤ)
  pub events_default : ℤ
  pub invite : ℤ
  pub kick : ℤ
  pub redact : ℤ
  pub state_default : ℤ
  pub users : List (UserId × ℤ)
  pub users_default : ℤ
  pub notifications : NotificationPowerLevels

-- `IntRoomPowerLevelsEventContent`
pub record IntPowerLevelsContent : Type 0 where
  pub ban : ℤ
  pub events : List (EventType × ℤ)
  pub events_default : ℤ
  pub invite : ℤ
  pub kick : ℤ
  pub redact : ℤ
  pub state_default : ℤ
  pub users : List (UserId × ℤ)
  pub users_default : ℤ
  pub notifications : NotificationPowerLevels

-- `PowerLevelsContentFields` and `IntPowerLevelsContentFields`
pub record PowerLevelsContentFields : Type 0 where
  pub users : List (UserId × ℤ)
  pub users_default : ℤ

pub record IntPowerLevelsContentFields : Type 0 where
  pub users : List (UserId × ℤ)
  pub users_default : ℤ

-- `PowerLevelsContentInvite` and `IntPowerLevelsContentInvite`
pub record PowerLevelsContentInvite : Type 0 where
  pub invite : ℤ

pub record IntPowerLevelsContentInvite : Type 0 where
  pub invite : ℤ

-- `PowerLevelsContentRedact` and `IntPowerLevelsContentRedact`
pub record PowerLevelsContentRedact : Type 0 where
  pub redact : ℤ

pub record IntPowerLevelsContentRedact : Type 0 where
  pub redact : ℤ

-- the names of `levels` in `check_power_levels`
pub data LevelName : Type 0 where
  users_default events_default state_default ban redact kick invite : LevelName

-- What the code calls of ruma and serde_json: the parts of identifiers, the parsers of contents
-- (`none` is a parse error), the default power levels, the levels that a serialised content holds
-- (`to_value` and `get` in `check_power_levels`), and the orders of identifiers.
pub record Ruma : Type 0 where
  pub user_server : UserId → ServerName
  pub room_server : RoomId → Option ServerName
  pub event_server : EventId → Option ServerName
  pub cmp_user : UserId → UserId → Ordering
  pub cmp_event : EventId → EventId → Ordering
  pub is_user_id : String → Bool
  pub as_room_id : EventId → Option RoomId
  pub as_event_id : RoomId → Option EventId
  pub create_fields : Content → Option RoomCreateContentFields
  pub create_creator : Content → Option (Option UserId)
  pub member_fields : Content → Option RoomMemberContentFields
  pub auth_types_fields : Content → Option AuthTypesContentFields
  pub membership : Content → Option MembershipState
  pub member_content : Content → Option MembershipState
  pub third_party_invite : Content → Option (Option (Raw ThirdPartyInvite))
  pub third_party_content : Content → Option ThirdPartyInviteContent
  pub base64 : String → Option String
  pub join_rule : Content → Option JoinRule
  pub power_levels : Content → Option PowerLevelsContent
  pub int_power_levels : Content → Option IntPowerLevelsContent
  pub power_fields : Content → Option PowerLevelsContentFields
  pub int_power_fields : Content → Option IntPowerLevelsContentFields
  pub power_invite : Content → Option PowerLevelsContentInvite
  pub int_power_invite : Content → Option IntPowerLevelsContentInvite
  pub power_redact : Content → Option PowerLevelsContentRedact
  pub int_power_redact : Content → Option IntPowerLevelsContentRedact
  pub default_power_levels : PowerLevelsContent
  pub level_value : PowerLevelsContent → LevelName → Option ℤ
