-- ===== src/StateRes/Auth/Types.antt =====
-- `auth_types_for_event` of event_auth.rs: which state authenticates an event.
use arcana_server.Common.{
  String, ◌||◌, Option, none, some, List, [], ◌∷◌, ◌++◌, contains, ◌==◌, string_Eq, if◌then◌else◌,
}
use arcana_server.StateRes.Content.{Ruma, Raw, ThirdPartyInvite, AuthTypesContentFields}
use arcana_server.StateRes.Event.{
  UserId, Content, EventType, event_type_Eq, room_create, room_member, room_power_levels,
  room_join_rules, room_third_party_invite, MembershipState, membership_Eq, join, invite, knock,
  TypeStateKey, type_state_key_Eq,
}
use arcana_server.StateRes.Result.{Result, ok, ◌>>=◌, json}
use arcana_server.StateRes.RoomVersion.{RoomVersion}

-- `if !auth_types.contains(&key) { auth_types.push(key) }`
unfoldable pub push_new : TypeStateKey → List TypeStateKey → List TypeStateKey
push_new key auth_types = if contains auth_types key then auth_types else auth_types ++ (key ∷ [])

-- `o.map(|m| m.deserialize())` matched against `Some(Ok(_))`
abbrev pub valid_raw {ℓ} : {A : Type ℓ} → Option (Raw A) → Option A
valid_raw none = none
valid_raw (some m) = m.deserialize

-- what is selected before the type of the event is looked at
abbrev base_types : RoomVersion → UserId → List TypeStateKey
base_types version sender =
    if version.room_ids_as_hashes
    then (room_power_levels, "") ∷ (room_member, sender) ∷ []
    else (room_power_levels, "") ∷ (room_member, sender) ∷ (room_create, "") ∷ []

abbrev push_authoriser : Option UserId → List TypeStateKey → List TypeStateKey
push_authoriser none types = types
push_authoriser (some u) types = push_new (room_member, u) types

abbrev push_third_party : Option ThirdPartyInvite → List TypeStateKey → List TypeStateKey
push_third_party none types = types
push_third_party (some t_id) types = push_new (room_third_party_invite, t_id.token) types

-- the body of `if let Some(Ok(membership))`
member_types :
    AuthTypesContentFields → MembershipState → String → List TypeStateKey → List TypeStateKey
member_types content membership state_key types =
    let entering = membership == join || membership == invite || membership == knock in
    let ruled =
      (if entering
        then push_authoriser (valid_raw content.join_authorised_via_users_server)
            (push_new (room_join_rules, "") types)
        else types) in
    let targeted = push_new (room_member, state_key) ruled in
    if membership == invite
    then push_third_party (valid_raw content.third_party_invite) targeted
    else targeted

types_of_member : Ruma → Option String → Content → List TypeStateKey → Result (List TypeStateKey)
unfolding member_types
types_of_member r none content types = ok types
types_of_member r (some state_key) content types = do
  fields ← json (r.auth_types_fields content)
  elim (valid_raw fields.membership) [
    | none ↦ ok types
    | some membership ↦ ok (member_types fields membership state_key types)
  ]

unfoldable pub auth_types_for_event :
    Ruma → EventType → UserId → Option String → Content → RoomVersion → Result (List TypeStateKey)
unfolding types_of_member
auth_types_for_event r kind sender state_key content version =
    if kind == room_create
    then ok []
    else if kind == room_member
    then types_of_member r state_key content (base_types version sender)
    else ok (base_types version sender)
