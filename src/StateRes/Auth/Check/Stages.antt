-- ===== src/StateRes/Auth/Check/Stages.antt =====
-- The stages of `auth_check`.
use arcana_server.Common.{
  String, Bool, true, false, ◌&&◌, ◌||◌, not, Option, none, some, List, [], ◌∷◌, any, contains,
  ◌==◌, string_Eq, option_Eq, if◌then◌else◌, is_some, is_some_and,
}
use arcana_server.Common.Int.{ℤ, int, max_int, ltb_ℤ}
use arcana_server.StateRes.Content.{Ruma, Raw, RoomCreateContentFields}
use arcana_server.StateRes.Event.{
  UserId, RoomId, Event, EventType, event_type_Eq, room_member, room_power_levels, room_join_rules,
  room_third_party_invite, room_redaction, MembershipState, membership_Eq, join, leave,
}
use arcana_server.StateRes.PowerLevels.{
  deserialize_power_levels_content_invite, deserialize_power_levels_content_fields,
  deserialize_power_levels_content_redact, get_user_power,
}
use arcana_server.StateRes.Result.{Result, ok, err, invalid_pdu, ◌>>=◌, json, ok_or, unwrap}
use arcana_server.StateRes.RoomVersion.{RoomVersion}
use arcana_server.StateRes.Auth.Levels.{check_power_levels}
use arcana_server.StateRes.Auth.Membership.{valid_membership_change, raw_users}
use arcana_server.StateRes.Auth.Send.{can_send_event, check_redaction}
use arcana_server.StateRes.Auth.Types.{valid_raw}

-- `fetch_state`: the state against which the event is checked
abbrev pub State : Type 0
State = EventType → String → Option Event

-- `o.is_some_and(|v| v.deserialize().is_err())`
unfoldable pub is_unsupported : Option (Raw String) → Bool
is_unsupported none = false
is_unsupported (some v) = not (is_some v.deserialize)

-- `room_id.server_name()` against the sender's, where the event has a room ID
unfoldable pub room_id_matches : Ruma → Event → Option RoomId → Bool
room_id_matches r e none = true
room_id_matches r e (some room_id) = elim (r.room_server room_id) [
  | none ↦ false
  | some server ↦ server == r.user_server e.sender
]

-- the rules for m.room.create
unfoldable pub check_create : Ruma → RoomVersion → Event → Result Bool
check_create r version e = elim e.prev_events [
  | prev ∷ more ↦ ok false
  | [] ↦ if not (room_id_matches r e e.room_id) then ok false else (do
    content ← json (r.create_fields e.content)
    ok (
        if is_unsupported content.room_version
        then false
        else if version.room_ids_as_hashes && is_some e.room_id
        then false
        else if not version.use_room_create_sender && not version.explicitly_privilege_room_creators
        then is_some content.creator
        else true))
]

-- room of the power levels event; `unwrap` panics on an event without a room ID
abbrev power_levels_room : RoomId → Option Event → Result Bool
power_levels_room expected none = ok true
power_levels_room expected (some pe) = do room_id ← unwrap pe.room_id; ok (room_id == expected)

-- from the room ID to the federation of the room
unfoldable pub check_room :
    Ruma
    → RoomVersion
    → Event
    → Option Event
    → Event
    → RoomCreateContentFields
    → RoomId
    → Result Bool
check_room r version e power_levels_event create_event create_content expected_room_id = do
  room_id ← unwrap e.room_id
  let claims_create_event = contains e.auth_events create_event.event_id
  if not (room_id == expected_room_id)
      then ok false
      else if version.room_ids_as_hashes && claims_create_event
      then ok false
      else if not version.room_ids_as_hashes && not claims_create_event
      then ok false
      else (do
        same_room ← power_levels_room expected_room_id power_levels_event
        ok (
            if not same_room
            then false
            else not (
                not version.room_ids_as_hashes
                && not create_content.federate
                && not (r.user_server create_event.sender == r.user_server e.sender))))

-- m.room.aliases in the versions that special-case it
unfoldable pub check_aliases : Ruma → Event → Bool
check_aliases r e = e.state_key == some (r.user_server e.sender)

-- `user_for_join_auth_membership`: `leave` where there is no user, event or membership
abbrev authoriser_membership : Ruma → State → Option UserId → MembershipState
authoriser_membership r fetch_state none = leave
authoriser_membership r fetch_state (some user) = elim (fetch_state room_member user) [
  | none ↦ leave
  | some mem ↦ elim (r.membership mem.content) [ none ↦ leave | some membership ↦ membership ]
]

-- m.room.member
unfoldable pub check_member :
    Ruma
    → RoomVersion
    → Event
    → Option Event
    → State
    → Option Event
    → Option Event
    → Event
    → Result Bool
check_member r version e third_party fetch_state sender_member power_levels create_event =
    elim e.state_key [
      | none ↦ ok false
      | some state_key ↦ do
        content ← json (r.member_fields e.content)
        if not (is_some (valid_raw content.membership))
            then ok false
            else if not (r.is_user_id state_key)
            then err invalid_pdu
            else (let authoriser = valid_raw content.join_authorised_via_users_server in
                valid_membership_change r version (record {
                  target_user = state_key;
                  target_user_membership_event = fetch_state room_member state_key;
                  sender = e.sender;
                  sender_membership_event = sender_member;
                  current_event = e;
                  current_third_party_invite = third_party;
                  power_levels_event = power_levels;
                  join_rules_event = fetch_state room_join_rules "";
                  user_for_join_auth = authoriser;
                  user_for_join_auth_membership = authoriser_membership r fetch_state authoriser;
                  create_room = create_event;
                }))
    ]

-- the sender's own membership; `false` is a rejection
unfoldable pub check_sender_membership : Ruma → Option Event → RoomId → Result Bool
check_sender_membership r none expected_room_id = ok false
check_sender_membership r (some member) expected_room_id = do
  room_id ← unwrap member.room_id
  if not (room_id == expected_room_id) then ok false else (do
    content ← json (r.member_fields member.content)
    raw ← ok_or content.membership invalid_pdu
    membership ← json raw.deserialize
    ok (membership == join))

-- `is_ok_and(|create| create.creator.unwrap() == *sender)`
abbrev content_names_creator : UserId → Option (Option UserId) → Result Bool
content_names_creator sender none = ok false
content_names_creator sender (some none) = unwrap none
content_names_creator sender (some (some creator)) = ok (creator == sender)

-- the level from the power levels, or the creator's 100 and everyone else's 0
listed_power_level : Ruma → RoomVersion → UserId → Option Event → Event → Result ℤ
listed_power_level r version sender (some pl) create_event = do
  content ← deserialize_power_levels_content_fields r pl.content version
  ok (elim (get_user_power r content sender) [ some level ↦ level | none ↦ content.users_default ])
listed_power_level r version sender none create_event = do
  is_creator ←
      if version.use_room_create_sender
      then ok (create_event.sender == sender)
      else content_names_creator sender (r.create_creator create_event.content)
  ok (if is_creator then int 100 else int 0)

-- `c.deserialize().is_ok_and(|c| c == *sender)` for one of them
abbrev pub names_user : UserId → List (Raw UserId) → Bool
names_user user = any (λ raw. is_some_and raw.deserialize (λ c. c == user))

unfoldable pub sender_power_level :
    Ruma → RoomVersion → UserId → Option Event → Event → RoomCreateContentFields → Result ℤ
unfolding listed_power_level
sender_power_level r version sender power_levels create_event create_content = do
  level ← listed_power_level r version sender power_levels create_event
  ok (
      if version.explicitly_privilege_room_creators
        && (sender == create_event.sender
            || names_user sender (raw_users create_content.additional_creators))
      then max_int
      else level)

unfoldable pub invite_level : Ruma → RoomVersion → Option Event → Result ℤ
invite_level r version none = ok (int 0)
invite_level r version (some pl) = do
  content ← deserialize_power_levels_content_invite r pl.content version
  ok content.invite

-- `creators.insert(creator.deserialize()?)` for each
unfoldable pub all_users : List (Raw UserId) → Result (List UserId)
all_users [] = ok []
all_users (raw ∷ rest) = do user ← json raw.deserialize; users ← all_users rest; ok (user ∷ users)

unfoldable pub privileged_creators :
    RoomVersion → Event → RoomCreateContentFields → Result (List UserId)
privileged_creators version create_event content =
    if version.explicitly_privilege_room_creators
    then (do
      users ← all_users (raw_users content.additional_creators)
      ok (create_event.sender ∷ users))
    else ok []

-- `Some(required_pwr_lvl) => if !required_pwr_lvl { … }`, `_ => …`
abbrev pub is_allowed : Option Bool → Bool
is_allowed none = false
is_allowed (some allowed) = allowed

-- m.room.power_levels; `None` of `check_power_levels` is a rejection too
unfoldable pub check_levels_change :
    Ruma → RoomVersion → Event → Option Event → ℤ → Event → RoomCreateContentFields → Result Bool
check_levels_change r version e power_levels level create_event create_content =
    if e.event_type == room_power_levels
    then (do
      creators ← privileged_creators version create_event create_content
      ok (is_allowed (check_power_levels r version e power_levels level creators)))
    else ok true

redact_level : Ruma → RoomVersion → Option Event → Result ℤ
redact_level r version none = ok (int 50)
redact_level r version (some pl) = do
  content ← deserialize_power_levels_content_redact r pl.content version
  ok content.redact

unfoldable pub check_redacts : Ruma → RoomVersion → Event → Option Event → ℤ → Result Bool
unfolding redact_level
check_redacts r version e power_levels level =
    if version.extra_redaction_checks && e.event_type == room_redaction
    then (do
      required ← redact_level r version power_levels
      ok (check_redaction r e level required))
    else ok true

-- from the rule for m.room.third_party_invite to the end, with the sender's level
unfoldable pub check_power :
    Ruma → RoomVersion → Event → Option Event → ℤ → Event → RoomCreateContentFields → Result Bool
check_power r version e power_levels level create_event create_content =
    if e.event_type == room_third_party_invite
    then (do required ← invite_level r version power_levels; ok (not (ltb_ℤ level required)))
    else if not (can_send_event r e power_levels level)
    then ok false
    else (do
      allowed ← check_levels_change r version e power_levels level create_event create_content
      if not allowed then ok false else check_redacts r version e power_levels level)

-- from the sender's membership to the end, for an event that is no membership event
unfoldable pub check_sent :
    Ruma
    → RoomVersion
    → Event
    → Option Event
    → Option Event
    → Event
    → RoomCreateContentFields
    → RoomId
    → Result Bool
check_sent r version e sender_member power_levels create_event create_content expected_room_id = do
  joined ← check_sender_membership r sender_member expected_room_id
  if not joined then ok false else (do
    level ← sender_power_level r version e.sender power_levels create_event create_content
    check_power r version e power_levels level create_event create_content)
