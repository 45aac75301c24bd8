-- ===== src/StateRes/Samples.antt =====
-- A concrete `Ruma` and events, at which the theorems are applied.
use Prim.Native.String.{compare}
use arcana_server.Common.{String, true, Option, none, some, [], ◌∷◌, ◌==◌, string_Eq, if◌then◌else◌}
use arcana_server.Common.Int.{ℤ, int}
use arcana_server.StateRes.Content.{
  Ruma, Raw, PowerLevelsContent, LevelName, RoomCreateContentFields, RoomMemberContentFields,
  AuthTypesContentFields, IntPowerLevelsContent, PowerLevelsContentFields,
  IntPowerLevelsContentFields, users_default, events_default, state_default, ban, redact, kick,
  invite,
}
use arcana_server.StateRes.Event.{
  Event, EventType, room_create, room_member, room_power_levels, MembershipState, public,
}
use arcana_server.StateRes.Event.{join as joined, leave as left, ban as banned}

abbrev pub membership_in : String → Option MembershipState
membership_in c =
    if c == "join"
    then some joined
    else if c == "leave"
    then some left
    else if c == "ban"
    then some banned
    else none

-- alice has 50, and the default level of users is as given
abbrev pub levels_with : ℤ → PowerLevelsContent
levels_with default = record {
  ban = int 50;
  events = [];
  events_default = int 0;
  invite = int 0;
  kick = int 50;
  redact = int 50;
  state_default = int 50;
  users = ("@alice", int 50) ∷ [];
  users_default = default;
  notifications = record { room = int 50 };
}

abbrev pub levels_in : String → Option PowerLevelsContent
levels_in c =
    if c == "default 0"
    then some (levels_with (int 0))
    else if c == "default 100"
    then some (levels_with (int 100))
    else none

abbrev level_of : PowerLevelsContent → LevelName → ℤ
level_of c users_default = c.users_default
level_of c events_default = c.events_default
level_of c state_default = c.state_default
level_of c ban = c.ban
level_of c redact = c.redact
level_of c kick = c.kick
level_of c invite = c.invite

abbrev plain_create : RoomCreateContentFields
plain_create = record {
  room_version = none;
  creator = some (record { deserialize = some tt });
  additional_creators = none;
  federate = true;
}

abbrev raw_membership : MembershipState → Option (Raw MembershipState)
raw_membership m = some (record { deserialize = some m })

abbrev member_with : Option MembershipState → Option RoomMemberContentFields
member_with none = none
member_with (some m) =
    some (record { membership = raw_membership m; join_authorised_via_users_server = none })

abbrev auth_types_with : Option MembershipState → Option AuthTypesContentFields
auth_types_with none = none
auth_types_with (some m) = some (record {
  membership = raw_membership m;
  third_party_invite = none;
  join_authorised_via_users_server = none;
})

abbrev fields_with : Option PowerLevelsContent → Option PowerLevelsContentFields
fields_with none = none
fields_with (some c) = some (record { users = c.users; users_default = c.users_default })

abbrev int_fields_with : Option PowerLevelsContent → Option IntPowerLevelsContentFields
int_fields_with none = none
int_fields_with (some c) = some (record { users = c.users; users_default = c.users_default })

abbrev int_levels_with : Option PowerLevelsContent → Option IntPowerLevelsContent
int_levels_with none = none
int_levels_with (some c) = some (record {
  ban = c.ban;
  events = c.events;
  events_default = c.events_default;
  invite = c.invite;
  kick = c.kick;
  redact = c.redact;
  state_default = c.state_default;
  users = c.users;
  users_default = c.users_default;
  notifications = c.notifications;
})

-- `creator_in` parses the creator of a creation event's content.
abbrev pub ruma_with : (String → Option (Option String)) → Ruma
ruma_with creator_in = record {
  user_server = λ _. "s";
  room_server = λ _. some "s";
  event_server = λ _. some "s";
  cmp_user = compare;
  cmp_event = compare;
  is_user_id = λ _. true;
  as_room_id = λ e. some e;
  as_event_id = λ e. some e;
  create_fields = λ c. if c == "create" then some plain_create else none;
  create_creator = creator_in;
  member_fields = λ c. member_with (membership_in c);
  auth_types_fields = λ c. auth_types_with (membership_in c);
  membership = membership_in;
  member_content = membership_in;
  third_party_invite = λ _. some none;
  third_party_content = λ _. none;
  base64 = λ t. some t;
  join_rule = λ _. some public;
  power_levels = levels_in;
  int_power_levels = λ c. int_levels_with (levels_in c);
  power_fields = λ c. fields_with (levels_in c);
  int_power_fields = λ c. int_fields_with (levels_in c);
  power_invite = λ _. some (record { invite = int 0 });
  int_power_invite = λ _. some (record { invite = int 0 });
  power_redact = λ _. some (record { redact = int 50 });
  int_power_redact = λ _. some (record { redact = int 50 });
  default_power_levels = levels_with (int 0);
  level_value = λ c name. some (level_of c name);
}

abbrev pub ruma : Ruma
ruma = ruma_with (λ _. some (some "@alice"))

abbrev pub event : String → EventType → String → String → String → Event
event id type sender key content = record {
  event_id = id;
  room_id = some "!r";
  sender = sender;
  event_type = type;
  state_key = some key;
  content = content;
  prev_events = "$p" ∷ [];
  auth_events = "$create" ∷ "$levels" ∷ "$alice" ∷ [];
  redacts = none;
  origin_server_ts = 1;
}

abbrev pub create_event : Event
create_event = record (event "$create" room_create "@alice" "" "create") {
  prev_events = [];
  auth_events = [];
}

abbrev pub levels_event : Event
levels_event = event "$levels" room_power_levels "@alice" "" "default 0"

abbrev pub high_levels_event : Event
high_levels_event = event "$levels" room_power_levels "@alice" "" "default 100"

abbrev pub alice_joins : Event
alice_joins = event "$alice" room_member "@alice" "@alice" "join"

abbrev pub bob_joins : Event
bob_joins = event "$bob" room_member "@bob" "@bob" "join"

abbrev pub bob_banned : Event
bob_banned = event "$ban" room_member "@alice" "@bob" "ban"

abbrev pub bob_removed : Event
bob_removed = event "$kick" room_member "@alice" "@bob" "leave"

-- a room with alice and the given power levels
abbrev pub room_state : Event → EventType → String → Option Event
room_state levels room_power_levels key = some levels
room_state levels room_member key = if key == "@alice" then some alice_joins else none
room_state levels type key = none

abbrev pub fetch : String → Option Event
fetch id =
    if id == "$create"
    then some create_event
    else if id == "$levels"
    then some levels_event
    else if id == "$alice"
    then some alice_joins
    else none
