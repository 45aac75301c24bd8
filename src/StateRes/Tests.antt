-- ===== src/StateRes/Tests.antt =====
-- The theorems on authorisation at concrete events, and runs of the code.
use arcana_server.Common.{
  String, ◌≡◌, ◌≢◌, ◌⊎◌, ◌↔◌, refl, inl, inr, true, false, none, some, List, [], ◌∷◌, arith,
  string_Eq, nat_Eq, In,
}
use arcana_server.Common.Int.{ℤ, int}
use arcana_server.StateRes.Content.{RoomCreateContentFields}
use arcana_server.StateRes.Event.{
  Event, UserId, room_id_or_hash, other, MembershipState, join, leave, ban, invite_only,
  type_state_key_Eq,
}
use arcana_server.StateRes.PowerLevels.{
  deserialize_power_levels, deserialize_power_levels_content_fields, get_user_power,
}
use arcana_server.StateRes.Result.{ok, NoPanic}
use arcana_server.StateRes.RoomVersion.{
  id_v1, v1, v6, stateres_version, stateres_version-new, is_from_2_to_11, new,
}
use arcana_server.StateRes.Samples.{
  ruma, levels_with, event, create_event, levels_event, high_levels_event, alice_joins, bob_joins,
  bob_banned, bob_removed, room_state,
}
use arcana_server.StateRes.Auth.Check.{auth_check, check_in_room}
use arcana_server.StateRes.Auth.Check.Create.{Creates, auth_check-create_iff}
use arcana_server.StateRes.Auth.Check.Power.{
  IsAuthorised, auth_check-IsAuthorised, auth_check-Permitted,
}
use arcana_server.StateRes.Auth.Check.Stages.{
  sender_power_level, is_unsupported, check_room, check_sent, check_sender_membership, check_power,
  check_levels_change, privileged_creators, check_redacts,
}
use arcana_server.StateRes.Auth.Send.{can_send_event, get_send_level}
use arcana_server.StateRes.Auth.Levels.{
  check_power_levels, change_ok, users_ok, events_ok, notifications_ok, levels_ok,
}
use arcana_server.StateRes.Auth.Levels.Users.{Accepted, check_power_levels_iff}
use arcana_server.StateRes.Auth.Membership.{
  MembershipChange, gather, valid_membership_change, Facts, membership_of, power_levels_of,
  join_rules_of, creators_of, is_creator,
}
use arcana_server.StateRes.Auth.Membership.Moderate.{
  valid_membership_change_iff, banned_stays_out, unlisted_is_kicked, leave_repeated,
}
use arcana_server.StateRes.Auth.Membership.Panics.{valid_membership_change-NoPanic}
use arcana_server.StateRes.Auth.Membership.Judge.{judge, judge_leave}
use arcana_server.StateRes.Auth.Membership.Rules.{Rules}
use text.Mathlib.TextEquality.{eq_iff}

stateres_version-new_example :
    (stateres_version id_v1 ≡ v1.state_res) ↔ (is_from_2_to_11 id_v1 ≡ true)
unfolding new
stateres_version-new_example = stateres_version-new id_v1 v1 refl

levels_accepted :
    auth_check ruma v6 levels_event none (room_state levels_event) create_event ≡ ok true
unfolding auth_check check_in_room is_unsupported room_id_or_hash check_room check_sent
    check_sender_membership sender_power_level deserialize_power_levels_content_fields check_power
    can_send_event get_user_power get_send_level check_levels_change privileged_creators
    check_power_levels deserialize_power_levels change_ok users_ok events_ok notifications_ok
    levels_ok check_redacts
levels_accepted = refl

auth_check-Permitted_example :
    (fields : RoomCreateContentFields) × (level : ℤ) × (creators : List UserId)
    × (ruma.create_fields create_event.content ≡ some fields)
    × (sender_power_level ruma v6 levels_event.sender (some levels_event) create_event fields
        ≡ ok level)
    × Accepted ruma v6 levels_event levels_event level creators
    × (v6.explicitly_privilege_room_creators ≡ true → In create_event.sender creators)
auth_check-Permitted_example =
    auth_check-Permitted ruma v6 levels_event none (room_state levels_event) create_event
      levels_event refl refl levels_accepted

check_power_levels_iff_example :
    (check_power_levels ruma v6 levels_event (some levels_event) (int 50) [] ≡ some true)
    ↔ Accepted ruma v6 levels_event levels_event (int 50) []
check_power_levels_iff_example =
    check_power_levels_iff ruma v6 levels_event levels_event (int 50) []

abbrev topic : Event
topic = event "$topic" (other "m.room.topic") "@alice" "" "x"

topic_accepted : auth_check ruma v6 topic none (room_state levels_event) create_event ≡ ok true
unfolding auth_check check_in_room is_unsupported room_id_or_hash check_room check_sent
    check_sender_membership sender_power_level deserialize_power_levels_content_fields check_power
    can_send_event get_user_power get_send_level check_levels_change check_redacts
topic_accepted = refl

auth_check-IsAuthorised_example :
    IsAuthorised ruma v6 topic none (room_state levels_event) create_event
auth_check-IsAuthorised_example =
    auth_check-IsAuthorised ruma v6 topic none (room_state levels_event) create_event (λ e. cc)
      (λ e. cc) (inl refl) topic_accepted

auth_check-create_iff_example :
    (auth_check ruma v6 create_event none (room_state levels_event) create_event ≡ ok true)
    ↔ Creates ruma v6 create_event
auth_check-create_iff_example =
    auth_check-create_iff ruma v6 create_event none (room_state levels_event) create_event refl

-- alice, who has the kick level, removes bob, whom the power levels do not list
abbrev kick_of_bob : MembershipChange
kick_of_bob = record {
  target_user = "@bob";
  target_user_membership_event = some bob_joins;
  sender = "@alice";
  sender_membership_event = some alice_joins;
  current_event = bob_removed;
  current_third_party_invite = none;
  power_levels_event = some high_levels_event;
  join_rules_event = none;
  user_for_join_auth = none;
  user_for_join_auth_membership = leave;
  create_room = create_event;
}

abbrev unban_of_bob : MembershipChange
unban_of_bob = record kick_of_bob { target_user_membership_event = some bob_banned }

abbrev leave_of_bob : MembershipChange
leave_of_bob = record kick_of_bob { target_user_membership_event = some bob_removed }

abbrev facts_with : MembershipState → Facts
facts_with current = record {
  sender = "@alice";
  target_user = "@bob";
  target_membership = leave;
  third_party = none;
  sender_membership = join;
  target_current = current;
  power_levels = levels_with (int 100);
  sender_power = some (int 50);
  target_power = none;
  join_rule = invite_only;
  authorised = false;
  sender_creator = false;
  target_creator = false;
  follows_create = false;
}

kick_gathered : gather ruma v6 kick_of_bob ≡ ok (facts_with join)
unfolding gather membership_of power_levels_of join_rules_of creators_of is_creator
kick_gathered = refl

leave_gathered : gather ruma v6 leave_of_bob ≡ ok (facts_with leave)
unfolding gather membership_of power_levels_of join_rules_of creators_of is_creator
leave_gathered = refl

unban_accepted : valid_membership_change ruma v6 unban_of_bob ≡ ok true
unfolding valid_membership_change gather membership_of power_levels_of join_rules_of creators_of
    is_creator judge judge_leave
unban_accepted = refl

alice_is_not_bob : ◌≢◌ {A = String} "@alice" "@bob"
alice_is_not_bob = ground (arith, eq_iff "@alice" "@bob")

valid_membership_change_iff_example :
    (valid_membership_change ruma v6 kick_of_bob ≡ ok true)
    ↔ ((f : Facts) × (gather ruma v6 kick_of_bob ≡ ok f) × Rules v6 f f.target_membership)
valid_membership_change_iff_example = valid_membership_change_iff ruma v6 kick_of_bob

banned_stays_out_example :
    (leave ≡ ban)
    ⊎ (((leave ≡ leave)
          × (unban_of_bob.sender ≢ unban_of_bob.target_user)
          × (membership_of ruma unban_of_bob.sender_membership_event ≡ ok join))
        ⊎ ((leave ≡ join)
            × (unban_of_bob.current_event.prev_events ≡ unban_of_bob.create_room.event_id ∷ [])))
unfolding membership_of
banned_stays_out_example =
    banned_stays_out ruma v6 unban_of_bob unban_accepted refl refl
      (λ e. absurd (alice_is_not_bob e))

unlisted_is_kicked_example : valid_membership_change ruma v6 kick_of_bob ≡ ok true
unlisted_is_kicked_example =
    unlisted_is_kicked ruma v6 kick_of_bob (facts_with join) (int 50) kick_gathered refl refl
      alice_is_not_bob refl (inl refl) refl (omega arith) refl

leave_repeated_example : valid_membership_change ruma v6 leave_of_bob ≡ ok true
leave_repeated_example =
    leave_repeated ruma v6 leave_of_bob (facts_with leave) leave_gathered refl alice_is_not_bob refl
      refl

valid_membership_change-NoPanic_example : NoPanic (valid_membership_change ruma v6 kick_of_bob)
valid_membership_change-NoPanic_example =
    valid_membership_change-NoPanic ruma v6 kick_of_bob (inr (inr (inl refl)))
