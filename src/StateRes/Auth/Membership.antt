-- ===== src/StateRes/Auth/Membership.antt =====
-- `is_creator` and `valid_membership_change` of event_auth.rs. The locals of the function are
-- gathered first, with each parse in the order of the source; then the match on the target
-- membership decides.
pub mod Judge
pub mod Rules
pub mod Moderate
pub mod Panics
use arcana_server.Common.{
  String, ◌≡◌, Bool, true, false, ◌&&◌, ◌||◌, not, Option, none, some, List, [], ◌∷◌, ◌++◌,
  contains, lookup, ◌==◌, string_Eq, if◌then◌else◌, is_some,
}
use arcana_server.Common.Int.{ℤ, int, max_int, leb_ℤ}
use arcana_server.StateRes.Content.{
  Ruma, Raw, PowerLevelsContent, RoomCreateContentFields, ThirdPartyInvite,
}
use arcana_server.StateRes.Event.{
  UserId, EventId, Event, MembershipState, membership_Eq, join, leave, JoinRule, invite_only,
}
use arcana_server.StateRes.PowerLevels.{
  deserialize_power_levels_content_invite, deserialize_power_levels_content_fields, get_user_power,
}
use arcana_server.StateRes.Result.{Result, ok, err, panic, ◌>>=◌, json, unwrap}
use arcana_server.StateRes.RoomVersion.{RoomVersion}
use arcana_server.StateRes.Auth.Invite.{verify_third_party_invite}
pub use Judge.{Facts, judge_join, judge_invite, judge_leave, judge_ban, judge_knock, judge}
pub use Judge.{can_kick, can_unban}

-- `from_json_str::<RoomCreateEventContent>(…).unwrap().creator.ok_or_else(…).unwrap()`
unfoldable pub content_creator : Ruma → Event → Result UserId
content_creator r ce = do creator ← unwrap (r.create_creator ce.content); unwrap creator

unfoldable pub is_creator : Ruma → RoomVersion → List UserId → Event → UserId → Bool → Result Bool
unfolding content_creator
is_creator r v c ce user_id have_pls =
    if v.explicitly_privilege_room_creators
    then ok (contains c user_id)
    else if v.use_room_create_sender && not have_pls
    then ok (ce.sender == user_id)
    else if not have_pls
    then (do creator ← content_creator r ce; ok (creator == user_id))
    else ok false

-- the users among `additional_creators` that parse
abbrev pub valid_users : List (Raw UserId) → List UserId
valid_users [] = []
valid_users (c ∷ rest) = elim c.deserialize [
  | none ↦ valid_users rest
  | some u ↦ u ∷ valid_users rest
]

abbrev pub raw_users : Option (List (Raw UserId)) → List (Raw UserId)
raw_users none = []
raw_users (some raws) = raws

-- the set `creators`
unfoldable pub creators_of : RoomVersion → Event → RoomCreateContentFields → List UserId
creators_of version create_room content =
    if version.explicitly_privilege_room_creators
    then create_room.sender ∷ valid_users (raw_users content.additional_creators)
    else create_room.sender ∷ []

-- the membership in a member event, `leave` where there is none
unfoldable pub membership_of : Ruma → Option Event → Result MembershipState
membership_of r none = ok leave
membership_of r (some pdu) = json (r.membership pdu.content)

unfoldable pub power_levels_of : Ruma → Option Event → Result PowerLevelsContent
power_levels_of r none = ok r.default_power_levels
power_levels_of r (some ev) = json (r.power_levels ev.content)

unfoldable pub join_rules_of : Ruma → Option Event → Result JoinRule
join_rules_of r none = ok invite_only
join_rules_of r (some jr) = json (r.join_rule jr.content)

-- `users.get(user).or_else(|| with_default.then_some(&users_default))`
abbrev pub listed_power : PowerLevelsContent → UserId → Bool → Option ℤ
listed_power levels user with_default = elim (lookup user levels.users) [
  | some level ↦ some level
  | none ↦ if with_default then some levels.users_default else none
]

-- `if creators.contains(user) { power = Some(&Int::MAX) }` in the versions that privilege creators
abbrev pub privileged_power : RoomVersion → List UserId → UserId → Option ℤ → Option ℤ
privileged_power version creators user power =
    if version.explicitly_privilege_room_creators && contains creators user
    then some max_int
    else power

-- `auth_user_pl` and `invite_level`
authoriser_levels : Ruma → RoomVersion → Option Event → UserId → Result (ℤ × ℤ)
authoriser_levels r version none user = ok (int 0, int 0)
authoriser_levels r version (some pl) user = do
  invite_content ← deserialize_power_levels_content_invite r pl.content version
  content ← deserialize_power_levels_content_fields r pl.content version
  ok (elim (get_user_power r content user) [
    | some level ↦ (level, invite_content.invite)
    | none ↦ (content.users_default, invite_content.invite)
  ])

-- `user_for_join_auth_is_valid`
authoriser_is_valid :
    Ruma
    → RoomVersion
    → List UserId
    → Event
    → Option Event
    → Option UserId
    → MembershipState
    → Result Bool
unfolding authoriser_levels
authoriser_is_valid r version creators create_room pls none membership = ok false
authoriser_is_valid r version creators create_room pls (some user) membership = do
  power ← authoriser_levels r version pls user
  creator ← is_creator r version creators create_room user (is_some pls)
  ok (membership == join && (creator || leb_ℤ power.1 power.0))

-- `prev_event_is_create_event && no_more_prev_events`
abbrev pub only_prev_is : EventId → List EventId → Bool
only_prev_is id (e ∷ []) = e == id
only_prev_is id _ = false

-- the verdict on a valid third party invite, if the content has one
abbrev third_party_verdict :
    Ruma → UserId → UserId → Option (Raw ThirdPartyInvite) → Option Event → Option Bool
third_party_verdict r target sender none current = none
third_party_verdict r target sender (some raw) current = elim raw.deserialize [
  | none ↦ none
  | some tp_id ↦ some (verify_third_party_invite r (some target) sender tp_id current)
]

-- the arguments of `valid_membership_change` beside ruma and the version
pub record MembershipChange : Type 0 where
  pub target_user : UserId
  pub target_user_membership_event : Option Event
  pub sender : UserId
  pub sender_membership_event : Option Event
  pub current_event : Event
  pub current_third_party_invite : Option Event
  pub power_levels_event : Option Event
  pub join_rules_event : Option Event
  pub user_for_join_auth : Option UserId
  pub user_for_join_auth_membership : MembershipState
  pub create_room : Event

-- the locals, up to the match on `target_membership`
unfoldable pub gather : Ruma → RoomVersion → MembershipChange → Result Facts
unfolding authoriser_is_valid
gather r version c = do
  create_content ← json (r.create_fields c.create_room.content)
  target_membership ← json (r.membership c.current_event.content)
  third_party_invite ← json (r.third_party_invite c.current_event.content)
  sender_membership ← membership_of r c.sender_membership_event
  target_current ← membership_of r c.target_user_membership_event
  power_levels ← power_levels_of r c.power_levels_event
  let creators = creators_of version c.create_room create_content
  join_rule ← join_rules_of r c.join_rules_event
  authorised ←
      authoriser_is_valid r version creators c.create_room c.power_levels_event c.user_for_join_auth
        c.user_for_join_auth_membership
  sender_creator ←
      is_creator r version creators c.create_room c.sender (is_some c.power_levels_event)
  target_creator ←
      is_creator r version creators c.create_room c.target_user (is_some c.power_levels_event)
  ok (record {
    sender = c.sender;
    target_user = c.target_user;
    target_membership = target_membership;
    third_party =
        third_party_verdict r c.target_user c.sender third_party_invite
          c.current_third_party_invite;
    sender_membership = sender_membership;
    target_current = target_current;
    power_levels = power_levels;
    sender_power =
        privileged_power version creators c.sender
          (listed_power power_levels c.sender (sender_membership == join));
    target_power =
        privileged_power version creators c.target_user
          (listed_power power_levels c.target_user (target_membership == join));
    join_rule = join_rule;
    authorised = authorised;
    sender_creator = sender_creator;
    target_creator = target_creator;
    follows_create = only_prev_is c.create_room.event_id c.current_event.prev_events;
  })

unfoldable pub valid_membership_change : Ruma → RoomVersion → MembershipChange → Result Bool
valid_membership_change r version c = do facts ← gather r version c; ok (judge version facts)
