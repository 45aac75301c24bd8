-- ===== src/StateRes/Auth/Membership/Judge.antt =====
-- The match on `target_membership` in `valid_membership_change`, on the gathered locals.
use arcana_server.Common.{
  Bool, true, false, ◌&&◌, ◌||◌, not, Option, none, some, ◌==◌, string_Eq, if◌then◌else◌,
}
use arcana_server.Common.Int.{ℤ, leb_ℤ, ltb_ℤ}
use arcana_server.StateRes.Content.{PowerLevelsContent}
use arcana_server.StateRes.Event.{
  UserId, MembershipState, membership_Eq, join, invite, leave, ban, knock, custom, JoinRule, public,
  invite_only, knocking, restricted, knock_restricted,
}
use arcana_server.StateRes.RoomVersion.{RoomVersion}

pub record Facts : Type 0 where
  pub sender : UserId
  pub target_user : UserId
  pub target_membership : MembershipState
  -- the verdict of `verify_third_party_invite`, if the content holds a valid invite
  pub third_party : Option Bool
  pub sender_membership : MembershipState
  pub target_current : MembershipState
  pub power_levels : PowerLevelsContent
  pub sender_power : Option ℤ
  pub target_power : Option ℤ
  pub join_rule : JoinRule
  pub authorised : Bool
  pub sender_creator : Bool
  pub target_creator : Bool
  pub follows_create : Bool

-- `power.filter(|&p| p >= level).is_some()`
abbrev pub at_least : Option ℤ → ℤ → Bool
at_least none level = false
at_least (some p) level = leb_ℤ level p

-- `a < b` of `Option<&Int>`: nothing lies below every number
abbrev pub lt_option : Option ℤ → Option ℤ → Bool
lt_option none none = false
lt_option none (some b) = true
lt_option (some a) none = false
lt_option (some a) (some b) = ltb_ℤ a b

-- `match join_rules`
abbrev by_join_rule : RoomVersion → JoinRule → Bool → Bool → Bool
by_join_rule version invite_only allows authorised = allows
by_join_rule version knocking allows authorised =
    if not version.allow_knocking then false else allows
by_join_rule version knock_restricted allows authorised =
    if not version.knock_restricted_join_rule then false else allows || authorised
by_join_rule version restricted allows authorised = allows || authorised
by_join_rule version public allows authorised = true
by_join_rule version _ allows authorised = false

unfoldable pub judge_join : RoomVersion → Facts → Bool
judge_join version f =
    let membership_allows_join = f.target_current == join || f.target_current == invite in
    if f.follows_create && (f.sender_creator && f.target_creator)
    then true
    else if not (f.sender == f.target_user)
    then false
    else if f.target_current == ban
    then false
    else by_join_rule version f.join_rule membership_allows_join f.authorised

abbrev by_third_party : Facts → Option Bool → Bool
by_third_party f (some verified) = if f.target_current == ban then false else verified
by_third_party f none =
    if not (f.sender_membership == join)
    then false
    else if f.target_current == join || f.target_current == ban
    then false
    else f.sender_creator || at_least f.sender_power f.power_levels.invite

unfoldable pub judge_invite : Facts → Bool
judge_invite f = by_third_party f f.third_party

unfoldable pub can_unban : Facts → Bool
can_unban f =
    if f.target_current == ban
    then f.sender_creator || at_least f.sender_power f.power_levels.ban
    else true

-- `if let Some(sp) = sender_power { if let Some(tp) = target_power { sp > tp } else { true } } …`
abbrev outranks : Option ℤ → Option ℤ → Bool
outranks (some sp) (some tp) = ltb_ℤ tp sp
outranks (some sp) none = true
outranks none tp = false

unfoldable pub can_kick : Facts → Bool
can_kick f =
    if not (f.target_current == ban || f.target_current == leave)
    then (if f.sender_creator
        then true
        else if not (at_least f.sender_power f.power_levels.kick)
        then false
        else outranks f.sender_power f.target_power)
    else true

unfoldable pub judge_leave : Facts → Bool
unfolding can_unban can_kick
judge_leave f =
    if f.sender == f.target_user
    then f.target_current == join || f.target_current == invite || f.target_current == knock
    else if not (f.sender_membership == join)
    then false
    else if not (can_unban f && can_kick f)
    then false
    else if not (can_kick f)
    then false
    else true

unfoldable pub judge_ban : Facts → Bool
judge_ban f =
    if not (f.sender_membership == join)
    then false
    else f.sender_creator
      || (at_least f.sender_power f.power_levels.ban && lt_option f.target_power f.sender_power)

-- `matches!(join_rules, KnockRestricted(_) | Knock)`
abbrev is_knock_rule : JoinRule → Bool
is_knock_rule knocking = true
is_knock_rule knock_restricted = true
is_knock_rule _ = false

abbrev is_knock_restricted : JoinRule → Bool
is_knock_restricted knock_restricted = true
is_knock_restricted _ = false

-- the arm `Knock if room_version.allow_knocking`, and the last arm where knocking is not allowed
unfoldable pub judge_knock : RoomVersion → Facts → Bool
judge_knock version f =
    if not version.allow_knocking
    then false
    else if not (is_knock_rule f.join_rule)
    then false
    else if is_knock_restricted f.join_rule && not version.knock_restricted_join_rule
    then false
    else if not (f.sender == f.target_user)
    then false
    else if f.sender_membership == ban
        || f.sender_membership == invite
        || f.sender_membership == join
    then false
    else true

abbrev pub judge_by : RoomVersion → Facts → MembershipState → Bool
judge_by version f join = judge_join version f
judge_by version f invite = judge_invite f
judge_by version f leave = judge_leave f
judge_by version f ban = judge_ban f
judge_by version f knock = judge_knock version f
judge_by version f custom = false

unfoldable pub judge : RoomVersion → Facts → Bool
judge version f = judge_by version f f.target_membership
