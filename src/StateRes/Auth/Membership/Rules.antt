-- ===== src/StateRes/Auth/Membership/Rules.antt =====
-- The membership rules, stated apart from the code: what each change asks of the room's state.
use arcana_server.Common.{◌≡◌, ◌≢◌, ◌⊎◌, ◌↔◌, Bool, true, Option, none, some, arith, string_Eq}
use arcana_server.Common.Int.{ℤ, ◌≤ℤ◌, ◌<ℤ◌}
use arcana_server.StateRes.Event.{
  MembershipState, join, invite, leave, ban, knock, custom, JoinRule, public, invite_only, knocking,
  restricted, knock_restricted, private, custom_rule,
}
use arcana_server.StateRes.RoomVersion.{RoomVersion}
use arcana_server.StateRes.Auth.Membership.Judge.{
  Facts, judge_join, judge_invite, judge_leave, judge_ban, judge_knock, judge_by, judge,
}
use text.Mathlib.TextEquality.{eq_iff}

abbrev pub AtLeast : Option ℤ → ℤ → Type 0
AtLeast none level = ⊥
AtLeast (some p) level = level ≤ℤ p

-- A user that is not listed lies below every listed one.
abbrev pub Below : Option ℤ → Option ℤ → Type 0
Below none (some b) = Unit
Below (some a) (some b) = a <ℤ b
Below _ none = ⊥

abbrev pub IsInvited : Facts → Type 0
IsInvited f = (f.target_current ≡ join) ⊎ (f.target_current ≡ invite)

-- The join rule admits the user.
abbrev pub Admits : RoomVersion → Facts → JoinRule → Type 0
Admits v f public = Unit
Admits v f invite_only = IsInvited f
Admits v f knocking = (v.allow_knocking ≡ true) × IsInvited f
Admits v f restricted = IsInvited f ⊎ (f.authorised ≡ true)
Admits v f knock_restricted =
    (v.knock_restricted_join_rule ≡ true) × (IsInvited f ⊎ (f.authorised ≡ true))
Admits v f private = ⊥
Admits v f custom_rule = ⊥

abbrev pub IsFirstJoin : Facts → Type 0
IsFirstJoin f = (f.follows_create ≡ true) × (f.sender_creator ≡ true) × (f.target_creator ≡ true)

abbrev pub CanInvite : Facts → Option Bool → Type 0
CanInvite f (some verified) = (f.target_current ≢ ban) × (verified ≡ true)
CanInvite f none =
    (f.sender_membership ≡ join)
    × (f.target_current ≢ join)
    × (f.target_current ≢ ban)
    × ((f.sender_creator ≡ true) ⊎ AtLeast f.sender_power f.power_levels.invite)

-- To remove another user: a ban is lifted at the ban level, a user who is in the room, invited or
-- knocking is removed at the kick level and by a higher power.
abbrev pub CanRemove : Facts → MembershipState → Type 0
CanRemove f ban = (f.sender_creator ≡ true) ⊎ AtLeast f.sender_power f.power_levels.ban
CanRemove f leave = Unit
CanRemove f _ =
    (f.sender_creator ≡ true)
    ⊎ (AtLeast f.sender_power f.power_levels.kick × Below f.target_power f.sender_power)

abbrev pub IsPresent : Facts → Type 0
IsPresent f = (f.target_current ≡ join) ⊎ ((f.target_current ≡ invite) ⊎ (f.target_current ≡ knock))

abbrev pub KnocksAt : RoomVersion → JoinRule → Type 0
KnocksAt v knocking = Unit
KnocksAt v knock_restricted = v.knock_restricted_join_rule ≡ true
KnocksAt v _ = ⊥

-- What a change to the given membership requires.
abbrev pub Rules : RoomVersion → Facts → MembershipState → Type 0
Rules v f join =
    IsFirstJoin f ⊎ ((f.sender ≡ f.target_user) × (f.target_current ≢ ban) × Admits v f f.join_rule)
Rules v f invite = CanInvite f f.third_party
Rules v f leave =
    ((f.sender ≡ f.target_user) × IsPresent f)
    ⊎ ((f.sender ≢ f.target_user) × (f.sender_membership ≡ join) × CanRemove f f.target_current)
Rules v f ban =
    (f.sender_membership ≡ join)
    × ((f.sender_creator ≡ true)
        ⊎ (AtLeast f.sender_power f.power_levels.ban × Below f.target_power f.sender_power))
Rules v f knock =
    (v.allow_knocking ≡ true)
    × KnocksAt v f.join_rule
    × (f.sender ≡ f.target_user)
    × (f.sender_membership ≢ ban)
    × (f.sender_membership ≢ invite)
    × (f.sender_membership ≢ join)
Rules v f custom = ⊥

module _ (v : RoomVersion) (f : Facts) where
  judge_join_iff : (judge_join v f ≡ true) ↔ Rules v f join
  unfolding judge_join
  judge_join_iff = ground (arith, eq_iff f.sender f.target_user)

  judge_invite_iff : (judge_invite f ≡ true) ↔ Rules v f invite
  unfolding judge_invite
  judge_invite_iff = ground arith

  judge_leave_iff : (judge_leave f ≡ true) ↔ Rules v f leave
  unfolding judge_leave
  judge_leave_iff = ground (arith, eq_iff f.sender f.target_user)

  judge_ban_iff : (judge_ban f ≡ true) ↔ Rules v f ban
  unfolding judge_ban
  judge_ban_iff = ground arith

  judge_knock_iff : (judge_knock v f ≡ true) ↔ Rules v f knock
  unfolding judge_knock
  judge_knock_iff = ground (arith, eq_iff f.sender f.target_user)

  judge_by_iff : (m : MembershipState) → (judge_by v f m ≡ true) ↔ Rules v f m
  judge_by_iff join = judge_join_iff
  judge_by_iff invite = judge_invite_iff
  judge_by_iff leave = judge_leave_iff
  judge_by_iff ban = judge_ban_iff
  judge_by_iff knock = judge_knock_iff
  judge_by_iff custom = ground arith

  pub judge_iff : (judge v f ≡ true) ↔ Rules v f f.target_membership
  unfolding judge
  judge_iff = judge_by_iff f.target_membership
