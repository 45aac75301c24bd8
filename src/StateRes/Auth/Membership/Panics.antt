-- ===== src/StateRes/Auth/Membership/Panics.antt =====
-- Where the `unwrap`s of `is_creator` are safe, and where they are not.
use arcana_server.Common.{◌≡◌, ◌⊎◌, true, Option, none, some, arith, is_some, List}
use arcana_server.StateRes.Content.{Ruma}
use arcana_server.StateRes.Event.{Event, UserId, MembershipState}
use arcana_server.StateRes.Result.{NoPanic, no_panic_rules}
use arcana_server.StateRes.RoomVersion.{RoomVersion}
use arcana_server.StateRes.Auth.Membership.{
  MembershipChange, gather, valid_membership_change, is_creator, content_creator, membership_of,
  power_levels_of, join_rules_of, authoriser_is_valid, authoriser_levels,
}
use arcana_server.StateRes.PowerLevels.{
  deserialize_power_levels_content_invite, deserialize_power_levels_content_fields,
}

-- `is_creator` finds its answer without the content's creator, or the content names one.
abbrev pub CreatorIsKnown : Ruma → RoomVersion → Event → Option Event → Type 0
CreatorIsKnown r v create_room power_levels =
    (v.explicitly_privilege_room_creators ≡ true)
    ⊎ ((v.use_room_create_sender ≡ true)
        ⊎ ((is_some power_levels ≡ true)
            ⊎ ((u : UserId) × (r.create_creator create_room.content ≡ some (some u)))))

module _ (r : Ruma) (v : RoomVersion) where
  is_creator-NoPanic :
      (c : List UserId) (ce : Event) (user : UserId) (pls : Option Event)
      → CreatorIsKnown r v ce pls
      → NoPanic (is_creator r v c ce user (is_some pls))
  unfolding is_creator content_creator
  is_creator-NoPanic c ce user pls h = record { safe = ground arith }

  authoriser_levels-NoPanic :
      (pls : Option Event) (user : UserId) → NoPanic (authoriser_levels r v pls user)
  unfolding authoriser_levels deserialize_power_levels_content_invite
      deserialize_power_levels_content_fields
  authoriser_levels-NoPanic pls user = record { safe = ground arith }

  authoriser_is_valid-NoPanic :
      (c : List UserId) (ce : Event) (pls : Option Event) (user : Option UserId)
      (m : MembershipState)
      → CreatorIsKnown r v ce pls
      → NoPanic (authoriser_is_valid r v c ce pls user m)
  unfolding authoriser_is_valid
  authoriser_is_valid-NoPanic c ce pls none m h = search no_panic_rules
  authoriser_is_valid-NoPanic c ce pls (some user) m h =
      search (no_panic_rules, authoriser_levels-NoPanic, is_creator-NoPanic)

  membership_of-NoPanic : (e : Option Event) → NoPanic (membership_of r e)
  unfolding membership_of
  membership_of-NoPanic none = search no_panic_rules
  membership_of-NoPanic (some e) = search no_panic_rules

  power_levels_of-NoPanic : (e : Option Event) → NoPanic (power_levels_of r e)
  unfolding power_levels_of
  power_levels_of-NoPanic none = search no_panic_rules
  power_levels_of-NoPanic (some e) = search no_panic_rules

  join_rules_of-NoPanic : (e : Option Event) → NoPanic (join_rules_of r e)
  unfolding join_rules_of
  join_rules_of-NoPanic none = search no_panic_rules
  join_rules_of-NoPanic (some e) = search no_panic_rules

ruleset gather_rules = (
  no_panic_rules, is_creator-NoPanic, authoriser_is_valid-NoPanic, membership_of-NoPanic,
  power_levels_of-NoPanic, join_rules_of-NoPanic,
)

module _ (r : Ruma) (v : RoomVersion) (c : MembershipChange) where
  -- No `unwrap` fails where the creator is known without the content, or the content names one.
  pub valid_membership_change-NoPanic :
      CreatorIsKnown r v c.create_room c.power_levels_event
      → NoPanic (valid_membership_change r v c)
  unfolding valid_membership_change gather
  valid_membership_change-NoPanic h = search gather_rules depth 40
