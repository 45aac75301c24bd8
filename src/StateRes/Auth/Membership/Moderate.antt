-- ===== src/StateRes/Auth/Membership/Moderate.antt =====
-- What `valid_membership_change` accepts, and what it lets a moderator do.
use arcana_server.Common.{
  ◌≡◌, ◌≢◌, ◌⊎◌, ◌↔◌, true, false, none, some, List, [], ◌∷◌, arith, string_Eq, sym, ap, lookup,
}
use arcana_server.Common.Int.{ℤ, ◌≤ℤ◌}
use arcana_server.StateRes.Content.{Ruma}
use arcana_server.StateRes.Event.{MembershipState, join, invite, leave, ban, EventId, membership_eq}
use arcana_server.StateRes.Result.{ok, bind-eq-ok}
use arcana_server.StateRes.RoomVersion.{RoomVersion}
use arcana_server.StateRes.Auth.Membership.{
  MembershipChange, gather, valid_membership_change, membership_of, only_prev_is, listed_power,
  power_levels_of,
}
use arcana_server.StateRes.Auth.Membership.Judge.{Facts}
use arcana_server.StateRes.Auth.Membership.Rules.{Rules, judge_iff}
use mathlib.Core.Path.{subst}
use text.Mathlib.TextEquality.{eq_iff}

abbrev WhenBanned : Facts → MembershipState → Type 0
WhenBanned f m =
    (m ≡ ban)
    ⊎ (((m ≡ leave) × (f.sender ≢ f.target_user) × (f.sender_membership ≡ join))
        ⊎ ((m ≡ join) × (f.follows_create ≡ true)))

Rules-WhenBanned :
    (v : RoomVersion) (f : Facts) (m : MembershipState)
    → Rules v f m
    → f.target_current ≡ ban
    → (f.sender ≡ f.target_user → f.sender_membership ≡ f.target_current)
    → WhenBanned f m
Rules-WhenBanned v f join h b same = ground arith
Rules-WhenBanned v f leave h b same = ground arith
Rules-WhenBanned v f _ h b same = ground arith

only_prev_is-eq : (id : EventId) (es : List EventId) → only_prev_is id es ≡ true → es ≡ id ∷ []
only_prev_is-eq id [] h = cc
only_prev_is-eq id (e ∷ []) h = ap (λ x. x ∷ []) ((eq_iff e id).0 h)
only_prev_is-eq id (e ∷ d ∷ es) h = cc

module _ (r : Ruma) (v : RoomVersion) (c : MembershipChange) where
  -- The gathered locals are what the events say.
  pub record GatheredFrom (f : Facts) : Type 0 where
    pub same_sender : f.sender ≡ c.sender
    pub same_target : f.target_user ≡ c.target_user
    pub membership_read : r.membership c.current_event.content ≡ some f.target_membership
    pub sender_read : membership_of r c.sender_membership_event ≡ ok f.sender_membership
    pub current_read : membership_of r c.target_user_membership_event ≡ ok f.target_current
    pub first_read :
        f.follows_create ≡ only_prev_is c.create_room.event_id c.current_event.prev_events

  gather-GatheredFrom : (f : Facts) → gather r v c ≡ ok f → GatheredFrom f
  unfolding gather
  gather-GatheredFrom f h = ground arith

  -- A membership change is accepted exactly if its locals can be gathered and they meet the rules
  -- of the membership that the event asks for.
  pub valid_membership_change_iff :
      (valid_membership_change r v c ≡ ok true)
      ↔ ((f : Facts) × (gather r v c ≡ ok f) × Rules v f f.target_membership)
  unfolding valid_membership_change
  valid_membership_change_iff = (
    λ h. let (f, g, j) = bind-eq-ok (gather r v c) _ h in (f, g, (judge_iff v f).0 (cc j)),
    λ p. rw p.1 (ap ok ((judge_iff v p.0).1 p.2)),
  )

  -- Whoever is banned stays out: where the target's current membership is a ban (and the sender's
  -- own membership is read from the same event if the sender is the target), an accepted change is
  -- a new ban, or a leave that another user sends who is joined, or the first join after the
  -- creation of the room.
  pub banned_stays_out :
      {m : MembershipState}
      → valid_membership_change r v c ≡ ok true
      → r.membership c.current_event.content ≡ some m
      → membership_of r c.target_user_membership_event ≡ ok ban
      → (c.sender ≡ c.target_user → c.sender_membership_event ≡ c.target_user_membership_event)
      → (m ≡ ban)
        ⊎ (((m ≡ leave)
              × (c.sender ≢ c.target_user)
              × (membership_of r c.sender_membership_event ≡ ok join))
            ⊎ ((m ≡ join) × (c.current_event.prev_events ≡ c.create_room.event_id ∷ [])))
  banned_stays_out h read banned same =
      let (f, g, rules) = valid_membership_change_iff.0 h in
      let from = gather-GatheredFrom f g in
      let rest = Rules-WhenBanned v f f.target_membership rules (ground arith) (ground arith) in
      ground (arith, only_prev_is-eq c.create_room.event_id c.current_event.prev_events)

  gather-powers :
      (f : Facts)
      → gather r v c ≡ ok f
      → v.explicitly_privilege_room_creators ≡ false
      → (f.sender_power
          ≡ listed_power f.power_levels c.sender (membership_eq f.sender_membership join))
        × (f.target_power
            ≡ listed_power f.power_levels c.target_user (membership_eq f.target_membership join))
        × (power_levels_of r c.power_levels_event ≡ ok f.power_levels)
  unfolding gather
  gather-powers f h plain = ground arith

  -- A kick does not look at `users_default` for the target: where the locals are gathered and
  -- creators have no privilege, a leave that a joined sender, whose listed level is at least the kick
  -- level, sends for another user who is joined or invited and whom the power levels do not list is
  -- accepted, whatever the default level of users is.
  pub unlisted_is_kicked :
      (f : Facts) (p : ℤ)
      → gather r v c ≡ ok f
      → v.explicitly_privilege_room_creators ≡ false
      → f.target_membership ≡ leave
      → c.sender ≢ c.target_user
      → f.sender_membership ≡ join
      → (f.target_current ≡ join) ⊎ (f.target_current ≡ invite)
      → lookup c.sender f.power_levels.users ≡ some p
      → f.power_levels.kick ≤ℤ p
      → lookup c.target_user f.power_levels.users ≡ none
      → valid_membership_change r v c ≡ ok true
  unlisted_is_kicked f p g plain leaves other joined current listed enough unlisted =
      let from = gather-GatheredFrom f g in
      let powers = gather-powers f g plain in
      valid_membership_change_iff.1 (f, g, subst (Rules v f) (sym leaves) (ground arith))

  -- Where the locals are gathered, a leave for another user who has left, or was never in the room,
  -- is accepted from every joined sender, whatever the power levels are.
  pub leave_repeated :
      (f : Facts)
      → gather r v c ≡ ok f
      → f.target_membership ≡ leave
      → c.sender ≢ c.target_user
      → f.sender_membership ≡ join
      → f.target_current ≡ leave
      → valid_membership_change r v c ≡ ok true
  leave_repeated f g leaves other joined current =
      let from = gather-GatheredFrom f g in
      valid_membership_change_iff.1 (f, g, subst (Rules v f) (sym leaves) (ground arith))
