-- ===== src/StateRes/Auth/Check/Sound.antt =====
-- What `auth_check` has made sure of when it accepts an event that is neither the creation of a
-- room nor a membership event.
use arcana_server.Common.{
  ◌≡◌, inl, inr, true, false, Option, none, some, arith, String, refl, Option-cases, contains_iff,
  In, string_Eq,
}
use arcana_server.Common.Int.{ℤ, ◌≤ℤ◌}
use arcana_server.StateRes.Content.{Ruma, Raw, RoomCreateContentFields, RoomMemberContentFields}
use arcana_server.StateRes.Event.{Event, RoomId, join, MembershipState}
use arcana_server.StateRes.Result.{ok}
use arcana_server.StateRes.RoomVersion.{RoomVersion}
use arcana_server.StateRes.Auth.Check.Stages.{check_room, check_sender_membership}
use arcana_server.StateRes.Auth.Send.{get_send_level, can_send_event}
use text.Mathlib.Text.{starts_with}
use text.Mathlib.TextEquality.{eq_iff}

-- The sender has a membership event of the room, which says `join`.
pub record IsJoined (r : Ruma) (member : Option Event) (room_id : RoomId) : Type 0 where
  pub event : Event
  pub found : member ≡ some event
  pub same_room : event.room_id ≡ some room_id
  pub fields : RoomMemberContentFields
  pub parses : r.member_fields event.content ≡ some fields
  pub raw : Raw MembershipState
  pub present : fields.membership ≡ some raw
  pub joined : raw.deserialize ≡ some join

module _ (r : Ruma) where
  pub check_sender_membership-IsJoined :
      (member : Option Event) (room_id : RoomId)
      → check_sender_membership r member room_id ≡ ok true
      → IsJoined r member room_id
  unfolding check_sender_membership
  check_sender_membership-IsJoined none room_id h = cc
  check_sender_membership-IsJoined (some event) room_id h =
      elim (Option-cases (r.member_fields event.content)) [
        | inl n ↦ absurd (ground arith)
        | inr (fields, p) ↦ elim (Option-cases fields.membership) [
          | inl n ↦ absurd (ground arith)
          | inr (raw, q) ↦ record {
            event = event;
            found = refl;
            same_room = elim (Option-cases event.room_id) [
              | inl n ↦ absurd (ground arith)
              | inr (own, o) ↦ ground (arith, eq_iff own room_id)
            ];
            fields = fields;
            parses = p;
            raw = raw;
            present = q;
            joined = ground arith;
          }
        ]
      ]

  -- The level suffices for the event type, and a state key that starts with `@` is the sender.
  pub record MaySend (e : Event) (power_levels : Option Event) (level : ℤ) : Type 0 where
    pub enough : get_send_level r e.event_type e.state_key power_levels ≤ℤ level
    pub own_key : (k : String) → e.state_key ≡ some k → starts_with k "@" ≡ true → k ≡ e.sender

  pub can_send_event-MaySend :
      (e : Event) (power_levels : Option Event) (level : ℤ)
      → can_send_event r e power_levels level ≡ true
      → MaySend e power_levels level
  unfolding can_send_event
  can_send_event-MaySend e power_levels level h = record {
    enough = ground arith;
    own_key = λ k s p. ground (arith, eq_iff k e.sender);
  }

module _ (r : Ruma) (v : RoomVersion) (e : Event) (power_levels : Option Event)
    (create_event : Event) (fields : RoomCreateContentFields) where
  -- The event is in the room of the creation event and refers to that event as its version asks.
  pub record IsInRoom (room_id : RoomId) : Type 0 where
    pub same_room : e.room_id ≡ some room_id
    pub claims : v.room_ids_as_hashes ≡ false → In create_event.event_id e.auth_events
    pub claims_not : v.room_ids_as_hashes ≡ true → ¬ In create_event.event_id e.auth_events
    pub same_levels_room : (pl : Event) → power_levels ≡ some pl → pl.room_id ≡ some room_id
    pub federates :
        v.room_ids_as_hashes ≡ false
        → fields.federate ≡ false
        → r.user_server create_event.sender ≡ r.user_server e.sender

  pub check_room-IsInRoom :
      (room_id : RoomId)
      → check_room r v e power_levels create_event fields room_id ≡ ok true
      → IsInRoom room_id
  unfolding check_room
  check_room-IsInRoom room_id h = elim (Option-cases e.room_id) [
    | inl n ↦ absurd (ground arith)
    | inr (own, o) ↦ record {
      same_room = ground (arith, eq_iff own room_id);
      claims = ground (arith, contains_iff e.auth_events create_event.event_id);
      claims_not = ground (arith, contains_iff e.auth_events create_event.event_id);
      same_levels_room = λ pl p. elim (Option-cases pl.room_id) [
        | inl n ↦ absurd (ground arith)
        | inr (theirs, t) ↦ ground (arith, eq_iff theirs room_id)
      ];
      federates =
          ground (arith, eq_iff (r.user_server create_event.sender) (r.user_server e.sender));
    }
  ]
