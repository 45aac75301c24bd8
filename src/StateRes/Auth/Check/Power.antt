-- ===== src/StateRes/Auth/Check/Power.antt =====
-- The power that `auth_check` asks of a sender, and what it guards.
use arcana_server.Common.{
  ◌≡◌, ◌≢◌, ◌⊎◌, inl, inr, true, false, not, Option, some, List, [], ◌∷◌, arith, Option-cases, In,
  string_Eq,
}
use arcana_server.Common.Int.{ℤ, ◌≤ℤ◌, ltb_ℤ}
use arcana_server.StateRes.Content.{Ruma, RoomCreateContentFields}
use arcana_server.StateRes.Event.{
  Event, RoomId, UserId, room_create, room_member, room_aliases, room_power_levels,
  room_third_party_invite, event_type_eq_iff, room_id_or_hash, event_type_Eq,
}
use arcana_server.StateRes.Result.{ok, ◌>>=◌, bind-eq-ok, Result-cases}
use arcana_server.StateRes.RoomVersion.{RoomVersion}
use arcana_server.StateRes.Auth.Check.{auth_check, check_in_room}
use arcana_server.StateRes.Auth.Check.Stages.{
  State, check_sent, check_sender_membership, sender_power_level, check_levels_change,
  check_redacts, check_power, invite_level, privileged_creators, is_allowed,
}
use arcana_server.StateRes.Auth.Check.Sound.{
  IsJoined, MaySend, IsInRoom, check_sender_membership-IsJoined, can_send_event-MaySend,
  check_room-IsInRoom,
}
use arcana_server.StateRes.Auth.Levels.{check_power_levels}
use arcana_server.StateRes.Auth.Levels.Users.{Accepted, check_power_levels_iff}

privileged_creators-mem :
    (v : RoomVersion) (create_event : Event) (fields : RoomCreateContentFields)
    (creators : List UserId)
    → privileged_creators v create_event fields ≡ ok creators
    → v.explicitly_privilege_room_creators ≡ true
    → In create_event.sender creators
unfolding privileged_creators
privileged_creators-mem v create_event fields [] h p = ground arith
privileged_creators-mem v create_event fields (user ∷ users) h p = inl (ground arith)

module _ (r : Ruma) (v : RoomVersion) (e : Event) (power_levels : Option Event)
    (create_event : Event) (fields : RoomCreateContentFields) where
  -- What a sender's level has to cover.
  pub record HasPower (level : ℤ) : Type 0 where
    pub invites :
        e.event_type ≡ room_third_party_invite
        → (required : ℤ) × (invite_level r v power_levels ≡ ok required) × (required ≤ℤ level)
    pub sends : e.event_type ≢ room_third_party_invite → MaySend r e power_levels level
    pub changes_levels :
        e.event_type ≢ room_third_party_invite
        → check_levels_change r v e power_levels level create_event fields ≡ ok true
    pub redacts :
        e.event_type ≢ room_third_party_invite → check_redacts r v e power_levels level ≡ ok true

  -- A joined sender with the power for the event.
  pub record IsAllowed (member : Option Event) (room_id : RoomId) : Type 0 where
    pub joined : IsJoined r member room_id
    pub level : ℤ
    pub level_read : sender_power_level r v e.sender power_levels create_event fields ≡ ok level
    pub power : HasPower level

  check_power-HasPower :
      (level : ℤ)
      → check_power r v e power_levels level create_event fields ≡ ok true
      → HasPower level
  unfolding check_power
  check_power-HasPower level h = record {
    invites = λ t.
        let checked : (invite_level r v power_levels >>= λ required.
        ok (not (ltb_ℤ level required)))
            ≡ ok true =
          ground arith in
        let (required, q, enough) = bind-eq-ok _ _ checked in (required, q, ground arith);
    sends = λ t.
        can_send_event-MaySend r e power_levels level
          (ground (arith, event_type_eq_iff e.event_type room_third_party_invite));
    changes_levels = λ t. ground (arith, event_type_eq_iff e.event_type room_third_party_invite);
    redacts = λ t. ground (arith, event_type_eq_iff e.event_type room_third_party_invite);
  }

  check_sent-IsAllowed :
      (member : Option Event) (room_id : RoomId)
      → check_sent r v e member power_levels create_event fields room_id ≡ ok true
      → IsAllowed member room_id
  unfolding check_sent
  check_sent-IsAllowed member room_id h =
      let joined : check_sender_membership r member room_id ≡ ok true = ground arith in
      let rest : (sender_power_level r v e.sender power_levels create_event fields >>= λ level.
      check_power r v e power_levels level create_event fields)
          ≡ ok true =
        ground arith in
      let (level, l, p) = bind-eq-ok _ _ rest in
      record {
        joined = check_sender_membership-IsJoined r member room_id joined;
        level = level;
        level_read = l;
        power = check_power-HasPower level p;
      }

  -- A change of the power levels that gets this far is one that `check_power_levels` accepts, for
  -- a set of creators that holds the room's in the versions that privilege them.
  check_levels_change-Accepted :
      (previous : Event) (level : ℤ)
      → power_levels ≡ some previous
      → e.event_type ≡ room_power_levels
      → check_levels_change r v e power_levels level create_event fields ≡ ok true
      → (creators : List UserId) × (privileged_creators v create_event fields ≡ ok creators)
        × Accepted r v e previous level creators
  unfolding check_levels_change
  check_levels_change-Accepted previous level p t h =
      let checked : (privileged_creators v create_event fields >>= λ creators.
      ok (is_allowed (check_power_levels r v e (some previous) level creators)))
          ≡ ok true =
        ground arith in
      let (creators, q, a) = bind-eq-ok _ _ checked in
      (creators, q, (check_power_levels_iff r v e previous level creators).0 (ground arith))

module _ (r : Ruma) (v : RoomVersion) (e : Event) (third_party : Option Event) (fetch_state : State)
    (create_event : Event) where
  -- Where the code looks in the state.
  abbrev levels_event : Option Event
  levels_event = fetch_state room_power_levels ""

  abbrev member_event : Option Event
  member_event = fetch_state room_member e.sender

  -- The event is in its room, and its sender is joined there and has the power for it.
  pub record IsAuthorised : Type 0 where
    pub fields : RoomCreateContentFields
    pub parses : r.create_fields create_event.content ≡ some fields
    pub room_id : RoomId
    pub room_id_read : room_id_or_hash r.as_room_id create_event ≡ ok room_id
    pub in_room : IsInRoom r v e levels_event create_event fields room_id
    pub allowed : IsAllowed r v e levels_event create_event fields member_event room_id

  -- `auth_check` accepts an event that is neither a creation nor a membership event (nor, in the
  -- versions that special-case it, an alias event) only if: it is in the room of the creation event
  -- and refers to that event as the version asks, the power levels are of the same room, and a room
  -- that does not federate has a sender of its server; the sender's membership event is of the room
  -- and says `join`; and the sender's level covers the invite level for a third party invite, and
  -- the level of the event type for any other event, whose state key is the sender if it starts
  -- with `@` and which passes the checks of power levels and of redactions.
  pub auth_check-IsAuthorised :
      e.event_type ≢ room_create
      → e.event_type ≢ room_member
      → (v.special_case_aliases_auth ≡ false) ⊎ (e.event_type ≢ room_aliases)
      → auth_check r v e third_party fetch_state create_event ≡ ok true
      → IsAuthorised
  unfolding auth_check check_in_room
  auth_check-IsAuthorised nc nm na h =
      let inside : check_in_room r v e third_party fetch_state create_event ≡ ok true =
        ground (arith, event_type_eq_iff e.event_type room_create) in
      elim (Option-cases (r.create_fields create_event.content)) [
        | inl n ↦ absurd (ground arith)
        | inr (fields, p) ↦ elim (Result-cases (room_id_or_hash r.as_room_id create_event)) [
          | inl (room_id, q) ↦ record {
            fields = fields;
            parses = p;
            room_id = room_id;
            room_id_read = q;
            in_room =
                check_room-IsInRoom r v e levels_event create_event fields room_id (ground arith);
            allowed =
                check_sent-IsAllowed r v e levels_event create_event fields member_event room_id (
                  ground (
                    arith,
                    event_type_eq_iff e.event_type room_member,
                    event_type_eq_iff e.event_type room_aliases,
                  ));
          }
          | inr other ↦ absurd (ground arith)
        ]
      ]

  -- When `auth_check` accepts an m.room.power_levels event and the state has one already, the new
  -- levels are a permitted change of the old ones for the sender's own level, and for a set of
  -- creators that in the versions that privilege them holds the sender of the creation event.
  pub auth_check-Permitted :
      (previous : Event)
      → e.event_type ≡ room_power_levels
      → fetch_state room_power_levels "" ≡ some previous
      → auth_check r v e third_party fetch_state create_event ≡ ok true
      → (fields : RoomCreateContentFields) × (level : ℤ) × (creators : List UserId)
        × (r.create_fields create_event.content ≡ some fields)
        × (sender_power_level r v e.sender (some previous) create_event fields ≡ ok level)
        × Accepted r v e previous level creators
        × (v.explicitly_privilege_room_creators ≡ true → In create_event.sender creators)
  auth_check-Permitted previous t old h =
      let a = auth_check-IsAuthorised (ground arith) (ground arith) (inr (ground arith)) h in
      let (creators, q, accepted) =
        check_levels_change-Accepted r v e levels_event create_event a.fields previous
          a.allowed.level old t (a.allowed.power.changes_levels (ground arith)) in
      (
        a.fields,
        a.allowed.level,
        creators,
        a.parses,
        rw (← old) a.allowed.level_read,
        accepted,
        privileged_creators-mem v create_event a.fields creators q,
      )
