-- ===== src/StateRes/Auth/Check/Create.antt =====
-- Which creation events `auth_check` accepts.
use arcana_server.Common.{
  ◌≡◌, ◌≢◌, inl, inr, ◌↔◌, true, false, Option, none, some, [], arith, is_some, String,
  Option-cases,
}
use arcana_server.StateRes.Content.{Ruma, Raw, RoomCreateContentFields}
use arcana_server.StateRes.Event.{Event, RoomId, room_create, event_type_eq_iff}
use arcana_server.StateRes.Result.{ok}
use arcana_server.StateRes.RoomVersion.{RoomVersion}
use arcana_server.StateRes.Auth.Check.{auth_check}
use arcana_server.StateRes.Auth.Check.Stages.{State, check_create, is_unsupported, room_id_matches}
use text.Mathlib.TextEquality.{eq_iff}

-- The room ID, where there is one, belongs to the sender's server.
abbrev pub OwnRoom : Ruma → Event → Option RoomId → Type 0
OwnRoom r e none = Unit
OwnRoom r e (some room_id) = r.room_server room_id ≡ some (r.user_server e.sender)

-- A room version, where the content has one, is known.
abbrev pub KnownVersion : Option (Raw String) → Type 0
KnownVersion none = Unit
KnownVersion (some raw) = raw.deserialize ≢ none

-- The rules for m.room.create.
pub record Creates (r : Ruma) (v : RoomVersion) (e : Event) : Type 0 where
  pub first : e.prev_events ≡ []
  pub own_room : OwnRoom r e e.room_id
  pub fields : RoomCreateContentFields
  pub parses : r.create_fields e.content ≡ some fields
  pub known_version : KnownVersion fields.room_version
  pub hashed_id : v.room_ids_as_hashes ≡ true → e.room_id ≡ none
  pub has_creator :
      v.use_room_create_sender ≡ false
      → v.explicitly_privilege_room_creators ≡ false
      → is_some fields.creator ≡ true

room_id_matches_iff :
    (r : Ruma) (e : Event) (o : Option RoomId) → (room_id_matches r e o ≡ true) ↔ OwnRoom r e o
unfolding room_id_matches
room_id_matches_iff r e none = ground arith
room_id_matches_iff r e (some room_id) = elim (Option-cases (r.room_server room_id)) [
  | inl n ↦ rw n (ground arith)
  | inr (server, s) ↦ rw s (ground (arith, eq_iff server (r.user_server e.sender)))
]

is_unsupported_iff : (o : Option (Raw String)) → (is_unsupported o ≡ false) ↔ KnownVersion o
unfolding is_unsupported
is_unsupported_iff none = ground arith
is_unsupported_iff (some raw) = ground arith

module _ (r : Ruma) (v : RoomVersion) (e : Event) (third_party : Option Event) (fetch_state : State)
    (create_event : Event) where
  check_create-Creates : check_create r v e ≡ ok true → Creates r v e
  unfolding check_create
  check_create-Creates h = elim (Option-cases (r.create_fields e.content)) [
    | inl n ↦ absurd (ground (arith, room_id_matches_iff r e e.room_id))
    | inr (fields, p) ↦ record {
      first = ground arith;
      own_room = ground (arith, room_id_matches_iff r e e.room_id);
      fields = fields;
      parses = p;
      known_version = ground (arith, is_unsupported_iff fields.room_version);
      hashed_id = ground arith;
      has_creator = ground arith;
    }
  ]

  Creates-check_create : Creates r v e → check_create r v e ≡ ok true
  unfolding check_create
  Creates-check_create c = ground (
    arith,
    room_id_matches_iff r e e.room_id,
    is_unsupported_iff c.fields.room_version,
    c.hashed_id,
    c.has_creator,
  )

  -- A creation event is accepted exactly if it has no previous event, a room ID of the sender's
  -- server or none (none in versions with hashed room IDs), a content that parses, a known room
  -- version if it names one, and a creator in the versions that ask for one.
  pub auth_check-create_iff :
      e.event_type ≡ room_create
      → (auth_check r v e third_party fetch_state create_event ≡ ok true) ↔ Creates r v e
  unfolding auth_check
  auth_check-create_iff t =
      rw ((event_type_eq_iff e.event_type room_create).1 t)
        (check_create-Creates, Creates-check_create)
