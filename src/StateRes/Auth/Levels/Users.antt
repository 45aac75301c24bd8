-- ===== src/StateRes/Auth/Levels/Users.antt =====
-- Which changes of the power levels `check_power_levels` lets pass.
use arcana_server.Common.{
  ◌≡◌, ◌≢◌, refl, ◌↔◌, ◌⊎◌, inl, inr, Bool, true, ◌&&◌, Option, none, some, List, ◌++◌,
  contains_iff, In, keys, lookup, string_Eq, option_Eq, arith, Option-cases, option_eq_iff,
}
use arcana_server.Common.Int.{ℤ, ◌≤ℤ◌, ℤ_Eq, eq_ℤ_iff}
use arcana_server.StateRes.Content.{Ruma, PowerLevelsContent, LevelName}
use arcana_server.StateRes.Event.{UserId, Event, EventType, event_type_Eq}
use arcana_server.StateRes.PowerLevels.{deserialize_power_levels}
use arcana_server.StateRes.RoomVersion.{RoomVersion}
use arcana_server.StateRes.Auth.Levels.{
  user_level_ok, users_ok, event_level_ok, events_ok, notifications_ok, level_ok, levels,
  get_deserialize_levels, levels_ok, change_ok, check_contents, check_power_levels,
}
use arcana_server.StateRes.Auth.Levels.Order.{AtMost, all-keys_iff, all-mem, all_intro}
use text.Mathlib.TextEquality.{eq_iff}

-- A user's old and new level: a creator is not listed, and a level that changes was and will be
-- at most the sender's; one equal to the sender's changes only for the sender.
abbrev pub UserPermitted : UserId → ℤ → List UserId → UserId → Option ℤ → Option ℤ → Type 0
UserPermitted sender level creators user old new =
    (In user creators → new ≡ none)
    × ((old ≡ new) ⊎ (AtMost old level × AtMost new level × (user ≢ sender → old ≢ some level)))

-- An event type's old and new level.
abbrev pub EventPermitted : ℤ → Option ℤ → Option ℤ → Type 0
EventPermitted level old new = (old ≡ new) ⊎ (AtMost old level × AtMost new level)

user_level_ok_iff :
    (sender : UserId) (level : ℤ) (creators : List UserId) (user : UserId) (old new : Option ℤ)
    → (user_level_ok sender level creators user old new ≡ true)
      ↔ UserPermitted sender level creators user old new
unfolding user_level_ok
user_level_ok_iff sender level creators user none none = ground (arith, contains_iff creators user)
user_level_ok_iff sender level creators user none (some b) =
    ground (arith, contains_iff creators user)
user_level_ok_iff sender level creators user (some a) none =
    ground (arith, contains_iff creators user, eq_iff user sender, eq_ℤ_iff a level)
user_level_ok_iff sender level creators user (some a) (some b) =
    ground (arith, contains_iff creators user, eq_iff user sender, eq_ℤ_iff a level, eq_ℤ_iff a b)

event_level_ok_iff :
    (level : ℤ) (old new : Option ℤ)
    → (event_level_ok level old new ≡ true) ↔ EventPermitted level old new
unfolding event_level_ok
event_level_ok_iff level none none = ground arith
event_level_ok_iff level none (some b) = ground arith
event_level_ok_iff level (some a) none = ground arith
event_level_ok_iff level (some a) (some b) = ground (arith, eq_ℤ_iff a b)

-- A level of the serialised contents: where both hold it, neither passes the sender's.
abbrev pub LevelPermitted : ℤ → Option ℤ → Option ℤ → Type 0
LevelPermitted level (some old) (some new) = (old ≤ℤ level) × (new ≤ℤ level)
LevelPermitted level _ _ = Unit

level_ok_iff :
    (level : ℤ) (old new : Option ℤ)
    → (level_ok level (get_deserialize_levels old new) ≡ true) ↔ LevelPermitted level old new
unfolding level_ok get_deserialize_levels
level_ok_iff level none new = ground arith
level_ok_iff level (some a) none = ground arith
level_ok_iff level (some a) (some b) = ground arith

-- The changes that the rules for m.room.power_levels permit.
pub record Permitted (r : Ruma) (version : RoomVersion) (sender : UserId) (level : ℤ)
    (creators : List UserId) (old new : PowerLevelsContent) : Type 0 where
  pub user :
      (u : UserId) → UserPermitted sender level creators u (lookup u old.users) (lookup u new.users)
  pub event : (ty : EventType) → EventPermitted level (lookup ty old.events) (lookup ty new.events)
  pub notification :
      version.limit_notifications_power_levels ≡ true
      → EventPermitted level (some old.notifications.room) (some new.notifications.room)
  pub named :
      (name : LevelName) → LevelPermitted level (r.level_value old name) (r.level_value new name)

and_iff :
    (a b c d : Bool)
    → ((a && b && c && d) ≡ true) ↔ ((a ≡ true) × (b ≡ true) × (c ≡ true) × (d ≡ true))
and_iff a b c d = ground arith

module _ (r : Ruma) (version : RoomVersion) (sender : UserId) (level : ℤ) (creators : List UserId)
    (old new : PowerLevelsContent) where
  users_ok_iff :
      (users_ok sender level creators old new (keys old.users ++ keys new.users) ≡ true) ↔ (
        (u : UserId)
        → UserPermitted sender level creators u (lookup u old.users) (lookup u new.users))
  unfolding users_ok
  users_ok_iff =
      let whole =
        all-keys_iff (user_level_ok sender level creators) old.users new.users
          (λ u. (user_level_ok_iff sender level creators u none none).1 (λ _. refl, inl refl)) in
      (
        λ h u. (user_level_ok_iff sender level creators u _ _).0 (whole.0 h u),
        λ h. whole.1 (λ u. (user_level_ok_iff sender level creators u _ _).1 (h u)),
      )

  events_ok_iff :
      (events_ok level old new (keys old.events ++ keys new.events) ≡ true)
      ↔ ((ty : EventType) → EventPermitted level (lookup ty old.events) (lookup ty new.events))
  unfolding events_ok
  events_ok_iff =
      let whole =
        all-keys_iff (λ (ty : EventType). event_level_ok level) old.events new.events
          (λ ty. (event_level_ok_iff level none none).1 (inl refl)) in
      (
        λ h ty. (event_level_ok_iff level _ _).0 (whole.0 h ty),
        λ h. whole.1 (λ ty. (event_level_ok_iff level _ _).1 (h ty)),
      )

  notifications_ok_iff :
      (notifications_ok version level old.notifications.room new.notifications.room ≡ true) ↔ (
        version.limit_notifications_power_levels ≡ true
        → EventPermitted level (some old.notifications.room) (some new.notifications.room))
  unfolding notifications_ok
  notifications_ok_iff = ground (arith, eq_ℤ_iff old.notifications.room new.notifications.room)

  levels_mem : (name : LevelName) → In name levels
  levels_mem name = ground arith

  levels_ok_iff : (levels_ok r level old new levels ≡ true) ↔ (
      (name : LevelName) → LevelPermitted level (r.level_value old name) (r.level_value new name))
  unfolding levels_ok
  levels_ok_iff =
      let test = λ (name : LevelName).
        level_ok level (get_deserialize_levels (r.level_value old name) (r.level_value new name)) in
      (
        λ h name. (level_ok_iff level _ _).0 (all-mem test levels name h (levels_mem name)),
        λ h. all_intro test levels (λ name. (level_ok_iff level _ _).1 (h name)),
      )

  pub change_ok_iff :
      (change_ok r version sender level creators old new ≡ true)
      ↔ Permitted r version sender level creators old new
  unfolding change_ok
  change_ok_iff = (
    λ h.
        let parts = (and_iff _ _ _ _).0 h in
        record {
          user = users_ok_iff.0 parts.0;
          event = events_ok_iff.0 parts.1;
          notification = notifications_ok_iff.0 parts.2;
          named = levels_ok_iff.0 parts.3;
        },
    λ p. (and_iff _ _ _ _).1 (
      users_ok_iff.1 p.user,
      events_ok_iff.1 p.event,
      notifications_ok_iff.1 p.notification,
      levels_ok_iff.1 p.named,
    ),
  )

module _ (r : Ruma) (version : RoomVersion) (e previous : Event) (level : ℤ)
    (creators : List UserId) where
  -- The event has the empty state key, both contents parse, and the change is permitted.
  pub record Accepted : Type 0 where
    pub empty_key : e.state_key ≡ some ""
    pub old : PowerLevelsContent
    pub new : PowerLevelsContent
    pub old_parses : deserialize_power_levels r previous.content version ≡ some old
    pub new_parses : deserialize_power_levels r e.content version ≡ some new
    pub permitted : Permitted r version e.sender level creators old new

  check_contents-eq-true :
      (n : Option PowerLevelsContent)
      → check_contents r version e (some previous) level creators n ≡ some true
      → (old : PowerLevelsContent) × (new : PowerLevelsContent) × (deserialize_power_levels r
            previous.content version
          ≡ some old)
        × (n ≡ some new)
        × (change_ok r version e.sender level creators old new ≡ true)
  unfolding check_contents
  check_contents-eq-true none h = cc
  check_contents-eq-true (some new) h =
      elim (Option-cases (deserialize_power_levels r previous.content version)) [
        | inl n ↦ ground arith
        | inr (old, o) ↦ (old, new, o, refl, ground arith)
      ]

  -- Against a previous power levels event, `check_power_levels` answers `Some(true)` exactly if the
  -- event's state key is empty, both contents parse in the syntax of the room version, and: no
  -- creator is listed; each user's level is unchanged, or its old and new value are at most the
  -- sender's level and the old one equals it only for the sender; each event type's level, and in
  -- the versions that look at notifications theirs, is unchanged or old and new are at most the
  -- sender's level; and so are both values of each named level that both serialised contents hold.
  pub check_power_levels_iff :
      (check_power_levels r version e (some previous) level creators ≡ some true) ↔ Accepted
  unfolding check_power_levels
  check_power_levels_iff = (
    λ h.
        let key : e.state_key ≡ some "" = ground (arith, option_eq_iff e.state_key (some "")) in
        let (old, new, o, n, c) =
          check_contents-eq-true _ (ground (arith, option_eq_iff e.state_key (some ""))) in
        record {
          empty_key = key;
          old = old;
          new = new;
          old_parses = o;
          new_parses = n;
          permitted = (change_ok_iff r version e.sender level creators old new).0 c;
        },
    λ a. rw (
      (option_eq_iff e.state_key (some "")).1 a.empty_key,
      a.new_parses,
      a.old_parses,
      check_contents,
      (change_ok_iff r version e.sender level creators a.old a.new).1 a.permitted,
    ),
  )
