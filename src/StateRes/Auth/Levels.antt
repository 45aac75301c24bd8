-- ===== src/StateRes/Auth/Levels.antt =====
-- `check_power_levels` and `get_deserialize_levels` of event_auth.rs.
mod Order
pub mod Users
use arcana_server.Common.{
  String, ◌≡◌, Bool, true, false, ◌&&◌, ◌||◌, not, Option, none, some, List, [], ◌∷◌, ◌++◌,
  contains, keys, lookup, ◌==◌, string_Eq, option_Eq, if◌then◌else◌, is_some,
}
use arcana_server.Common.Int.{ℤ, ltb_ℤ, ℤ_Eq}
use arcana_server.StateRes.Content.{
  Ruma, PowerLevelsContent, LevelName, users_default, events_default, state_default, ban, redact,
  kick, invite,
}
use arcana_server.StateRes.Event.{UserId, Event, EventType, event_type_Eq}
use arcana_server.StateRes.PowerLevels.{deserialize_power_levels}
use arcana_server.StateRes.RoomVersion.{RoomVersion}
use Order.{gt_some, all}

-- one round of the loop over users: `false` is the early `return Some(false)`
unfoldable pub user_level_ok : UserId → ℤ → List UserId → UserId → Option ℤ → Option ℤ → Bool
user_level_ok sender user_level creators user old_level new_level =
    if is_some new_level && contains creators user
    then false
    else if is_some old_level && is_some new_level && old_level == new_level
    then true
    else if not (user == sender) && old_level == some user_level
    then false
    else if gt_some old_level user_level
    then false
    else not (gt_some new_level user_level)

unfoldable pub users_ok :
    UserId → ℤ → List UserId → PowerLevelsContent → PowerLevelsContent → List UserId → Bool
unfolding user_level_ok
users_ok sender level creators old new =
    all λ user.
      user_level_ok sender level creators user (lookup user old.users) (lookup user new.users)

-- one round of the loop over event types
unfoldable pub event_level_ok : ℤ → Option ℤ → Option ℤ → Bool
event_level_ok user_level old_level new_level =
    if is_some old_level && is_some new_level && old_level == new_level
    then true
    else if gt_some old_level user_level
    then false
    else not (gt_some new_level user_level)

unfoldable pub events_ok : ℤ → PowerLevelsContent → PowerLevelsContent → List EventType → Bool
unfolding event_level_ok
events_ok level old new =
    all λ ty. event_level_ok level (lookup ty old.events) (lookup ty new.events)

unfoldable pub notifications_ok : RoomVersion → ℤ → ℤ → ℤ → Bool
notifications_ok version user_level old_level new_level =
    if version.limit_notifications_power_levels
    then (if not (old_level == new_level)
        then not (ltb_ℤ user_level old_level || ltb_ℤ user_level new_level)
        else true)
    else true

-- `get_deserialize_levels`, on the values that the serialised contents hold
unfoldable pub get_deserialize_levels : Option ℤ → Option ℤ → Option (ℤ × ℤ)
get_deserialize_levels none new = none
get_deserialize_levels (some old) none = none
get_deserialize_levels (some old) (some new) = some (old, new)

unfoldable pub level_ok : ℤ → Option (ℤ × ℤ) → Bool
level_ok user_level none = true
level_ok user_level (some (old, new)) = not (ltb_ℤ user_level old || ltb_ℤ user_level new)

abbrev pub levels : List LevelName
levels = users_default ∷ events_default ∷ state_default ∷ ban ∷ redact ∷ kick ∷ invite ∷ []

unfoldable pub levels_ok :
    Ruma → ℤ → PowerLevelsContent → PowerLevelsContent → List LevelName → Bool
unfolding level_ok get_deserialize_levels
levels_ok r level old new = all λ name.
    level_ok level (get_deserialize_levels (r.level_value old name) (r.level_value new name))

-- the checks of a new content against an old one
unfoldable pub change_ok :
    Ruma → RoomVersion → UserId → ℤ → List UserId → PowerLevelsContent → PowerLevelsContent → Bool
change_ok r version sender user_level creators old new =
    users_ok sender user_level creators old new (keys old.users ++ keys new.users)
    && events_ok user_level old new (keys old.events ++ keys new.events)
    && notifications_ok version user_level old.notifications.room new.notifications.room
    && levels_ok r user_level old new levels

-- with the state key looked at
unfoldable pub check_contents :
    Ruma
    → RoomVersion
    → Event
    → Option Event
    → ℤ
    → List UserId
    → Option PowerLevelsContent
    → Option Bool
check_contents r version power_event previous user_level creators none = none
check_contents r version power_event none user_level creators (some new) = some true
check_contents r version power_event (some current) user_level creators (some new) =
    elim (deserialize_power_levels r current.content version) [
      | none ↦ none
      | some old ↦ some (change_ok r version power_event.sender user_level creators old new)
    ]

unfoldable pub check_power_levels :
    Ruma → RoomVersion → Event → Option Event → ℤ → List UserId → Option Bool
unfolding check_contents
check_power_levels r version power_event previous user_level creators =
    if power_event.state_key == some ""
    then check_contents r version power_event previous user_level creators
        (deserialize_power_levels r power_event.content version)
    else none
