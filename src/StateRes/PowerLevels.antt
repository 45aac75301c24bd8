-- ===== src/StateRes/PowerLevels.antt =====
-- src/core/matrix/state_res/power_levels.rs: the power levels in each version's syntax.
pub mod Search
use Prim.Native.Nat.{Ordering}
use arcana_server.Common.{
  ℕ, zero, suc, ◌+◌, ◌-◌, ◌/◌, Option, none, some, Bool, true, false, List, length, get_elem?, ltb,
  if◌then◌else◌, nat_eq,
}
use arcana_server.Common.Int.{ℤ}
use arcana_server.StateRes.Content.{
  Ruma, PowerLevelsContent, IntPowerLevelsContent, PowerLevelsContentFields,
  IntPowerLevelsContentFields, PowerLevelsContentInvite, IntPowerLevelsContentInvite,
  PowerLevelsContentRedact, IntPowerLevelsContentRedact,
}
use arcana_server.StateRes.Event.{UserId, Content}
use arcana_server.StateRes.Result.{Result, json, ok, ◌>>=◌}
use arcana_server.StateRes.RoomVersion.{RoomVersion}

-- the `From` conversions
abbrev pub from_int_power_levels : IntPowerLevelsContent → PowerLevelsContent
from_int_power_levels pl = record {
  ban = pl.ban;
  events = pl.events;
  events_default = pl.events_default;
  invite = pl.invite;
  kick = pl.kick;
  redact = pl.redact;
  state_default = pl.state_default;
  users = pl.users;
  users_default = pl.users_default;
  notifications = record { room = pl.notifications.room };
}

abbrev pub from_int_fields : IntPowerLevelsContentFields → PowerLevelsContentFields
from_int_fields pl = record { users = pl.users; users_default = pl.users_default }

abbrev pub from_int_invite : IntPowerLevelsContentInvite → PowerLevelsContentInvite
from_int_invite pl = record { invite = pl.invite }

abbrev pub from_int_redact : IntPowerLevelsContentRedact → PowerLevelsContentRedact
from_int_redact pl = record { redact = pl.redact }

abbrev pub map_option : {A B : Type 0} → (A → B) → Option A → Option B
map_option f none = none
map_option f (some a) = some (f a)

module _ (r : Ruma) where
  deserialize_integer_power_levels : Content → Option PowerLevelsContent
  deserialize_integer_power_levels content =
      map_option from_int_power_levels (r.int_power_levels content)

  deserialize_legacy_power_levels : Content → Option PowerLevelsContent
  deserialize_legacy_power_levels content = r.power_levels content

  unfoldable pub deserialize_power_levels : Content → RoomVersion → Option PowerLevelsContent
  unfolding deserialize_integer_power_levels deserialize_legacy_power_levels
  deserialize_power_levels content version =
      if version.integer_power_levels
      then deserialize_integer_power_levels content
      else deserialize_legacy_power_levels content

  deserialize_integer_power_levels_content_fields : Content → Result PowerLevelsContentFields
  deserialize_integer_power_levels_content_fields content =
      json (map_option from_int_fields (r.int_power_fields content))

  deserialize_legacy_power_levels_content_fields : Content → Result PowerLevelsContentFields
  deserialize_legacy_power_levels_content_fields content = json (r.power_fields content)

  unfoldable pub deserialize_power_levels_content_fields :
      Content → RoomVersion → Result PowerLevelsContentFields
  unfolding deserialize_integer_power_levels_content_fields
      deserialize_legacy_power_levels_content_fields
  deserialize_power_levels_content_fields content version =
      if version.integer_power_levels
      then deserialize_integer_power_levels_content_fields content
      else deserialize_legacy_power_levels_content_fields content

  unfoldable pub deserialize_power_levels_content_invite :
      Content → RoomVersion → Result PowerLevelsContentInvite
  deserialize_power_levels_content_invite content version =
      if version.integer_power_levels
      then json (map_option from_int_invite (r.int_power_invite content))
      else json (r.power_invite content)

  unfoldable pub deserialize_power_levels_content_redact :
      Content → RoomVersion → Result PowerLevelsContentRedact
  deserialize_power_levels_content_redact content version =
      if version.integer_power_levels
      then json (map_option from_int_redact (r.int_power_redact content))
      else json (r.power_redact content)

  -- `PowerLevelsContentFields::get_user_power`. The comparator orders an item's user against the
  -- one looked for; `binary_search_by` is the standard library's.
  unfoldable pub get_user_power : PowerLevelsContentFields → UserId → Option ℤ
  unfolding Search.binary_search_by
  get_user_power content user =
      elim (Search.binary_search_by (λ (item : UserId × ℤ). r.cmp_user item.0 user) content.users) [
        | none ↦ none
        | some idx ↦ map_option (λ (item : UserId × ℤ). item.1) (get_elem? content.users idx)
      ]
