-- ===== src/StateRes/RoomVersion.antt =====
-- src/core/matrix/state_res/room_version.rs: what each room version switches on.
use arcana_server.Common.{◌≡◌, ◌↔◌, Bool, true, false, arith}
use arcana_server.StateRes.Result.{Result, ok, err, unsupported}

pub data RoomDisposition : Type 0 where
  stable unstable : RoomDisposition

pub data EventFormatVersion : Type 0 where
  format_v1 format_v2 format_v3 : EventFormatVersion

pub data StateResolutionVersion : Type 0 where
  res_v1 res_v2 res_v2_1 : StateResolutionVersion

pub record RoomVersion : Type 0 where
  pub disposition : RoomDisposition
  pub event_format : EventFormatVersion
  pub state_res : StateResolutionVersion
  pub enforce_key_validity : Bool
  pub special_case_aliases_auth : Bool
  pub strict_canonicaljson : Bool
  pub limit_notifications_power_levels : Bool
  pub extra_redaction_checks : Bool
  pub allow_knocking : Bool
  pub restricted_join_rules : Bool
  pub knock_restricted_join_rule : Bool
  pub integer_power_levels : Bool
  pub use_room_create_sender : Bool
  pub explicitly_privilege_room_creators : Bool
  pub room_ids_as_hashes : Bool

abbrev pub v1 : RoomVersion
v1 = record {
  disposition = stable;
  event_format = format_v1;
  state_res = res_v1;
  enforce_key_validity = false;
  special_case_aliases_auth = true;
  strict_canonicaljson = false;
  limit_notifications_power_levels = false;
  extra_redaction_checks = true;
  allow_knocking = false;
  restricted_join_rules = false;
  knock_restricted_join_rule = false;
  integer_power_levels = false;
  use_room_create_sender = false;
  explicitly_privilege_room_creators = false;
  room_ids_as_hashes = false;
}

abbrev pub v2 : RoomVersion
v2 = record v1 { state_res = res_v2 }

abbrev pub v3 : RoomVersion
v3 = record v2 { event_format = format_v2; extra_redaction_checks = false }

abbrev pub v4 : RoomVersion
v4 = record v3 { event_format = format_v3 }

abbrev pub v5 : RoomVersion
v5 = record v4 { enforce_key_validity = true }

abbrev pub v6 : RoomVersion
v6 = record v5 {
  special_case_aliases_auth = false;
  strict_canonicaljson = true;
  limit_notifications_power_levels = true;
}

abbrev pub v7 : RoomVersion
v7 = record v6 { allow_knocking = true }

abbrev pub v8 : RoomVersion
v8 = record v7 { restricted_join_rules = true }

abbrev pub v9 : RoomVersion
v9 = v8

abbrev pub v10 : RoomVersion
v10 = record v9 { knock_restricted_join_rule = true; integer_power_levels = true }

abbrev pub v11 : RoomVersion
v11 = record v10 { use_room_create_sender = true }

abbrev pub v12 : RoomVersion
v12 = record v11 { explicitly_privilege_room_creators = true; room_ids_as_hashes = true }

-- `RoomVersionId` of ruma: the published versions, and all other identifiers
pub data RoomVersionId : Type 0 where
  id_v1 id_v2 id_v3 id_v4 id_v5 id_v6 id_v7 id_v8 id_v9 id_v10 id_v11 id_v12 : RoomVersionId
  unpublished : RoomVersionId

-- `RoomVersion::new`
unfoldable pub new : RoomVersionId → Result RoomVersion
new id_v1 = ok v1
new id_v2 = ok v2
new id_v3 = ok v3
new id_v4 = ok v4
new id_v5 = ok v5
new id_v6 = ok v6
new id_v7 = ok v7
new id_v8 = ok v8
new id_v9 = ok v9
new id_v10 = ok v10
new id_v11 = ok v11
new id_v12 = ok v12
new unpublished = err unsupported

-- `stateres_version` of `resolve` in src/core/matrix/state_res/mod.rs
unfoldable pub stateres_version : RoomVersionId → StateResolutionVersion
stateres_version id_v2 = res_v2
stateres_version id_v3 = res_v2
stateres_version id_v4 = res_v2
stateres_version id_v5 = res_v2
stateres_version id_v6 = res_v2
stateres_version id_v7 = res_v2
stateres_version id_v8 = res_v2
stateres_version id_v9 = res_v2
stateres_version id_v10 = res_v2
stateres_version id_v11 = res_v2
stateres_version _ = res_v2_1

-- the versions from 2 to 11
abbrev pub is_from_2_to_11 : RoomVersionId → Bool
is_from_2_to_11 id_v1 = false
is_from_2_to_11 id_v12 = false
is_from_2_to_11 unpublished = false
is_from_2_to_11 _ = true

-- The algorithm that `resolve` selects is the one that the record of the room version names exactly
-- for versions 2 to 11: for versions 1 and 12 the two differ.
pub stateres_version-new :
    (id : RoomVersionId) (v : RoomVersion)
    → new id ≡ ok v
    → (stateres_version id ≡ v.state_res) ↔ (is_from_2_to_11 id ≡ true)
unfolding new stateres_version
stateres_version-new id_v1 v h = ground arith
stateres_version-new _ v h = ground arith
