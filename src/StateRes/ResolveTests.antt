-- ===== src/StateRes/ResolveTests.antt =====
-- The theorems on state resolution at concrete state sets and events.
use arcana_server.Common.{
  ℕ, ◌≡◌, ◌⊎◌, ◌↔◌, refl, true, Option, none, some, List, [], ◌∷◌, arith, string_Eq, nat_Eq, In,
  any, contains, not, lookup, insert,
}
use arcana_server.StateRes.Event.{
  EventId, TypeStateKey, room_id_or_hash, room_power_levels, type_state_key_Eq,
}
use arcana_server.StateRes.Result.{ok}
use arcana_server.StateRes.RoomVersion.{v6}
use arcana_server.StateRes.Samples.{ruma, fetch}
use arcana_server.StateRes.PowerLevels.{
  deserialize_power_levels, deserialize_power_levels_content_fields, get_user_power,
}
use arcana_server.StateRes.Auth.Check.{auth_check, check_in_room}
use arcana_server.StateRes.Auth.Check.Stages.{
  sender_power_level, is_unsupported, check_room, check_sent, check_sender_membership, check_power,
  check_levels_change, privileged_creators, check_redacts,
}
use arcana_server.StateRes.Auth.Levels.{
  check_power_levels, change_ok, users_ok, events_ok, notifications_ok, levels_ok,
}
use arcana_server.StateRes.Auth.Send.{can_send_event, get_send_level}
use arcana_server.StateRes.Auth.Types.{auth_types_for_event}
use arcana_server.StateRes.Resolve.Iterative.{iterative_auth_check, check_event}
use arcana_server.StateRes.Resolve.Iterative.Provenance.{
  AcceptedAt, iterative_auth_check-AcceptedAt,
}
use arcana_server.StateRes.Resolve.Separate.Counts.{bump}
use arcana_server.StateRes.Resolve.Separate.{separate, get_auth_chain_diff}
use arcana_server.StateRes.Resolve.Separate.Agree.{AllHold, separate-agree}
use arcana_server.StateRes.Resolve.Separate.Chains.{get_auth_chain_diff_iff}

-- two state sets that agree on the key 1 and differ on 2
abbrev forks : List (List (ℕ × ℕ))
forks = ((1, 10) ∷ (2, 20) ∷ []) ∷ ((2, 21) ∷ (1, 10) ∷ []) ∷ []

separate-agree_example : (lookup 1 (separate forks).0 ≡ some 10) ↔ AllHold 1 10 forks
separate-agree_example =
    separate-agree forks ((refl, (refl, tt)), ((refl, (refl, tt)), tt)) (omega arith) (omega arith)
      1 10

separate-forks :
    (lookup 1 (separate forks).0 ≡ some 10)
    × (lookup 2 (separate forks).0 ≡ none)
    × (lookup 2 (separate forks).1 ≡ some (20 ∷ 21 ∷ []))
unfolding separate insert bump
separate-forks = (refl, refl, refl)

abbrev chains : List (List ℕ)
chains = (1 ∷ 2 ∷ []) ∷ (2 ∷ 3 ∷ []) ∷ []

get_auth_chain_diff_iff_example : In 3 (get_auth_chain_diff chains) ↔ (
    (any (λ chain. contains chain 3) chains ≡ true)
    × (any (λ chain. not (contains chain 3)) chains ≡ true))
get_auth_chain_diff_iff_example =
    get_auth_chain_diff_iff chains 3 ((refl, (refl, tt)), ((refl, (refl, tt)), tt)) (omega arith)

abbrev levels_key : TypeStateKey
levels_key = (room_power_levels, "")

levels_resolved :
    iterative_auth_check ruma v6 (λ ids. ids) (λ entries. entries) fetch ("$levels" ∷ []) []
    ≡ ok ((levels_key, "$levels") ∷ [])
unfolding iterative_auth_check check_event auth_types_for_event auth_check check_in_room
    is_unsupported room_id_or_hash check_room check_sent check_sender_membership sender_power_level
    deserialize_power_levels_content_fields check_power can_send_event get_user_power get_send_level
    check_levels_change privileged_creators check_power_levels deserialize_power_levels
    check_redacts insert change_ok users_ok events_ok notifications_ok levels_ok
levels_resolved = refl

iterative_auth_check-AcceptedAt_example :
    (◌≡◌ {A = Option EventId} none (some "$levels"))
    ⊎ AcceptedAt ruma v6 (λ entries. entries) fetch ("$levels" ∷ []) levels_key "$levels"
iterative_auth_check-AcceptedAt_example =
    iterative_auth_check-AcceptedAt ruma v6 (λ entries. entries) fetch (λ ids. ids) ("$levels" ∷ [])
      [] ((levels_key, "$levels") ∷ []) levels_key "$levels" (λ a m. m) levels_resolved refl
