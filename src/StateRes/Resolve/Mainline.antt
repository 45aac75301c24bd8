-- ===== src/StateRes/Resolve/Mainline.antt =====
-- `mainline_sort` and `get_mainline_depth` of src/core/matrix/state_res/mod.rs. The loops that walk
-- from one power levels event to the one before it run on fuel: `none` is a run out of fuel.
pub mod Walk
pub mod Depth
pub mod Sorting
pub mod Located
pub mod Order
use Prim.Native.Nat.{compare, Ordering}
use arcana_server.Common.{
  ℕ, zero, suc, String, Bool, true, false, Option, none, some, List, [], ◌∷◌, length, lookup,
  insert, keys, string_Eq, if◌then◌else◌, then_cmp,
}
use arcana_server.StateRes.Content.{Ruma}
use arcana_server.StateRes.Event.{EventId, Event, is_type_and_key, room_power_levels}
use arcana_server.StateRes.Result.{Result, ok, err, panic, not_found, ◌>>=◌, ok_or}
use arcana_server.StateRes.Resolve.Iterative.{Fetch}

-- the loop over the auth events, up to the first power levels event
unfoldable pub next_power : Fetch → List EventId → Result (Option (EventId × Event))
next_power fetch [] = ok none
next_power fetch (aid ∷ rest) = do
  ev ← ok_or (fetch aid) not_found
  let later = next_power fetch rest
  if is_type_and_key ev room_power_levels "" then ok (some (aid, ev)) else later

abbrev first_of : Option (EventId × Event) → Option EventId
first_of none = none
first_of (some (aid, ev)) = some aid

-- the power levels event before one, by their IDs
unfoldable pub power_before : Fetch → EventId → Result (Option EventId)
unfolding next_power
power_before fetch p = do
  event ← ok_or (fetch p) not_found
  found ← next_power fetch event.auth_events
  ok (first_of found)

abbrev pub push_first : EventId → Option (Result (List EventId)) → Option (Result (List EventId))
push_first p none = none
push_first p (some rest) = some (do ids ← rest; ok (p ∷ ids))

-- `while let Some(p) = pl`: the mainline from `pl` on
unfoldable pub mainline_from : ℕ → Fetch → Option EventId → Option (Result (List EventId))
unfolding power_before
mainline_from fuel fetch none = some (ok [])
mainline_from zero fetch (some p) = none
mainline_from (suc fuel) fetch (some p) = elim (power_before fetch p) [
  | ok before ↦ push_first p (mainline_from fuel fetch before)
  | err e ↦ some (err e)
  | panic ↦ some panic
]

-- `mainline.iter().rev().enumerate()`: an event's index from the end
unfoldable pub mainline_map : List EventId → List (EventId × ℕ)
mainline_map [] = []
mainline_map (id ∷ older) = insert id (length older) (mainline_map older)

unfoldable pub get_mainline_depth : ℕ → Fetch → List (EventId × ℕ) → Event → Option (Result ℕ)
unfolding next_power
get_mainline_depth zero fetch depths event = none
get_mainline_depth (suc fuel) fetch depths event = elim (lookup event.event_id depths) [
  | some depth ↦ some (ok depth)
  | none ↦ elim (next_power fetch event.auth_events) [
    | ok (some (aid, aev)) ↦ get_mainline_depth fuel fetch depths aev
    | ok none ↦ some (ok 0)
    | err e ↦ some (err e)
    | panic ↦ some panic
  ]
]

-- depth, timestamp and event ID
abbrev pub SortKey : Type 0
SortKey = ℕ × ℕ × EventId

abbrev pub key_if_ok : EventId → Event → Option (Result ℕ) → Option (Option SortKey)
key_if_ok id event none = none
key_if_ok id event (some (ok depth)) = some (some (depth, event.origin_server_ts, id))
key_if_ok id event (some _) = some none

-- the two `broad_filter_map`s: `some none` is an event that is skipped
unfoldable pub sort_key : ℕ → Fetch → List (EventId × ℕ) → EventId → Option (Option SortKey)
unfolding get_mainline_depth
sort_key fuel fetch depths id = elim (fetch id) [
  | none ↦ some none
  | some event ↦ key_if_ok id event (get_mainline_depth fuel fetch depths event)
]

unfoldable pub order_map :
    ℕ
    → Fetch
    → List (EventId × ℕ)
    → List EventId
    → List (EventId × SortKey)
    → Option (List (EventId × SortKey))
unfolding sort_key
order_map fuel fetch depths [] orders = some orders
order_map fuel fetch depths (id ∷ rest) orders = elim (sort_key fuel fetch depths id) [
  | none ↦ none
  | some none ↦ order_map fuel fetch depths rest orders
  | some (some key) ↦ order_map fuel fetch depths rest (insert id key orders)
]

-- `Ord` of the triples
abbrev pub cmp_key : Ruma → SortKey → SortKey → Ordering
cmp_key r (depth, ts, id) (depth', ts', id') =
    then_cmp (compare depth depth') (then_cmp (compare ts ts') (r.cmp_event id id'))

abbrev pub is_gt : Ordering → Bool
is_gt Ordering.gt = true
is_gt _ = false

-- `sort_by_key` on the map's keys, each with its value: the stable sort
unfoldable pub insert_by_key :
    Ruma → EventId × SortKey → List (EventId × SortKey) → List (EventId × SortKey)
insert_by_key r entry [] = entry ∷ []
insert_by_key r entry (other ∷ rest) =
    if is_gt (cmp_key r entry.1 other.1)
    then other ∷ insert_by_key r entry rest
    else entry ∷ other ∷ rest

unfoldable pub sort_by_key : Ruma → List (EventId × SortKey) → List (EventId × SortKey)
unfolding insert_by_key
sort_by_key r [] = []
sort_by_key r (entry ∷ rest) = insert_by_key r entry (sort_by_key r rest)

abbrev sorted_keys : Ruma → Option (List (EventId × SortKey)) → Option (Result (List EventId))
sorted_keys r none = none
sorted_keys r (some orders) = some (ok (keys (sort_by_key r orders)))

unfoldable pub mainline_sort :
    ℕ → Ruma → Fetch → List EventId → Option EventId → Option (Result (List EventId))
unfolding mainline_from mainline_map order_map sort_by_key
mainline_sort fuel r fetch [] resolved_power_level = some (ok [])
mainline_sort fuel r fetch to_sort resolved_power_level =
    elim (mainline_from fuel fetch resolved_power_level) [
      | none ↦ none
      | some (err e) ↦ some (err e)
      | some panic ↦ some panic
      | some (ok mainline) ↦ sorted_keys r (order_map fuel fetch (mainline_map mainline) to_sort [])
    ]
