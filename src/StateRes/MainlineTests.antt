-- ===== src/StateRes/MainlineTests.antt =====
-- The theorems on the mainline sort at a chain of two power levels events and two topics.
use arcana_server.Common.{
  ℕ, ◌+◌, ◌≡◌, ◌<◌, refl, true, Option, none, some, List, [], ◌∷◌, arith, is_some, ◌==◌, string_Eq,
  if◌then◌else◌, insert, In,
}
use arcana_server.StateRes.Event.{EventId, Event, room_power_levels, other, is_type_and_key}
use arcana_server.StateRes.Result.{ok}
use arcana_server.StateRes.Samples.{ruma, event}
use arcana_server.StateRes.TextOrder.{compare-asymmetric}
use arcana_server.StateRes.Resolve.Mainline.{
  next_power, power_before, mainline_from, mainline_map, get_mainline_depth, sort_key, order_map,
  sort_by_key, insert_by_key, mainline_sort,
}
use arcana_server.StateRes.Resolve.Mainline.Walk.{Ranked, mainline_sort-returns}
use arcana_server.StateRes.Resolve.Mainline.Depth.{get_mainline_depth-position}
use arcana_server.StateRes.Resolve.Mainline.Order.{IsSortOf, mainline_sort-IsSortOf}
use text.Mathlib.TextEquality.{eq_iff}

abbrev old_levels : Event
old_levels = record (event "$p1" room_power_levels "@alice" "" "default 0") { auth_events = [] }

abbrev new_levels : Event
new_levels = record (event "$p2" room_power_levels "@alice" "" "default 0") {
  auth_events = "$p1" ∷ [];
}

abbrev old_topic : Event
old_topic = record (event "$t1" (other "m.room.topic") "@alice" "" "topic") {
  auth_events = "$p1" ∷ [];
}

abbrev new_topic : Event
new_topic = record (event "$t2" (other "m.room.topic") "@alice" "" "topic") {
  auth_events = "$p2" ∷ [];
}

abbrev fetch_chain : EventId → Option Event
fetch_chain id =
    if id == "$p1"
    then some old_levels
    else if id == "$p2"
    then some new_levels
    else if id == "$t1"
    then some old_topic
    else if id == "$t2"
    then some new_topic
    else none

abbrev rank : EventId → ℕ
rank id = if id == "$p1" then 0 else if id == "$p2" then 1 else 2

fetch_chain-Ranked : Ranked fetch_chain rank
fetch_chain-Ranked id e f a m =
    ground (arith, eq_iff id "$p1", eq_iff id "$p2", eq_iff a "$p1", eq_iff a "$p2")

chain_sorted :
    mainline_sort 3 ruma fetch_chain ("$t2" ∷ "$t1" ∷ "$t3" ∷ []) (some "$p2")
    ≡ some (ok ("$t1" ∷ "$t2" ∷ []))
unfolding mainline_sort mainline_from power_before next_power mainline_map get_mainline_depth
    sort_key order_map sort_by_key insert_by_key insert is_type_and_key
chain_sorted = refl

chain_mainline : mainline_from 3 fetch_chain (some "$p2") ≡ some (ok ("$p2" ∷ "$p1" ∷ []))
unfolding mainline_from power_before next_power is_type_and_key
chain_mainline = refl

mainline_sort-IsSortOf_example :
    (mainline : List EventId) × (mainline_from 3 fetch_chain (some "$p2") ≡ some (ok mainline))
    × IsSortOf ruma 3 fetch_chain ("$t2" ∷ "$t1" ∷ "$t3" ∷ []) mainline ("$t1" ∷ "$t2" ∷ [])
mainline_sort-IsSortOf_example =
    mainline_sort-IsSortOf ruma 3 fetch_chain "$t2" ("$t1" ∷ "$t3" ∷ []) (some "$p2")
      ("$t1" ∷ "$t2" ∷ []) compare-asymmetric chain_sorted

low_ranks : (id : EventId) → In id ("$t2" ∷ "$t1" ∷ []) → rank id < 3
low_ranks id m = ground arith

low_top : (p : EventId) → some "$p2" ≡ some p → rank p < 3
low_top p e = ground arith

mainline_sort-returns_example :
    is_some (mainline_sort 3 ruma fetch_chain ("$t2" ∷ "$t1" ∷ []) (some "$p2")) ≡ true
mainline_sort-returns_example =
    mainline_sort-returns fetch_chain rank fetch_chain-Ranked 3 ruma ("$t2" ∷ "$t1" ∷ [])
      (some "$p2") low_ranks low_top

get_mainline_depth-position_example :
    (depth : ℕ) × (get_mainline_depth 1 fetch_chain (mainline_map ("$p2" ∷ "$p1" ∷ [])) old_levels
      ≡ some (ok depth))
    × (depth + 2 ≡ 2)
get_mainline_depth-position_example =
    get_mainline_depth-position fetch_chain rank fetch_chain-Ranked 3 0 (some "$p2")
      ("$p2" ∷ "$p1" ∷ []) 1 old_levels chain_mainline refl
