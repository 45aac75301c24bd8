-- ===== src/StateRes/PowerLevels/Search.antt =====
-- `slice::binary_search_by` of Rust's standard library, which `get_user_power` calls.
use Prim.Native.Nat.{Ordering}
use arcana_server.Common.{
  ℕ, zero, suc, ◌+◌, ◌-◌, ◌/◌, Option, none, some, List, length, get_elem?, ltb, if◌then◌else◌,
  nat_eq,
}

-- what a probe at an index shows; past the end is never asked
abbrev probe : {A : Type 0} → (A → Ordering) → List A → ℕ → Ordering
probe f xs i = elim (get_elem? xs i) [ none ↦ Ordering.gt | some a ↦ f a ]

-- `base = if cmp == Greater { base } else { mid }`
abbrev next_base : Ordering → ℕ → ℕ → ℕ
next_base Ordering.gt base mid = base
next_base _ base mid = mid

-- `while size > 1 { … }`: the base that is left, with a round of fuel for each halving
pub search_loop : {A : Type 0} → ℕ → (A → Ordering) → List A → ℕ → ℕ → ℕ
search_loop zero f xs base size = base
search_loop (suc fuel) f xs base size =
    let half = size / 2 in
    let mid = base + half in
    let rest = search_loop fuel f xs (next_base (probe f xs mid) base mid) (size - half) in
    if ltb 1 size then rest else base

abbrev found_at : Ordering → ℕ → Option ℕ
found_at Ordering.eq base = some base
found_at _ base = none

unfoldable pub binary_search_by : {A : Type 0} → (A → Ordering) → List A → Option ℕ
unfolding search_loop
binary_search_by f xs =
    if nat_eq (length xs) 0
    then none
    else (let base = search_loop (length xs) f xs 0 (length xs) in found_at (probe f xs base) base)
