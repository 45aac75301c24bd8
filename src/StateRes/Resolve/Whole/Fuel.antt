-- ===== src/StateRes/Resolve/Whole/Fuel.antt =====
-- State resolution has enough fuel.
use arcana_server.Common.{
  ℕ, suc, ◌+◌, ◌<◌, ◌≡◌, inl, inr, refl, true, not, Option, none, some, List, [], ◌∷◌, arith, In,
  lookup, contains, string_Eq, Option-cases, is_some, length,
}
use arcana_server.StateRes.Event.{
  EventId, Event, TypeStateKey, type_state_key_Eq, room_power_levels,
}
use arcana_server.StateRes.Result.{Result, ok, err, panic}
use arcana_server.StateRes.RoomVersion.{
  RoomVersion, RoomVersionId, StateResolutionVersion, res_v1, res_v2, res_v2_1, new,
  stateres_version,
}
use arcana_server.StateRes.Resolve.Iterative.{StateMap, iterative_auth_check}
use arcana_server.StateRes.Resolve.Separate.{separate}
use arcana_server.StateRes.Resolve.Mainline.{mainline_sort}
use arcana_server.StateRes.Resolve.Mainline.Walk.{mainline_sort-returns}
use arcana_server.StateRes.Resolve.Power.{is_power_event_id, reverse_topological_power_sort}
use arcana_server.StateRes.Resolve.Power.Fuel.{
  Costs, Costs-Ranked, total, total-In, reverse_topological_power_sort-returns,
}
use arcana_server.StateRes.Resolve.Subgraph.{calculate_conflicted_subgraph}
use arcana_server.StateRes.Resolve.Subgraph.Fuel.{unseen, calculate_conflicted_subgraph-returns}
use arcana_server.StateRes.Resolve.Whole.{
  Setting, filter, to_set, starting_state, full_conflicted_set, conflicting_ids, resolve_remaining,
  extend, resolve_conflicted, resolve_parts, resolve, ◌then_run◌,
}

-- the setting with these fuels
abbrev pub fuelled : Setting → ℕ → ℕ → ℕ → ℕ → Setting
fuelled s subgraph chain sort mainline = record s {
  subgraph_fuel = subgraph;
  chain_fuel = chain;
  sort_fuel = sort;
  mainline_fuel = mainline;
}

then_run-returns :
    {A B : Type 0} (m : Option (Result A)) (next : A → Option (Result B))
    → is_some m ≡ true
    → ((a : A) → is_some (next a) ≡ true)
    → is_some (m then_run next) ≡ true
then_run-returns none next h k = absurd (ground arith)
then_run-returns (some (ok a)) next h k = k a
then_run-returns (some (err e)) next h k = refl
then_run-returns (some panic) next h k = refl

-- the fuel of what follows may depend on the outcome
then_run-Fuelled :
    {A B : Type 0} (m : Option (Result A)) (next : ℕ → A → Option (Result B))
    → is_some m ≡ true
    → ((a : A) → (fuel : ℕ) × (is_some (next fuel a) ≡ true))
    → (fuel : ℕ) × (is_some (m then_run next fuel) ≡ true)
then_run-Fuelled none next h k = absurd (ground arith)
then_run-Fuelled (some (ok a)) next h k = k a
then_run-Fuelled (some (err e)) next h k = (0, refl)
then_run-Fuelled (some panic) next h k = (0, refl)

abbrev cost_of : (EventId → ℕ) → Option EventId → ℕ
cost_of cost none = 0
cost_of cost (some id) = cost id

module _ (s : Setting) (cost : EventId → ℕ) (costs : Costs s.fetch cost) where
  mainline_fuelled :
      (left : List EventId) (power : Option EventId)
      → is_some
          (mainline_sort (suc (total cost left + cost_of cost power)) s.ruma s.fetch left power)
        ≡ true
  mainline_fuelled left power =
      mainline_sort-returns s.fetch cost (Costs-Ranked s.fetch cost costs)
        (suc (total cost left + cost_of cost power)) s.ruma left power
        (λ id m. omega (arith, total-In cost left id m)) (λ p e. rw e (omega arith))

  resolve_remaining-returns :
      (f f1 f2 : ℕ) (v : RoomVersion) (unconflicted : StateMap) (all sorted : List EventId)
      (control : StateMap)
      → (mainline : ℕ) × (is_some
            (resolve_remaining (fuelled s f f1 f2 mainline) v unconflicted all sorted control)
          ≡ true)
  unfolding resolve_remaining
  resolve_remaining-returns f f1 f2 v unconflicted all sorted control =
      let left = filter (λ id. not (contains sorted id)) all in
      let power = lookup (room_power_levels, "") control in
      let fuel = suc (total cost left + cost_of cost power) in
      (
        fuel,
        then_run-returns (mainline_sort fuel s.ruma s.fetch left power)
            (λ mainline.
              some (iterative_auth_check s.ruma v s.arrive s.entries s.fetch mainline control)
              then_run λ resolved. some (ok (extend resolved unconflicted)))
            (mainline_fuelled left power)
            (λ mainline.
              then_run-returns
                (some (iterative_auth_check s.ruma v s.arrive s.entries s.fetch mainline control))
                (λ resolved. some (ok (extend resolved unconflicted))) refl (λ resolved. refl)),
      )

  resolve_conflicted-returns :
      (f : ℕ) (room_version : RoomVersionId) (unconflicted : StateMap) (all : List EventId)
      (initial : StateMap)
      → (chain : ℕ) × (sort : ℕ) × (mainline : ℕ) × (is_some (
            resolve_conflicted
              (fuelled s f chain sort mainline)
              room_version
              unconflicted
              all
              initial)
          ≡ true)
  unfolding resolve_conflicted
  resolve_conflicted-returns f room_version unconflicted all initial =
      let events = s.arrive (filter (is_power_event_id s.ruma s.fetch) all) in
      let chain = total cost events in
      let (sort, sorts) =
        reverse_topological_power_sort-returns s.fetch cost costs all chain s.ruma s.arrive events
          (omega arith) in
      let check : List EventId → RoomVersion → Option (Result StateMap) = λ sorted v.
        some (iterative_auth_check s.ruma v s.arrive s.entries s.fetch sorted initial) in
      let last : List EventId → RoomVersion → ℕ → StateMap → Option (Result StateMap) =
        λ sorted v fuel control.
          resolve_remaining (fuelled s f chain sort fuel) v unconflicted all sorted control in
      let (mainline, h) =
        then_run-Fuelled
          (reverse_topological_power_sort chain sort s.ruma s.arrive s.fetch events all)
          (λ fuel sorted.
            some (new room_version) then_run λ v. check sorted v then_run last sorted v fuel)
          sorts
          (λ sorted.
            then_run-Fuelled (some (new room_version))
              (λ fuel v. check sorted v then_run last sorted v fuel) refl
              (λ v. then_run-Fuelled (check sorted v) (last sorted v) refl (λ control.
                resolve_remaining-returns f chain sort v unconflicted all sorted control))) in
      (chain, sort, mainline, h)

  starting_state-returns :
      (universe conflicted : List EventId) (unconflicted : StateMap)
      (version : StateResolutionVersion) (fuel chain sort mainline : ℕ)
      → ((id : EventId) (e : Event) → s.fetch id ≡ some e → In id universe)
      → length (s.arrive (to_set conflicted)) + unseen s.fetch [] universe < fuel
      → is_some
          (starting_state (fuelled s fuel chain sort mainline) version conflicted unconflicted)
        ≡ true
  unfolding starting_state
  starting_state-returns universe conflicted unconflicted res_v1 fuel chain sort mainline known
        enough =
      refl
  starting_state-returns universe conflicted unconflicted res_v2 fuel chain sort mainline known
        enough =
      refl
  starting_state-returns universe conflicted unconflicted res_v2_1 fuel chain sort mainline known
        enough =
      let found =
        calculate_conflicted_subgraph-returns s.fetch universe (s.arrive (to_set conflicted)) fuel
          known enough in
      elim (Option-cases
        (calculate_conflicted_subgraph fuel (s.arrive (to_set conflicted)) s.fetch)) [
          | inl out ↦ absurd (ground arith)
          | inr (subgraph, e) ↦ ground arith
        ]

  resolve_parts-returns :
      (universe : List EventId)
      → ((id : EventId) (e : Event) → s.fetch id ≡ some e → In id universe)
      → (room_version : RoomVersionId) (chains : List (List EventId)) (unconflicted : StateMap)
        (conflicting : List (TypeStateKey × List EventId))
      → (f1 : ℕ) × (f2 : ℕ) × (f3 : ℕ) × (f4 : ℕ) × (is_some
            (resolve_parts (fuelled s f1 f2 f3 f4) room_version chains unconflicted conflicting)
          ≡ true)
  unfolding resolve_parts full_conflicted_set
  resolve_parts-returns universe known room_version chains unconflicted [] = (0, 0, 0, 0, refl)
  resolve_parts-returns universe known room_version chains unconflicted (entry ∷ rest) =
      let conflicted = conflicting_ids (entry ∷ rest) in
      let version = stateres_version room_version in
      let f1 = suc (length (s.arrive (to_set conflicted)) + unseen s.fetch [] universe) in
      let starts =
        starting_state-returns universe conflicted unconflicted version f1 0 0 0 known
          (omega arith) in
      elim (Option-cases (starting_state (fuelled s f1 0 0 0) version conflicted unconflicted)) [
        | inl out ↦ absurd (ground arith)
        | inr (err e, start) ↦ (f1, 0, 0, 0, ground arith)
        | inr (panic, start) ↦ (f1, 0, 0, 0, ground arith)
        | inr (ok (subgraph, initial), start) ↦
            let (f2, f3, f4, h) =
              resolve_conflicted-returns f1 room_version unconflicted
                (full_conflicted_set s chains conflicted subgraph) initial in
            (f1, f2, f3, f4, ground (arith, h))
      ]

  -- Where only the listed events can be fetched, and each event costs more than its auth events
  -- together, so that there is no cycle: there are fuels with which `resolve` does not run out, for
  -- all state sets and auth chains.
  pub resolve-returns :
      (universe : List EventId)
      → ((id : EventId) (e : Event) → s.fetch id ≡ some e → In id universe)
      → (room_version : RoomVersionId) (sets : List StateMap) (chains : List (List EventId))
      → (f1 : ℕ) × (f2 : ℕ) × (f3 : ℕ) × (f4 : ℕ) × (is_some
            (resolve (fuelled s f1 f2 f3 f4) room_version sets chains)
          ≡ true)
  unfolding resolve
  resolve-returns universe known room_version sets chains =
      resolve_parts-returns universe known room_version chains (separate sets).0 (separate sets).1
