-- ===== src/StateRes/Resolve/Whole/Resolved.antt =====
-- The resolved state: what the state sets agree on stays, and every other entry was accepted.
use arcana_server.Common.{
  ◌<◌, ◌≤◌, ◌≡◌, ◌⊎◌, inl, inr, refl, some, List, [], ◌∷◌, arith, lookup, string_Eq, length,
  UniqueKeys, Option-cases,
}
use arcana_server.StateRes.Event.{EventId, TypeStateKey, type_state_key_Eq}
use arcana_server.StateRes.Result.{ok}
use arcana_server.StateRes.RoomVersion.{
  RoomVersionId, StateResolutionVersion, res_v1, res_v2, res_v2_1, stateres_version,
}
use arcana_server.StateRes.Resolve.Separate.{separate}
use arcana_server.StateRes.Resolve.Iterative.{StateMap}
use arcana_server.StateRes.Resolve.Subgraph.{calculate_conflicted_subgraph}
use arcana_server.StateRes.Resolve.Separate.Unique.{separate-UniqueKeys}
use arcana_server.StateRes.Resolve.Separate.Agree.{AllHold, separate-agree}
use arcana_server.StateRes.Resolve.Separate.Tallies.{AllUnique}
use arcana_server.StateRes.Resolve.Separate.Counts.{max_usize}
use arcana_server.StateRes.Resolve.Whole.{
  Setting, to_set, starting_state, full_conflicted_set, conflicting_ids, resolve_parts, resolve,
}
use arcana_server.StateRes.Resolve.Whole.Conflicted.{
  then_run-eq-ok, OnlyListed, AcceptedIn, resolve_conflicted-cases,
}

module _ (s : Setting) where
  starting_state-initial :
      (version : StateResolutionVersion) (conflicted subgraph : List EventId)
      (unconflicted initial : StateMap)
      → starting_state s version conflicted unconflicted ≡ some (ok (subgraph, initial))
      → (initial ≡ []) ⊎ (initial ≡ unconflicted)
  unfolding starting_state
  starting_state-initial res_v1 conflicted subgraph unconflicted initial h = ground arith
  starting_state-initial res_v2 conflicted subgraph unconflicted initial h = ground arith
  starting_state-initial res_v2_1 conflicted subgraph unconflicted initial h =
      elim (Option-cases
        (calculate_conflicted_subgraph s.subgraph_fuel (s.arrive (to_set conflicted)) s.fetch)) [
          | inl out ↦ absurd (ground arith)
          | inr (found, f) ↦ ground arith
        ]

  -- The full conflicted set of state resolution, for the conflicting entries.
  abbrev pub FullSet :
      RoomVersionId
      → List (List EventId)
      → StateMap
      → List (TypeStateKey × List EventId)
      → List EventId
      → Type 0
  FullSet room_version chains unconflicted conflicting all =
      (subgraph : List EventId) × (initial : StateMap) × (starting_state s
          (stateres_version room_version) (conflicting_ids conflicting) unconflicted
        ≡ some (ok (subgraph, initial)))
      × (all ≡ full_conflicted_set s chains (conflicting_ids conflicting) subgraph)

  -- Every entry of the resolved state was unconflicted, or it was accepted and is in the full
  -- conflicted set.
  abbrev pub KeptOrAccepted :
      RoomVersionId
      → List (List EventId)
      → StateMap
      → List (TypeStateKey × List EventId)
      → TypeStateKey
      → EventId
      → Type 0
  KeptOrAccepted room_version chains unconflicted conflicting key id =
      (lookup key unconflicted ≡ some id)
      ⊎ ((all : List EventId) × FullSet room_version chains unconflicted conflicting all
          × AcceptedIn s room_version all key id)

  resolve_parts-cases :
      (room_version : RoomVersionId) (chains : List (List EventId)) (unconflicted : StateMap)
      (conflicting : List (TypeStateKey × List EventId)) (final : StateMap) (key : TypeStateKey)
      (id : EventId)
      → OnlyListed s
      → UniqueKeys unconflicted
      → resolve_parts s room_version chains unconflicted conflicting ≡ some (ok final)
      → (lookup key unconflicted ≡ some id → lookup key final ≡ some id)
        × (lookup key final ≡ some id
            → KeptOrAccepted room_version chains unconflicted conflicting key id)
  unfolding resolve_parts
  resolve_parts-cases room_version chains unconflicted [] final key id only u h =
      let same : final ≡ unconflicted = ground arith in rw same (λ l. l, λ l. inl l)
  resolve_parts-cases room_version chains unconflicted (entry ∷ rest) final key id only u h =
      let conflicted = conflicting_ids (entry ∷ rest) in
      let ((subgraph, initial), i, h1) =
        then_run-eq-ok (starting_state s (stateres_version room_version) conflicted unconflicted) _
          h in
      let all = full_conflicted_set s chains conflicted subgraph in
      let (keeps, accepts) =
        resolve_conflicted-cases s room_version unconflicted all initial final key id only u h1 in
      let from =
        starting_state-initial (stateres_version room_version) conflicted subgraph unconflicted
          initial i in
      (
        keeps,
        λ l. elim (accepts l) [
          | inl kept ↦ inl kept
          | inr (inr a) ↦ inr (all, (subgraph, initial, i, refl), a)
          | inr (inl first) ↦ elim from [
            | inl empty ↦ absurd (ground arith)
            | inr same ↦ inl (rw (← same) first)
          ]
        ],
      )

  module _ (room_version : RoomVersionId) (sets : List StateMap) (chains : List (List EventId))
      (final : StateMap) where
    -- Where only what is listed arrives: for at least one state set, fewer than 2^64, and sets with
    -- one event for each key, the state that `resolve` returns has the event of a key on which all
    -- sets agree; any other entry of it is in the full conflicted set and was accepted by
    -- `auth_check`, by the rules of the room version, on a state that was put together for it.
    pub resolve-AgreedOrAccepted :
        OnlyListed s
        → AllUnique sets
        → 0 < length sets
        → length sets ≤ max_usize
        → resolve s room_version sets chains ≡ some (ok final)
        → (key : TypeStateKey) (id : EventId)
        → (AllHold key id sets → lookup key final ≡ some id)
          × (lookup key final ≡ some id
              → AllHold key id sets
                ⊎ ((all : List EventId) × FullSet room_version chains
                      (separate sets).0
                      (separate sets).1
                      all
                    × AcceptedIn s room_version all key id))
    unfolding resolve
    resolve-AgreedOrAccepted only unique pos few h key id =
        let (keeps, accepts) =
          resolve_parts-cases room_version chains (separate sets).0 (separate sets).1 final key id
            only (separate-UniqueKeys sets) h in
        let agree = separate-agree sets unique few pos key id in
        (
          λ all. keeps (agree.1 all),
          λ l. elim (accepts l) [ inl kept ↦ inl (agree.0 kept) | inr accepted ↦ inr accepted ],
        )
