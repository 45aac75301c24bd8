-- ===== src/StateRes/Resolve/Mainline/Depth.antt =====
-- The depths that `mainline_sort` gives to the events of the mainline.
use arcana_server.Common.{
  ℕ, zero, suc, ◌+◌, ◌<◌, ◌≡◌, inl, inr, refl, Option, none, some, List, [], ◌∷◌, arith, In, length,
  get_elem?, lookup, lookup-insert, string_Eq, ap, ◌∙◌,
}
use arcana_server.StateRes.Event.{EventId, Event}
use arcana_server.StateRes.Result.{Result, ok, err, panic, Result-cases}
use arcana_server.StateRes.Resolve.Iterative.{Fetch}
use arcana_server.StateRes.Resolve.Mainline.{
  power_before, mainline_from, mainline_map, get_mainline_depth, push_first,
}
use arcana_server.StateRes.Resolve.Mainline.Walk.{Ranked, power_before-FoundIn}
use text.Mathlib.TextEquality.{eq_iff}

-- Every event of the list is of lower rank than the ones before it.
abbrev Descends : (EventId → ℕ) → List EventId → Type 0
Descends rank [] = Unit
Descends rank (p ∷ older) = ((a : EventId) → In a older → rank a < rank p) × Descends rank older

get_elem?-mem : {A : Type 0} (xs : List A) (i : ℕ) {a : A} → get_elem? xs i ≡ some a → In a xs
get_elem?-mem [] i h = ground arith
get_elem?-mem (x ∷ xs) zero h = ground arith
get_elem?-mem (x ∷ xs) (suc i) h = inr (get_elem?-mem xs i h)

push_first-eq-ok :
    (p : EventId) (o : Option (Result (List EventId))) (ids : List EventId)
    → push_first p o ≡ some (ok ids)
    → (older : List EventId) × (o ≡ some (ok older)) × (ids ≡ p ∷ older)
push_first-eq-ok p none ids h = absurd (ground arith)
push_first-eq-ok p (some panic) ids h = absurd (ground arith)
push_first-eq-ok p (some (err e)) ids h = absurd (ground arith)
push_first-eq-ok p (some (ok older)) ids h = (older, refl, ground arith)

module _ (fetch : Fetch) (rank : EventId → ℕ) (ranked : Ranked fetch rank) where
  mainline_from-Descends :
      (fuel : ℕ) (resolved : Option EventId) (mainline : List EventId) (bound : ℕ)
      → ((p : EventId) → resolved ≡ some p → rank p < bound)
      → mainline_from fuel fetch resolved ≡ some (ok mainline)
      → Descends rank mainline × ((a : EventId) → In a mainline → rank a < bound)
  unfolding mainline_from
  mainline_from-Descends fuel none mainline bound top h =
      let empty : mainline ≡ [] = ground arith in rw empty (tt, λ a m. absurd m)
  mainline_from-Descends zero (some p) mainline bound top h = absurd (ground arith)
  mainline_from-Descends (suc fuel) (some p) mainline bound top h =
      elim (Result-cases (power_before fetch p)) [
        | inl (before, b) ↦
            let (older, l, s) =
              push_first-eq-ok p (mainline_from fuel fetch before) mainline (ground arith) in
            let (d, less) =
              mainline_from-Descends fuel before older (rank p)
                (λ q e.
                  let (event, aev, f, found) = power_before-FoundIn fetch p q (b ∙ ap ok e) in
                  ranked p event f q found.0)
                l in
            let here : rank p < bound = top p refl in
            rw s ((less, d), λ a m. ground (arith, less a))
        | inr other ↦ absurd (ground arith)
      ]

  abbrev bound_of : Option EventId → ℕ
  bound_of none = 0
  bound_of (some p) = suc (rank p)

  bound_of-above :
      (resolved : Option EventId) (p : EventId) → resolved ≡ some p → rank p < bound_of resolved
  bound_of-above none p h = absurd (ground arith)
  bound_of-above (some q) p h = ground arith

  mainline_map-index :
      (mainline : List EventId) (i : ℕ) (id : EventId)
      → Descends rank mainline
      → get_elem? mainline i ≡ some id
      → (depth : ℕ) × (lookup id (mainline_map mainline) ≡ some depth)
        × (depth + suc i ≡ length mainline)
  unfolding mainline_map
  mainline_map-index [] i id d h = absurd (ground arith)
  mainline_map-index (p ∷ older) zero id d h = (
    length older,
    lookup-insert p id (length older) (mainline_map older) ∙ ground (arith, eq_iff p id),
    omega arith,
  )
  mainline_map-index (p ∷ older) (suc i) id d h =
      let (depth, l, s) = mainline_map-index older i id d.1 h in
      let less : rank id < rank p = d.0 id (get_elem?-mem older i h) in
      (
        depth,
        lookup-insert p id (length older) (mainline_map older) ∙ ground (arith, eq_iff p id),
        omega arith,
      )

  -- Where events refer to events of lower rank only, the event at a position of the mainline
  -- (which starts at the resolved power levels event) has as its depth the number of mainline events
  -- older than it: the oldest has depth 0.
  pub get_mainline_depth-position :
      (fuel walk : ℕ) (resolved : Option EventId) (mainline : List EventId) (i : ℕ) (event : Event)
      → mainline_from fuel fetch resolved ≡ some (ok mainline)
      → get_elem? mainline i ≡ some event.event_id
      → (depth : ℕ) × (get_mainline_depth (suc walk) fetch (mainline_map mainline) event
          ≡ some (ok depth))
        × (depth + suc i ≡ length mainline)
  unfolding get_mainline_depth
  get_mainline_depth-position fuel walk resolved mainline i event m at =
      let (d, less) =
        mainline_from-Descends fuel resolved mainline (bound_of resolved) (bound_of-above resolved)
          m in
      let (depth, l, s) = mainline_map-index mainline i event.event_id d at in
      (depth, ground arith, s)
