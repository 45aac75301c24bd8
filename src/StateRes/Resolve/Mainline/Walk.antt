-- ===== src/StateRes/Resolve/Mainline/Walk.antt =====
-- How much fuel the walks along power levels events need.
use arcana_server.Common.{
  ℕ, zero, suc, ◌<◌, ◌≡◌, inl, inr, refl, true, Option, none, some, List, [], ◌∷◌, arith, In,
  is_some, lookup, insert, string_Eq, Option-cases,
}
use arcana_server.StateRes.Content.{Ruma}
use arcana_server.StateRes.Event.{EventId, Event, is_type_and_key, room_power_levels}
use arcana_server.StateRes.Result.{ok, err, panic, not_found, ok_or, bind-eq-ok, Result-cases}
use arcana_server.StateRes.Resolve.Iterative.{Fetch}
use arcana_server.StateRes.Resolve.Mainline.{
  next_power, power_before, mainline_from, get_mainline_depth, sort_key, order_map, SortKey,
  mainline_map, mainline_sort,
}

-- Events refer to events of lower rank only: the event graph has no cycle.
abbrev pub Ranked : Fetch → (EventId → ℕ) → Type 0
Ranked fetch rank =
    (id : EventId) (e : Event)
    → fetch id ≡ some e
    → (a : EventId) → In a e.auth_events
    → rank a < rank id

-- What the loop over auth events finds is one of them.
abbrev pub FoundIn : Fetch → List EventId → EventId × Event → Type 0
FoundIn fetch ids (aid, ev) =
    In aid ids × (fetch aid ≡ some ev) × (is_type_and_key ev room_power_levels "" ≡ true)

module _ (fetch : Fetch) where
  pub next_power-FoundIn :
      (ids : List EventId) (found : EventId × Event)
      → next_power fetch ids ≡ ok (some found)
      → FoundIn fetch ids found
  unfolding next_power
  next_power-FoundIn [] found h = ground arith
  next_power-FoundIn (id ∷ rest) found h = elim (Option-cases (fetch id)) [
    | inl n ↦ absurd (ground arith)
    | inr (ev, f) ↦ ground (arith, next_power-FoundIn rest found)
  ]

  -- The next event of the mainline is an auth event of the one before.
  pub power_before-FoundIn :
      (p before : EventId)
      → power_before fetch p ≡ ok (some before)
      → (event : Event) × (aev : Event) × (fetch p ≡ some event)
        × FoundIn fetch event.auth_events (before, aev)
  unfolding power_before
  power_before-FoundIn p before h =
      let (event, f, h1) = bind-eq-ok (ok_or (fetch p) not_found) _ h in
      let (found, g, h2) = bind-eq-ok (next_power fetch event.auth_events) _ h1 in
      elim (Option-cases found) [
        | inl n ↦ absurd (ground arith)
        | inr ((aid, aev), i) ↦ (
          event,
          aev,
          ground arith,
          ground (arith, next_power-FoundIn event.auth_events (aid, aev)),
        )
      ]

  module _ (rank : EventId → ℕ) (ranked : Ranked fetch rank) where
    mainline_from-returns :
        (fuel : ℕ) (p : EventId)
        → rank p < fuel
        → is_some (mainline_from fuel fetch (some p)) ≡ true
    unfolding mainline_from
    mainline_from-returns zero p h = absurd (omega arith)
    mainline_from-returns (suc fuel) p h = elim (Result-cases (power_before fetch p)) [
      | inl (none, b) ↦ ground arith
      | inl (some before, b) ↦
          let (event, aev, f, found) = power_before-FoundIn p before b in
          let less : rank before < fuel = ground (arith, ranked p event f before) in
          ground (arith, mainline_from-returns fuel before)
      | inr other ↦ ground arith
    ]

    mainline_option-returns :
        (fuel : ℕ) (resolved : Option EventId)
        → ((p : EventId) → resolved ≡ some p → rank p < fuel)
        → is_some (mainline_from fuel fetch resolved) ≡ true
    unfolding mainline_from
    mainline_option-returns fuel none top = ground arith
    mainline_option-returns fuel (some p) top = mainline_from-returns fuel p (top p refl)

    -- from a fetched event of rank below the fuel
    get_mainline_depth-returns :
        (fuel : ℕ) (depths : List (EventId × ℕ)) (id : EventId) (event : Event)
        → fetch id ≡ some event
        → rank id < fuel
        → is_some (get_mainline_depth fuel fetch depths event) ≡ true
    unfolding get_mainline_depth
    get_mainline_depth-returns zero depths id event f h = absurd (omega arith)
    get_mainline_depth-returns (suc fuel) depths id event f h =
        elim (Option-cases (lookup event.event_id depths)) [
          | inr (depth, l) ↦ ground arith
          | inl n ↦ elim (Result-cases (next_power fetch event.auth_events)) [
            | inl (none, b) ↦ ground arith
            | inl (some (aid, aev), b) ↦
                let (listed, g, is_power) = next_power-FoundIn event.auth_events (aid, aev) b in
                let less : rank aid < rank id = ranked id event f aid listed in
                ground (arith, get_mainline_depth-returns fuel depths aid aev g (omega arith))
            | inr other ↦ ground arith
          ]
        ]

    sort_key-returns :
        (fuel : ℕ) (depths : List (EventId × ℕ)) (id : EventId)
        → rank id < fuel
        → is_some (sort_key fuel fetch depths id) ≡ true
    unfolding sort_key
    sort_key-returns fuel depths id h = elim (Option-cases (fetch id)) [
      | inl n ↦ ground arith
      | inr (event, f) ↦ ground (arith, get_mainline_depth-returns fuel depths id event f h)
    ]

    order_map-returns :
        (fuel : ℕ) (depths : List (EventId × ℕ)) (ids : List EventId)
        (orders : List (EventId × SortKey))
        → ((id : EventId) → In id ids → rank id < fuel)
        → is_some (order_map fuel fetch depths ids orders) ≡ true
    unfolding order_map
    order_map-returns fuel depths [] orders low = refl
    order_map-returns fuel depths (id ∷ rest) orders low =
        let here : is_some (sort_key fuel fetch depths id) ≡ true =
          sort_key-returns fuel depths id (low id (inl refl)) in
        elim (Option-cases (sort_key fuel fetch depths id)) [
          | inl n ↦ absurd (ground arith)
          | inr (none, k) ↦
              ground (arith, order_map-returns fuel depths rest orders (λ a m. low a (inr m)))
          | inr (some key, k) ↦ ground (
            arith,
            order_map-returns fuel depths rest (insert id key orders) (λ a m. low a (inr m)),
          )
        ]

    -- Where events refer to events of lower rank only, fuel above the rank of the resolved power
    -- levels event and of every event to sort is enough: the sort returns.
    pub mainline_sort-returns :
        (fuel : ℕ) (r : Ruma) (to_sort : List EventId) (resolved : Option EventId)
        → ((id : EventId) → In id to_sort → rank id < fuel)
        → ((p : EventId) → resolved ≡ some p → rank p < fuel)
        → is_some (mainline_sort fuel r fetch to_sort resolved) ≡ true
    unfolding mainline_sort
    mainline_sort-returns fuel r [] resolved low top = refl
    mainline_sort-returns fuel r (id ∷ rest) resolved low top =
        let walk : is_some (mainline_from fuel fetch resolved) ≡ true =
          mainline_option-returns fuel resolved top in
        elim (Option-cases (mainline_from fuel fetch resolved)) [
          | inl n ↦ absurd (ground arith)
          | inr (panic, m) ↦ ground arith
          | inr (err e, m) ↦ ground arith
          | inr (ok mainline, m) ↦
              ground (arith, order_map-returns fuel (mainline_map mainline) (id ∷ rest) [] low)
        ]
