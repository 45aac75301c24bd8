-- ===== src/StateRes/Resolve/Mainline/Order.antt =====
-- What `mainline_sort` returns: the events that have a depth, once each, by depth, timestamp and ID.
use arcana_server.Common.{
  ℕ, ◌≡◌, ◌⊎◌, ◌↔◌, inl, inr, true, Option, none, some, List, [], ◌∷◌, arith, In, keys, insert,
  Entries, Entries-insert, NoRepeat, keys-insert, insert-NoRepeat, string_Eq, Option-cases,
}
use arcana_server.StateRes.Content.{Ruma}
use arcana_server.StateRes.Event.{EventId}
use arcana_server.StateRes.Result.{ok, err, panic}
use arcana_server.StateRes.Resolve.Iterative.{Fetch}
use arcana_server.StateRes.Resolve.Mainline.{
  SortKey, sort_key, order_map, sort_by_key, mainline_from, mainline_map, mainline_sort,
}
use arcana_server.StateRes.Resolve.Mainline.Sorting.{
  Asymmetric, sort_by_key-Ascending, keys-sort_by_key, sort_by_key-NoRepeat, Entries-sort_by_key,
}
use arcana_server.StateRes.Resolve.Mainline.Located.{
  has_key, HasKey, IsLocated, Ordered, Located-has_key, has_key-IsLocated, Ascending-Ordered,
}

module _ (fuel : ℕ) (fetch : Fetch) (depths : List (EventId × ℕ)) where
  order_map-HasKey :
      (ids : List EventId) (orders final : List (EventId × SortKey))
      → order_map fuel fetch depths ids orders ≡ some final
      → Entries (HasKey fuel fetch depths) orders
      → NoRepeat (keys orders)
      → Entries (HasKey fuel fetch depths) final × NoRepeat (keys final)
  unfolding order_map
  order_map-HasKey [] orders final h p n =
      let same : final ≡ orders = ground arith in rw same (p, n)
  order_map-HasKey (id ∷ rest) orders final h p n =
      elim (Option-cases (sort_key fuel fetch depths id)) [
        | inl k ↦ absurd (ground arith)
        | inr (none, k) ↦ order_map-HasKey rest orders final (ground arith) p n
        | inr (some key, k) ↦
            order_map-HasKey rest (insert id key orders) final (ground arith)
              (Entries-insert (HasKey fuel fetch depths) id key orders k p)
              (insert-NoRepeat id key orders n)
      ]

  order_map-keys :
      (ids : List EventId) (orders final : List (EventId × SortKey)) (id : EventId)
      → order_map fuel fetch depths ids orders ≡ some final
      → In id (keys final)
        ↔ (In id (keys orders) ⊎ (In id ids × (has_key (sort_key fuel fetch depths id) ≡ true)))
  unfolding order_map
  order_map-keys [] orders final id h = ground arith
  order_map-keys (first ∷ rest) orders final id h =
      elim (Option-cases (sort_key fuel fetch depths first)) [
        | inl k ↦ absurd (ground arith)
        | inr (none, k) ↦ ground (arith, order_map-keys rest orders final id)
        | inr (some key, k) ↦ ground (
          arith,
          order_map-keys rest (insert first key orders) final id,
          keys-insert id first key orders,
        )
      ]

module _ (r : Ruma) (fuel : ℕ) (fetch : Fetch) (to_sort : List EventId)
    (mainline out : List EventId) where
  -- The event IDs `out` are those of `to_sort` that were fetched and have a depth, once each, in
  -- ascending order of depth, timestamp and event ID.
  pub record IsSortOf : Type 0 where
    pub ordered : Ordered fuel fetch (mainline_map mainline) r out
    pub once : NoRepeat out
    pub same :
        (id : EventId)
        → In id out ↔ (In id to_sort × IsLocated fuel fetch (mainline_map mainline) id)

  orders-IsSortOf :
      Asymmetric r
      → (orders : List (EventId × SortKey))
      → order_map fuel fetch (mainline_map mainline) to_sort [] ≡ some orders
      → out ≡ keys (sort_by_key r orders)
      → IsSortOf
  orders-IsSortOf a orders o e =
      let depths = mainline_map mainline in
      let (have, once) = order_map-HasKey fuel fetch depths to_sort [] orders o tt tt in
      let kept = Entries-sort_by_key r (HasKey fuel fetch depths) orders have in
      record {
        ordered = rw e (
            Ascending-Ordered fuel fetch depths r (sort_by_key r orders)
              (sort_by_key-Ascending r a orders) kept);
        once = rw e (sort_by_key-NoRepeat r orders once);
        same = λ id.
            let found = order_map-keys fuel fetch depths to_sort [] orders id o in
            let sorted = keys-sort_by_key r id orders in
            (
              λ m. elim (found.0 (sorted.0 (rw e at m))) [
                | inl old ↦ absurd old
                | inr (listed, key) ↦ (listed, has_key-IsLocated fuel fetch depths id key)
              ],
              λ (listed, (d, t, l)).
                  rw e
                    (sorted.1 (found.1 (inr (listed, Located-has_key fuel fetch depths id d t l)))),
            );
      }

-- For an asymmetric order of event IDs: where `mainline_sort` returns a list for a non-empty list,
-- the walk from the resolved power levels event gave a mainline, and the list has the events
-- to sort that were fetched and have a depth, once each. Each stands before the next one with a
-- smaller depth; or with the same depth and a smaller timestamp; or with both the same and an event
-- ID that is not greater.
pub mainline_sort-IsSortOf :
    (r : Ruma) (fuel : ℕ) (fetch : Fetch) (first : EventId) (rest : List EventId)
    (resolved : Option EventId) (out : List EventId)
    → Asymmetric r
    → mainline_sort fuel r fetch (first ∷ rest) resolved ≡ some (ok out)
    → (mainline : List EventId) × (mainline_from fuel fetch resolved ≡ some (ok mainline))
      × IsSortOf r fuel fetch (first ∷ rest) mainline out
unfolding mainline_sort
mainline_sort-IsSortOf r fuel fetch first rest resolved out a h =
    elim (Option-cases (mainline_from fuel fetch resolved)) [
      | inl n ↦ absurd (ground arith)
      | inr (panic, m) ↦ absurd (ground arith)
      | inr (err e, m) ↦ absurd (ground arith)
      | inr (ok mainline, m) ↦
          elim (Option-cases (order_map fuel fetch (mainline_map mainline) (first ∷ rest) [])) [
            | inl n ↦ absurd (ground arith)
            | inr (orders, o) ↦ (
              mainline,
              m,
              orders-IsSortOf r fuel fetch (first ∷ rest) mainline out a orders o (ground arith),
            )
          ]
    ]

-- What is sorted is among what was to be sorted.
pub mainline_sort-In :
    (r : Ruma) (fuel : ℕ) (fetch : Fetch) (to_sort : List EventId) (resolved : Option EventId)
    (out : List EventId)
    → mainline_sort fuel r fetch to_sort resolved ≡ some (ok out)
    → (id : EventId) → In id out
    → In id to_sort
unfolding mainline_sort
mainline_sort-In r fuel fetch [] resolved out h id m =
    let none_left : out ≡ [] = ground arith in rw none_left at m
mainline_sort-In r fuel fetch (first ∷ rest) resolved out h id m =
    elim (Option-cases (mainline_from fuel fetch resolved)) [
      | inl n ↦ absurd (ground arith)
      | inr (panic, p) ↦ absurd (ground arith)
      | inr (err e, p) ↦ absurd (ground arith)
      | inr (ok mainline, p) ↦
          let depths = mainline_map mainline in
          elim (Option-cases (order_map fuel fetch depths (first ∷ rest) [])) [
            | inl n ↦ absurd (ground arith)
            | inr (orders, o) ↦
                let e : out ≡ keys (sort_by_key r orders) = ground arith in
                let in_orders = (keys-sort_by_key r id orders).0 (rw e at m) in
                elim ((order_map-keys fuel fetch depths (first ∷ rest) [] orders id o).0
                  in_orders) [ inl old ↦ absurd old | inr (listed, key) ↦ listed ]
          ]
    ]
