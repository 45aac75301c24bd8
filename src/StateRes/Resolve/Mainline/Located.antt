-- ===== src/StateRes/Resolve/Mainline/Located.antt =====
-- Where `mainline_sort` places an event, said apart from the keys of the code.
use Prim.Native.Nat.{compare, Ordering}
use arcana_server.Common.{
  ℕ, ◌≡◌, ◌⊎◌, inl, inr, Bool, true, false, Option, none, some, List, [], ◌∷◌, arith, keys, Entries,
  string_Eq, Option-cases, refl, ◌<◌, ◌≢◌, ◌∙◌, then_cmp,
}
use arcana_server.StateRes.Content.{Ruma}
use arcana_server.StateRes.Event.{EventId, Event}
use arcana_server.StateRes.Result.{Result, ok, err, panic}
use arcana_server.StateRes.Resolve.Iterative.{Fetch}
use arcana_server.StateRes.Resolve.Mainline.{
  SortKey, key_if_ok, sort_key, cmp_key, is_gt, get_mainline_depth,
}
use arcana_server.StateRes.Resolve.Mainline.Sorting.{Ascending}

-- An event that is not skipped.
abbrev pub has_key : Option (Option SortKey) → Bool
has_key (some (some key)) = true
has_key _ = false

module _ (fuel : ℕ) (fetch : Fetch) (depths : List (EventId × ℕ)) where
  -- The event was fetched, and its depth was found.
  abbrev pub HasKey : EventId → SortKey → Type 0
  HasKey id key = sort_key fuel fetch depths id ≡ some (some key)

not_gt-cases :
    (d d' t t' : ℕ) (c : Ordering)
    → is_gt (then_cmp (compare d d') (then_cmp (compare t t') c)) ≡ false
    → (d < d') ⊎ ((d ≡ d') × ((t < t') ⊎ ((t ≡ t') × (c ≢ Ordering.gt))))
not_gt-cases d d' t t' c h = ground arith

module _ (fuel : ℕ) (fetch : Fetch) (depths : List (EventId × ℕ)) where
  -- The event was fetched, its walk ended at that depth, and it was sent at that time.
  pub record Located (id : EventId) (depth ts : ℕ) : Type 0 where
    pub event : Event
    pub fetched : fetch id ≡ some event
    pub at_depth : get_mainline_depth fuel fetch depths event ≡ some (ok depth)
    pub sent : event.origin_server_ts ≡ ts

  abbrev pub IsLocated : EventId → Type 0
  IsLocated id = (depth : ℕ) × (ts : ℕ) × Located id depth ts

  -- One event is less deep than the other, or as deep and older, or as old and its ID is not greater.
  abbrev pub NotAfter : Ruma → EventId → EventId → Type 0
  NotAfter r x y =
      (d : ℕ) × (t : ℕ) × (d' : ℕ) × (t' : ℕ) × Located x d t
      × Located y d' t'
      × ((d < d') ⊎ ((d ≡ d') × ((t < t') ⊎ ((t ≡ t') × (r.cmp_event x y ≢ Ordering.gt)))))

  -- Each event stands before the next one rightly.
  abbrev pub Ordered : Ruma → List EventId → Type 0
  Ordered r [] = Unit
  Ordered r (x ∷ []) = Unit
  Ordered r (x ∷ y ∷ rest) = NotAfter r x y × Ordered r (y ∷ rest)

  key_if_ok-Located :
      (id : EventId) (event : Event) (key : SortKey) (o : Option (Result ℕ))
      → fetch id ≡ some event
      → get_mainline_depth fuel fetch depths event ≡ o
      → key_if_ok id event o ≡ some (some key)
      → Located id key.0 key.1 × (key.2 ≡ id)
  key_if_ok-Located id event key none f d h = absurd (ground arith)
  key_if_ok-Located id event key (some (err e)) f d h = absurd (ground arith)
  key_if_ok-Located id event key (some panic) f d h = absurd (ground arith)
  key_if_ok-Located id event (depth, ts, last) (some (ok at)) f d h = (
    record { event = event; fetched = f; at_depth = d ∙ ground arith; sent = ground arith },
    ground arith,
  )

  sort_key-Located :
      (id : EventId) (key : SortKey)
      → sort_key fuel fetch depths id ≡ some (some key)
      → Located id key.0 key.1 × (key.2 ≡ id)
  unfolding sort_key
  sort_key-Located id key h = elim (Option-cases (fetch id)) [
    | inl n ↦ absurd (ground arith)
    | inr (event, f) ↦
        key_if_ok-Located id event key (get_mainline_depth fuel fetch depths event) f refl
          (rw (f, sort_key) at h)
  ]

  pub Located-has_key :
      (id : EventId) (depth ts : ℕ)
      → Located id depth ts
      → has_key (sort_key fuel fetch depths id) ≡ true
  unfolding sort_key
  Located-has_key id depth ts l = ground (arith, l.fetched, l.at_depth)

  pub has_key-IsLocated :
      (id : EventId) → has_key (sort_key fuel fetch depths id) ≡ true → IsLocated id
  has_key-IsLocated id h = elim (Option-cases (sort_key fuel fetch depths id)) [
    | inl n ↦ absurd (ground arith)
    | inr (none, k) ↦ absurd (ground arith)
    | inr (some key, k) ↦ (key.0, key.1, (sort_key-Located id key k).0)
  ]

  cmp_key-NotAfter :
      (r : Ruma) (x y : EventId) (a b : SortKey)
      → HasKey fuel fetch depths x a
      → HasKey fuel fetch depths y b
      → is_gt (cmp_key r a b) ≡ false
      → NotAfter r x y
  cmp_key-NotAfter r x y (d, t, i) (d', t', i') h k less =
      let (here, last) = sort_key-Located x (d, t, i) h in
      let (there, last') = sort_key-Located y (d', t', i') k in
      (
        d,
        t,
        d',
        t',
        here,
        there,
        rw (last, last') at (not_gt-cases d d' t t' (r.cmp_event i i') less),
      )

  pub Ascending-Ordered :
      (r : Ruma) (entries : List (EventId × SortKey))
      → Ascending r entries
      → Entries (HasKey fuel fetch depths) entries
      → Ordered r (keys entries)
  Ascending-Ordered r [] a h = tt
  Ascending-Ordered r (x ∷ []) a h = tt
  Ascending-Ordered r (x ∷ y ∷ rest) a h =
      (cmp_key-NotAfter r x.0 y.0 x.1 y.1 h.0 h.1.0 a.0, Ascending-Ordered r (y ∷ rest) a.1 h.1)
