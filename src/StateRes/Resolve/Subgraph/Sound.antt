-- ===== src/StateRes/Resolve/Subgraph/Sound.antt =====
-- The conflicted subgraph: its events lie on auth chains between conflicted events.
use arcana_server.Common.{
  ℕ, zero, suc, ◌≡◌, inl, inr, refl, Bool, true, some, List, [], ◌∷◌, arith, In, In-append,
  contains, contains_iff, string_Eq, Option-cases, Bool-cases, ◌&&◌, ltb, length,
}
use arcana_server.StateRes.Event.{EventId}
use arcana_server.StateRes.Resolve.Iterative.{Fetch}
use arcana_server.StateRes.Resolve.Power.{auth_events_of}
use arcana_server.StateRes.Resolve.Subgraph.{
  Stack, Search, popping_order, next_event, extend_if, expand, explore, search,
  calculate_conflicted_subgraph,
}

pub In-popping_order : (ids : List EventId) (x : EventId) → In x (popping_order ids) → In x ids
unfolding popping_order
In-popping_order [] x m = m
In-popping_order (id ∷ ids) x m =
    ground (arith, In-append x (popping_order ids) (id ∷ []), In-popping_order ids x)

module _ (fetch : Fetch) (conflicted : List EventId) where
  -- The auth chain of the first event has the second.
  pub data Reaches : EventId → EventId → Type 0 where
    here : {a : EventId} → Reaches a a
    then_auth : {a b c : EventId} → Reaches a b → In c (auth_events_of (fetch b)) → Reaches a c

  Reaches-all : (a b c : EventId) → Reaches a b → Reaches b c → Reaches a c
  Reaches-all a b c p here = p
  Reaches-all a b c p (then_auth q m) = then_auth (Reaches-all a b _ p q) m

  -- The event is in the auth chain of a conflicted event, and has one in its own.
  abbrev pub Below : EventId → Type 0
  Below x = (a : EventId) × In a conflicted × Reaches a x

  abbrev pub Above : EventId → Type 0
  Above x = (b : EventId) × In b conflicted × Reaches x b

  -- the path: each event is in the auth chains of those before it
  abbrev PathOk : List EventId → Type 0
  PathOk [] = Unit
  PathOk (p ∷ path) = Below p × ((q : EventId) → In q path → Reaches q p) × PathOk path

  -- the events on the stack: auth events of the events of the path, and at its end conflicted events
  abbrev Layers : Stack → List EventId → Type 0
  Layers [] path = Unit
  Layers (ids ∷ stack) [] = ((x : EventId) → In x ids → In x conflicted) × Layers stack []
  Layers (ids ∷ stack) (p ∷ path) =
      ((x : EventId) → In x ids → In x (auth_events_of (fetch p))) × Layers stack path

  record Ok (s : Search) : Type 0 where
    layers : Layers s.stack s.path
    path_ok : PathOk s.path
    between : (x : EventId) → In x s.subgraph → Below x × Above x

  path-Below : (path : List EventId) → PathOk path → (x : EventId) → In x path → Below x
  path-Below [] ok x m = absurd m
  path-Below (p ∷ path) ok x (inl e) = rw e ok.0
  path-Below (p ∷ path) ok x (inr m) = path-Below path ok.2 x m

  -- The whole path is between where its last event is above a conflicted one.
  extend-between :
      (test : Bool) (p : EventId) (path subgraph : List EventId)
      → PathOk (p ∷ path)
      → (test ≡ true → Above p)
      → ((x : EventId) → In x subgraph → Below x × Above x)
      → (x : EventId) → In x (extend_if test (p ∷ path) subgraph)
      → Below x × Above x
  extend-between test p path subgraph ok above old x m =
      elim (Bool-cases (test && ltb 1 (length (p ∷ path)))) [
        | inr not_extended ↦ old x (rw not_extended at m)
        | inl extended ↦ elim ((In-append x (p ∷ path) subgraph).0 (rw extended at m)) [
          | inr in_subgraph ↦ old x in_subgraph
          | inl on_path ↦ (
            path-Below (p ∷ path) ok x on_path,
            (let (b, in_conflicted, reaches) = above (ground arith) in
                (
                  b,
                  in_conflicted,
                  elim on_path [
                    | inl e ↦ rw e reaches
                    | inr before ↦ Reaches-all x p b (ok.1 x before) reaches
                  ],
                )),
          )
        ]
      ]

  next_event-Ok :
      (stack left : Stack) (path rest : List EventId) (id : EventId)
      → next_event stack path ≡ some (id, left, rest)
      → Layers stack path
      → PathOk path
      → Layers left rest × PathOk (id ∷ rest)
  unfolding next_event
  next_event-Ok [] left path rest id h l p = absurd (ground arith)
  next_event-Ok ([] ∷ stack) left [] rest id h l p = next_event-Ok stack left [] rest id h l.1 p
  next_event-Ok ([] ∷ stack) left (q ∷ path) rest id h l p =
      next_event-Ok stack left path rest id h l.1 p.2
  next_event-Ok ((x ∷ ids) ∷ stack) left [] rest id h l p =
      let e : id ≡ x = ground arith in
      let e_left : left ≡ ids ∷ stack = ground arith in
      let e_rest : rest ≡ [] = ground arith in
      rw (e, e_left, e_rest)
        ((λ y m. l.0 y (inr m), l.1), ((x, l.0 x (inl refl), here), λ q m. absurd m, tt))
  next_event-Ok ((x ∷ ids) ∷ stack) left (q ∷ path) rest id h l p =
      let e : id ≡ x = ground arith in
      let e_left : left ≡ ids ∷ stack = ground arith in
      let e_rest : rest ≡ q ∷ path = ground arith in
      let is_auth = l.0 x (inl refl) in
      let (a, root, reaches) = p.0 in
      rw (e, e_left, e_rest)
        (
          (λ y m. l.0 y (inr m), l.1),
          (
            (a, root, then_auth reaches is_auth),
            λ q' m. then_auth (elim m [ inl at_q ↦ rw at_q here | inr on ↦ p.1 q' on ]) is_auth,
            p,
          ),
        )

  explore-Ok :
      (id : EventId) (stack : Stack) (rest seen subgraph : List EventId)
      → Layers stack rest
      → PathOk (id ∷ rest)
      → ((x : EventId) → In x subgraph → Below x × Above x)
      → Ok (
          explore conflicted fetch id
            (record { stack = stack; path = id ∷ rest; seen = seen; subgraph = subgraph }))
  unfolding explore expand
  explore-Ok id stack rest seen subgraph l p b = elim (Bool-cases (contains subgraph id)) [
    | inl in_subgraph ↦ rw in_subgraph (record {
      layers = l;
      path_ok = p.2;
      between =
          extend-between true id rest subgraph p
            (λ e. (b id ((contains_iff subgraph id).0 in_subgraph)).1) b;
    })
    | inr outside ↦
        let between =
          extend-between (contains conflicted id) id rest subgraph p
            (λ e. (id, (contains_iff conflicted id).0 e, here)) b in
        elim (Bool-cases (contains seen id)) [
          | inl known ↦
              rw (outside, known) (record { layers = l; path_ok = p.2; between = between })
          | inr new ↦ elim (Option-cases (fetch id)) [
            | inl missing ↦
                rw (outside, new, missing) (record { layers = l; path_ok = p.2; between = between })
            | inr (evt, found) ↦
                rw (outside, new, found)
                  (record {
                    layers = (λ x m. rw found (In-popping_order evt.auth_events x m), l);
                    path_ok = p;
                    between = between;
                  })
          ]
        ]
  ]

  search-between :
      (fuel : ℕ) (s : Search) (subgraph : List EventId)
      → search fuel conflicted fetch s ≡ some subgraph
      → Ok s
      → (x : EventId) → In x subgraph
      → Below x × Above x
  unfolding search
  search-between zero s subgraph h ok = absurd (ground arith)
  search-between (suc fuel) s subgraph h ok = elim (Option-cases (next_event s.stack s.path)) [
    | inl n ↦ let same : subgraph ≡ s.subgraph = ground arith in rw same ok.between
    | inr ((id, left, rest), n) ↦
        let (l, p) = next_event-Ok s.stack left s.path rest id n ok.layers ok.path_ok in
        search-between fuel _ subgraph (ground arith)
          (explore-Ok id left rest s.seen s.subgraph l p ok.between)
  ]

-- Each event of the conflicted subgraph is in the auth chain of a conflicted event, or is one, and
-- has a conflicted event in its own auth chain, or is one.
pub calculate_conflicted_subgraph-between :
    (fuel : ℕ) (conflicted : List EventId) (fetch : Fetch) (subgraph : List EventId)
    → calculate_conflicted_subgraph fuel conflicted fetch ≡ some subgraph
    → (x : EventId) → In x subgraph
    → Below fetch conflicted x × Above fetch conflicted x
unfolding calculate_conflicted_subgraph
calculate_conflicted_subgraph-between fuel conflicted fetch subgraph h =
    search-between fetch conflicted fuel _ subgraph h
      (record { layers = (λ x m. m, tt); path_ok = tt; between = λ x m. absurd m })
