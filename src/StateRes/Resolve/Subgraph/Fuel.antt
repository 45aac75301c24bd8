-- ===== src/StateRes/Resolve/Subgraph/Fuel.antt =====
-- The fuel that the search needs: it goes on from each event once, also where auth events form a
-- cycle.
use arcana_server.Common.{
  ℕ, zero, suc, ◌+◌, ◌≤◌, ◌<◌, ◌≡◌, inl, inr, refl, true, false, some, List, [], ◌∷◌, arith, In,
  contains, string_Eq, Option-cases, Bool-cases, is_some, length, length-append, if◌then◌else◌,
  ◌==◌,
}
use arcana_server.StateRes.Event.{EventId, Event}
use arcana_server.StateRes.Resolve.Iterative.{Fetch}
use arcana_server.StateRes.Resolve.Power.{auth_events_of}
use arcana_server.StateRes.Resolve.Subgraph.{
  Stack, Search, popping_order, next_event, extend_if, expand, explore, search,
  calculate_conflicted_subgraph,
}
use text.Mathlib.TextEquality.{eq_iff}

-- the events on the stack
abbrev size : Stack → ℕ
size [] = 0
size (ids ∷ stack) = length ids + size stack

-- the auth events of the events that have not been seen
abbrev pub unseen : Fetch → List EventId → List EventId → ℕ
unseen fetch seen [] = 0
unseen fetch seen (u ∷ us) =
    (if contains seen u then 0 else length (auth_events_of (fetch u))) + unseen fetch seen us

length-popping_order : (ids : List EventId) → length (popping_order ids) ≡ length ids
unfolding popping_order
length-popping_order [] = refl
length-popping_order (id ∷ ids) =
    ground (arith, length-append (popping_order ids) (id ∷ []), length-popping_order ids)

next_event-size :
    (stack left : Stack) (path rest : List EventId) (id : EventId)
    → next_event stack path ≡ some (id, left, rest)
    → suc (size left) ≡ size stack
unfolding next_event
next_event-size [] left path rest id h = absurd (ground arith)
next_event-size ([] ∷ stack) left path rest id h =
    ground (arith, next_event-size stack left _ rest id h)
next_event-size ((x ∷ ids) ∷ stack) left path rest id h =
    let e : left ≡ ids ∷ stack = ground arith in rw e (omega arith)

module _ (fetch : Fetch) where
  unseen-cons_le :
      (id : EventId) (seen us : List EventId) → unseen fetch (id ∷ seen) us ≤ unseen fetch seen us
  unseen-cons_le id seen [] = omega arith
  unseen-cons_le id seen (u ∷ us) = ground (arith, unseen-cons_le id seen us)

  unseen-cons :
      (id : EventId) (seen us : List EventId)
      → contains seen id ≡ false
      → In id us
      → unseen fetch (id ∷ seen) us + length (auth_events_of (fetch id)) ≤ unseen fetch seen us
  unseen-cons id seen [] new m = absurd m
  unseen-cons id seen (u ∷ us) new (inl e) =
      let same : (id == u) ≡ true = (eq_iff id u).1 e in
      let new_u : contains seen u ≡ false = rw (← e) new in
      let less = unseen-cons_le id seen us in rw (same, new_u, e) (omega (arith, less))
  unseen-cons id seen (u ∷ us) new (inr m) = ground (arith, unseen-cons id seen us new m)

  module _ (universe conflicted : List EventId)
      (known : (id : EventId) (e : Event) → fetch id ≡ some e → In id universe) where
    -- what a round may still have to do
    abbrev todo : Search → ℕ
    todo s = size s.stack + unseen fetch s.seen universe

    expand-todo : (id : EventId) (s : Search) → todo (expand fetch id s) ≤ todo s
    unfolding expand
    expand-todo id s = elim (Bool-cases (contains s.seen id)) [
      | inl seen ↦ rw seen (omega arith)
      | inr new ↦ elim (Option-cases (fetch id)) [
        | inl missing ↦ rw (new, missing) (omega arith)
        | inr (evt, found) ↦
            let lower = unseen-cons id s.seen universe new (known id evt found) in
            let auth : length (auth_events_of (fetch id)) ≡ length evt.auth_events =
              rw found refl in
            rw (new, found) (omega (arith, lower, auth, length-popping_order evt.auth_events))
      ]
    ]

    explore-todo : (id : EventId) (s : Search) → todo (explore conflicted fetch id s) ≤ todo s
    unfolding explore
    explore-todo id s = elim (Bool-cases (contains s.subgraph id)) [
      | inl inside ↦ rw inside (omega arith)
      | inr outside ↦ rw outside (
          expand-todo id
            (record s { subgraph = extend_if (contains conflicted id) s.path s.subgraph }))
    ]

    search-returns :
        (fuel : ℕ) (s : Search) → todo s < fuel → is_some (search fuel conflicted fetch s) ≡ true
    unfolding search
    search-returns zero s enough = absurd (omega (arith, enough))
    search-returns (suc fuel) s enough = elim (Option-cases (next_event s.stack s.path)) [
      | inl n ↦ ground arith
      | inr ((id, left, rest), n) ↦
          let next : Search = record s { stack = left; path = id ∷ rest } in
          let less = next_event-size s.stack left s.path rest id n in
          let round = explore-todo id next in
          let more =
            search-returns fuel (explore conflicted fetch id next)
              (omega (arith, less, round, enough)) in
          ground (arith, more)
    ]

-- Where only the listed events can be fetched: with fuel for the conflicted events and the auth
-- events of the listed ones, the search for the subgraph does not run out, whether or not auth
-- events form a cycle.
pub calculate_conflicted_subgraph-returns :
    (fetch : Fetch) (universe conflicted : List EventId) (fuel : ℕ)
    → ((id : EventId) (e : Event) → fetch id ≡ some e → In id universe)
    → length conflicted + unseen fetch [] universe < fuel
    → is_some (calculate_conflicted_subgraph fuel conflicted fetch) ≡ true
unfolding calculate_conflicted_subgraph
calculate_conflicted_subgraph-returns fetch universe conflicted fuel known enough =
    search-returns fetch universe conflicted known fuel _ (omega (arith, enough))
