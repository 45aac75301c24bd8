-- ===== src/StateRes/Resolve/Iterative/Provenance.antt =====
-- Where the entries of a resolved state come from.
use mathlib.Core.Path.{subst}
use arcana_server.Common.{
  String, ◌≡◌, ◌⊎◌, inl, inr, refl, sym, ◌∙◌, Bool, true, false, Option, none, some, List, [], ◌∷◌,
  lookup, insert, lookup-insert, ◌==◌, if◌then◌else◌, arith, Bool-cases, In, ap,
}
use arcana_server.StateRes.Content.{Ruma}
use arcana_server.StateRes.Event.{
  EventId, Event, TypeStateKey, type_state_key_Eq, type_state_key_eq_iff,
}
use arcana_server.StateRes.Result.{Error, ok, not_found, invalid_pdu, ok_or, bind-eq-ok}
use arcana_server.StateRes.RoomVersion.{RoomVersion}
use arcana_server.StateRes.Resolve.Iterative.{
  Fetch, Arrival, MapOrder, StateMap, AuthState, fetch_all, auth_state_of, check_event, check_loop,
  iterative_auth_check,
}

ok_or-eq-ok {ℓ} : {A : Type ℓ} (o : Option A) (e : Error) {a : A} → ok_or o e ≡ ok a → o ≡ some a
ok_or-eq-ok none e h = cc
ok_or-eq-ok (some a) e h = cc

module _ (r : Ruma) (version : RoomVersion) (entries : MapOrder) (fetch : Fetch) where
  -- An event among those that were fetched for `ids`, which stands at the key, has the event ID and
  -- was accepted against the state that some resolved state gives it.
  pub record AcceptedAt (ids : List EventId) (key : TypeStateKey) (id : EventId) : Type 0 where
    pub event : Event
    pub asked : EventId
    pub listed : In asked ids
    pub fetched : fetch asked ≡ some event
    pub has_id : event.event_id ≡ id
    pub has_type : event.event_type ≡ key.0
    pub has_key : event.state_key ≡ some key.1
    pub before : StateMap
    pub state : AuthState
    pub state_read :
        (auth_events : List (EventId × Event)) × (auth_state_of r version fetch auth_events before
            key.1 event
          ≡ ok state)
    pub accepted : check_event r version entries state event ≡ ok true

  -- the same, with the events at hand
  record AcceptedFrom (events : List Event) (key : TypeStateKey) (id : EventId) : Type 0 where
    event : Event
    listed : In event events
    has_id : event.event_id ≡ id
    has_type : event.event_type ≡ key.0
    has_key : event.state_key ≡ some key.1
    before : StateMap
    state : AuthState
    state_read :
        (auth_events : List (EventId × Event)) × (auth_state_of r version fetch auth_events before
            key.1 event
          ≡ ok state)
    accepted : check_event r version entries state event ≡ ok true

  AcceptedFrom-cons :
      (e : Event) (events : List Event) {key : TypeStateKey} {id : EventId}
      → AcceptedFrom events key id
      → AcceptedFrom (e ∷ events) key id
  AcceptedFrom-cons e events a = record {
    event = a.event;
    listed = inr a.listed;
    has_id = a.has_id;
    has_type = a.has_type;
    has_key = a.has_key;
    before = a.before;
    state = a.state;
    state_read = a.state_read;
    accepted = a.accepted;
  }

  module _ (auth_events : List (EventId × Event)) where
    -- one round
    abbrev after : Event → String → Bool → StateMap → StateMap
    after event state_key accepted resolved =
        if accepted then insert (event.event_type, state_key) event.event_id resolved else resolved

    round-From :
        (event : Event) (events : List Event) (state_key : String) (accepted : Bool)
        (resolved : StateMap) (state : AuthState) (key : TypeStateKey) (id : EventId)
        → event.state_key ≡ some state_key
        → auth_state_of r version fetch auth_events resolved state_key event ≡ ok state
        → check_event r version entries state event ≡ ok accepted
        → lookup key (after event state_key accepted resolved) ≡ some id
        → (lookup key resolved ≡ some id) ⊎ AcceptedFrom (event ∷ events) key id
    round-From event events state_key false resolved state key id k s c l = inl l
    round-From event events state_key true resolved state key id k s c l =
        let same = type_state_key_eq_iff (event.event_type, state_key) key in
        let looked = lookup-insert (event.event_type, state_key) key event.event_id resolved in
        elim (Bool-cases ((event.event_type, state_key) == key)) [
          | inr differs ↦ inl (rw (looked, differs) at l)
          | inl here ↦
              let e : (event.event_type, state_key) ≡ key = same.0 here in
              inr (record {
                event = event;
                listed = inl refl;
                has_id = ground (arith, looked);
                has_type = ap (λ (p : TypeStateKey). p.0) e;
                has_key = k ∙ ap (λ (p : TypeStateKey). some p.1) e;
                before = resolved;
                state = state;
                state_read = (
                  auth_events,
                  subst (λ x. auth_state_of r version fetch auth_events resolved x event ≡ ok state)
                      (ap (λ (p : TypeStateKey). p.1) e) s,
                );
                accepted = c;
              })
        ]

    check_loop-From :
        (events : List Event) (resolved final : StateMap) (key : TypeStateKey) (id : EventId)
        → check_loop r version entries fetch auth_events events resolved ≡ ok final
        → lookup key final ≡ some id
        → (lookup key resolved ≡ some id) ⊎ AcceptedFrom events key id
    unfolding check_loop
    check_loop-From [] resolved final key id h l =
        let same : resolved ≡ final = cc in inl (rw same l)
    check_loop-From (event ∷ rest) resolved final key id h l =
        let (state_key, k, h1) = bind-eq-ok (ok_or event.state_key invalid_pdu) _ h in
        let (state, s, h2) =
          bind-eq-ok (auth_state_of r version fetch auth_events resolved state_key event) _ h1 in
        let (accepted, c, h3) = bind-eq-ok (check_event r version entries state event) _ h2 in
        elim (check_loop-From rest (after event state_key accepted resolved) final key id h3 l) [
          | inr a ↦ inr (AcceptedFrom-cons event rest a)
          | inl found ↦
              round-From event rest state_key accepted resolved state key id
                (ok_or-eq-ok event.state_key invalid_pdu k) s c found
        ]

  fetch_all-fetched :
      (ids : List EventId) (events : List Event) (event : Event)
      → fetch_all fetch ids ≡ ok events
      → In event events
      → (asked : EventId) × In asked ids × (fetch asked ≡ some event)
  unfolding fetch_all
  fetch_all-fetched [] [] event h m = absurd m
  fetch_all-fetched [] (e ∷ events) event h m = cc
  fetch_all-fetched (id ∷ rest) events event h m =
      let (first, f, h1) = bind-eq-ok (ok_or (fetch id) not_found) _ h in
      let (others, g, h2) = bind-eq-ok (fetch_all fetch rest) _ h1 in
      let whole : first ∷ others ≡ events = cc h2 in
      let split : (event ≡ first) ⊎ In event others = rw (← whole) at m in
      elim split [
        | inl e ↦ (id, inl refl, ok_or-eq-ok (fetch id) not_found f ∙ ap some (sym e))
        | inr later ↦
            let (asked, listed, found) = fetch_all-fetched rest others event g later in
            (asked, inr listed, found)
      ]

  -- Where only events to check arrive: every entry of the state that `iterative_auth_check` returns
  -- was in the state that it started from, or is one of the events to check: it was fetched, it has that event ID, type and state
  -- key, and `auth_check` accepted it on a state that was put together for it.
  pub iterative_auth_check-AcceptedAt :
      (arrive : Arrival) (ids : List EventId) (initial final : StateMap) (key : TypeStateKey)
      (id : EventId)
      → ((a : EventId) → In a (arrive ids) → In a ids)
      → iterative_auth_check r version arrive entries fetch ids initial ≡ ok final
      → lookup key final ≡ some id
      → (lookup key initial ≡ some id) ⊎ AcceptedAt ids key id
  unfolding iterative_auth_check
  iterative_auth_check-AcceptedAt arrive ids initial final key id arrived h l =
      let (events, f, h1) = bind-eq-ok (fetch_all fetch (arrive ids)) _ h in
      elim (check_loop-From _ events initial final key id h1 l) [
        | inl found ↦ inl found
        | inr a ↦
            let (asked, listed, found) = fetch_all-fetched (arrive ids) events a.event f a.listed in
            inr (record {
              event = a.event;
              asked = asked;
              listed = arrived asked listed;
              fetched = found;
              has_id = a.has_id;
              has_type = a.has_type;
              has_key = a.has_key;
              before = a.before;
              state = a.state;
              state_read = a.state_read;
              accepted = a.accepted;
            })
      ]
