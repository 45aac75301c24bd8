-- ===== src/StateRes/Resolve/Whole/Conflicted.antt =====
-- The power sort, the mainline sort and the checks of `resolve`: what their entries are.
use arcana_server.Common.{
  ◌≡◌, ◌⊎◌, inl, inr, refl, Bool, not, Option, none, some, List, [], ◌∷◌, arith, In, lookup, insert,
  lookup-insert, contains, contains_iff, string_Eq, UniqueKeys, Bool-cases, Option-cases,
}
use arcana_server.StateRes.Event.{
  EventId, TypeStateKey, type_state_key_Eq, type_state_key_eq_iff, room_power_levels,
}
use arcana_server.StateRes.Result.{Result, ok, err, panic}
use arcana_server.StateRes.RoomVersion.{RoomVersion, RoomVersionId, new}
use arcana_server.StateRes.Resolve.Iterative.{StateMap, iterative_auth_check}
use arcana_server.StateRes.Resolve.Iterative.Provenance.{
  AcceptedAt, iterative_auth_check-AcceptedAt,
}
use arcana_server.StateRes.Resolve.Mainline.{mainline_sort}
use arcana_server.StateRes.Resolve.Mainline.Order.{mainline_sort-In}
use arcana_server.StateRes.Resolve.Power.{is_power_event_id, reverse_topological_power_sort}
use arcana_server.StateRes.Resolve.Power.Sorted.{sorted_from}
use arcana_server.StateRes.Resolve.Whole.{
  Setting, filter, extend, resolve_remaining, resolve_conflicted, ◌then_run◌,
}

pub then_run-eq-ok :
    {A B : Type 0} (m : Option (Result A)) (next : A → Option (Result B)) {b : B}
    → (m then_run next) ≡ some (ok b)
    → (a : A) × (m ≡ some (ok a)) × (next a ≡ some (ok b))
then_run-eq-ok none next h = absurd (ground arith)
then_run-eq-ok (some (ok a)) next h = (a, refl, h)
then_run-eq-ok (some (err e)) next h = absurd (ground arith)
then_run-eq-ok (some panic) next h = absurd (ground arith)

In-filter :
    (test : EventId → Bool) (ids : List EventId) (x : EventId) → In x (filter test ids) → In x ids
In-filter test [] x m = m
In-filter test (id ∷ ids) x m = elim (Bool-cases (test id)) [
  | inl kept ↦ ground (arith, In-filter test ids x)
  | inr out ↦ inr (In-filter test ids x (rw out at m))
]

-- `extend` puts the entries of the second map over those of the first.
lookup-extend :
    (state more : StateMap) (key : TypeStateKey)
    → UniqueKeys more
    → lookup key (extend state more)
      ≡ (elim (lookup key more) [ none ↦ lookup key state | some id ↦ some id ])
unfolding extend
lookup-extend state [] key u = refl
lookup-extend state ((k, id) ∷ more) key u = ground (
  arith,
  lookup-extend (insert k id state) more key u.1,
  lookup-insert k key id state,
  type_state_key_eq_iff k key,
)

module _ (s : Setting) where
  -- Only what is listed arrives.
  abbrev pub OnlyListed : Type 0
  OnlyListed = (ids : List EventId) (a : EventId) → In a (s.arrive ids) → In a ids

  AcceptedAt-widen :
      (v : RoomVersion) (ids wider : List EventId) (key : TypeStateKey) (id : EventId)
      → ((a : EventId) → In a ids → In a wider)
      → AcceptedAt s.ruma v s.entries s.fetch ids key id
      → AcceptedAt s.ruma v s.entries s.fetch wider key id
  AcceptedAt-widen v ids wider key id w a = record {
    event = a.event;
    asked = a.asked;
    listed = w a.asked a.listed;
    fetched = a.fetched;
    has_id = a.has_id;
    has_type = a.has_type;
    has_key = a.has_key;
    before = a.before;
    state = a.state;
    state_read = a.state_read;
    accepted = a.accepted;
  }

  -- One of the listed events stands at the key and was accepted, by the rules of the room version.
  abbrev pub AcceptedIn : RoomVersionId → List EventId → TypeStateKey → EventId → Type 0
  AcceptedIn room_version ids key id =
      (v : RoomVersion) × (new room_version ≡ ok v)
      × AcceptedAt s.ruma v s.entries s.fetch ids key id

  some_ok : {A : Type 0} (m : Result A) {a : A} → some m ≡ some (ok a) → m ≡ ok a
  some_ok m h = ground arith

  resolve_remaining-cases :
      (v : RoomVersion) (unconflicted : StateMap) (all sorted : List EventId)
      (control final : StateMap) (key : TypeStateKey) (id : EventId)
      → OnlyListed
      → UniqueKeys unconflicted
      → resolve_remaining s v unconflicted all sorted control ≡ some (ok final)
      → (lookup key unconflicted ≡ some id → lookup key final ≡ some id)
        × (lookup key final ≡ some id
            → (lookup key unconflicted ≡ some id)
              ⊎ ((lookup key control ≡ some id) ⊎ AcceptedAt s.ruma v s.entries s.fetch all key id))
  unfolding resolve_remaining
  resolve_remaining-cases v unconflicted all sorted control final key id only u h =
      let left = filter (λ other. not (contains sorted other)) all in
      let power_event = lookup (room_power_levels, "") control in
      let (mainline, m, h1) =
        then_run-eq-ok (mainline_sort s.mainline_fuel s.ruma s.fetch left power_event) _ h in
      let check = iterative_auth_check s.ruma v s.arrive s.entries s.fetch mainline control in
      let (resolved, j, h2) = then_run-eq-ok (some check) _ h1 in
      let whole : extend resolved unconflicted ≡ final = ground arith in
      let accepts =
        iterative_auth_check-AcceptedAt s.ruma v s.entries s.fetch s.arrive mainline control
          resolved key id (only mainline) (some_ok check j) in
      let in_all : (p : EventId) → In p mainline → In p all = λ p in_p.
        In-filter (λ other. not (contains sorted other)) all p
          (mainline_sort-In s.ruma s.mainline_fuel s.fetch left power_event mainline m p in_p) in
      let looked = lookup-extend resolved unconflicted key u in
      (
        λ l. ground (arith, whole, looked),
        λ l. elim (Option-cases (lookup key unconflicted)) [
          | inr (other, o) ↦ inl (ground (arith, whole, looked))
          | inl absent ↦ elim (accepts (ground (arith, whole, looked))) [
            | inl earlier ↦ inr (inl earlier)
            | inr a ↦ inr (inr (AcceptedAt-widen v mainline all key id in_all a))
          ]
        ],
      )

  pub resolve_conflicted-cases :
      (room_version : RoomVersionId) (unconflicted : StateMap) (all : List EventId)
      (initial final : StateMap) (key : TypeStateKey) (id : EventId)
      → OnlyListed
      → UniqueKeys unconflicted
      → resolve_conflicted s room_version unconflicted all initial ≡ some (ok final)
      → (lookup key unconflicted ≡ some id → lookup key final ≡ some id)
        × (lookup key final ≡ some id
            → (lookup key unconflicted ≡ some id)
              ⊎ ((lookup key initial ≡ some id) ⊎ AcceptedIn room_version all key id))
  unfolding resolve_conflicted
  resolve_conflicted-cases room_version unconflicted all initial final key id only u h =
      let events = s.arrive (filter (is_power_event_id s.ruma s.fetch) all) in
      let (sorted, c, h1) =
        then_run-eq-ok
          (reverse_topological_power_sort s.chain_fuel s.sort_fuel s.ruma s.arrive s.fetch events
            all)
          _ h in
      let (v, n, h2) = then_run-eq-ok (some (new room_version)) _ h1 in
      let check = iterative_auth_check s.ruma v s.arrive s.entries s.fetch sorted initial in
      let (control, i, h3) = then_run-eq-ok (some check) _ h2 in
      let accepts =
        iterative_auth_check-AcceptedAt s.ruma v s.entries s.fetch s.arrive sorted initial control
          key id (only sorted) (some_ok check i) in
      let in_all : (p : EventId) → In p sorted → In p all = λ p in_p.
        elim (sorted_from s.chain_fuel s.sort_fuel s.ruma s.arrive s.fetch events all sorted c p
          in_p) [
            | inl e ↦ In-filter (is_power_event_id s.ruma s.fetch) all p (only _ p e)
            | inr e ↦ (contains_iff all p).0 e
          ] in
      let (keeps, rest) =
        resolve_remaining-cases v unconflicted all sorted control final key id only u h3 in
      let is_version = some_ok (new room_version) n in
      (
        keeps,
        λ l. elim (rest l) [
          | inl kept ↦ inl kept
          | inr (inr a) ↦ inr (inr (v, is_version, a))
          | inr (inl earlier) ↦ elim (accepts earlier) [
            | inl start ↦ inr (inl start)
            | inr a ↦ inr (inr (v, is_version, AcceptedAt-widen v sorted all key id in_all a))
          ]
        ],
      )
