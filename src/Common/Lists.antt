-- ===== src/Common/Lists.antt =====
-- Lists measured by native numbers, membership tests, and association lists for the maps.
use Prim.Native.Nat.{ℕ, zero, suc, ◌+◌}
use mathlib.Core.Path.{◌≡◌, sym, refl}
use mathlib.Core.Logic.{inl, inr, ◌⊎◌, ◌↔◌}
use mathlib.Core.Bool.{Bool, true, false, ◌||◌}
use mathlib.Core.Option.{Option, none, some}
use mathlib.Core.List.{List, [], ◌∷◌, ◌++◌}
use native.Mathlib.Omega.{arith}
use arcana_server.Common.Tests.{Bool-cases, Eq, ◌==◌, if◌then◌else◌}

module _ {ℓ} {A : Type ℓ} where
  abbrev pub length : List A → ℕ
  length [] = 0
  length (x ∷ xs) = suc (length xs)

  abbrev pub get_elem? : List A → ℕ → Option A
  get_elem? [] i = none
  get_elem? (x ∷ xs) zero = some x
  get_elem? (x ∷ xs) (suc i) = get_elem? xs i

  abbrev pub any : (A → Bool) → List A → Bool
  any p [] = false
  any p (x ∷ xs) = p x || any p xs

  abbrev pub find : (A → Bool) → List A → Option A
  find p [] = none
  find p (x ∷ xs) = if p x then some x else find p xs

-- Membership in a list, by recursion.
abbrev pub In : {A : Type 0} → A → List A → Type 0
In a [] = ⊥
In a (x ∷ xs) = (a ≡ x) ⊎ In a xs

module _ {A : Type 0} ⦃e : Eq A⦄ where
  abbrev pub contains : List A → A → Bool
  contains [] a = false
  contains (x ∷ xs) a = x == a || contains xs a

  pub contains_iff : (xs : List A) (a : A) → (contains xs a ≡ true) ↔ In a xs
  contains_iff [] a = ground arith
  contains_iff (x ∷ xs) a = ground (arith, contains_iff xs a, e.eq_iff x a)

pub In-append : {A : Type 0} (a : A) (xs ys : List A) → In a (xs ++ ys) ↔ (In a xs ⊎ In a ys)
In-append a [] ys = ground arith
In-append a (x ∷ xs) ys = ground (arith, In-append a xs ys)

pub length-append {ℓ} : {A : Type ℓ} (xs ys : List A) → length (xs ++ ys) ≡ length xs + length ys
length-append [] ys = omega arith
length-append (x ∷ xs) ys = ground (arith, length-append xs ys)

-- Maps as association lists. The first entry of a key counts.
module _ {K V : Type 0} ⦃e : Eq K⦄ where
  abbrev pub lookup : K → List (K × V) → Option V
  lookup key [] = none
  lookup key ((other, value) ∷ rest) = if other == key then some value else lookup key rest

  unfoldable pub insert : K → V → List (K × V) → List (K × V)
  insert key new [] = (key, new) ∷ []
  insert key new ((other, value) ∷ rest) =
      if other == key then (key, new) ∷ rest else (other, value) ∷ insert key new rest

  pub lookup-insert :
      (k j : K) (v : V) (m : List (K × V))
      → lookup j (insert k v m) ≡ (if k == j then some v else lookup j m)
  unfolding insert
  lookup-insert k j v [] = refl
  lookup-insert k j v ((i, w) ∷ m) =
      ground (arith, e.eq_iff k j, e.eq_iff i k, e.eq_iff i j, lookup-insert k j v m)

abbrev pub keys : {K V : Type 0} → List (K × V) → List K
keys [] = []
keys ((k, v) ∷ m) = k ∷ keys m

-- A key that is looked up with success is among the keys.
pub lookup-mem :
    {K V : Type 0} ⦃e : Eq K⦄ (k : K) (m : List (K × V)) {v : V}
    → lookup k m ≡ some v
    → In k (keys m)
lookup-mem k [] h = cc
lookup-mem ⦃e⦄ k ((j, w) ∷ m) h = elim (Bool-cases (j == k)) [
  | inl same ↦ inl (sym ((e.eq_iff j k).0 same))
  | inr differs ↦ inr (lookup-mem k m (rw differs at h))
]

-- A key that is not found is not among the keys.
pub lookup-keys :
    {K V : Type 0} ⦃e : Eq K⦄ (k : K) (m : List (K × V)) → lookup k m ≡ none → In k (keys m) → ⊥
lookup-keys k [] h n = n
lookup-keys ⦃e⦄ k ((j, w) ∷ m) h n = ground (arith, e.eq_iff j k, lookup-keys k m)

-- A map with one entry for each key.
abbrev pub UniqueKeys : {K V : Type 0} ⦃e : Eq K⦄ → List (K × V) → Type 0
UniqueKeys [] = Unit
UniqueKeys ((k, v) ∷ m) = (lookup k m ≡ none) × UniqueKeys m

-- A property of every entry.
abbrev pub Entries : {K V : Type 0} → (K → V → Type 0) → List (K × V) → Type 0
Entries P [] = Unit
Entries P ((k, v) ∷ m) = P k v × Entries P m

pub Entries-imp :
    {K V : Type 0} (P Q : K → V → Type 0) (m : List (K × V))
    → ((k : K) (v : V) → P k v → Q k v)
    → Entries P m
    → Entries Q m
Entries-imp P Q [] f h = tt
Entries-imp P Q ((k, v) ∷ m) f h = (f k v h.0, Entries-imp P Q m f h.1)

module _ {K V : Type 0} ⦃e : Eq K⦄ where
  lookup-cons_ne :
      (j k : K) (w v : V) (m : List (K × V))
      → lookup j m ≡ none
      → lookup k m ≡ some v
      → lookup k ((j, w) ∷ m) ≡ some v
  lookup-cons_ne j k w v m h l = elim (Bool-cases (j == k)) [
    | inl same ↦ absurd (ground (arith, e.eq_iff j k))
    | inr differs ↦ rw differs l
  ]

  -- Where keys are unique, every entry is the one that a lookup finds.
  pub UniqueKeys-lookup : (m : List (K × V)) → UniqueKeys m → Entries (λ k v. lookup k m ≡ some v) m
  UniqueKeys-lookup [] u = tt
  UniqueKeys-lookup ((j, w) ∷ m) u = (
    rw ((e.eq_iff j j).1 refl),
    Entries-imp _ _ m (λ k v. lookup-cons_ne j k w v m u.0) (UniqueKeys-lookup m u.1),
  )

  lookup-insert-none :
      (k j : K) (v : V) (m : List (K × V))
      → lookup j m ≡ none
      → (k == j) ≡ false
      → lookup j (insert k v m) ≡ none
  lookup-insert-none k j v m h d = rw (lookup-insert, d) h

  pub insert-UniqueKeys :
      (k : K) (v : V) (m : List (K × V)) → UniqueKeys m → UniqueKeys (insert k v m)
  unfolding insert
  insert-UniqueKeys k v [] u = ground arith
  insert-UniqueKeys k v ((j, w) ∷ m) u = elim (Bool-cases (j == k)) [
    | inl same ↦ rw same (ground (arith, e.eq_iff j k))
    | inr differs ↦ rw differs (
      lookup-insert-none k j v m u.0 (ground (arith, e.eq_iff j k, e.eq_iff k j)),
      insert-UniqueKeys k v m u.1,
    )
  ]

pub Entries-and :
    {K V : Type 0} (P Q R : K → V → Type 0) (m : List (K × V))
    → ((k : K) (v : V) → P k v → Q k v → R k v)
    → Entries P m
    → Entries Q m
    → Entries R m
Entries-and P Q R [] f h g = tt
Entries-and P Q R ((k, v) ∷ m) f h g = (f k v h.0 g.0, Entries-and P Q R m f h.1 g.1)

module _ {K V : Type 0} ⦃e : Eq K⦄ where
  pub Entries-insert :
      (P : K → V → Type 0) (k : K) (v : V) (m : List (K × V))
      → P k v
      → Entries P m
      → Entries P (insert k v m)
  unfolding insert
  Entries-insert P k v [] p h = (p, tt)
  Entries-insert P k v ((j, w) ∷ m) p h = elim (Bool-cases (j == k)) [
    | inl same ↦ rw same (p, h.1)
    | inr differs ↦ rw differs (h.0, Entries-insert P k v m p h.1)
  ]

-- A list without repetitions.
abbrev pub NoRepeat : {A : Type 0} → List A → Type 0
NoRepeat [] = Unit
NoRepeat (x ∷ xs) = (In x xs → ⊥) × NoRepeat xs

module _ {K V : Type 0} ⦃e : Eq K⦄ where
  pub keys-insert :
      (j k : K) (v : V) (m : List (K × V)) → In j (keys (insert k v m)) ↔ ((j ≡ k) ⊎ In j (keys m))
  unfolding insert
  keys-insert j k v [] = ground arith
  keys-insert j k v ((i, w) ∷ m) = ground (arith, e.eq_iff i k, keys-insert j k v m)

  pub insert-NoRepeat :
      (k : K) (v : V) (m : List (K × V)) → NoRepeat (keys m) → NoRepeat (keys (insert k v m))
  unfolding insert
  insert-NoRepeat k v [] n = ground arith
  insert-NoRepeat k v ((i, w) ∷ m) n =
      ground (arith, e.eq_iff i k, keys-insert i k v m, insert-NoRepeat k v m)
