-- ===== src/Common/Sets.antt =====
-- Sets as lists without repetitions: `insert`, `remove` and `difference` of the standard library's.
use mathlib.Core.Path.{◌≡◌, refl, sym, ◌∙◌}
use mathlib.Core.Logic.{◌≢◌, ◌↔◌, ◌⊎◌, inl, inr}
use mathlib.Core.Bool.{true, false}
use mathlib.Core.List.{List, [], ◌∷◌, ◌++◌, append-nil, append_assoc}
use Prim.Native.Nat.{suc, ◌≤◌}
use native.Mathlib.Omega.{arith}
use arcana_server.Common.Tests.{Bool-cases, Eq, ◌==◌, if◌then◌else◌}
use arcana_server.Common.Lists.{
  In, In-append, contains, contains_iff, NoRepeat, length, length-append,
}

module _ {A : Type 0} ⦃e : Eq A⦄ where
  abbrev pub set_insert : A → List A → List A
  set_insert a xs = if contains xs a then xs else xs ++ (a ∷ [])

  unfoldable pub set_remove : A → List A → List A
  set_remove a [] = []
  set_remove a (x ∷ xs) = let rest = set_remove a xs in if x == a then rest else x ∷ rest

  unfoldable pub set_extend : List A → List A → List A
  set_extend xs [] = xs
  set_extend xs (y ∷ ys) = set_extend (set_insert y xs) ys

  unfoldable pub set_remove_all : List A → List A → List A
  unfolding set_remove
  set_remove_all xs [] = xs
  set_remove_all xs (y ∷ ys) = set_remove_all (set_remove y xs) ys

  unfoldable pub set_difference : List A → List A → List A
  set_difference [] ys = []
  set_difference (x ∷ xs) ys =
      let rest = set_difference xs ys in if contains ys x then rest else x ∷ rest

  pub In-set_insert : (a : A) (xs : List A) (b : A) → In b (set_insert a xs) ↔ ((b ≡ a) ⊎ In b xs)
  In-set_insert a xs b = ground (arith, contains_iff xs a, In-append b xs (a ∷ []))

  pub In-set_remove : (a : A) (xs : List A) (b : A) → In b (set_remove a xs) ↔ (In b xs × (b ≢ a))
  unfolding set_remove
  In-set_remove a [] b = ground arith
  In-set_remove a (x ∷ xs) b = ground (arith, e.eq_iff x a, In-set_remove a xs b)

  pub In-set_extend : (xs ys : List A) (b : A) → In b (set_extend xs ys) ↔ (In b xs ⊎ In b ys)
  unfolding set_extend
  In-set_extend xs [] b = ground arith
  In-set_extend xs (y ∷ ys) b =
      ground (arith, In-set_extend (set_insert y xs) ys b, In-set_insert y xs b)

  pub In-set_remove_all :
      (xs ys : List A) (b : A) → In b (set_remove_all xs ys) ↔ (In b xs × (In b ys → ⊥))
  unfolding set_remove_all
  In-set_remove_all xs [] b = ground arith
  In-set_remove_all xs (y ∷ ys) b =
      ground (arith, In-set_remove_all (set_remove y xs) ys b, In-set_remove y xs b)

  pub In-set_difference :
      (xs ys : List A) (b : A) → In b (set_difference xs ys) ↔ (In b xs × (In b ys → ⊥))
  unfolding set_difference
  In-set_difference [] ys b = ground arith
  In-set_difference (x ∷ xs) ys b = ground (arith, In-set_difference xs ys b, contains_iff ys x)

  NoRepeat-append : (xs : List A) (a : A) → NoRepeat xs → (In a xs → ⊥) → NoRepeat (xs ++ (a ∷ []))
  NoRepeat-append [] a n k = ground arith
  NoRepeat-append (x ∷ xs) a n k = ground (arith, In-append x xs (a ∷ []), NoRepeat-append xs a)

  pub set_insert-NoRepeat : (a : A) (xs : List A) → NoRepeat xs → NoRepeat (set_insert a xs)
  set_insert-NoRepeat a xs n = elim (Bool-cases (contains xs a)) [
    | inl old ↦ ground arith
    | inr new ↦ ground (arith, contains_iff xs a, NoRepeat-append xs a)
  ]

  pub set_remove-NoRepeat : (a : A) (xs : List A) → NoRepeat xs → NoRepeat (set_remove a xs)
  unfolding set_remove
  set_remove-NoRepeat a [] n = n
  set_remove-NoRepeat a (x ∷ xs) n = ground (arith, set_remove-NoRepeat a xs, In-set_remove a xs x)

  pub set_difference-NoRepeat : (xs ys : List A) → NoRepeat xs → NoRepeat (set_difference xs ys)
  unfolding set_difference
  set_difference-NoRepeat [] ys n = n
  set_difference-NoRepeat (x ∷ xs) ys n =
      ground (arith, set_difference-NoRepeat xs ys, In-set_difference xs ys x)

  -- items that are all new
  pub set_extend-new :
      (xs ys : List A)
      → NoRepeat ys
      → ((y : A) → In y ys → In y xs → ⊥)
      → set_extend xs ys ≡ xs ++ ys
  unfolding set_extend
  set_extend-new xs [] n new = sym (append-nil xs)
  set_extend-new xs (y ∷ ys) n new =
      let fresh : contains xs y ≡ false = ground (arith, contains_iff xs y, new y) in
      let one : set_insert y xs ≡ xs ++ (y ∷ []) = rw fresh refl in
      rw one (
        set_extend-new (xs ++ (y ∷ [])) ys n.1
          (λ z m k. ground (arith, In-append z xs (y ∷ []), new z, n.0))
        ∙ append_assoc xs (y ∷ []) ys)

  pub In-cases : (xs : List A) (a : A) → In a xs ⊎ (In a xs → ⊥)
  In-cases xs a = ground (arith, contains_iff xs a, Bool-cases (contains xs a))

  pub set_extend-NoRepeat : (xs ys : List A) → NoRepeat xs → NoRepeat (set_extend xs ys)
  unfolding set_extend
  set_extend-NoRepeat xs [] n = n
  set_extend-NoRepeat xs (y ∷ ys) n =
      set_extend-NoRepeat (set_insert y xs) ys (set_insert-NoRepeat y xs n)

  pub set_remove_all-NoRepeat : (xs ys : List A) → NoRepeat xs → NoRepeat (set_remove_all xs ys)
  unfolding set_remove_all
  set_remove_all-NoRepeat xs [] n = n
  set_remove_all-NoRepeat xs (y ∷ ys) n =
      set_remove_all-NoRepeat (set_remove y xs) ys (set_remove-NoRepeat y xs n)

  pub length-set_insert : (a : A) (xs : List A) → length (set_insert a xs) ≤ suc (length xs)
  length-set_insert a xs = ground (arith, length-append xs (a ∷ []))

  pub length-set_remove :
      (a : A) (xs : List A)
      → (length (set_remove a xs) ≤ length xs)
        × (contains xs a ≡ true → suc (length (set_remove a xs)) ≤ length xs)
  unfolding set_remove
  length-set_remove a [] = ground arith
  length-set_remove a (x ∷ xs) = ground (arith, length-set_remove a xs)
