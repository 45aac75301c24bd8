-- ===== src/StateRes/Auth/Levels/Order.antt =====
-- The order of `Option<&Int>` and the loops that ask one test of every key.
use arcana_server.Common.{
  ◌≡◌, refl, ◌↔◌, inl, inr, Bool, true, false, ◌&&◌, Option, none, some, List, [], ◌∷◌, In, arith,
  Eq, ◌++◌, lookup, keys, lookup-mem, In-append, Option-cases,
}
use arcana_server.Common.Int.{ℤ, ltb_ℤ, ◌≤ℤ◌}

-- `o > Some(&level)`
abbrev pub gt_some : Option ℤ → ℤ → Bool
gt_some none level = false
gt_some (some a) level = ltb_ℤ level a

-- A listed level does not pass `level`.
abbrev pub AtMost : Option ℤ → ℤ → Type 0
AtMost none level = Unit
AtMost (some a) level = a ≤ℤ level

pub gt_some_iff : (o : Option ℤ) (level : ℤ) → (gt_some o level ≡ false) ↔ AtMost o level
gt_some_iff none level = ground arith
gt_some_iff (some a) level = ground arith

-- the conjunction of a test over a list
abbrev pub all : {A : Type 0} → (A → Bool) → List A → Bool
all p [] = true
all p (x ∷ xs) = p x && all p xs

pub all-mem :
    {A : Type 0} (p : A → Bool) (xs : List A) (x : A) → all p xs ≡ true → In x xs → p x ≡ true
all-mem p [] x h m = absurd m
all-mem p (y ∷ ys) x h (inl e) = ground arith
all-mem p (y ∷ ys) x h (inr m) = all-mem p ys x (ground arith) m

pub all_intro : {A : Type 0} (p : A → Bool) (xs : List A) → ((x : A) → p x ≡ true) → all p xs ≡ true
all_intro p [] h = refl
all_intro p (x ∷ xs) h = ground (arith, h x, all_intro p xs h)

-- A test that passes where neither map lists the key is passed by every key, if it is passed by
-- the keys of both maps.
module _ {K V : Type 0} ⦃e : Eq K⦄ (test : K → Option V → Option V → Bool)
    (old new : List (K × V)) where
  pub all-keys_iff :
      ((k : K) → test k none none ≡ true)
      → (all (λ k. test k (lookup k old) (lookup k new)) (keys old ++ keys new) ≡ true)
        ↔ ((k : K) → test k (lookup k old) (lookup k new) ≡ true)
  all-keys_iff absent = (
    λ h k. elim (Option-cases (lookup k old)) [
      | inr (v, l) ↦
          all-mem _ _ k h ((In-append k (keys old) (keys new)).1 (inl (lookup-mem k old l)))
      | inl n ↦ elim (Option-cases (lookup k new)) [
        | inr (v, l) ↦
            all-mem _ _ k h ((In-append k (keys old) (keys new)).1 (inr (lookup-mem k new l)))
        | inl m ↦ rw (n, m) (absent k)
      ]
    ],
    λ h. all_intro _ _ h,
  )
