-- ===== src/StateRes/Result.antt =====
-- src/core/matrix/state_res/error.rs: errors, and the outcomes of code that may fail or panic.
-- The texts of errors are not modelled.
use arcana_server.Common.{
  ◌⊎◌, inl, inr, ◌≡◌, ◌≢◌, refl, Option, none, some, Bool, true, false, if◌then◌else◌,
}

pub data Error : Type 0 where
  serde_json unsupported not_found invalid_pdu : Error

-- `panic` is the outcome of an `unwrap` or `expect` that fails.
pub data Result {ℓ} (A : Type ℓ) : Type ℓ where
  panic : Result A
  err : Error → Result A
  ok : A → Result A

infixl 5 ◌>>=◌
abbrev pub ◌>>=◌ {ℓ κ} : {T : Type ℓ} {U : Type κ} → Result T → (T → Result U) → Result U
panic >>= next = panic
err e >>= next = err e
ok t >>= next = next t

-- `from_json_str(…)?`: a parse that fails is a `SerdeJson` error.
abbrev pub json {ℓ} : {A : Type ℓ} → Option A → Result A
json none = err serde_json
json (some a) = ok a

-- `o.ok_or_else(|| e)?`
abbrev pub ok_or {ℓ} : {A : Type ℓ} → Option A → Error → Result A
ok_or none e = err e
ok_or (some a) e = ok a

-- `o.unwrap()` and `o.expect(…)`
abbrev pub unwrap {ℓ} : {A : Type ℓ} → Option A → Result A
unwrap none = panic
unwrap (some a) = ok a

pub bind-eq-ok {ℓ κ} :
    {T : Type ℓ} {U : Type κ} (outcome : Result T) (next : T → Result U) {u : U}
    → (outcome >>= next) ≡ ok u
    → (t : T) × (outcome ≡ ok t) × (next t ≡ ok u)
bind-eq-ok panic next whole = cc
bind-eq-ok (err e) next whole = cc
bind-eq-ok (ok t) next whole = (t, refl, whole)

pub Result-cases {ℓ} :
    {A : Type ℓ} (m : Result A)
    → ((a : A) × (m ≡ ok a)) ⊎ (((e : Error) × (m ≡ err e)) ⊎ (m ≡ panic))
Result-cases (ok a) = inl (a, refl)
Result-cases (err e) = inr (inl (e, refl))
Result-cases panic = inr (inr refl)

-- `m` does not panic. One rule for each way to build an outcome.
pub record NoPanic {ℓ} {A : Type ℓ} (m : Result A) : Type ℓ where
  pub safe : m ≢ panic

module _ {A : Type 0} where
  pub NoPanic-ok : (a : A) → NoPanic (ok a)
  NoPanic-ok a = record { safe = λ e. cc }

  pub NoPanic-err : (e : Error) → NoPanic {A = A} (err e)
  NoPanic-err e = record { safe = λ p. cc }

  pub NoPanic-json : (o : Option A) → NoPanic (json o)
  NoPanic-json none = record { safe = λ e. cc }
  NoPanic-json (some a) = record { safe = λ e. cc }

  pub NoPanic-ok_or : (o : Option A) (e : Error) → NoPanic (ok_or o e)
  NoPanic-ok_or none e = record { safe = λ p. cc }
  NoPanic-ok_or (some a) e = record { safe = λ p. cc }

  pub NoPanic-if :
      (b : Bool) (m n : Result A)
      → (b ≡ true → NoPanic m)
      → (b ≡ false → NoPanic n)
      → NoPanic (if b then m else n)
  NoPanic-if true m n km kn = km refl
  NoPanic-if false m n km kn = kn refl

module _ {A B : Type 0} where
  pub NoPanic-bind :
      (m : Result A) (f : A → Result B)
      → NoPanic m
      → ((a : A) → m ≡ ok a → NoPanic (f a))
      → NoPanic (m >>= f)
  NoPanic-bind (ok a) f km kf = kf a refl
  NoPanic-bind (err e) f km kf = NoPanic-err e
  NoPanic-bind panic f km kf = absurd (km.safe refl)

pub ruleset no_panic_rules =
    (NoPanic-ok, NoPanic-err, NoPanic-json, NoPanic-ok_or, NoPanic-if, NoPanic-bind)
