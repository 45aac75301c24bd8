-- ===== src/StateCompressor/Layers.antt =====
-- The layers of a state in the database, and how they are loaded.
use arcana_server.Common.{
  ℕ, zero, suc, ◌≤◌, ◌<◌, ◌≡◌, ◌≢◌, ◌↔◌, ◌⊎◌, sym, ◌∙◌, ap, false, Option, none, some, [], ◌∷◌,
  arith, In, length, lookup-insert, nat_Eq, nat_eq_iff, ◌==◌, Bool-cases, refl, inl, inr,
  if◌then◌else◌,
}
use arcana_server.Common.Words.{max_u64}
use arcana_server.Pdu.RawId.{Bytes}
use arcana_server.StateCompressor.Diff.{
  Event_Eq, CompressedState, StateDiff, parent_or_zero, ShortStateInfo, Db, encode, save_statediff,
  get_statediff, diff_of,
}
use arcana_server.StateCompressor.Encoding.{EachEvent, IsDiff, decode-encode, encode_is_long}
use arcana_server.StateCompressor.Merge.{IsChange, after, In-after}
use arcana_server.StateCompressor.{Stack, new_shortstatehash_info}

-- the state that a stack stands for
abbrev pub base_of : Stack → CompressedState
base_of [] = []
base_of (top ∷ below) = top.full_state

abbrev pub hash_of : Stack → Option ℕ
hash_of [] = none
hash_of (top ∷ below) = some top.shortstatehash

-- the full state of a layer on a stack
abbrev pub full_on : Stack → CompressedState → CompressedState → CompressedState
full_on [] added removed = added
full_on (top ∷ below) added removed = after top.full_state added removed

abbrev pub diff_on : Stack → CompressedState → CompressedState → StateDiff
diff_on below added removed = record { parent = hash_of below; added = added; removed = removed }

-- The database has the layer, on the stack of its parent.
pub record Layer (db : Db) (info : ShortStateInfo) (below : Stack) : Type 0 where
  pub stored : get_statediff db info.shortstatehash ≡ some (diff_on below info.added info.removed)
  pub full : info.full_state ≡ full_on below info.added info.removed
  pub change : IsChange (base_of below) info.added info.removed
  pub added : EachEvent info.added
  pub removed : EachEvent info.removed
  pub not_zero : 0 < info.shortstatehash
  pub word : info.shortstatehash ≤ max_u64

-- The stack is in the database.
abbrev pub Layered : Db → Stack → Type 0
Layered db [] = Unit
Layered db (info ∷ below) = Layer db info below × Layered db below

pub In-full_on :
    (below : Stack) (added removed : CompressedState) (x : Bytes)
    → IsChange (base_of below) added removed
    → In x (full_on below added removed)
      ↔ ((In x (base_of below) ⊎ In x added) × (In x removed → ⊥))
In-full_on [] added removed x c = ground (arith, c.old x)
In-full_on (top ∷ below) added removed x c = In-after top.full_state added removed x

-- A stack of the database is what `new_shortstatehash_info` loads.
pub new_shortstatehash_info-Layered :
    (fuel : ℕ) (db : Db) (info : ShortStateInfo) (below : Stack)
    → Layered db (info ∷ below)
    → length (info ∷ below) ≤ fuel
    → new_shortstatehash_info fuel db info.shortstatehash ≡ some (info ∷ below)
unfolding new_shortstatehash_info
new_shortstatehash_info-Layered zero db info below l enough = absurd (omega (arith, enough))
new_shortstatehash_info-Layered (suc fuel) db info [] l enough =
    rw l.0.stored (ap (λ full. some (record info { full_state = full } ∷ [])) (sym l.0.full))
new_shortstatehash_info-Layered (suc fuel) db info (top ∷ below) l enough =
    let loaded = new_shortstatehash_info-Layered fuel db top below l.1 (omega (arith, enough)) in
    rw (l.0.stored, loaded)
      (ap (λ full. some (record info { full_state = full } ∷ top ∷ below)) (sym l.0.full))

diff_of-encode : (diff : StateDiff) → IsDiff diff → diff_of (some (encode diff)) ≡ some diff
unfolding diff_of
diff_of-encode diff is = rw (encode_is_long diff) (ap some (decode-encode diff is))

pub get_statediff-save_statediff :
    (db : Db) (hash h : ℕ) (diff : StateDiff)
    → IsDiff diff
    → get_statediff (save_statediff hash diff db) h
      ≡ (if hash == h then some diff else get_statediff db h)
unfolding get_statediff save_statediff
get_statediff-save_statediff db hash h diff is =
    let looked = ap diff_of (lookup-insert hash h (encode diff) db) in
    elim (Bool-cases (hash == h)) [
      | inl same ↦ looked ∙ rw same (diff_of-encode diff is)
      | inr differs ↦ looked ∙ rw differs refl
    ]

abbrev pub Absent : ℕ → Stack → Type 0
Absent hash [] = Unit
Absent hash (info ∷ below) = (info.shortstatehash ≢ hash) × Absent hash below

pub save_statediff-Layered :
    (db : Db) (hash : ℕ) (diff : StateDiff) (stack : Stack)
    → IsDiff diff
    → Absent hash stack
    → Layered db stack
    → Layered (save_statediff hash diff db) stack
save_statediff-Layered db hash diff [] is absent l = tt
save_statediff-Layered db hash diff (info ∷ below) is absent l =
    let other : (hash == info.shortstatehash) ≡ false =
      ground (arith, nat_eq_iff hash info.shortstatehash, absent.0) in
    (
      record {
        stored =
            get_statediff-save_statediff db hash info.shortstatehash diff is ∙ rw other l.0.stored;
        full = l.0.full;
        change = l.0.change;
        added = l.0.added;
        removed = l.0.removed;
        not_zero = l.0.not_zero;
        word = l.0.word;
      },
      save_statediff-Layered db hash diff below is absent.1 l.1,
    )

pub hash_is_parent :
    (db : Db) (stack : Stack)
    → Layered db stack
    → (parent_or_zero (hash_of stack) ≤ max_u64) × (hash_of stack ≢ some 0)
hash_is_parent db [] l = (omega arith, λ e. ground arith)
hash_is_parent db (top ∷ below) l = (l.0.word, λ e. ground (arith, l.0.not_zero))
