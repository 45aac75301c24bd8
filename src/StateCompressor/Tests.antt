-- ===== src/StateCompressor/Tests.antt =====
-- The theorems on compressed states at a state of two events, from which one is replaced.
use arcana_server.Common.{
  ℕ, ◌≡◌, ◌↔◌, inl, inr, refl, ap, true, false, none, some, [], ◌∷◌, arith, In, is_some,
}
use arcana_server.Common.Sets.{set_difference}
use arcana_server.Pdu.RawId.{Bytes}
use arcana_server.StateCompressor.Diff.{
  Event_Eq, CompressedState, StateDiff, ShortStateInfo, Db, encode, decode, save_statediff,
  get_statediff,
}
use arcana_server.StateCompressor.Encoding.{EachEvent, IsDiff, decode-encode, encode_is_long}
use arcana_server.StateCompressor.Layers.{Layered, new_shortstatehash_info-Layered}
use arcana_server.StateCompressor.Saved.{CanSave, Stored, save_state_from_diff-Stored}
use arcana_server.StateCompressor.State.{save_state_loaded}
use arcana_server.StateCompressor.Returns.{save_state_from_diff-returns}
use arcana_server.StateCompressor.{
  Stack, HashSetCompressStateEvent, new_shortstatehash_info, parents_of, load_previous,
  save_state_from_diff, save_state,
}

-- the event `e` at the state key `k`, both below 256
abbrev event_of : ℕ → ℕ → Bytes
event_of k e = 0 ∷ 0 ∷ 0 ∷ 0 ∷ 0 ∷ 0 ∷ 0 ∷ k ∷ 0 ∷ 0 ∷ 0 ∷ 0 ∷ 0 ∷ 0 ∷ 0 ∷ e ∷ []

abbrev first_state : CompressedState
first_state = event_of 1 11 ∷ event_of 2 12 ∷ []

abbrev next_state : CompressedState
next_state = event_of 1 11 ∷ event_of 2 13 ∷ []

first_events : EachEvent first_state
first_events event (inl e) = rw e (refl, refl)
first_events event (inr (inl e)) = rw e (refl, refl)
first_events event (inr (inr nothing)) = absurd nothing

next_events : EachEvent next_state
next_events event (inl e) = rw e (refl, refl)
next_events event (inr (inl e)) = rw e (refl, refl)
next_events event (inr (inr nothing)) = absurd nothing

abbrev first_diff : StateDiff
first_diff = record { parent = none; added = first_state; removed = [] }

first_diff-IsDiff : IsDiff first_diff
first_diff-IsDiff = record {
  parent = omega arith;
  not_zero = λ e. ground arith;
  added_once = ground arith;
  removed_once = tt;
  added = first_events;
  removed = λ event m. absurd m;
}

decode-encode_example : decode (encode first_diff) ≡ first_diff
decode-encode_example = decode-encode first_diff first_diff-IsDiff

abbrev db : Db
db = (5, encode first_diff) ∷ []

abbrev base : ShortStateInfo
base = record { shortstatehash = 5; full_state = first_state; added = first_state; removed = [] }

base_stored : get_statediff db 5 ≡ some first_diff
unfolding get_statediff
base_stored = rw (encode_is_long first_diff, decode-encode first_diff first_diff-IsDiff) refl

base-Layered : Layered db (base ∷ [])
base-Layered = (
  record {
    stored = base_stored;
    full = refl;
    change = record {
      new = λ x m k. k;
      old = λ x m. m;
      added_once = ground arith;
      removed_once = tt;
    };
    added = first_events;
    removed = λ event m. absurd m;
    not_zero = omega arith;
    word = omega arith;
  },
  tt,
)

base_loaded : load_previous 1 db (some 5) ≡ base ∷ []
base_loaded =
    ap parents_of (new_shortstatehash_info-Layered 1 db base [] base-Layered (omega arith))

abbrev next_diff : StateDiff
next_diff = record { parent = some 5; added = event_of 2 13 ∷ []; removed = event_of 2 12 ∷ [] }

abbrev saved : Db
saved = save_statediff 6 next_diff db

next-CanSave : CanSave db (base ∷ []) 6 (event_of 2 13 ∷ []) (event_of 2 12 ∷ [])
next-CanSave = record {
  layered = base-Layered;
  absent = (λ e. ground arith, tt);
  change = record {
    new = λ x m k. ground arith;
    old = λ x m. ground arith;
    added_once = ground arith;
    removed_once = ground arith;
  };
  new_events = λ x m. next_events x (ground arith);
  gone_events = λ x m. first_events x (ground arith);
  not_zero = omega arith;
  word = omega arith;
}

next_saved :
    save_state_from_diff 6 (event_of 2 13 ∷ []) (event_of 2 12 ∷ []) 2 (base ∷ []) db ≡ some saved
unfolding save_state_from_diff
next_saved = refl

save_state_from_diff-Stored_example :
    Stored (base ∷ []) 6 (event_of 2 13 ∷ []) (event_of 2 12 ∷ []) saved
save_state_from_diff-Stored_example =
    save_state_from_diff-Stored 6 (event_of 2 13 ∷ []) (event_of 2 12 ∷ []) 2 (base ∷ []) db saved
      next-CanSave next_saved

save_state_from_diff-returns_example :
    is_some (save_state_from_diff 6 (event_of 2 13 ∷ []) (event_of 2 12 ∷ []) 2 (base ∷ []) db)
    ≡ true
save_state_from_diff-returns_example =
    save_state_from_diff-returns 6 (event_of 2 13 ∷ []) (event_of 2 12 ∷ []) 2 (base ∷ []) db
      (omega arith) (omega arith)

abbrev change : HashSetCompressStateEvent
change = record { shortstatehash = 6; added = event_of 2 13 ∷ []; removed = event_of 2 12 ∷ [] }

next_returned : save_state 1 (some 5) 6 false next_state db ≡ some (change, saved)
unfolding save_state save_state_from_diff set_difference
next_returned = rw base_loaded refl

save_state_loaded_example :
    (info : ShortStateInfo) × (below : Stack) × (new_shortstatehash_info 4 saved 6
      ≡ some (info ∷ below))
    × Layered saved (info ∷ below)
    × ((x : Bytes) → In x info.full_state ↔ In x next_state)
save_state_loaded_example =
    save_state_loaded 1 (some 5) 6 next_state db saved change refl (rw base_loaded base-Layered)
      (rw base_loaded (λ e. ground arith, tt)) (ground arith) next_events (omega arith)
      (omega arith) next_returned
