-- ===== src/RegistrationTokens/Data.antt =====
-- src/service/registration_tokens/data.rs: the tokens in the database. The values of the table are
-- JSON, which serde writes and reads: `Json` is what the code relies on. The tokens of a table stand
-- in the order in which they were put in, and a time is the number that the clock shows.
use arcana_server.Common.{
  ℕ, String, ◌≡◌, Bool, true, Option, none, some, List, [], ◌∷◌, ltb, leb, string_Eq, ◌==◌,
  if◌then◌else◌, lookup, insert,
}

pub data TokenExpires : Type 0 where
  after_uses : ℕ → TokenExpires
  after_time : ℕ → TokenExpires

pub record DatabaseTokenInfo : Type 0 where
  pub creator : String
  pub uses : ℕ
  pub expires : Option TokenExpires

-- `DatabaseTokenInfo::new`
unfoldable pub new_info : String → Option TokenExpires → DatabaseTokenInfo
new_info creator expires = record { creator = creator; uses = 0; expires = expires }

abbrev not_expired : ℕ → ℕ → Option TokenExpires → Bool
not_expired now uses (some (after_uses max_uses)) = ltb uses max_uses
not_expired now uses (some (after_time expiry_time)) = leb now expiry_time
not_expired now uses none = true

unfoldable pub is_valid : ℕ → DatabaseTokenInfo → Bool
is_valid now info = not_expired now info.uses info.expires

-- what serde_json does with the metadata of a token
pub record Json (V : Type 0) : Type 0 where
  pub to_json : DatabaseTokenInfo → V
  pub from_json : V → Option DatabaseTokenInfo
  pub from_json-to_json : (info : DatabaseTokenInfo) → from_json (to_json info) ≡ some info

abbrev pub Table : Type 0 → Type 0
Table V = List (String × V)

-- `Map::remove`
unfoldable pub remove_entry : {V : Type 0} → String → Table V → Table V
remove_entry key [] = []
remove_entry key ((other, value) ∷ rest) =
    let removed = remove_entry key rest in
    if other == key then removed else (other, value) ∷ removed

module _ {V : Type 0} (json : Json V) where
  unfoldable pub save_token : String → DatabaseTokenInfo → Table V → Table V
  save_token token info table = insert token (json.to_json info) table

  abbrev pub deserialized : Option V → Option DatabaseTokenInfo
  deserialized none = none
  deserialized (some value) = json.from_json value

  unfoldable pub lookup_token_info : String → Table V → Option DatabaseTokenInfo
  lookup_token_info token table = deserialized (lookup token table)

  -- one item of the stream, where the others are read in the table or without the item
  abbrev pub keep_or_remove :
      (String → ℕ)
      → String
      → Option DatabaseTokenInfo
      → List (String × DatabaseTokenInfo) × Table V
      → List (String × DatabaseTokenInfo) × Table V
      → List (String × DatabaseTokenInfo) × Table V
  keep_or_remove clock token none kept removed = kept
  keep_or_remove clock token (some info) kept removed =
      if is_valid (clock token) info then ((token, info) ∷ kept.0, kept.1) else removed

  -- the rest of the stream, and the table: `clock` shows the time at which the stream comes to a
  -- token, and an item that cannot be read is passed over
  unfoldable pub clean :
      (String → ℕ) → Table V → Table V → List (String × DatabaseTokenInfo) × Table V
  unfolding remove_entry
  clean clock [] table = ([], table)
  clean clock ((token, value) ∷ rest) table =
      let kept = clean clock rest table in
      let removed = clean clock rest (remove_entry token table) in
      keep_or_remove clock token (json.from_json value) kept removed

  -- the stream, read to its end
  unfoldable pub iterate_and_clean_tokens :
      (String → ℕ) → Table V → List (String × DatabaseTokenInfo) × Table V
  iterate_and_clean_tokens clock table = clean clock table table
