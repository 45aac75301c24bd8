-- ===== src/RegistrationTokens/Valid.antt =====
-- Which tokens are valid: those that are listed are those that are validated.
use arcana_server.Common.{
  ℕ, String, ◌≡◌, refl, ap, ◌∙◌, inl, inr, Bool, true, false, not, ◌&&◌, ◌||◌, Option, none, some,
  List, [], ◌∷◌, ◌++◌, map, arith, string_Eq, ◌==◌, if◌then◌else◌, lookup, Bool-cases, Option-cases,
  UniqueKeys,
}
use arcana_server.RegistrationTokens.Data.{
  DatabaseTokenInfo, is_valid, Json, Table, deserialized, lookup_token_info, clean,
  iterate_and_clean_tokens, remove_entry,
}
use arcana_server.RegistrationTokens.{
  Service, ValidToken, find_token, from_database, or_database, if_valid, validate_token,
  iterate_tokens, get_first_account_token, iterate_static_tokens,
}

same_text : (j k : String) → (j == k) ≡ true → j ≡ k
same_text j k h = (string_Eq.eq_iff j k).0 h

find_token-append :
    (text : String) (xs ys : List ValidToken)
    → find_token text (xs ++ ys) ≡ or_database (find_token text xs) (find_token text ys)
find_token-append text [] ys = refl
find_token-append text (x ∷ xs) ys = elim (Bool-cases (x.token == text)) [
  | inl same ↦ rw same
  | inr differs ↦ rw differs (find_token-append text xs ys)
]

pub lookup-remove_entry :
    {V : Type 0} (k j : String) (m : Table V)
    → lookup j (remove_entry k m) ≡ (if k == j then none else lookup j m)
unfolding remove_entry
lookup-remove_entry k j [] = ground arith
lookup-remove_entry k j ((i, v) ∷ m) = ground (
  arith,
  string_Eq.eq_iff i k,
  string_Eq.eq_iff i j,
  string_Eq.eq_iff k j,
  lookup-remove_entry k j m,
)

-- whether an entry is removed
abbrev expired : ℕ → Option DatabaseTokenInfo → Bool
expired now none = false
expired now (some info) = not (is_valid now info)

-- what the table has of a token after the stream
abbrev pub only_valid : ℕ → Option DatabaseTokenInfo → Option DatabaseTokenInfo
only_valid now none = none
only_valid now (some info) = if is_valid now info then some info else none

module _ {V : Type 0} (json : Json V) (clock : String → ℕ) where
  abbrev any_expired : String → Table V → Bool
  any_expired text [] = false
  any_expired text ((j, v) ∷ rest) =
      (expired (clock j) (json.from_json v) && (j == text)) || any_expired text rest

  lookup-clean :
      (text : String) (xs table : Table V)
      → lookup text (clean json clock xs table).1
        ≡ (if any_expired text xs then none else lookup text table)
  unfolding clean
  lookup-clean text [] table = refl
  lookup-clean text ((j, v) ∷ rest) table = elim (Option-cases (json.from_json v)) [
    | inl unread ↦ rw unread (lookup-clean text rest table)
    | inr (info, read) ↦ elim (Bool-cases (is_valid (clock j) info)) [
      | inl valid ↦ rw (read, valid) (lookup-clean text rest table)
      | inr over ↦
          rw (read, over)
            (ground (
              arith,
              lookup-clean text rest (remove_entry j table),
              lookup-remove_entry j text table,
            ))
    ]
  ]

  any_expired-none :
      (text : String) (xs : Table V) → lookup text xs ≡ none → any_expired text xs ≡ false
  any_expired-none text [] h = refl
  any_expired-none text ((j, v) ∷ rest) h = elim (Bool-cases (j == text)) [
    | inl same ↦ absurd (ground (arith, h, same))
    | inr differs ↦ ground (arith, any_expired-none text rest)
  ]

  any_expired-lookup :
      (text : String) (xs : Table V)
      → UniqueKeys xs
      → any_expired text xs ≡ expired (clock text) (deserialized json (lookup text xs))
  any_expired-lookup text [] u = refl
  any_expired-lookup text ((j, v) ∷ rest) u = elim (Bool-cases (j == text)) [
    | inl same ↦
        let it = same_text j text same in
        let none_left = any_expired-none text rest (rw it at u.0) in
        rw (same, none_left, it) (ground arith)
    | inr differs ↦ rw differs (ground (arith, any_expired-lookup text rest u.1))
  ]

  find_token-clean :
      (text : String) (xs table : Table V)
      → UniqueKeys xs
      → find_token text (map from_database (clean json clock xs table).0)
        ≡ if_valid (clock text) text (deserialized json (lookup text xs))
  unfolding clean
  find_token-clean text [] table u = refl
  find_token-clean text ((j, v) ∷ rest) table u =
      let kept = find_token-clean text rest table u.1 in
      let removed = find_token-clean text rest (remove_entry j table) u.1 in
      elim (Bool-cases (j == text)) [
        | inl same ↦
            let it = same_text j text same in
            let gone = rw it at u.0 in
            elim (Option-cases (json.from_json v)) [
              | inl unread ↦ rw (same, unread) (rw gone at kept)
              | inr (info, read) ↦ elim (Bool-cases (is_valid (clock j) info)) [
                | inl valid ↦ rw (same, read, valid) (rw (same, it, rw it at valid))
                | inr over ↦ rw (same, read, over, rw it at over) (rw gone at removed)
              ]
            ]
        | inr differs ↦ elim (Option-cases (json.from_json v)) [
          | inl unread ↦ rw (differs, unread) kept
          | inr (info, read) ↦ elim (Bool-cases (is_valid (clock j) info)) [
            | inl valid ↦ rw (differs, read, valid) (rw differs kept)
            | inr over ↦ rw (differs, read, over) removed
          ]
        ]
      ]

  -- In a table with one entry for each token, the stream removes the tokens that are not valid, and
  -- the metadata of all others are found as before.
  pub lookup_token_info-iterate_and_clean_tokens :
      (table : Table V) (text : String)
      → UniqueKeys table
      → lookup_token_info json text (iterate_and_clean_tokens json clock table).1
        ≡ only_valid (clock text) (lookup_token_info json text table)
  unfolding lookup_token_info iterate_and_clean_tokens
  lookup_token_info-iterate_and_clean_tokens table text u =
      let looked = lookup-clean text table table in
      let over = any_expired-lookup text table u in
      elim (Option-cases (deserialized json (lookup text table))) [
        | inl no_info ↦ rw (looked, over, no_info) (rw no_info)
        | inr (info, has) ↦ elim (Bool-cases (is_valid (clock text) info)) [
          | inl valid ↦ rw (looked, over, has, valid) (rw has)
          | inr late ↦ rw (looked, over, has, late)
        ]
      ]

  -- In a table with one entry for each token, a text is validated as the first listed token that has
  -- it, and is not valid where no listed token has it.
  pub find_token-iterate_tokens :
      (service : Service V) (text : String)
      → UniqueKeys service.table
      → find_token text (iterate_tokens json service clock).0
        ≡ validate_token json service clock text
  unfolding iterate_tokens validate_token get_first_account_token lookup_token_info
      iterate_and_clean_tokens iterate_static_tokens
  find_token-iterate_tokens service text u = elim (Bool-cases service.first_run) [
    | inl first ↦ rw first
    | inr later ↦ rw later (
        find_token-append text (iterate_static_tokens json service)
          (map from_database (clean json clock service.table service.table).0)
        ∙ ap (or_database (find_token text (iterate_static_tokens json service)))
            (find_token-clean text service.table service.table u))
  ]
