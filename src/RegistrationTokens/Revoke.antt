-- ===== src/RegistrationTokens/Revoke.antt =====
-- What revoking a validated token does.
use arcana_server.Common.{
  ℕ, String, ◌≡◌, sym, ap, ◌∙◌, inl, inr, ◌⊎◌, true, Option, none, some, List, string_Eq, ◌==◌, map,
  ◌++◌, [], ◌∷◌, eq_refl, Bool-cases, Option-cases,
}
use arcana_server.RegistrationTokens.Data.{
  DatabaseTokenInfo, is_valid, Json, Table, deserialized, lookup_token_info, remove_entry,
}
use arcana_server.RegistrationTokens.Valid.{lookup-remove_entry}
use arcana_server.RegistrationTokens.Uses.{Decides}
use arcana_server.RegistrationTokens.{
  Service, ValidToken, Refusal, config, token_file, first_account, from_file, config_tokens,
  find_token, validate_token, get_first_account_token, iterate_static_tokens, revoke_token,
  with_table, from_database, if_valid,
}

same_token : (a b : ValidToken) → some a ≡ some b → b ≡ a
same_token a b h = cc

never_equal : (a : ValidToken) → none ≡ some a → ⊥
never_equal a h = cc

file_source :
    (text : String) (files : List String) (v : ValidToken)
    → find_token text (map from_file files) ≡ some v
    → v.source ≡ token_file
file_source text [] v h = cc
file_source text (file ∷ files) v h = elim (Bool-cases (file == text)) [
  | inl same ↦ ap (λ t. t.source) (same_token (from_file file) v (rw same at h))
  | inr differs ↦ file_source text files v (rw differs at h)
]

static_source :
    (text : String) (c : Option String) (files : List String) (v : ValidToken)
    → find_token text (config_tokens c ++ map from_file files) ≡ some v
    → (v.source ≡ config) ⊎ (v.source ≡ token_file)
static_source text none files v h = inr (file_source text files v h)
static_source text (some other) files v h = elim (Bool-cases (other == text)) [
  | inl same ↦
      inl (
        ap (λ t. t.source)
          (same_token (record { token = other; source = config }) v (rw same at h)))
  | inr differs ↦ inr (file_source text files v (rw differs at h))
]

if_valid-some :
    (now : ℕ) (text : String) (o : Option DatabaseTokenInfo) (v : ValidToken)
    → if_valid now text o ≡ some v
    → (info : DatabaseTokenInfo) × (v ≡ from_database (text, info))
if_valid-some now text none v h = absurd (never_equal v h)
if_valid-some now text (some info) v h = elim (Bool-cases (is_valid now info)) [
  | inl valid ↦ (info, same_token (from_database (text, info)) v (rw valid at h))
  | inr over ↦ absurd (never_equal v (rw over at h))
]

module _ {V : Type 0} (json : Json V) where
  -- what became of a validated token that was to be revoked
  abbrev pub AfterRevoke : (String → ℕ) → String → Service V → Refusal ⊎ Service V → Type 0
  AfterRevoke clock text service (inl refusal) =
      (service.first_run ≡ true)
      ⊎ ((v : ValidToken) × (find_token text (iterate_static_tokens json service) ≡ some v))
  AfterRevoke clock text service (inr next) =
      Decides json text service × (validate_token json next clock text ≡ none)

  lookup-revoked :
      (text : String) (table : Table V)
      → lookup_token_info json text (remove_entry text table) ≡ none
  unfolding lookup_token_info
  lookup-revoked text table =
      ap (deserialized json) (lookup-remove_entry text text table) ∙ rw (eq_refl text)

  not_valid :
      (clock : String → ℕ) (text : String) (service : Service V)
      → Decides json text service
      → validate_token json (with_table json service (remove_entry text service.table)) clock text
        ≡ none
  unfolding validate_token get_first_account_token iterate_static_tokens
  not_valid clock text service d = simp (d.later, d.not_static, lookup-revoked text service.table)

  -- where a validated token comes from
  abbrev Comes : String → Service V → ValidToken → Type 0
  Comes text service v =
      ((v.source ≡ first_account) × (service.first_run ≡ true))
      ⊎ ((((v.source ≡ config) ⊎ (v.source ≡ token_file))
            × (find_token text (iterate_static_tokens json service) ≡ some v))
          ⊎ (Decides json text service
              × ((info : DatabaseTokenInfo) × (v ≡ from_database (text, info)))))

  validated-Comes :
      (clock : String → ℕ) (text : String) (service : Service V) (v : ValidToken)
      → validate_token json service clock text ≡ some v
      → Comes text service v
  unfolding validate_token get_first_account_token iterate_static_tokens
  validated-Comes clock text service v h = elim (Bool-cases service.first_run) [
    | inl first ↦ elim (Bool-cases (service.first_account_token == text)) [
      | inl same ↦ inl (ap (λ t. t.source) (same_token _ v (simp (first, same) at h)), first)
      | inr differs ↦ absurd (never_equal v (simp (first, differs) at h))
    ]
    | inr later ↦ elim (Option-cases (find_token text (iterate_static_tokens json service))) [
      | inl no_static ↦ inr (
          inr (
            record { later = later; not_static = no_static },
            if_valid-some (clock text) text (lookup_token_info json text service.table) v
                (simp (later, no_static) at h),
          ))
      | inr (found, static) ↦
          let it : v ≡ found = same_token found v (simp (later, static) at h) in
          let is_it = static ∙ ap some (sym it) in
          inr (
            inl (
              static_source text service.config_token service.registration_tokens_from_file v is_it,
              is_it,
            ))
    ]
  ]

  -- A validated token of the database is no longer valid when it has been revoked, whatever the time,
  -- and a validated token that cannot be revoked is the one for the first account or a static one.
  pub revoke_token-validate_token :
      (clock : String → ℕ) (text : String) (service : Service V) (v : ValidToken)
      → validate_token json service clock text ≡ some v
      → AfterRevoke clock text service (revoke_token json service v)
  unfolding revoke_token
  revoke_token-validate_token clock text service v h =
      elim (validated-Comes clock text service v h) [
        | inl (first, run) ↦ rw first (inl run)
        | inr (inl (inl source, found)) ↦ rw source (inr (v, found))
        | inr (inl (inr source, found)) ↦ rw source (inr (v, found))
        | inr (inr (d, from)) ↦ rw (from.1) (d, not_valid clock text service d)
      ]
