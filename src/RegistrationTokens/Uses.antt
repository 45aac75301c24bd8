-- ===== src/RegistrationTokens/Uses.antt =====
-- How often a token of the database can be used.
use arcana_server.Common.{
  ℕ, zero, suc, String, ◌+◌, ◌-◌, ◌≤◌, ◌<◌, ◌≡◌, ap, ◌∙◌, inl, inr, true, false, none, some, arith,
  leb, ltb, string_Eq, if◌then◌else◌, lookup-insert, eq_refl, Bool-cases,
}
use arcana_server.Common.Words.{max_u64, saturating_add_u64}
use arcana_server.RegistrationTokens.Data.{
  after_uses, DatabaseTokenInfo, new_info, is_valid, Json, Table, deserialized, save_token,
  lookup_token_info,
}
use arcana_server.RegistrationTokens.{
  Service, find_token, validate_token, get_first_account_token, iterate_static_tokens, issue_token,
  mark_token_as_used, registration_stage, with_table,
}

module _ {V : Type 0} (json : Json V) where
  -- the successful ones of some attempts to register with a text
  abbrev pub successes : (ℕ → String → ℕ) → String → ℕ → Service V → ℕ
  successes clock text zero service = 0
  successes clock text (suc k) service =
      let (done, next) = registration_stage json service (clock k) text in
      (if done then 1 else 0) + successes clock text k next

  -- a service whose database decides on a text
  pub record Decides (text : String) (service : Service V) : Type 0 where
    pub later : service.first_run ≡ false
    pub not_static : find_token text (iterate_static_tokens json service) ≡ none

  lookup-save_token :
      (text : String) (info : DatabaseTokenInfo) (table : Table V)
      → lookup_token_info json text (save_token json text info table) ≡ some info
  unfolding lookup_token_info save_token
  lookup-save_token text info table =
      ap (deserialized json) (lookup-insert text text (json.to_json info) table)
      ∙ rw (eq_refl text) (json.from_json-to_json info)

  with_table-Decides :
      (text : String) (service : Service V) (table : Table V)
      → Decides text service
      → Decides text (with_table json service table)
  unfolding iterate_static_tokens
  with_table-Decides text service table d = record { later = d.later; not_static = d.not_static }

  abbrev counted : String → ℕ → ℕ → DatabaseTokenInfo
  counted creator uses limit = record {
    creator = creator;
    uses = uses;
    expires = some (after_uses limit);
  }

  stage-used :
      (clock : String → ℕ) (text creator : String) (uses limit : ℕ) (service : Service V)
      → Decides text service
      → lookup_token_info json text service.table ≡ some (counted creator uses limit)
      → uses < limit
      → limit ≤ max_u64
      → registration_stage json service clock text ≡ (
        true,
        with_table json service
            (save_token json text (counted creator (suc uses) limit) service.table),
      )
  unfolding registration_stage validate_token get_first_account_token is_valid mark_token_as_used
  stage-used clock text creator uses limit service d h below bound =
      let valid : ltb uses limit ≡ true = ground arith in
      let next : saturating_add_u64 uses 1 ≡ suc uses = ground arith in
      simp (d.later, d.not_static, h, valid, next)

  stage-refused :
      (clock : String → ℕ) (text creator : String) (uses limit : ℕ) (service : Service V)
      → Decides text service
      → lookup_token_info json text service.table ≡ some (counted creator uses limit)
      → limit ≤ uses
      → registration_stage json service clock text ≡ (false, service)
  unfolding registration_stage validate_token get_first_account_token is_valid
  stage-refused clock text creator uses limit service d h above =
      let over : ltb uses limit ≡ false = ground arith in simp (d.later, d.not_static, h, over)

  successes-counted :
      (clock : ℕ → String → ℕ) (text creator : String) (k uses limit : ℕ) (service : Service V)
      → Decides text service
      → lookup_token_info json text service.table ≡ some (counted creator uses limit)
      → limit ≤ max_u64
      → successes clock text k service ≡ (if leb k (limit - uses) then k else limit - uses)
  successes-counted clock text creator zero uses limit service d h bound = ground arith
  successes-counted clock text creator (suc k) uses limit service d h bound =
      elim (Bool-cases (ltb uses limit)) [
        | inl below ↦
            let saved = save_token json text (counted creator (suc uses) limit) service.table in
            let rest =
              successes-counted clock text creator k (suc uses) limit
                (with_table json service saved) (with_table-Decides text service saved d)
                (lookup-save_token text (counted creator (suc uses) limit) service.table) bound in
            rw (stage-used (clock k) text creator uses limit service d h (ground arith) bound)
              (ground (arith, rest))
        | inr over ↦
            let rest = successes-counted clock text creator k uses limit service d h bound in
            rw (stage-refused (clock k) text creator uses limit service d h (ground arith))
              (ground (arith, rest))
      ]

  -- A token of the database that is issued for a number of uses below 2^64, is no static token and is
  -- issued after the first run lets exactly that many of the attempts to register with it succeed,
  -- or all of them where they are fewer, at whatever times they are made.
  pub successes-issue_token :
      (clock : ℕ → String → ℕ) (text creator : String) (k limit : ℕ) (service : Service V)
      → Decides text service
      → limit ≤ max_u64
      → successes clock text k (issue_token json service text creator (some (after_uses limit))).0
        ≡ (if leb k limit then k else limit)
  unfolding issue_token new_info
  successes-issue_token clock text creator k limit service d bound =
      let saved = save_token json text (counted creator 0 limit) service.table in
      successes-counted clock text creator k 0 limit (with_table json service saved)
        (with_table-Decides text service saved d)
        (lookup-save_token text (counted creator 0 limit) service.table) bound
      ∙ ground arith
