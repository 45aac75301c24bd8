-- ===== src/RegistrationTokens.antt =====
-- src/service/registration_tokens/mod.rs: the tokens with which accounts are created, those of the
-- configuration, the token file and the database and the one for the first account, with
-- `get_first_account_token` of src/service/firstrun/mod.rs, `get_config_file_token` of
-- src/service/config/mod.rs and the registration stage of src/service/uiaa/mod.rs. The service is the
-- one after the startup, when it is known whether this is the first run. The random text of a new
-- token is an argument.
pub mod Data
pub mod Revoke
pub mod Uses
pub mod Valid
mod Tests
use arcana_server.Common.{
  ℕ, String, Bool, true, false, Option, none, some, List, [], ◌∷◌, ◌++◌, map, string_Eq, ◌==◌,
  if◌then◌else◌, ◌⊎◌, inl, inr,
}
use arcana_server.Common.Words.{saturating_add_u64}
use arcana_server.RegistrationTokens.Data.{
  TokenExpires, DatabaseTokenInfo, new_info, is_valid, Json, Table, save_token, lookup_token_info,
  iterate_and_clean_tokens, remove_entry,
}

pub data ValidTokenSource : Type 0 where
  config : ValidTokenSource
  database : DatabaseTokenInfo → ValidTokenSource
  first_account : ValidTokenSource
  token_file : ValidTokenSource

pub record ValidToken : Type 0 where
  pub token : String
  pub source : ValidTokenSource

pub record Service (V : Type 0) : Type 0 where
  pub first_run : Bool
  pub first_account_token : String
  pub config_token : Option String
  pub registration_tokens_from_file : List String
  pub table : Table V

pub data Refusal : Type 0 where
  config_cannot_be_revoked : Refusal
  first_account_cannot_be_revoked : Refusal
  token_file_cannot_be_revoked : Refusal

abbrev pub from_file : String → ValidToken
from_file text = record { token = text; source = token_file }

abbrev pub config_tokens : Option String → List ValidToken
config_tokens none = []
config_tokens (some text) = record { token = text; source = config } ∷ []

-- the first of the tokens with that text
abbrev pub find_token : String → List ValidToken → Option ValidToken
find_token text [] = none
find_token text (v ∷ vs) = if v.token == text then some v else find_token text vs

abbrev pub from_database : String × DatabaseTokenInfo → ValidToken
from_database (text, info) = record { token = text; source = database info }

abbrev pub or_database : Option ValidToken → Option ValidToken → Option ValidToken
or_database (some v) in_database = some v
or_database none in_database = in_database

-- the last test of `validate_token`
abbrev pub if_valid : ℕ → String → Option DatabaseTokenInfo → Option ValidToken
if_valid now text none = none
if_valid now text (some info) =
    if is_valid now info then some (from_database (text, info)) else none

module _ {V : Type 0} (json : Json V) where
  unfoldable pub get_first_account_token : Service V → Option ValidToken
  get_first_account_token service =
      if service.first_run
      then some (record { token = service.first_account_token; source = first_account })
      else none

  unfoldable pub iterate_static_tokens : Service V → List ValidToken
  iterate_static_tokens service =
      config_tokens service.config_token ++ map from_file service.registration_tokens_from_file

  -- the rest of `validate_token`, where there is no token for the first account
  abbrev pub validate_other : Service V → (String → ℕ) → String → Option ValidToken
  validate_other service clock text =
      or_database (find_token text (iterate_static_tokens service))
        (if_valid (clock text) text (lookup_token_info json text service.table))

  abbrev pub validate_first :
      Option ValidToken → Service V → (String → ℕ) → String → Option ValidToken
  validate_first (some v) service clock text = if v.token == text then some v else none
  validate_first none service clock text = validate_other service clock text

  unfoldable pub validate_token : Service V → (String → ℕ) → String → Option ValidToken
  validate_token service clock text =
      validate_first (get_first_account_token service) service clock text

  abbrev pub with_table : Service V → Table V → Service V
  with_table service table = record {
    first_run = service.first_run;
    first_account_token = service.first_account_token;
    config_token = service.config_token;
    registration_tokens_from_file = service.registration_tokens_from_file;
    table = table;
  }

  unfoldable pub issue_token :
      Service V → String → String → Option TokenExpires → Service V × DatabaseTokenInfo
  issue_token service text creator expires =
      let info = new_info creator expires in
      (with_table service (save_token json text info service.table), info)

  abbrev pub used : DatabaseTokenInfo → DatabaseTokenInfo
  used info = record {
    creator = info.creator;
    uses = saturating_add_u64 info.uses 1;
    expires = info.expires;
  }

  abbrev pub mark_source : Service V → String → ValidTokenSource → Service V
  mark_source service text (database info) =
      with_table service (save_token json text (used info) service.table)
  mark_source service text _ = service

  unfoldable pub mark_token_as_used : Service V → ValidToken → Service V
  mark_token_as_used service v = mark_source service v.token v.source

  abbrev pub revoke_source : Service V → String → ValidTokenSource → Refusal ⊎ Service V
  revoke_source service text config = inl config_cannot_be_revoked
  revoke_source service text (database info) =
      inr (with_table service (remove_entry text service.table))
  revoke_source service text first_account = inl first_account_cannot_be_revoked
  revoke_source service text token_file = inl token_file_cannot_be_revoked

  unfoldable pub revoke_token : Service V → ValidToken → Refusal ⊎ Service V
  revoke_token service v = revoke_source service v.token v.source

  abbrev pub iterate_first :
      Option ValidToken → Service V → (String → ℕ) → List ValidToken × Service V
  iterate_first (some v) service clock = (v ∷ [], service)
  iterate_first none service clock =
      let found = iterate_and_clean_tokens json clock service.table in
      (iterate_static_tokens service ++ map from_database found.0, with_table service found.1)

  -- the tokens, and the service when they have all been read
  unfoldable pub iterate_tokens : Service V → (String → ℕ) → List ValidToken × Service V
  iterate_tokens service clock = iterate_first (get_first_account_token service) service clock

  abbrev pub mark_if_valid : Service V → Option ValidToken → Bool × Service V
  mark_if_valid service none = (false, service)
  mark_if_valid service (some v) = (true, mark_token_as_used service v)

  -- the registration stage of the authentication, for the trimmed text
  unfoldable pub registration_stage : Service V → (String → ℕ) → String → Bool × Service V
  registration_stage service clock text = mark_if_valid service (validate_token service clock text)
