-- ===== src/RegistrationTokens/Tests.antt =====
-- The theorems on registration tokens at concrete ones.
use arcana_server.Common.{ℕ, String, ◌≡◌, refl, false, none, some, [], ◌∷◌, arith}
use arcana_server.RegistrationTokens.Data.{
  after_uses, after_time, DatabaseTokenInfo, is_valid, Json, lookup_token_info,
  iterate_and_clean_tokens, clean, remove_entry,
}
use arcana_server.RegistrationTokens.Valid.{
  only_valid, lookup_token_info-iterate_and_clean_tokens, find_token-iterate_tokens,
}
use arcana_server.RegistrationTokens.Uses.{Decides, successes, successes-issue_token}
use arcana_server.RegistrationTokens.Revoke.{AfterRevoke, revoke_token-validate_token}
use arcana_server.RegistrationTokens.{
  Service, database, find_token, validate_token, get_first_account_token, iterate_static_tokens,
  iterate_tokens, issue_token, revoke_token,
}

-- values that are the metadata themselves
abbrev plain : Json DatabaseTokenInfo
plain = record { to_json = λ info. info; from_json = some; from_json-to_json = λ info. refl }

abbrev once : DatabaseTokenInfo
once = record { creator = "@admin:a"; uses = 0; expires = some (after_uses 1) }

abbrev late : DatabaseTokenInfo
late = record { creator = "@admin:a"; uses = 0; expires = some (after_time 5) }

abbrev tokens : Service DatabaseTokenInfo
tokens = record {
  first_run = false;
  first_account_token = "first";
  config_token = some "config";
  registration_tokens_from_file = "file" ∷ [];
  table = ("once", once) ∷ ("late", late) ∷ [];
}

abbrev at_seven : String → ℕ
at_seven text = 7

cleaned : (iterate_and_clean_tokens plain at_seven tokens.table).1 ≡ (("once", once) ∷ [])
unfolding iterate_and_clean_tokens clean remove_entry is_valid
cleaned = refl

lookup_token_info-iterate_and_clean_tokens_example :
    lookup_token_info plain "late" (iterate_and_clean_tokens plain at_seven tokens.table).1
    ≡ only_valid 7 (lookup_token_info plain "late" tokens.table)
lookup_token_info-iterate_and_clean_tokens_example =
    lookup_token_info-iterate_and_clean_tokens plain at_seven tokens.table "late" (refl, (refl, tt))

find_token-iterate_tokens_example :
    find_token "once" (iterate_tokens plain tokens at_seven).0
    ≡ validate_token plain tokens at_seven "once"
find_token-iterate_tokens_example =
    find_token-iterate_tokens plain at_seven tokens "once" (refl, (refl, tt))

decides :
    (text : String)
    → find_token text (iterate_static_tokens plain tokens) ≡ none
    → Decides plain text tokens
decides text h = record { later = refl; not_static = h }

no_static : find_token "new" (iterate_static_tokens plain tokens) ≡ none
unfolding iterate_static_tokens
no_static = refl

successes-issue_token_example :
    successes plain
      (λ k text. k)
      "new"
      3
      (issue_token plain tokens "new" "@admin:a" (some (after_uses 2))).0
    ≡ 2
successes-issue_token_example =
    successes-issue_token plain (λ k text. k) "new" "@admin:a" 3 2 tokens (decides "new" no_static)
      (omega arith)

once_valid :
    validate_token plain tokens at_seven "once"
    ≡ some (record { token = "once"; source = database once })
unfolding validate_token get_first_account_token iterate_static_tokens lookup_token_info is_valid
once_valid = refl

revoke_token-validate_token_example :
    AfterRevoke plain at_seven "once" tokens
      (revoke_token plain tokens (record { token = "once"; source = database once }))
revoke_token-validate_token_example =
    revoke_token-validate_token plain at_seven "once" tokens
      (record { token = "once"; source = database once }) once_valid
