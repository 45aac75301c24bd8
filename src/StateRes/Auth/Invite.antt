-- ===== src/StateRes/Auth/Invite.antt =====
-- `verify_third_party_invite` of event_auth.rs.
use arcana_server.Common.{
  String, Bool, false, ◌||◌, not, Option, none, some, List, [], contains, ◌==◌, string_Eq,
  option_Eq, if◌then◌else◌,
}
use arcana_server.StateRes.Content.{Ruma, ThirdPartyInvite, ThirdPartyInviteContent}
use arcana_server.StateRes.Event.{UserId, Event}

-- `unwrap_or_default` of the list of keys
abbrev pub listed_keys : Option (List String) → List String
listed_keys none = []
listed_keys (some keys) = keys

-- the loop over `public_keys`, then the single `public_key`
pub matches_key : ThirdPartyInviteContent → String → Bool
matches_key content token =
    contains (listed_keys content.public_keys) token || content.public_key == token

pub check_keys : Option ThirdPartyInviteContent → Option String → Bool
unfolding matches_key
check_keys none decoded = false
check_keys (some content) none = false
check_keys (some content) (some token) = matches_key content token

unfoldable pub verify_third_party_invite :
    Ruma → Option UserId → UserId → ThirdPartyInvite → Option Event → Bool
unfolding check_keys
verify_third_party_invite r target_user sender tp_id none = false
verify_third_party_invite r target_user sender tp_id (some current_tpid) =
    if not (target_user == some tp_id.mxid)
    then false
    else if not (current_tpid.state_key == some tp_id.token)
    then false
    else if not (sender == current_tpid.sender)
    then false
    else check_keys (r.third_party_content current_tpid.content) (r.base64 tp_id.token)
