-- ===== src/Lobbies/License.antt =====
-- src/auth/client_kind.rs and verified_license.rs: the verified identity of a player.
use sn_netplay_serv.Base.{any, Bool, ◌||◌, List, ◌∷◌, ◌++◌}
use sn_netplay_serv.Base.Bytes.{bytes_eq}
use sn_netplay_serv.Base.Chars.{Chars, codes}

pub data ClientKind : Type 0 where
  desktop android ios : ClientKind

-- `ClientKind::as_str`
unfoldable pub as_str : ClientKind → Chars
as_str desktop = codes "desktop"
as_str android = codes "android"
as_str ios = codes "ios"

-- `ClientKind::identity_namespace`
unfoldable pub identity_namespace : ClientKind → Chars
unfolding as_str
identity_namespace k = as_str k

pub record VerifiedLicense : Type 0 where
  pub client_kind : ClientKind
  pub installation_id : Chars
  pub subject_id : Chars
  pub tier : Chars
  pub features : List Chars
  pub has_premium : Bool
  pub trial_active : Bool

-- `allows_feature_or_active_access`
unfoldable pub allows_feature_or_active_access : VerifiedLicense → Chars → Bool
allows_feature_or_active_access l feature =
    l.has_premium || l.trial_active || any (λ c. bytes_eq c feature) l.features

-- `identity_key`, `format!("{}:{}", …)`
unfoldable pub identity_key : VerifiedLicense → Chars
unfolding identity_namespace
identity_key l = identity_namespace l.client_kind ++ 58 ∷ l.subject_id
