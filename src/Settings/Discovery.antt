-- ===== src/Settings/Discovery.antt =====
-- What an OpenID provider says of itself, apps/api/src/services/oidc.service.ts. `safe_parse` is the check of the
-- schema, `digits` writes a status, and `is_https` says whether the protocol of a URL is https.
pub mod Trusted
use rootprint.Common.{
  ℕ, nat_eq, Text, codes, text_eq, ◌==◌, Bool, true, false, not, ◌&&◌, Option, none, some, List, [],
  ◌∷◌, ◌++◌, if◌then◌else◌, is_empty, any, includes,
}
use rootprint.Http.{Result, ok, fail, bad_request}

pub record Discovery : Type 0 where
  pub issuer : Text
  pub authorization_endpoint : Text
  pub token_endpoint : Text
  pub jwks_uri : Text
  pub userinfo_endpoint : Option Text
  pub code_challenge_methods_supported : Option (List Text)
  pub token_endpoint_auth_methods_supported : Option (List Text)

pub data OidcTokenAuth : Type 0 where
  basic post : OidcTokenAuth

-- `body` is `none` where it is not JSON.
pub record Response (Json : Type 0) : Type 0 where
  pub ok : Bool
  pub status : ℕ
  pub body : Option Json

pub strip_trailing_slash : Text → Text
strip_trailing_slash [] = []
strip_trailing_slash (c ∷ s) =
    let rest = strip_trailing_slash s in if is_empty rest && c == b'/' then [] else c ∷ rest

abbrev discovery_failed : {A : Type 0} → Text → Result A
discovery_failed message = fail (
    bad_request message (codes "OIDC_DISCOVERY_FAILED")
      (record { path = codes "issuerUrl"; message = message } ∷ []))

abbrev pub lacks : Option (List Text) → Text → Bool
lacks none method = false
lacks (some methods) method = not (includes methods method)

pub token_auth : Option (List Text) → OidcTokenAuth
token_auth methods = if lacks methods (codes "client_secret_basic") then post else basic

abbrev pub is_post : OidcTokenAuth → Bool
is_post basic = false
is_post post = true

abbrev pub endpoints : Discovery → List (Option Text)
endpoints d =
    some d.authorization_endpoint
    ∷ some d.token_endpoint
    ∷ some d.jwks_uri
    ∷ d.userinfo_endpoint
    ∷ []

module _ (is_https : Text → Bool) where
  abbrev pub is_downgraded : Option Text → Bool
  is_downgraded none = false
  is_downgraded (some url) = not (is_empty url) && not (is_https url)

  pub check_discovery : Text → Discovery → Result OidcTokenAuth
  unfolding strip_trailing_slash token_auth
  check_discovery issuer_url d =
      let auth = token_auth d.token_endpoint_auth_methods_supported in
      if not (strip_trailing_slash d.issuer == issuer_url)
      then discovery_failed (codes "OpenID configuration issuer does not match the Issuer URL")
      else if is_https issuer_url && any is_downgraded (endpoints d)
      then discovery_failed (codes "OpenID configuration downgrades an endpoint to http")
      else if lacks d.code_challenge_methods_supported (codes "S256")
      then discovery_failed (codes "OpenID provider does not support PKCE with S256")
      else if is_post auth
          && lacks d.token_endpoint_auth_methods_supported (codes "client_secret_post")
      then discovery_failed
          (codes "OpenID provider accepts neither client_secret_basic nor client_secret_post")
      else ok auth

abbrev not_reached : {A : Type 0} → Result A
not_reached = discovery_failed (codes "Could not reach the issuer’s OpenID configuration")

module _ {Json : Type 0} (digits : ℕ → Text) (safe_parse : Json → Option Discovery)
    (is_https : Text → Bool) where
  pub read_body : Text → Option Json → Result OidcTokenAuth
  unfolding check_discovery
  read_body issuer_url none = discovery_failed (codes "OpenID configuration is not valid JSON")
  read_body issuer_url (some body) = elim (safe_parse body) [
    | none ↦ discovery_failed (codes "OpenID configuration is missing required endpoints")
    | some d ↦ check_discovery is_https issuer_url d
  ]

  -- From the answer to the request for the document, `none` where there is none.
  unfoldable pub verify_oidc_issuer : Text → Option (Response Json) → Result OidcTokenAuth
  unfolding read_body
  verify_oidc_issuer issuer_url none = not_reached
  verify_oidc_issuer issuer_url (some res) =
      if res.ok
      then read_body issuer_url res.body
      else discovery_failed
          (codes "OpenID configuration request failed (HTTP " ++ (digits res.status ++ b')' ∷ []))
