-- ===== src/Tests/Providers.antt =====
-- A provider that is accepted.
use rootprint.Common.{
  ℕ, ◌≡◌, refl, Text, codes, text_eq, text_beq, Bool, true, Option, none, some, [], ◌∷◌,
  starts_with,
}
use rootprint.Http.{ok}
use rootprint.Settings.Discovery.{Discovery, post, Response, verify_oidc_issuer}
use rootprint.Settings.Discovery.Trusted.{Judged, document_of, verify_oidc_issuer-Judged}

abbrev document : Discovery
document = record {
  issuer = codes "https://id.example/";
  authorization_endpoint = codes "https://id.example/auth";
  token_endpoint = codes "https://id.example/token";
  jwks_uri = codes "https://id.example/keys";
  userinfo_endpoint = none;
  code_challenge_methods_supported = some (codes "plain" ∷ codes "S256" ∷ []);
  token_endpoint_auth_methods_supported = some (codes "client_secret_post" ∷ []);
}

abbrev answer : Option (Response Discovery)
answer = some (record { ok = true; status = 200; body = some document })

is_https : Text → Bool
is_https url = starts_with url (codes "https:")

digits : ℕ → Text
digits n = []

verify_oidc_issuer_test :
    verify_oidc_issuer digits some is_https (codes "https://id.example") answer ≡ ok post
unfolding verify_oidc_issuer is_https text_beq starts_with
verify_oidc_issuer_test = refl

verify_oidc_issuer-Judged_example :
    Judged is_https
      (codes "https://id.example")
      (document_of some answer)
      (verify_oidc_issuer digits some is_https (codes "https://id.example") answer)
verify_oidc_issuer-Judged_example =
    verify_oidc_issuer-Judged digits some is_https (codes "https://id.example") answer
