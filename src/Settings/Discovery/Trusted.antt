-- ===== src/Settings/Discovery/Trusted.antt =====
-- Which providers are accepted.
use rootprint.Common.{
  ℕ, nat_eq, ◌≡◌, refl, inl, inr, Text, codes, text_eq, ◌==◌, ==-sound, Bool, true, false, ◌&&◌,
  Bool-cases, Option-cases, Option, none, some, List, [], ◌∷◌, if◌then◌else◌, is_empty, any,
  includes, map, All, arith,
}
use rootprint.Http.{Result, ok, fail, raise, HttpError}
use rootprint.Settings.Discovery.{
  Discovery, OidcTokenAuth, basic, post, Response, strip_trailing_slash, lacks, token_auth, is_post,
  endpoints, is_downgraded, check_discovery, read_body, verify_oidc_issuer,
}

abbrev pub present : List (Option Text) → List Text
present [] = []
present (none ∷ urls) = present urls
present (some url ∷ urls) = url ∷ present urls

abbrev pub method_of : OidcTokenAuth → Text
method_of basic = codes "client_secret_basic"
method_of post = codes "client_secret_post"

-- A list of methods that is left out allows any.
abbrev pub Allows : Option (List Text) → Text → Type 0
Allows none method = Unit
Allows (some methods) method = includes methods method ≡ true

-- A document by which the provider may be used.
pub record IsTrusted (is_https : Text → Bool) (issuer_url : Text) (d : Discovery)
    (auth : OidcTokenAuth) : Type 0 where
  pub issuer : strip_trailing_slash d.issuer ≡ issuer_url
  pub secure :
      is_https issuer_url ≡ true
      → All (λ url. is_empty url ≡ false → is_https url ≡ true) (present (endpoints d))
  pub pkce : Allows d.code_challenge_methods_supported (codes "S256")
  pub method : Allows d.token_endpoint_auth_methods_supported (method_of auth)

-- A refusal that the form shows under the URL of the issuer.
pub record IsRefusal (e : HttpError) : Type 0 where
  pub status_code : e.status_code ≡ 400
  pub code : e.code ≡ codes "OIDC_DISCOVERY_FAILED"
  pub path : map (λ d. d.path) e.details ≡ codes "issuerUrl" ∷ []

-- An outcome is right about the document that was read, if there is one.
abbrev pub Judged : (Text → Bool) → Text → Option Discovery → Result OidcTokenAuth → Type 0
Judged is_https issuer_url none (ok auth) = ⊥
Judged is_https issuer_url (some d) (ok auth) = IsTrusted is_https issuer_url d auth
Judged is_https issuer_url document (fail e) = IsRefusal e
Judged is_https issuer_url document (raise t) = ⊥

lacks-Allows :
    (methods : Option (List Text)) (m : Text) → lacks methods m ≡ false → Allows methods m
lacks-Allows none m h = tt
lacks-Allows (some methods) m h = ground (arith, h)

token_auth-Allows :
    (methods : Option (List Text))
    → is_post (token_auth methods) && lacks methods (codes "client_secret_post") ≡ false
    → Allows methods (method_of (token_auth methods))
unfolding token_auth
token_auth-Allows none h = tt
token_auth-Allows (some methods) h =
    elim (Bool-cases (includes methods (codes "client_secret_basic"))) [
      | inl has ↦ rw has has
      | inr hasnt ↦
          rw hasnt (lacks-Allows (some methods) (codes "client_secret_post") (rw hasnt at h))
    ]

module _ (is_https : Text → Bool) (issuer_url : Text) where
  secure_lem :
      (os : List (Option Text))
      → any (is_downgraded is_https) os ≡ false
      → All (λ url. is_empty url ≡ false → is_https url ≡ true) (present os)
  secure_lem [] h = tt
  secure_lem (none ∷ os) h = secure_lem os h
  secure_lem (some url ∷ os) h =
      (λ full. ground (arith, h, full), secure_lem os (ground (arith, h)))

  check_discovery-Judged :
      (d : Discovery) → Judged is_https issuer_url (some d) (check_discovery is_https issuer_url d)
  unfolding check_discovery
  check_discovery-Judged d = elim (Bool-cases (strip_trailing_slash d.issuer == issuer_url)) [
    | inr other ↦ rw other (record { status_code = refl; code = refl; path = refl })
    | inl same ↦
        elim (Bool-cases (is_https issuer_url && any (is_downgraded is_https) (endpoints d))) [
          | inl down ↦ rw (same, down) (record { status_code = refl; code = refl; path = refl })
          | inr safe ↦ elim (Bool-cases (lacks d.code_challenge_methods_supported (codes "S256"))) [
            | inl lacking ↦
                rw (same, safe, lacking) (record { status_code = refl; code = refl; path = refl })
            | inr pkce ↦
                elim (Bool-cases (
                  is_post (token_auth d.token_endpoint_auth_methods_supported)
                  && lacks d.token_endpoint_auth_methods_supported (codes "client_secret_post"))) [
                    | inl lacking ↦
                        rw (same, safe, pkce, lacking)
                          (record { status_code = refl; code = refl; path = refl })
                    | inr able ↦
                        rw (same, safe, pkce, able)
                          (record {
                            issuer = ==-sound (strip_trailing_slash d.issuer) issuer_url same;
                            secure = λ e. secure_lem (endpoints d) (rw e at safe);
                            pkce =
                                lacks-Allows d.code_challenge_methods_supported (codes "S256") pkce;
                            method = token_auth-Allows d.token_endpoint_auth_methods_supported able;
                          })
                  ]
          ]
        ]
  ]

-- The document that a response brings.
abbrev pub document_of :
    {Json : Type 0} → (Json → Option Discovery) → Option (Response Json) → Option Discovery
document_of safe_parse none = none
document_of safe_parse (some res) =
    if res.ok then (elim res.body [ none ↦ none | some body ↦ safe_parse body ]) else none

module _ {Json : Type 0} (digits : ℕ → Text) (safe_parse : Json → Option Discovery)
    (is_https : Text → Bool) where
  read_body-Judged :
      (issuer_url : Text) (body : Option Json)
      → Judged is_https issuer_url
          (elim body [ none ↦ none | some b ↦ safe_parse b ])
          (read_body digits safe_parse is_https issuer_url body)
  unfolding read_body
  read_body-Judged issuer_url none = record { status_code = refl; code = refl; path = refl }
  read_body-Judged issuer_url (some b) = elim (Option-cases (safe_parse b)) [
    | inl unknown ↦
        rw (unknown, read_body) (record { status_code = refl; code = refl; path = refl })
    | inr (d, e) ↦ rw (e, read_body) (check_discovery-Judged is_https issuer_url d)
  ]

  -- A provider whose document is accepted is the issuer that was asked for, under https names only endpoints under
  -- https, allows PKCE with S256, and allows the method by which the program will send the secret, where it names
  -- its methods; without a document, or with any other, the answer is a 400 that the form shows under the URL of the
  -- issuer. Nothing else is thrown.
  pub verify_oidc_issuer-Judged :
      (issuer_url : Text) (res : Option (Response Json))
      → Judged is_https issuer_url
          (document_of safe_parse res)
          (verify_oidc_issuer digits safe_parse is_https issuer_url res)
  unfolding verify_oidc_issuer read_body
  verify_oidc_issuer-Judged issuer_url none = record {
    status_code = refl;
    code = refl;
    path = refl;
  }
  verify_oidc_issuer-Judged issuer_url (some res) = elim (Bool-cases res.ok) [
    | inl good ↦ rw good (read_body-Judged issuer_url res.body)
    | inr bad ↦ rw bad (record { status_code = refl; code = refl; path = refl })
  ]
