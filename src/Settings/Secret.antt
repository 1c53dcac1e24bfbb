-- ===== src/Settings/Secret.antt =====
-- The secret of sessions, `getBetterAuthSecret` of apps/api/src/lib/secret.ts. A call makes two statements, and
-- those of other processes may come in between: each is a step of its own.
use rootprint.Common.{
  ℕ, ◌≡◌, refl, inl, inr, ◌⊎◌, Text, codes, text_eq, false, Option, none, some, List, [], ◌∷◌,
  if◌then◌else◌, is_empty, length, ltb,
}
use rootprint.Common.Dict
use rootprint.Common.Dict.{Dict}
use rootprint.Http.{Result, ok, raise}

abbrev better_auth_secret_key : Text
better_auth_secret_key = codes "better_auth_secret"

-- A text to return, if there is one and it is not empty.
abbrev returned : Option Text → Option Text
returned none = none
returned (some s) = if is_empty s then none else some s

-- `.insert(…).onConflictDoNothing(…).returning(…)`
pub insert_secret : Text → Dict Text Text → Option Text × Dict Text Text
unfolding Dict.get Dict.set
insert_secret candidate settings = elim (Dict.get settings better_auth_secret_key) [
  | none ↦ (returned (some candidate), Dict.set settings better_auth_secret_key candidate)
  | some s ↦ (none, settings)
]

abbrev or_throw : Option Text → Result Text
or_throw none = raise (record { code = none; cause_code = none })
or_throw (some s) = ok s

-- The rest of the call, where the first statement gave `inserted`.
pub existing_secret : Option Text → Dict Text Text → Result Text
unfolding Dict.get
existing_secret (some s) settings = ok s
existing_secret none settings = or_throw (returned (Dict.get settings better_auth_secret_key))

abbrev min_secret_length : ℕ
min_secret_length = 32

-- A call without other processes; `candidate` is what `generateSecret` draws.
unfoldable pub get_better_auth_secret :
    Option Text → Text → Dict Text Text → Result Text × Dict Text Text
unfolding insert_secret existing_secret
get_better_auth_secret from_env candidate settings =
    let (inserted, settings') = insert_secret candidate settings in
    elim (returned from_env) [
      | none ↦ (existing_secret inserted settings', settings')
      | some s ↦
          if ltb (length s) min_secret_length
          then (raise (record { code = none; cause_code = none }), settings)
          else (ok s, settings)
    ]

-- The first statements of other processes, one after the other.
pub insert_secrets : List Text → Dict Text Text → Dict Text Text
unfolding insert_secret
insert_secrets [] settings = settings
insert_secrets (c ∷ cs) settings = insert_secrets cs (insert_secret c settings).1

insert_secret-stored :
    (c s : Text) (settings : Dict Text Text)
    → Dict.get settings better_auth_secret_key ≡ some s
    → insert_secret c settings ≡ (none, settings)
unfolding insert_secret
insert_secret-stored c s settings h = rw (h, insert_secret) refl

insert_secrets-stored :
    (cs : List Text) (s : Text) (settings : Dict Text Text)
    → Dict.get settings better_auth_secret_key ≡ some s
    → Dict.get (insert_secrets cs settings) better_auth_secret_key ≡ some s
unfolding insert_secrets
insert_secrets-stored [] s settings h = h
insert_secrets-stored (c ∷ cs) s settings h =
    rw (insert_secret-stored c s settings h) (insert_secrets-stored cs s settings h)

existing_secret-stored :
    (s : Text) (settings : Dict Text Text)
    → is_empty s ≡ false
    → Dict.get settings better_auth_secret_key ≡ some s
    → existing_secret none settings ≡ ok s
unfolding existing_secret
existing_secret-stored s settings full h = rw (h, full) refl

-- A process that comes after the secret was stored.
late :
    (d s : Text) (ds : List Text) (settings : Dict Text Text)
    → is_empty s ≡ false
    → Dict.get settings better_auth_secret_key ≡ some s
    → existing_secret (insert_secret d settings).0 (insert_secrets ds (insert_secret d settings).1)
      ≡ ok s
late d s ds settings full h = rw (insert_secret-stored d s settings h) (
    existing_secret-stored s (insert_secrets ds settings) full
      (insert_secrets-stored ds s settings h))

-- No secret is stored, or one that is not empty.
abbrev pub IsUsable : Dict Text Text → Type 0
IsUsable settings =
    (Dict.get settings better_auth_secret_key ≡ none)
    ⊎ ((s : Text) × (Dict.get settings better_auth_secret_key ≡ some s) × (is_empty s ≡ false))

-- Processes that start at once agree on the secret. Whatever the others insert before a process reads, the first
-- one returns a secret, and each one that comes after it returns the same.
pub existing_secret-agrees :
    (c : Text) (cs : List Text) (settings : Dict Text Text)
    → is_empty c ≡ false
    → IsUsable settings
    → let first = insert_secret c settings in
      let later = insert_secrets cs first.1 in
      (s : Text) × (existing_secret first.0 later ≡ ok s)
      × ((d : Text) (ds : List Text)
          → existing_secret (insert_secret d later).0 (insert_secrets ds (insert_secret d later).1)
            ≡ ok s)
existing_secret-agrees c cs settings full (inl fresh) =
    let stored = Dict.get-set_self settings better_auth_secret_key c in
    (
      c,
      unfold existing_secret insert_secret in rw (fresh, insert_secret) (rw full refl),
      λ d ds. late d c ds (insert_secrets cs (insert_secret c settings).1) full (
          insert_secrets-stored cs c (insert_secret c settings).1
            (unfold insert_secret in rw (fresh, insert_secret) stored)),
    )
existing_secret-agrees c cs settings full (inr (s, h, full')) = (
  s,
  late c s cs settings full' h,
  λ d ds. late d s ds (insert_secrets cs (insert_secret c settings).1) full' (
      insert_secrets-stored cs s (insert_secret c settings).1
        (rw (insert_secret-stored c s settings h) h)),
)
