-- ===== src/Http.antt =====
-- Errors as values: apps/api/src/utils/http-error.ts. A handler that throws is modelled by a
-- `Result`; `cause` and stack traces are not modelled.
pub mod Upstream
pub mod Otlp
pub mod Safety
use rootprint.Common.{
  ℕ, Text, codes, Bool, true, false, ◌||◌, Option, none, some, List, [], ltb, if◌then◌else◌, ◌==◌,
  text_eq,
}

pub record ApiErrorDetail : Type 0 where
  pub path : Text
  pub message : Text

-- `retryAfter?: number | string`
pub data RetryAfter : Type 0 where
  seconds : ℕ → RetryAfter
  header : Text → RetryAfter

pub record HttpError : Type 0 where
  pub status_code : ℕ
  pub code : Text
  pub message : Text
  pub details : List ApiErrorDetail
  pub retry_after : Option RetryAfter

abbrev has_retry : Option RetryAfter → Bool
has_retry none = false
has_retry (some r) = true

-- A client may see this error's message.
unfoldable pub is_public_error : HttpError → Bool
is_public_error err = ltb err.status_code 500 || has_retry err.retry_after

abbrev plain : ℕ → Text → Text → HttpError
plain status code message = record {
  status_code = status;
  code = code;
  message = message;
  details = [];
  retry_after = none;
}

abbrev pub bad_request : Text → Text → List ApiErrorDetail → HttpError
bad_request message code details = record (plain 400 code message) { details = details }

abbrev pub unauthorized : Text → Text → HttpError
unauthorized message code = plain 401 code message

abbrev pub forbidden : Text → Text → HttpError
forbidden message code = plain 403 code message

abbrev pub not_found : Text → Text → HttpError
not_found message code = plain 404 code message

abbrev pub conflict : Text → Text → List ApiErrorDetail → HttpError
conflict message code details = record (plain 409 code message) { details = details }

abbrev pub unsupported_media_type : Text → Text → HttpError
unsupported_media_type message code = plain 415 code message

abbrev pub unprocessable : Text → Text → List ApiErrorDetail → HttpError
unprocessable message code details = record (plain 422 code message) { details = details }

abbrev pub too_many_requests : Text → Text → Option RetryAfter → HttpError
too_many_requests message code retry = record (plain 429 code message) { retry_after = retry }

abbrev pub internal : Text → Text → HttpError
internal message code = plain 500 code message

abbrev upstream_retry_after_seconds : ℕ
upstream_retry_after_seconds = 5

-- The default of `retryAfter` stands in for an argument that is left out.
abbrev pub service_unavailable : Text → Text → Option RetryAfter → HttpError
service_unavailable message code none = record (plain 503 code message) {
  retry_after = some (seconds upstream_retry_after_seconds);
}
service_unavailable message code (some r) = record (plain 503 code message) { retry_after = some r }

-- What a database call throws, by the `code` of the error and of its cause.
pub record Thrown : Type 0 where
  pub code : Option Text
  pub cause_code : Option Text

abbrev is_code : Option Text → Text → Bool
is_code none c = false
is_code (some d) c = d == c

abbrev pub unique_code : Text
unique_code = codes "23505"

-- What PostgreSQL raises where a unique column repeats.
abbrev pub unique_violation : Thrown
unique_violation = record { code = some unique_code; cause_code = none }

unfoldable pub is_unique_violation : Thrown → Bool
is_unique_violation err = is_code err.code unique_code || is_code err.cause_code unique_code

-- What a handler ends with: a value, an answer to the client, or another exception.
pub data Result {ℓ} (A : Type ℓ) : Type ℓ where
  ok : A → Result A
  fail : HttpError → Result A
  raise : Thrown → Result A

infixl 5 ◌>>=◌
abbrev pub ◌>>=◌ {ℓ κ} : {A : Type ℓ} {B : Type κ} → Result A → (A → Result B) → Result B
ok a >>= f = f a
fail e >>= f = fail e
raise t >>= f = raise t

unfoldable pub with_unique_violation {ℓ} : {A : Type ℓ} → Text → Text → Result A → Result A
unfolding is_unique_violation
with_unique_violation message code (raise err) =
    if is_unique_violation err then fail (conflict message code []) else raise err
with_unique_violation message code r = r
