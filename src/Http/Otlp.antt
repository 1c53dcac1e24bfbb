-- ===== src/Http/Otlp.antt =====
-- Errors in the encoding of OTLP: apps/api/src/utils/otlp-response.ts. The protobuf and JSON bodies
-- are the values that they encode.
use rootprint.Common.{
  ℕ, Text, codes, ◌&&◌, ◌||◌, Option, none, some, ltb, leb, nat_beq, if◌then◌else◌, ◌==◌, text_eq,
}
use rootprint.Http.{HttpError, RetryAfter, seconds}

-- google.rpc.Code, by its numbers.
abbrev pub invalid_argument : ℕ
invalid_argument = 3

abbrev pub not_found_rpc : ℕ
not_found_rpc = 5

abbrev pub permission_denied : ℕ
permission_denied = 7

abbrev pub resource_exhausted : ℕ
resource_exhausted = 8

abbrev pub unavailable : ℕ
unavailable = 14

abbrev pub unauthenticated : ℕ
unauthenticated = 16

pub data ContentType : Type 0 where
  protobuf json : ContentType

pub record OtlpResponse : Type 0 where
  pub status : ℕ
  pub content_type : ContentType
  pub rpc_code : ℕ
  pub message : Text
  pub retry_after : Option RetryAfter

pub otlp_error : ℕ → ℕ → Text → Option RetryAfter → OtlpResponse
otlp_error http_status code message retry = record {
  status = http_status;
  content_type = protobuf;
  rpc_code = code;
  message = message;
  retry_after = retry;
}

pub unsupported_content_type : Text → OtlpResponse
unsupported_content_type message = record {
  status = 415;
  content_type = json;
  rpc_code = invalid_argument;
  message = message;
  retry_after = none;
}

pub status_to_grpc_code : ℕ → ℕ
status_to_grpc_code status =
    if nat_beq status 401
    then unauthenticated
    else if nat_beq status 403
    then permission_denied
    else if nat_beq status 404
    then not_found_rpc
    else if nat_beq status 429
    then resource_exhausted
    else if leb 400 status && ltb status 500
    then invalid_argument
    else unavailable

abbrev default_retry : Option RetryAfter → ℕ → Option RetryAfter
default_retry (some r) status = some r
default_retry none status = if nat_beq status 429 || leb 500 status then some (seconds 5) else none

unfoldable pub otlp_error_from_http_error : HttpError → OtlpResponse
unfolding otlp_error unsupported_content_type status_to_grpc_code
otlp_error_from_http_error err =
    if nat_beq err.status_code 415 && err.code == codes "CONTENT_TYPE_UNSUPPORTED"
    then unsupported_content_type err.message
    else otlp_error (if leb 500 err.status_code then 503 else err.status_code)
        (status_to_grpc_code err.status_code)
        (if leb 500 err.status_code then codes "Upstream unavailable" else err.message)
        (default_retry err.retry_after err.status_code)
