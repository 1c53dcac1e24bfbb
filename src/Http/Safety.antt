-- ===== src/Http/Safety.antt =====
-- What a client learns from an error.
use rootprint.Common.{◌≤◌, ◌<◌, Text, codes, true, ◌≡◌, ◌≢◌, ◌⊎◌, none, arith}
use rootprint.Http.{HttpError, is_public_error}
use rootprint.Http.Upstream.{
  QuickwitError, QuickwitErrorCode, error_of_code, quickwit_error_to_http, validation_error,
}
use rootprint.Http.Otlp.{OtlpResponse, otlp_error_from_http_error, unavailable}

-- A status that an exporter may retry, as the answer says it.
abbrev pub IsRetryable : OtlpResponse → Type 0
IsRetryable r = (r.status ≡ 503) × (r.rpc_code ≡ unavailable) × (r.retry_after ≢ none)

-- A server fault reaches an exporter as a retryable 503 with a Retry-After and a fixed message; any
-- other error keeps its status and its message.
pub otlp_error_from_http_error-masks :
    (err : HttpError)
    → (500 ≤ err.status_code
        → IsRetryable (otlp_error_from_http_error err)
          × ((otlp_error_from_http_error err).message ≡ codes "Upstream unavailable"))
      × (err.status_code < 500
          → ((otlp_error_from_http_error err).status ≡ err.status_code)
            × ((otlp_error_from_http_error err).message ≡ err.message))
unfolding otlp_error_from_http_error
otlp_error_from_http_error-masks err = ground arith

-- Whatever the search backend answers, the error that the client gets may be shown to it, and it is
-- a server fault only as a 503.
pub quickwit_error_to_http-is_public :
    (err : QuickwitError)
    → (is_public_error (quickwit_error_to_http err) ≡ true)
      × (((quickwit_error_to_http err).status_code < 500)
          ⊎ ((quickwit_error_to_http err).status_code ≡ 503))
unfolding quickwit_error_to_http is_public_error
quickwit_error_to_http-is_public err = go err.code err.message
  where
    go :
        (c : QuickwitErrorCode) (m : Text)
        → (is_public_error (error_of_code c m) ≡ true)
          × (((error_of_code c m).status_code < 500) ⊎ ((error_of_code c m).status_code ≡ 503))
    go validation_error m = ground arith
    go _ m = ground arith
