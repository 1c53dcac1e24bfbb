-- ===== src/Http/Upstream.antt =====
-- Failures of the search backend: apps/api/src/lib/quickwit/errors.ts.
use rootprint.Common.{Text, codes, none}
use rootprint.Http.{
  HttpError, bad_request, not_found, unauthorized, forbidden, conflict, too_many_requests,
  service_unavailable,
}
use rootprint.Common.{[]}

-- The error codes of quickwit-js that the source names; `other` is any further one.
pub data QuickwitErrorCode : Type 0 where
  validation_error bad_request_code not_found_code unauthorized_code forbidden_code :
      QuickwitErrorCode
  conflict_code too_many_requests_code connection_error timeout : QuickwitErrorCode
  internal_server_error service_unavailable_code unknown other : QuickwitErrorCode

pub record QuickwitError : Type 0 where
  pub code : QuickwitErrorCode
  pub message : Text

pub error_of_code : QuickwitErrorCode → Text → HttpError
error_of_code validation_error message = bad_request message (codes "QUICKWIT_VALIDATION") []
error_of_code bad_request_code message = bad_request message (codes "QUICKWIT_VALIDATION") []
error_of_code not_found_code message = not_found (codes "Index not found") (codes "INDEX_NOT_FOUND")
error_of_code unauthorized_code message =
    unauthorized (codes "Search backend rejected the request") (codes "QUICKWIT_UNAUTHORIZED")
error_of_code forbidden_code message =
    forbidden (codes "Search backend rejected the request") (codes "QUICKWIT_FORBIDDEN")
error_of_code conflict_code message = conflict message (codes "QUICKWIT_CONFLICT") []
error_of_code too_many_requests_code message =
    too_many_requests message (codes "UPSTREAM_RATE_LIMIT") none
error_of_code _ message =
    service_unavailable (codes "Search backend is temporarily unavailable — please retry")
      (codes "UPSTREAM_UNAVAILABLE") none

unfoldable pub quickwit_error_to_http : QuickwitError → HttpError
unfolding error_of_code
quickwit_error_to_http err = error_of_code err.code err.message
