-- ===== src/Transport/Messages.antt =====
-- HTTP requests and responses as far as the transport looks into them, and its errors.
use kernmux.Prelude.{
  ℕ, Bool, false, not, ◌&&◌, ◌||◌, Option, none, some, [], ◌∷◌, ◌==◌, leb, length, all, any, map,
  if◌then◌else◌, Result, ok, err, ◌+◌,
}
use kernmux.Prelude.Order.{bytes_ord, same}
use kernmux.Prelude.Text.{Text, text}
use kernmux.Prelude.Parsing.{split_on, is_ascii_alphanumeric}
use kernmux.Api.{ApiError, ErrorCode}
use kernmux.HostApi.{Method}
use kernmux.HostApi.Service.Types.{LocalResponse}

-- One request: the headers are those that the transport reads, and the body is what arrives of it,
-- none if the connection breaks.
pub record HttpRequest : Type 0 where
  pub method : Method
  pub path : Text
  pub query : Option Text
  pub request_id_header : Option Text
  pub upgrade_header : Option Text
  pub connection_header : Option Text
  pub body : Option Text

pub data HttpResponse : Type 0 where
  local : LocalResponse → HttpResponse
  error_response : ℕ → ApiError → HttpResponse
  switching_protocols : Text → HttpResponse

-- `StatusCode` of an error.
unfoldable pub status_for_error : ErrorCode → ℕ
status_for_error ErrorCode.invalid_request = 400
status_for_error ErrorCode.unauthorized = 401
status_for_error ErrorCode.forbidden = 403
status_for_error ErrorCode.not_found = 404
status_for_error ErrorCode.conflict = 409
status_for_error ErrorCode.precondition_failed = 412
status_for_error ErrorCode.unsupported = 501
status_for_error ErrorCode.backend_unavailable = 503
status_for_error ErrorCode.timeout = 504
status_for_error ErrorCode.internal = 500
status_for_error ErrorCode.unknown = 500

unfoldable pub api_error : ErrorCode → Text → Bool → ApiError
api_error code message retryable = record {
  code = code;
  message = message;
  retryable = retryable;
  current_generation = none;
  diagnostics = [];
}

-- `HeaderValue::to_str`: visible ASCII and tabs.
unfoldable pub to_str : Text → Option Text
to_str value =
    if all (λ byte. (leb 32 byte && leb byte 126) || byte == 9) value then some value else none

-- The characters of a request id.
unfoldable pub valid_request_id : Text → Bool
valid_request_id value =
    not (length value == 0)
    && leb (length value) 128
    && all (λ byte. is_ascii_alphanumeric byte || (byte == 46 || byte == 95 || byte == 45)) value

abbrev invalid_request_id : ApiError
invalid_request_id = api_error ErrorCode.invalid_request (text "request ID is invalid") false

abbrev checked_id : Option Text → Result (Option Text) ApiError
checked_id none = err invalid_request_id
checked_id (some value) = if valid_request_id value then ok (some value) else err invalid_request_id

-- `request_id`.
unfoldable pub request_id : Option Text → Result (Option Text) ApiError
unfolding to_str valid_request_id api_error
request_id none = ok none
request_id (some header) = checked_id (to_str header)

abbrev is_space : ℕ → Bool
is_space byte = (leb 9 byte && leb byte 13) || byte == 32

abbrev trim_start : Text → Text
trim_start [] = []
trim_start (c ∷ cs) = let rest = trim_start cs in if is_space c then rest else c ∷ cs

abbrev keep_or_end : ℕ → Text → Text
keep_or_end c [] = if is_space c then [] else c ∷ []
keep_or_end c (d ∷ ds) = c ∷ d ∷ ds

abbrev trim_end : Text → Text
trim_end [] = []
trim_end (c ∷ cs) = keep_or_end c (trim_end cs)

-- `str::trim`, on ASCII.
unfoldable pub trim : Text → Text
trim value = trim_end (trim_start value)

abbrev to_lower : ℕ → ℕ
to_lower c = if leb 65 c && leb c 90 then c + 32 else c

-- `eq_ignore_ascii_case`.
unfoldable pub same_ignoring_case : Text → Text → Bool
same_ignoring_case a b = same (map to_lower a) (map to_lower b)

abbrev connection_tokens : Option Text → Bool
connection_tokens none = false
connection_tokens (some value) =
    any (λ token. same_ignoring_case (trim token) (text "upgrade")) (split_on b',' value)

abbrev as_str : Option Text → Option Text
as_str none = none
as_str (some header) = to_str header

unfoldable pub connection_upgrades : Option Text → Bool
unfolding to_str trim same_ignoring_case split_on
connection_upgrades header = connection_tokens (as_str header)

abbrev protocol_of : Option Text → Option Text
protocol_of none = none
protocol_of (some value) =
    if not (length value == 0) && leb (length value) 64 then some value else none

unfoldable pub requested_protocol : Option Text → Option Text
unfolding to_str
requested_protocol header = protocol_of (as_str header)
