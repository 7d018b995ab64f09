-- ===== src/Transport/Requests.antt =====
-- `handle_request` and `handle_upgrade_request`.
use kernmux.Prelude.{
  ℕ, Bool, true, false, not, ◌||◌, Option, none, some, List, [], ◌∷◌, leb, length, if◌then◌else◌,
  Result, ok, err,
}
use kernmux.Prelude.Order.{bytes_ord, same}
use kernmux.Prelude.Text.{Text, text}
use kernmux.Api.{ApiError, ErrorCode}
use kernmux.HostApi.{Method, RouteSecurity}
use kernmux.HostApi.Service.Types.{LocalRequest, LocalResponse}
use kernmux.Security.{
  AuditDecision, AuditEvent, AuthorizationPolicy, PeerIdentity, RequestClass, Role, authorize,
}
use kernmux.Transport.Messages.{
  HttpRequest, HttpResponse, api_error, connection_upgrades, request_id, requested_protocol,
  status_for_error,
}

-- A prepared upgrade: its protocol, and what becomes of the state when its handler is dropped
-- unused, with all that it owns.
pub record PreparedUpgrade (St : Type 0) : Type 0 where
  pub protocol : Text
  pub dropped : St → St

-- Product API dispatcher behind the authenticated local transport, on a state St that it changes.
-- A handler that panics has no result.
pub record LocalApi (St : Type 0) : Type 0 where
  pub route : Method → Text → Option RouteSecurity
  pub handle : LocalRequest → PeerIdentity → St → Option LocalResponse × St
  pub prepare_upgrade :
      LocalRequest → PeerIdentity → St → Option (Result (PreparedUpgrade St) ApiError) × St

-- What a request leads to: its response, its audit records, and the state after it.
pub record Outcome (St : Type 0) : Type 0 where
  pub response : HttpResponse
  pub audits : List AuditEvent
  pub state : St

-- `audit`.
unfoldable pub audit : PeerIdentity → RouteSecurity → AuditDecision → Option Text → AuditEvent
audit peer route decision audit_id = record {
  actor = peer.actor;
  peer_pid = peer.pid;
  action = route.audit_action;
  resource = none;
  decision = decision;
  operation_id = none;
  audit_id = audit_id;
}

-- `route.class == RequestClass::Console`.
abbrev pub is_console : RequestClass → Bool
is_console RequestClass.console = true
is_console _ = false

abbrev pub not_routed : ApiError
not_routed = api_error ErrorCode.not_found (text "API route was not found") false

-- `requested_protocol.as_deref() == Some(protocol)`, and `is_none`.
abbrev pub same_protocol : Option Text → Text → Bool
same_protocol none protocol = false
same_protocol (some requested) protocol = same requested protocol

abbrev pub is_none : Option Text → Bool
is_none none = true
is_none (some t) = false

module _ {St : Type 0} (api : LocalApi St) (peer : PeerIdentity) where
  abbrev respond : RouteSecurity → Option Text → AuditDecision → HttpResponse → St → Outcome St
  respond route id decision response s = record {
    response = response;
    audits = audit peer route decision id ∷ [];
    state = s;
  }

  unfoldable pub upgraded :
      RouteSecurity
      → Option Text
      → Option Text
      → Option (Result (PreparedUpgrade St) ApiError) × St
      → Outcome St
  unfolding audit api_error status_for_error
  upgraded route id requested (some (ok prepared), s) =
      if same_protocol requested prepared.protocol
      then respond route id AuditDecision.allow (HttpResponse.switching_protocols prepared.protocol)
          s
      else respond route id AuditDecision.fail
          (HttpResponse.error_response 400 (
            api_error ErrorCode.invalid_request (text "console upgrade protocol is unsupported")
              false))
          (prepared.dropped s)
  upgraded route id requested (some (err e), s) =
      respond route id AuditDecision.fail (HttpResponse.error_response (status_for_error e.code) e)
        s
  upgraded route id requested (none, s) =
      respond route id AuditDecision.fail
        (HttpResponse.error_response 500 (
          api_error ErrorCode.internal (text "console attachment handler terminated unexpectedly")
            false))
        s

  -- `handle_upgrade_request`.
  unfoldable pub handle_upgrade_request :
      HttpRequest → RouteSecurity → Option Text → St → Outcome St
  unfolding upgraded audit requested_protocol connection_upgrades
  handle_upgrade_request request route id s =
      if is_none (requested_protocol request.upgrade_header)
        || not (connection_upgrades request.connection_header)
      then respond route id AuditDecision.fail
          (HttpResponse.error_response 426 (
            api_error ErrorCode.invalid_request
              (text "console route requires an HTTP protocol upgrade") false))
          s
      else upgraded route id (requested_protocol request.upgrade_header) (
          api.prepare_upgrade
            (record {
              method = request.method;
              path = request.path;
              query = request.query;
              request_id = id;
              body = [];
            })
            peer s)

  unfoldable pub handled : RouteSecurity → Option Text → Option LocalResponse × St → Outcome St
  unfolding audit api_error
  handled route id (some response, s) =
      respond route id AuditDecision.allow (HttpResponse.local response) s
  handled route id (none, s) =
      respond route id AuditDecision.fail
        (HttpResponse.error_response 500
          (api_error ErrorCode.internal (text "API request handler terminated unexpectedly") false))
        s

  abbrev too_large : HttpResponse
  too_large =
      HttpResponse.error_response 413
        (api_error ErrorCode.invalid_request (text "request body exceeds its limit") false)

  -- The body, read up to its limit.
  unfoldable pub with_body :
      ℕ → HttpRequest → RouteSecurity → Option Text → Option Text → St → Outcome St
  unfolding handled audit
  with_body max_request_bytes request route id none s =
      respond route id AuditDecision.fail too_large s
  with_body max_request_bytes request route id (some body) s =
      if leb (length body) max_request_bytes
      then handled route id (
          api.handle
            (record {
              method = request.method;
              path = request.path;
              query = request.query;
              request_id = id;
              body = body;
            })
            peer s)
      else respond route id AuditDecision.fail too_large s

  unfoldable pub authorized :
      ℕ → HttpRequest → RouteSecurity → Option Text → Result Role ApiError → St → Outcome St
  unfolding with_body handle_upgrade_request audit
  authorized max_request_bytes request route id (err e) s =
      respond route id AuditDecision.deny (HttpResponse.error_response 403 e) s
  authorized max_request_bytes request route id (ok role) s =
      if is_console route.class
      then handle_upgrade_request request route id s
      else with_body max_request_bytes request route id request.body s

  unfoldable pub identified :
      AuthorizationPolicy
      → ℕ
      → HttpRequest
      → RouteSecurity
      → Result (Option Text) ApiError
      → St
      → Outcome St
  unfolding authorized authorize audit
  identified policy max_request_bytes request route (err e) s =
      respond route none AuditDecision.fail (HttpResponse.error_response 400 e) s
  identified policy max_request_bytes request route (ok id) s =
      authorized max_request_bytes request route id (authorize policy peer.actor route.class) s

  unfoldable pub routed :
      AuthorizationPolicy → ℕ → HttpRequest → Option RouteSecurity → St → Outcome St
  unfolding identified request_id
  routed policy max_request_bytes request none s = record {
    response = HttpResponse.error_response 404 not_routed;
    audits = [];
    state = s;
  }
  routed policy max_request_bytes request (some route) s =
      identified policy max_request_bytes request route (request_id request.request_id_header) s

  -- `handle_request`.
  unfoldable pub handle_request : AuthorizationPolicy → ℕ → HttpRequest → St → Outcome St
  unfolding routed
  handle_request policy max_request_bytes request s =
      routed policy max_request_bytes request (api.route request.method request.path) s
