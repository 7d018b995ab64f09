-- ===== src/Transport/Host.antt =====
-- The host API behind the transport.
use kernmux.Prelude.{
  ℕ, ◌≡◌, ◌⊎◌, inl, inr, refl, sym, ap, subst, ◌∙◌, Bool, true, false, not, ◌||◌, leb, length,
  Option, none, some, Result, ok, err, Bool-cases, Option-cases, if◌then◌else◌,
}
use kernmux.Prelude.Text.{Text, text}
use kernmux.Api.{Actor, ApiError}
use kernmux.Executor.{SnapshotRefresher}
use kernmux.HostApi.{RouteSecurity, route_for}
use kernmux.HostApi.Service.Consoles.{ConsoleProxy, LocalUpgrade, prepare_upgrade}
use kernmux.HostApi.Service.Dispatch.{dispatch}
use kernmux.HostApi.Service.Effects.{IsRead, dispatch_reads}
use kernmux.HostApi.Service.Reads.{json}
use kernmux.HostApi.Service.Types.{
  Circumstances, FileSystem, HostState, Json, LocalRequest, LocalResponse, Response, StorageBackend,
}
use kernmux.Images.{ImageStore}
use kernmux.Security.{AuthorizationPolicy, drop, PeerIdentity, RequestClass, Role}
use kernmux.Security.Decision.{IsAdministrator, IsOperator, Permits}
use kernmux.Transport.Guards.{handle_request-IsGuarded}
use kernmux.Transport.{
  HttpRequest, LocalApi, PreparedUpgrade, authorized, connection_upgrades, handle_request,
  handle_upgrade_request, handled, identified, is_console, is_none, request_id, requested_protocol,
  routed, same_protocol, status_for_error, upgraded, with_body,
}

-- The request that the transport hands over.
abbrev pub IsLocal : HttpRequest → LocalRequest → Type 0
IsLocal request local = (local.method ≡ request.method) × (local.path ≡ request.path)

module _ {St : Type 0} (api : LocalApi St) (peer : PeerIdentity) (policy : AuthorizationPolicy)
    (max_request_bytes : ℕ) (request : HttpRequest) (route : RouteSecurity) (s : St) where
  -- What an upgrade makes of the state: what its preparation made of it, or, for the wrong protocol,
  -- what is left when it is dropped.
  abbrev IsUpgradeEffect : St → Option (Result (PreparedUpgrade St) ApiError) × St → Type 0
  IsUpgradeEffect t answer =
      (t ≡ answer.1)
      ⊎ ((prepared : PreparedUpgrade St) × (answer.0 ≡ some (ok prepared))
          × (t ≡ prepared.dropped answer.1))

  -- What can have become of the state: nothing, or what the API's handler for the class made of it.
  abbrev pub IsEffect : St → Type 0
  IsEffect t =
      (t ≡ s)
      ⊎ ((local : LocalRequest) × IsLocal request local
          × ((is_console route.class ≡ false) × (t ≡ (api.handle local peer s).1)
              ⊎ (is_console route.class ≡ true)
                × IsUpgradeEffect t (api.prepare_upgrade local peer s)))

  handled-state :
      (id : Option Text) (answer : Option LocalResponse × St)
      → (handled api peer route id answer).state ≡ answer.1
  unfolding handled
  handled-state id (none, t) = refl
  handled-state id (some response, t) = refl

  upgraded-IsUpgradeEffect :
      (id requested : Option Text) (answer : Option (Result (PreparedUpgrade St) ApiError) × St)
      → IsUpgradeEffect (upgraded api peer route id requested answer).state answer
  unfolding upgraded
  upgraded-IsUpgradeEffect id requested (none, t) = inl refl
  upgraded-IsUpgradeEffect id requested (some (err e), t) = inl refl
  upgraded-IsUpgradeEffect id requested (some (ok prepared), t) =
      elim (Bool-cases (same_protocol requested prepared.protocol)) [
        | inl same ↦ rw same (inl refl)
        | inr other ↦ rw other (inr (prepared, refl, refl))
      ]

  with_body-IsEffect :
      (id body : Option Text)
      → is_console route.class ≡ false
      → IsEffect (with_body api peer max_request_bytes request route id body s).state
  unfolding with_body
  with_body-IsEffect id none h = inl refl
  with_body-IsEffect id (some body) h = elim (Bool-cases (leb (length body) max_request_bytes)) [
    | inl fits ↦ rw fits (inr (_, (refl, refl), inl (h, handled-state id _)))
    | inr large ↦ rw large (inl refl)
  ]

  upgrade-IsEffect :
      (id : Option Text)
      → is_console route.class ≡ true
      → IsEffect (handle_upgrade_request api peer request route id s).state
  unfolding handle_upgrade_request
  upgrade-IsEffect id h =
      elim (Bool-cases (
        is_none (requested_protocol request.upgrade_header)
        || not (connection_upgrades request.connection_header))) [
          | inl missing ↦ rw missing (inl refl)
          | inr asked ↦ rw asked (inr (_, (refl, refl), inr (h, upgraded-IsUpgradeEffect id _ _)))
        ]

  authorized-IsEffect :
      (id : Option Text) (role : Result Role ApiError)
      → IsEffect (authorized api peer max_request_bytes request route id role s).state
  unfolding authorized
  authorized-IsEffect id (err e) = inl refl
  authorized-IsEffect id (ok role) = elim (Bool-cases (is_console route.class)) [
    | inl console ↦ subst Served (sym console) (upgrade-IsEffect id console)
    | inr plain ↦ subst Served (sym plain) (with_body-IsEffect id request.body plain)
  ]
    where
      Served : Bool → Type 0
      Served console =
          IsEffect
            (if console
              then handle_upgrade_request api peer request route id s
              else with_body api peer max_request_bytes request route id request.body s).state

  identified-IsEffect :
      (id : Result (Option Text) ApiError)
      → IsEffect (identified api peer policy max_request_bytes request route id s).state
  unfolding identified
  identified-IsEffect (err e) = inl refl
  identified-IsEffect (ok id) = authorized-IsEffect id _

  pub handle_request-IsEffect :
      api.route request.method request.path ≡ some route
      → IsEffect (handle_request api peer policy max_request_bytes request s).state
  unfolding handle_request routed
  handle_request-IsEffect h =
      subst (λ r. IsEffect (routed api peer policy max_request_bytes request r s).state) (sym h)
        (identified-IsEffect (request_id request.request_id_header))

-- Without a role above a reader's, only read requests are permitted.
reader_class :
    (policy : AuthorizationPolicy) (a : Actor) (class : RequestClass)
    → ¬ IsOperator policy a
    → ¬ IsAdministrator policy a
    → Permits policy a class
    → class ≡ RequestClass.read_only
reader_class policy a RequestClass.read_only h k p = refl
reader_class policy a RequestClass.mutation h k (inl root) = absurd (k root)
reader_class policy a RequestClass.mutation h k (inr operator) = absurd (h operator)
reader_class policy a RequestClass.console h k (inl root) = absurd (k root)
reader_class policy a RequestClass.console h k (inr operator) = absurd (h operator)
reader_class policy a RequestClass.administration h k root = absurd (k root)

-- `impl LocalApi for HostApi`: errors become responses, and an upgrade
-- that is dropped gives its permit back.
module _ {W F S : Type 0} (snapshots : SnapshotRefresher W F) (disk : ImageStore W)
    (storage : StorageBackend W S) (codec : Json S) (files : FileSystem W)
    (consoles : ConsoleProxy W) (now : Circumstances) where
  abbrev unserializable : LocalResponse
  unserializable = record {
    status = 500;
    content_type = text "application/json";
    body =
        text
          "{\"kind\":\"error\",\"error\":{\"code\":\"internal\",\"message\":\"response serialization failed\",\"retryable\":false}}";
  }

  -- `LocalResponse::api_error`.
  unfoldable pub api_error_response : ApiError → LocalResponse
  unfolding json status_for_error
  api_error_response e = elim (json codec (status_for_error e.code) (Response.failure e)) [
    | ok response ↦ response
    | err _ ↦ unserializable
  ]

  unfoldable pub answer_of : Result LocalResponse ApiError → LocalResponse
  unfolding api_error_response
  answer_of (ok response) = response
  answer_of (err e) = api_error_response e

  unfoldable pub handle :
      LocalRequest → PeerIdentity → HostState × W → Option LocalResponse × (HostState × W)
  unfolding answer_of dispatch
  handle request peer (s, w) =
      let ((answer, s1), w1) = dispatch snapshots disk storage codec files now peer request s w in
      (some (answer_of answer), (s1, w1))

  -- The handler owns the console's permit.
  abbrev prepared_of :
      Result LocalUpgrade ApiError → Result (PreparedUpgrade (HostState × W)) ApiError
  prepared_of (ok upgrade) = ok (record {
    protocol = upgrade.protocol;
    dropped = λ (s, w). (record s { limiter = drop s.limiter upgrade.permit }, w);
  })
  prepared_of (err e) = err e

  unfoldable pub upgrade :
      LocalRequest
      → PeerIdentity
      → HostState × W
      → Option (Result (PreparedUpgrade (HostState × W)) ApiError) × (HostState × W)
  unfolding prepare_upgrade drop
  upgrade request peer (s, w) =
      let ((prepared, s1), w1) = prepare_upgrade snapshots consoles request s w in
      (some (prepared_of prepared), (s1, w1))

  unfoldable pub host_api : LocalApi (HostState × W)
  unfolding route_for handle upgrade
  host_api = record { route = route_for; handle = handle; prepare_upgrade = upgrade }

  same-IsRead : (s : HostState) (w : W) (t : HostState × W) → t ≡ (s, w) → IsRead s t.0
  same-IsRead s w t e = subst (λ u. IsRead s u.0) (sym e) (refl, refl, refl, refl)

  handle-IsRead :
      (local : LocalRequest) (peer : PeerIdentity) (route : RouteSecurity) (s : HostState) (w : W)
      → route_for local.method local.path ≡ some route
      → route.class ≡ RequestClass.read_only
      → IsRead s (handle local peer (s, w)).1.0
  unfolding handle
  handle-IsRead local peer route s w h k =
      dispatch_reads snapshots disk storage codec files now peer local s w route h k

  -- What a read request does to the state.
  effect-IsRead :
      (peer : PeerIdentity) (policy : AuthorizationPolicy) (max_request_bytes : ℕ)
      (request : HttpRequest) (route : RouteSecurity) (s : HostState) (w : W) (t : HostState × W)
      → route_for request.method request.path ≡ some route
      → route.class ≡ RequestClass.read_only
      → IsEffect host_api peer policy max_request_bytes request route (s, w) t
      → IsRead s t.0
  unfolding host_api
  effect-IsRead peer policy max request route s w t found reads (inl same) = same-IsRead s w t same
  effect-IsRead peer policy max request route s w t found reads (inr (local, (m, p), inl (_, e))) =
      let routed_locally : route_for local.method local.path ≡ some route =
        ap (λ x. route_for x local.path) m ∙ ap (route_for request.method) p ∙ found in
      subst (λ u. IsRead s u.0) (sym e) (handle-IsRead local peer route s w routed_locally reads)
  effect-IsRead peer policy max request route s w t found reads
        (inr (local, here, inr (console, e))) =
      absurd (not_console (sym (ap is_console reads) ∙ console))
    where
      not_console : false ≡ true → ⊥
      not_console h = cc

  unrouted_state :
      (peer : PeerIdentity) (policy : AuthorizationPolicy) (max_request_bytes : ℕ)
      (request : HttpRequest) (s : HostState) (w : W)
      → route_for request.method request.path ≡ none
      → (handle_request host_api peer policy max_request_bytes request (s, w)).state ≡ (s, w)
  unfolding handle_request routed host_api
  unrouted_state peer policy max request s w h =
      ap (λ r. (routed host_api peer policy max request r (s, w)).state) h

  -- A peer that is neither an operator nor an administrator submits and cancels nothing, whatever
  -- it requests: the operations, the permits and the tasks stay as they are, and at most the image
  -- catalog is read again.
  pub unprivileged-IsRead :
      (peer : PeerIdentity) (policy : AuthorizationPolicy) (max_request_bytes : ℕ)
      (request : HttpRequest) (s : HostState) (w : W)
      → ¬ IsOperator policy peer.actor
      → ¬ IsAdministrator policy peer.actor
      → IsRead s (handle_request host_api peer policy max_request_bytes request (s, w)).state.0
  unprivileged-IsRead peer policy max request s w h k =
      let out = handle_request host_api peer policy max request (s, w) in
      elim (Option-cases (route_for request.method request.path)) [
        | inl unrouted ↦
            same-IsRead s w out.state (unrouted_state peer policy max request s w unrouted)
        | inr (route, found) ↦
            elim (handle_request-IsGuarded host_api peer policy max request route (s, w)
              (unfold host_api in found)) [
                | inl (e, invalid, same, response, records) ↦ same-IsRead s w out.state same
                | inr (inl (id, valid, refused, same, response, records)) ↦
                    same-IsRead s w out.state same
                | inr (inr (id, valid, permitted, served)) ↦
                    effect-IsRead peer policy max request route s w out.state found
                      (reader_class policy peer.actor route.class h k permitted)
                      (handle_request-IsEffect host_api peer policy max request route (s, w)
                        (unfold host_api in found))
              ]
      ]
