-- ===== src/Transport/Guards.antt =====
-- Authorization and audit of every request, whatever the API behind the transport.
use kernmux.Prelude.{
  ℕ, ◌≡◌, ◌≢◌, ◌⊎◌, inl, inr, refl, sym, ap, subst, not, ◌||◌, leb, length, Option, none, some, [],
  ◌∷◌, Result, ok, err, Bool-cases, Result-cases,
}
use kernmux.Prelude.Text.{Text}
use kernmux.Api.{ApiError}
use kernmux.HostApi.{RouteSecurity}
use kernmux.HostApi.Service.Types.{LocalResponse}
use kernmux.Security.{AuditDecision, AuthorizationPolicy, PeerIdentity, Role, authorize, forbidden}
use kernmux.Security.Decision.{Permits, authorize_iff}
use kernmux.Transport.{
  HttpRequest, HttpResponse, LocalApi, PreparedUpgrade, Outcome, audit, authorized,
  connection_upgrades, handle_request, handle_upgrade_request, handled, identified, is_console,
  is_none, same_protocol, request_id, requested_protocol, routed, upgraded, with_body,
}

module _ {St : Type 0} (api : LocalApi St) (peer : PeerIdentity) (policy : AuthorizationPolicy)
    (max_request_bytes : ℕ) (request : HttpRequest) (route : RouteSecurity) where
  -- One audit record, of this route and peer, with some decision.
  abbrev pub Records : AuditDecision → Option Text → Outcome St → Type 0
  Records decision id out = out.audits ≡ audit peer route decision id ∷ []

  -- A request that was let through to the API, under its id.
  abbrev pub IsServed : Option Text → Outcome St → Type 0
  IsServed id out =
      (decision : AuditDecision) × (decision ≢ AuditDecision.deny) × Records decision id out

  allow_not_deny : AuditDecision.allow ≢ AuditDecision.deny
  allow_not_deny h = cc

  fail_not_deny : AuditDecision.fail ≢ AuditDecision.deny
  fail_not_deny h = cc

  handled-IsServed :
      (id : Option Text) (answer : Option LocalResponse × St)
      → IsServed id (handled api peer route id answer)
  unfolding handled
  handled-IsServed id (none, s) = (AuditDecision.fail, fail_not_deny, refl)
  handled-IsServed id (some response, s) = (AuditDecision.allow, allow_not_deny, refl)

  upgraded-IsServed :
      (id requested : Option Text) (answer : Option (Result (PreparedUpgrade St) ApiError) × St)
      → IsServed id (upgraded api peer route id requested answer)
  unfolding upgraded
  upgraded-IsServed id requested (none, s) = (AuditDecision.fail, fail_not_deny, refl)
  upgraded-IsServed id requested (some (err e), s) = (AuditDecision.fail, fail_not_deny, refl)
  upgraded-IsServed id requested (some (ok prepared), s) =
      elim (Bool-cases (same_protocol requested prepared.protocol)) [
        | inl same ↦ rw same (AuditDecision.allow, allow_not_deny, refl)
        | inr other ↦ rw other (AuditDecision.fail, fail_not_deny, refl)
      ]

  with_body-IsServed :
      (id body : Option Text) (s : St)
      → IsServed id (with_body api peer max_request_bytes request route id body s)
  unfolding with_body
  with_body-IsServed id none s = (AuditDecision.fail, fail_not_deny, refl)
  with_body-IsServed id (some body) s = elim (Bool-cases (leb (length body) max_request_bytes)) [
    | inl fits ↦ rw fits (handled-IsServed id _)
    | inr large ↦ rw large (AuditDecision.fail, fail_not_deny, refl)
  ]

  upgrade-IsServed :
      (id : Option Text) (s : St) → IsServed id (handle_upgrade_request api peer request route id s)
  unfolding handle_upgrade_request
  upgrade-IsServed id s =
      elim (Bool-cases (
        is_none (requested_protocol request.upgrade_header)
        || not (connection_upgrades request.connection_header))) [
          | inl missing ↦ rw missing (AuditDecision.fail, fail_not_deny, refl)
          | inr asked ↦ rw asked (upgraded-IsServed id _ _)
        ]

  authorized-IsServed :
      (id : Option Text) (role : Role) (s : St)
      → IsServed id (authorized api peer max_request_bytes request route id (ok role) s)
  unfolding authorized
  authorized-IsServed id role s = elim (Bool-cases (is_console route.class)) [
    | inl console ↦ rw console (upgrade-IsServed id s)
    | inr plain ↦ rw plain (with_body-IsServed id request.body s)
  ]

  -- How a routed request ends: refused for its id or for its peer, without any effect, or served.
  abbrev pub IsGuarded : St → Outcome St → Type 0
  IsGuarded s out =
      ((e : ApiError) × (request_id request.request_id_header ≡ err e)
        × (out.state ≡ s)
        × (out.response ≡ HttpResponse.error_response 400 e)
        × Records AuditDecision.fail none out)
      ⊎ ((id : Option Text) × (request_id request.request_id_header ≡ ok id)
          × (¬ Permits policy peer.actor route.class)
          × (out.state ≡ s)
          × (out.response ≡ HttpResponse.error_response 403 forbidden)
          × Records AuditDecision.deny id out)
      ⊎ ((id : Option Text) × (request_id request.request_id_header ≡ ok id)
          × Permits policy peer.actor route.class
          × IsServed id out)

  not_both :
      {error : ApiError} {result : Result Role ApiError}
      → result ≡ err error
      → (role : Role) × (result ≡ ok role)
      → ⊥
  not_both e (role, f) = cc

  identified-IsGuarded :
      (id : Result (Option Text) ApiError) (s : St)
      → request_id request.request_id_header ≡ id
      → IsGuarded s (identified api peer policy max_request_bytes request route id s)
  unfolding identified
  identified-IsGuarded (err e) s h = inl (e, h, refl, refl, refl)
  identified-IsGuarded (ok id) s h =
      let (permitted, denied) = authorize_iff policy peer.actor route.class in
      elim (Result-cases (authorize policy peer.actor route.class)) [
        | inl (role, e) ↦
            rw e (inr (inr (id, h, permitted.0 (role, e), authorized-IsServed id role s)))
        | inr (error, e) ↦
            let refused : ¬ Permits policy peer.actor route.class =
              λ p. not_both e (permitted.1 p) in
            rw (denied.1 refused) (inr (inl (id, h, refused, refl, refl, refl)))
      ]

  -- Every routed request leaves exactly one audit record. Without a valid request id, or without
  -- the permission that the policy asks for, the state of the API does not change, and the record
  -- says that the request was denied exactly in the second case; any other request has a valid id,
  -- under which it is recorded, and the permission.
  pub handle_request-IsGuarded :
      (s : St)
      → api.route request.method request.path ≡ some route
      → IsGuarded s (handle_request api peer policy max_request_bytes request s)
  unfolding handle_request routed
  handle_request-IsGuarded s h =
      subst (IsGuarded s) (sym (ap (λ r. routed api peer policy max_request_bytes request r s) h))
        (identified-IsGuarded (request_id request.request_id_header) s refl)
