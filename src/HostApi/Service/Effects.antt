-- ===== src/HostApi/Service/Effects.antt =====
-- What requests of each class can change.
use kernmux.Prelude.{
  some_injective, ◌≡◌, inl, inr, refl, sym, ap, subst, ◌∙◌, Option, none, some, Result, err, arith,
  Option-cases,
}
use kernmux.Executor.{SnapshotRefresher}
use kernmux.Api.{ApiError}
use kernmux.Images.{ImageStore}
use kernmux.Security.{PeerIdentity, RequestClass}
use kernmux.HostApi.{
  Method, Endpoint, Resource, RouteSecurity, route_for, route_endpoint, route_resource, route_at,
  route_or, endpoint, resource, not_found,
}
use kernmux.HostApi.Service.Types.{
  Circumstances, FileSystem, HostState, Json, LocalRequest, LocalResponse, StorageBackend,
}
use kernmux.HostApi.Service.Dispatch.{
  dispatch, dispatch_at, dispatch_endpoint, dispatch_resource, dispatch_instance,
}
use kernmux.HostApi.Service.Reads.{images, os_images, image, os_image_at, with_catalog}

-- Nothing is submitted or cancelled: only the image catalog may have been read again.
abbrev pub IsRead : HostState → HostState → Type 0
IsRead s t =
    (t.scheduler ≡ s.scheduler)
    × (t.limiter ≡ s.limiter)
    × (t.tasks ≡ s.tasks)
    × (t.image_roots ≡ s.image_roots)

-- How a request leaves the state, carried over to an equal outcome.
moved :
    {A B W : Type 0} (P : B → Type 0) (x : (A × B) × W) {y : (A × B) × W}
    → some x ≡ some y
    → P x.0.1
    → P y.0.1
moved P x e = subst (λ z. P z.0.1) (some_injective e)

module _ {W F S : Type 0} (snapshots : SnapshotRefresher W F) (disk : ImageStore W)
    (storage : StorageBackend W S) (codec : Json S) (files : FileSystem W) (now : Circumstances)
    (peer : PeerIdentity) (request : LocalRequest) (s : HostState) (w : W) where
  -- The two `match`es on the paths written out have the same arms.
  endpoints_agree :
      (m : Method) (e : Endpoint)
      → route_endpoint m e ≡ none
      → dispatch_endpoint snapshots disk storage codec files now peer request m e s w ≡ none
  unfolding route_endpoint dispatch_endpoint
  endpoints_agree m e h = ground arith

  endpoint_reads :
      (e : Endpoint) (h : (Result LocalResponse ApiError × HostState) × W)
      → dispatch_endpoint snapshots disk storage codec files now peer request Method.get e s w
        ≡ some h
      → IsRead s h.0.1
  unfolding dispatch_endpoint images os_images with_catalog
  endpoint_reads Endpoint.root h k = moved (IsRead s) _ k (refl, refl, refl, refl)
  endpoint_reads Endpoint.compatibility h k = moved (IsRead s) _ k (refl, refl, refl, refl)
  endpoint_reads Endpoint.resource_pool h k = moved (IsRead s) _ k (refl, refl, refl, refl)
  endpoint_reads Endpoint.instances h k = moved (IsRead s) _ k (refl, refl, refl, refl)
  endpoint_reads Endpoint.images h k = moved (IsRead s) _ k (refl, refl, refl, refl)
  endpoint_reads Endpoint.os_images h k = moved (IsRead s) _ k (refl, refl, refl, refl)
  endpoint_reads Endpoint.storage_devices h k = moved (IsRead s) _ k (refl, refl, refl, refl)
  endpoint_reads Endpoint.operations h k = moved (IsRead s) _ k (refl, refl, refl, refl)
  endpoint_reads Endpoint.events h k = moved (IsRead s) _ k (refl, refl, refl, refl)
  endpoint_reads Endpoint.below h k = cc

  resource_reads :
      (r : Resource)
      → IsRead s
          (dispatch_resource snapshots disk storage codec files now peer request Method.get r s
            w).0.1
  unfolding dispatch_resource dispatch_instance image os_image_at with_catalog
  resource_reads (Resource.operation id) = (refl, refl, refl, refl)
  resource_reads (Resource.image kind id) = (refl, refl, refl, refl)
  resource_reads (Resource.os_image id) = (refl, refl, refl, refl)
  resource_reads (Resource.instance_at id none) = (refl, refl, refl, refl)
  resource_reads (Resource.instance_at id (some action)) = (refl, refl, refl, refl)
  resource_reads Resource.nothing = (refl, refl, refl, refl)

  read_resources :
      (m : Method) (r : Resource) (route : RouteSecurity)
      → route_resource m r ≡ some route
      → route.class ≡ RequestClass.read_only
      → m ≡ Method.get
  unfolding route_resource
  read_resources m r route h k = ground arith

  read_endpoints :
      (m : Method) (e : Endpoint) (route : Option RouteSecurity) (security : RouteSecurity)
      → route_endpoint m e ≡ some route
      → route ≡ some security
      → security.class ≡ RequestClass.read_only
      → m ≡ Method.get
  unfolding route_endpoint
  read_endpoints m e route security h k l = ground arith

  unrouted_resource :
      (m : Method) (r : Resource)
      → route_resource m r ≡ none
      → dispatch_resource snapshots disk storage codec files now peer request m r s w
        ≡ ((err not_found, s), w)
  unfolding route_resource dispatch_resource dispatch_instance
  unrouted_resource m r h = ground arith

  no_empty_route : (m : Method) (e : Endpoint) → route_endpoint m e ≡ some none → ⊥
  unfolding route_endpoint
  no_empty_route m e h = ground arith

  unrouted_at :
      (m : Method) (e : Endpoint) (r : Resource)
      → route_at m e r ≡ none
      → dispatch_at snapshots disk storage codec files now peer request m e r s w
        ≡ ((err not_found, s), w)
  unfolding route_at dispatch_at
  unrouted_at m e r h = elim (Option-cases (route_endpoint m e)) [
    | inl below ↦
        rw (endpoints_agree m e below)
          (unrouted_resource m r (sym (ap (λ o. route_or o (route_resource m r)) below) ∙ h))
    | inr (route, found) ↦
        let none_there : route ≡ none = sym (ap (λ o. route_or o (route_resource m r)) found) ∙ h in
        absurd (no_empty_route m e (found ∙ ap some none_there))
  ]

  IsRead-at :
      (e : Endpoint) (r : Resource)
      → IsRead s
          (dispatch_at snapshots disk storage codec files now peer request Method.get e r s w).0.1
  unfolding dispatch_at
  IsRead-at e r =
      elim (Option-cases
        (dispatch_endpoint snapshots disk storage codec files now peer request Method.get e s w)) [
          | inl below ↦ rw below (resource_reads r)
          | inr (handled, found) ↦ rw found (endpoint_reads e handled found)
        ]

  read_by_get :
      (m : Method) (e : Endpoint) (r : Resource) (route : RouteSecurity)
      → route_at m e r ≡ some route
      → route.class ≡ RequestClass.read_only
      → m ≡ Method.get
  unfolding route_at
  read_by_get m e r route h k = elim (Option-cases (route_endpoint m e)) [
    | inl below ↦
        read_resources m r route (sym (ap (λ o. route_or o (route_resource m r)) below) ∙ h) k
    | inr (found, is_found) ↦
        read_endpoints m e found route is_found
          (sym (ap (λ o. route_or o (route_resource m r)) is_found) ∙ h) k
  ]

  -- A request without a route is answered with `NotFound`, and nothing is done.
  pub dispatch_unrouted :
      route_for request.method request.path ≡ none
      → dispatch snapshots disk storage codec files now peer request s w ≡ ((err not_found, s), w)
  unfolding route_for dispatch
  dispatch_unrouted h = unrouted_at request.method (endpoint request.path) (resource request.path) h

  -- A request that is routed as read-only submits and cancels nothing, and takes no permit.
  pub dispatch_reads :
      (route : RouteSecurity)
      → route_for request.method request.path ≡ some route
      → route.class ≡ RequestClass.read_only
      → IsRead s (dispatch snapshots disk storage codec files now peer request s w).0.1
  unfolding route_for dispatch
  dispatch_reads route h k =
      let e = endpoint request.path in
      let r = resource request.path in
      subst
        (λ m.
          IsRead s (dispatch_at snapshots disk storage codec files now peer request m e r s w).0.1)
        (sym (read_by_get request.method e r route h k)) (IsRead-at e r)
