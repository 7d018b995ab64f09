-- ===== src/Security/Decision.antt =====
-- What `authorize` decides, against a description of who may do what.
use kernmux.Prelude.{◌≡◌, ◌↔◌, ◌⊎◌, inl, inr, true, ok, err, arith, Bool-cases}
use kernmux.Prelude.Order.{nat_ord}
use kernmux.Prelude.TreeSet.{contains}
use kernmux.Api.{Actor}
use kernmux.Security.{
  AuthorizationPolicy, RequestClass, Role, authorize, allowed, at_least, role, forbidden,
  unwrap_or_reader, deny_by_default,
}

abbrev pub IsAdministrator : AuthorizationPolicy → Actor → Type 0
IsAdministrator p a =
    (a.uid ≡ 0)
    ⊎ (contains p.administrator_uids a.uid ≡ true)
    ⊎ (contains p.administrator_gids a.gid ≡ true)

abbrev pub IsOperator : AuthorizationPolicy → Actor → Type 0
IsOperator p a = (contains p.operator_uids a.uid ≡ true) ⊎ (contains p.operator_gids a.gid ≡ true)

abbrev pub IsReader : AuthorizationPolicy → Actor → Type 0
IsReader p a = (contains p.reader_uids a.uid ≡ true) ⊎ (contains p.reader_gids a.gid ≡ true)

-- Who may send requests of a class.
abbrev pub Permits : AuthorizationPolicy → Actor → RequestClass → Type 0
Permits p a RequestClass.read_only =
    IsAdministrator p a ⊎ IsOperator p a ⊎ IsReader p a ⊎ (p.allow_unprivileged_reads ≡ true)
Permits p a RequestClass.mutation = IsAdministrator p a ⊎ IsOperator p a
Permits p a RequestClass.console = IsAdministrator p a ⊎ IsOperator p a
Permits p a RequestClass.administration = IsAdministrator p a

abbrev pub IsAuthorized : AuthorizationPolicy → Actor → RequestClass → Type 0
IsAuthorized p a class = (r : Role) × (authorize p a class ≡ ok r)

IsAuthorized-allowed :
    (p : AuthorizationPolicy) (a : Actor) (class : RequestClass)
    → IsAuthorized p a class ↔ (allowed p (role p a) class ≡ true)
unfolding authorize
IsAuthorized-allowed p a class =
    (λ (r, h). ground arith, λ h. (unwrap_or_reader (role p a), ground arith))

allowed-Permits :
    (p : AuthorizationPolicy) (a : Actor) (class : RequestClass)
    → (allowed p (role p a) class ≡ true) ↔ Permits p a class
unfolding allowed role at_least
allowed-Permits p a RequestClass.read_only = ground arith
allowed-Permits p a RequestClass.mutation = ground arith
allowed-Permits p a RequestClass.console = ground arith
allowed-Permits p a RequestClass.administration = ground arith

granted-role :
    (p : AuthorizationPolicy) (a : Actor) (class : RequestClass) (r : Role)
    → authorize p a class ≡ ok r
    → unwrap_or_reader (role p a) ≡ r
unfolding authorize
granted-role p a class r h = ground arith

-- The decision is exact: a request is authorized exactly if the actor may send requests of its
-- class, and any other gets the error `Forbidden`.
pub authorize_iff :
    (p : AuthorizationPolicy) (a : Actor) (class : RequestClass)
    → (IsAuthorized p a class ↔ Permits p a class)
      × ((authorize p a class ≡ err forbidden) ↔ ¬ Permits p a class)
authorize_iff p a class =
    let exact = IsAuthorized-allowed p a class in
    let permits = allowed-Permits p a class in
    (
      (λ h. permits.0 (exact.0 h), λ h. exact.1 (permits.1 h)),
      (
        λ h k. let (r, e) = exact.1 (permits.1 k) in cc,
        λ h. elim (Bool-cases (allowed p (role p a) class)) [
          | inl t ↦ absurd (h (permits.0 t))
          | inr f ↦ unfold authorize in ground arith
        ],
      ),
    )

-- The role of an authorized request is administrator exactly for an administrator, and operator
-- exactly for an operator who is no administrator.
pub authorize-role_iff :
    (p : AuthorizationPolicy) (a : Actor) (class : RequestClass) (r : Role)
    → authorize p a class ≡ ok r
    → ((r ≡ Role.administrator) ↔ IsAdministrator p a)
      × ((r ≡ Role.operator) ↔ (IsOperator p a × ¬ IsAdministrator p a))
unfolding role
authorize-role_iff p a class r h =
    let e : unwrap_or_reader (role p a) ≡ r = granted-role p a class r h in ground arith

-- Whoever may administer may do everything, and whoever may change the host may read it.
pub authorize_downward :
    (p : AuthorizationPolicy) (a : Actor) (class : RequestClass)
    → IsAuthorized p a RequestClass.administration
    → IsAuthorized p a class
authorize_downward p a class h =
    let root : IsAdministrator p a = (authorize_iff p a RequestClass.administration).0.0 h in
    (authorize_iff p a class).0.1 (administrator_permits p a class root)
  where
    administrator_permits :
        (p : AuthorizationPolicy) (a : Actor) (class : RequestClass)
        → IsAdministrator p a
        → Permits p a class
    administrator_permits p a RequestClass.read_only k = inl k
    administrator_permits p a RequestClass.mutation k = inl k
    administrator_permits p a RequestClass.console k = inl k
    administrator_permits p a RequestClass.administration k = k

only_root : (a : Actor) (class : RequestClass) → Permits deny_by_default a class → a.uid ≡ 0
unfolding deny_by_default contains
only_root a RequestClass.read_only h = ground arith
only_root a RequestClass.mutation h = ground arith
only_root a RequestClass.console h = ground arith
only_root a RequestClass.administration h = ground arith

-- By default root may do everything and nobody else anything.
pub deny_by_default-root :
    (a : Actor) (class : RequestClass) → IsAuthorized deny_by_default a class ↔ (a.uid ≡ 0)
deny_by_default-root a class = (
  λ h. only_root a class ((authorize_iff deny_by_default a class).0.0 h),
  λ h. (authorize_iff deny_by_default a class).0.1 (root_permits a class h),
)
  where
    root_permits : (a : Actor) (class : RequestClass) → a.uid ≡ 0 → Permits deny_by_default a class
    root_permits a RequestClass.read_only h = inl (inl h)
    root_permits a RequestClass.mutation h = inl (inl h)
    root_permits a RequestClass.console h = inl (inl h)
    root_permits a RequestClass.administration h = inl h
