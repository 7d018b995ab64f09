-- ===== src/Security/Tests.antt =====
-- Runs and instances on a small policy and small limits.
use kernmux.Prelude.{ℕ, ◌≡◌, ◌<◌, ◌≤◌, ◌↔◌, refl, true, none, List, [], ◌∷◌, ok, err}
use kernmux.Api.{Actor}
use kernmux.Security.{
  AuthorizationPolicy, RequestClass, Role, authorize, allowed, role, at_least, forbidden,
  deny_by_default, with_operator_uid, with_reader_gid, with_unprivileged_reads, LimitKind,
  ServiceLimits, ServiceLimiter, ServicePermit, held, limit, acquire, new_limiter, validate,
  nothing_held, set_held, drop,
}
use kernmux.Prelude.TreeSet.{contains, insert}
use kernmux.Security.Decision.{IsAuthorized, Permits, authorize_iff}
use kernmux.Security.Uses.{Use, ask, let_go, run_service, use_service, count}
use kernmux.Security.Admission.{run_service_refines}

abbrev operators : AuthorizationPolicy
operators = with_reader_gid (with_operator_uid deny_by_default 1000) 50

abbrev peer : ℕ → ℕ → Actor
peer uid gid = record { uid = uid; gid = gid; label = none }

operator_changes : authorize operators (peer 1000 9) RequestClass.mutation ≡ ok Role.operator
unfolding authorize allowed role at_least with_reader_gid with_operator_uid deny_by_default contains
    insert
operator_changes = refl

reader_may_not : authorize operators (peer 7 50) RequestClass.console ≡ err forbidden
unfolding authorize allowed role at_least with_reader_gid with_operator_uid deny_by_default contains
    insert
reader_may_not = refl

stranger_reads :
    authorize (with_unprivileged_reads operators true) (peer 7 7) RequestClass.read_only
    ≡ ok Role.reader
unfolding authorize allowed role at_least with_reader_gid with_operator_uid deny_by_default contains
    insert with_unprivileged_reads
stranger_reads = refl

authorize_iff_example :
    (IsAuthorized operators (peer 7 50) RequestClass.console
      ↔ Permits operators (peer 7 50) RequestClass.console)
    × ((authorize operators (peer 7 50) RequestClass.console ≡ err forbidden)
        ↔ ¬ Permits operators (peer 7 50) RequestClass.console)
authorize_iff_example = authorize_iff operators (peer 7 50) RequestClass.console

abbrev limits : ServiceLimits
limits = record { connections = 2; mutations = 1; consoles = 1 }

abbrev limiter : ServiceLimiter
limiter = record { shared = nothing_held; limits = limits }

limiter_is_new : new_limiter limits ≡ ok limiter
unfolding new_limiter validate
limiter_is_new = refl

abbrev uses : List Use
uses =
    ask LimitKind.connection
    ∷ ask LimitKind.mutation
    ∷ ask LimitKind.mutation
    ∷ ask LimitKind.connection
    ∷ let_go 0
    ∷ []

-- The second mutation was refused, and one of the two connections has been given back.
uses_leave :
    (run_service (record { limiter = limiter; permits = [] }) uses).limiter.shared
    ≡ record { connections = 1; mutations = 1; consoles = 0 }
unfolding run_service use_service acquire drop held limit set_held
uses_leave = refl

run_service_refines_example :
    let s = run_service (record { limiter = limiter; permits = [] }) uses in
    (held s.limiter.shared LimitKind.mutation ≡ count LimitKind.mutation s.permits)
    × (count LimitKind.mutation s.permits ≤ limit limits LimitKind.mutation)
    × (((p : ServicePermit) × ((acquire s.limiter LimitKind.mutation).1 ≡ ok p))
        ↔ (count LimitKind.mutation s.permits < limit limits LimitKind.mutation))
run_service_refines_example =
    run_service_refines limits limiter uses LimitKind.mutation limiter_is_new
