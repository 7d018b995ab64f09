-- ===== src/Security/Policy.antt =====
-- `PeerIdentity`, `RequestClass`, `Role`, `AuthorizationPolicy` and the audit records.
use kernmux.Prelude.{
  ℕ, Bool, true, false, ◌||◌, Option, none, some, List, [], ◌==◌, leb, if◌then◌else◌, Result, ok,
  err,
}
use kernmux.Prelude.Order.{nat_ord}
use kernmux.Prelude.Text.{Text, text}
use kernmux.Prelude.TreeSet.{contains, insert}
use kernmux.Api.{Actor, ApiError, ErrorCode, ResourceReference, OperationId}

-- Kernel-authenticated identity of one Unix socket peer.
pub record PeerIdentity : Type 0 where
  pub pid : ℕ
  pub actor : Actor

-- What the kernel reports of a socket's peer.
pub record SocketCredentials : Type 0 where
  pub process : ℕ
  pub user : ℕ
  pub group : ℕ

-- `PeerIdentity::from_socket`, on the kernel's answer, which is none if it cannot be read.
unfoldable pub from_socket : Option SocketCredentials → Result PeerIdentity ApiError
from_socket none = err (record {
  code = ErrorCode.backend_unavailable;
  message = text "peer credentials are unavailable";
  retryable = false;
  current_generation = none;
  diagnostics = [];
})
from_socket (some credentials) = ok (record {
  pid = credentials.process;
  actor = record { uid = credentials.user; gid = credentials.group; label = none };
})

-- Security class of one API request.
pub data RequestClass : Type 0 where
  read_only mutation console administration : RequestClass

-- Effective local role derived exclusively from peer credentials.
pub data Role : Type 0 where
  reader operator administrator : Role

-- The derived order of the roles.
abbrev role_rank : Role → ℕ
role_rank Role.reader = 0
role_rank Role.operator = 1
role_rank Role.administrator = 2

unfoldable pub at_least : Role → Role → Bool
at_least bound r = leb (role_rank bound) (role_rank r)

-- Explicit local authorization policy. Empty sets deny non-root peers.
pub record AuthorizationPolicy : Type 0 where
  pub reader_uids : List ℕ
  pub reader_gids : List ℕ
  pub operator_uids : List ℕ
  pub operator_gids : List ℕ
  pub administrator_uids : List ℕ
  pub administrator_gids : List ℕ
  pub allow_unprivileged_reads : Bool

unfoldable pub deny_by_default : AuthorizationPolicy
deny_by_default = record {
  reader_uids = [];
  reader_gids = [];
  operator_uids = [];
  operator_gids = [];
  administrator_uids = [];
  administrator_gids = [];
  allow_unprivileged_reads = false;
}

unfoldable pub with_unprivileged_reads : AuthorizationPolicy → Bool → AuthorizationPolicy
with_unprivileged_reads p allowed = record p { allow_unprivileged_reads = allowed }

unfoldable pub with_reader_uid : AuthorizationPolicy → ℕ → AuthorizationPolicy
with_reader_uid p uid = record p { reader_uids = insert uid p.reader_uids }

unfoldable pub with_reader_gid : AuthorizationPolicy → ℕ → AuthorizationPolicy
with_reader_gid p gid = record p { reader_gids = insert gid p.reader_gids }

unfoldable pub with_operator_uid : AuthorizationPolicy → ℕ → AuthorizationPolicy
with_operator_uid p uid = record p { operator_uids = insert uid p.operator_uids }

unfoldable pub with_operator_gid : AuthorizationPolicy → ℕ → AuthorizationPolicy
with_operator_gid p gid = record p { operator_gids = insert gid p.operator_gids }

unfoldable pub with_administrator_uid : AuthorizationPolicy → ℕ → AuthorizationPolicy
with_administrator_uid p uid = record p { administrator_uids = insert uid p.administrator_uids }

unfoldable pub with_administrator_gid : AuthorizationPolicy → ℕ → AuthorizationPolicy
with_administrator_gid p gid = record p { administrator_gids = insert gid p.administrator_gids }

-- `AuthorizationPolicy::role`.
unfoldable pub role : AuthorizationPolicy → Actor → Option Role
role p actor =
    if (actor.uid == 0)
      || contains p.administrator_uids actor.uid
      || contains p.administrator_gids actor.gid
    then some Role.administrator
    else if contains p.operator_uids actor.uid || contains p.operator_gids actor.gid
    then some Role.operator
    else if contains p.reader_uids actor.uid || contains p.reader_gids actor.gid
    then some Role.reader
    else none

unfoldable pub forbidden : ApiError
forbidden = record {
  code = ErrorCode.forbidden;
  message = text "peer is not authorized for this request";
  retryable = false;
  current_generation = none;
  diagnostics = [];
}

abbrev is_some : Option Role → Bool
is_some none = false
is_some (some r) = true

abbrev is_some_and : Option Role → Role → Bool
is_some_and none bound = false
is_some_and (some r) bound = at_least bound r

abbrev pub unwrap_or_reader : Option Role → Role
unwrap_or_reader none = Role.reader
unwrap_or_reader (some r) = r

-- The `match` of `authorize`.
unfoldable pub allowed : AuthorizationPolicy → Option Role → RequestClass → Bool
unfolding at_least
allowed p r RequestClass.read_only = is_some r || p.allow_unprivileged_reads
allowed p r RequestClass.mutation = is_some_and r Role.operator
allowed p r RequestClass.console = is_some_and r Role.operator
allowed p r RequestClass.administration = is_some_and r Role.administrator

-- `AuthorizationPolicy::authorize`.
unfoldable pub authorize : AuthorizationPolicy → Actor → RequestClass → Result Role ApiError
unfolding allowed role forbidden
authorize p actor class =
    if allowed p (role p actor) class then ok (unwrap_or_reader (role p actor)) else err forbidden

-- Audited class of daemon action.
pub data AuditAction : Type 0 where
  read_inventory manage_images mutate_lifecycle mutate_resource_pool cancel_operation attach_console
        change_policy :
      AuditAction

-- Authorization decision recorded for one API action.
pub data AuditDecision : Type 0 where
  allow deny fail : AuditDecision

-- Redacted structured audit event for one local API request.
pub record AuditEvent : Type 0 where
  pub actor : Actor
  pub peer_pid : ℕ
  pub action : AuditAction
  pub resource : Option ResourceReference
  pub decision : AuditDecision
  pub operation_id : Option OperationId
  pub audit_id : Option Text
