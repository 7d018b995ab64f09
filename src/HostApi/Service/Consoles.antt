-- ===== src/HostApi/Service/Consoles.antt =====
-- `prepare_upgrade`: a console session on an active instance, with a console permit.
use kernmux.Prelude.{
  Bool, false, not, ◌&&◌, Option, none, some, ◌==◌, any, if◌then◌else◌, Result, ok, err,
}
use kernmux.Prelude.Text.{Text, text}
use kernmux.Api.{ApiError, ErrorCode, HostSnapshot, InstanceId, InstanceState, same_state}
use kernmux.Executor.{SnapshotRefresher}
use kernmux.Security.{LimitKind, ServiceLimiter, ServicePermit, acquire, drop}
use kernmux.HostApi.Errors.{backend, error, not_found}
use kernmux.HostApi.Paths.{InstanceAction, Method, instance_resource}
use kernmux.HostApi.Service.Types.{HostState, LocalRequest}

-- Prepared handoff to the console of an instance; the permit is held while its stream is served.
pub record LocalUpgrade : Type 0 where
  pub protocol : Text
  pub instance_id : InstanceId
  pub permit : ServicePermit

-- `CONSOLE_UPGRADE_PROTOCOL` of console.rs.
abbrev pub console_upgrade_protocol : Text
console_upgrade_protocol = text "kernmux-console-v1"

-- The console proxy: it opens the device of an instance.
pub record ConsoleProxy (W : Type 0) : Type 0 where
  pub attach : InstanceId → W → Result (Unit {0}) ApiError × W

unfoldable pub is_active : HostSnapshot → InstanceId → Bool
unfolding same_state
is_active snapshot id =
    any (λ i. (i.id == id) && same_state i.state InstanceState.active) snapshot.instances

abbrev pub must_be_active : ApiError
must_be_active =
    error ErrorCode.conflict (text "instance must be active before attaching its console") false

-- What the path and the method must be.
abbrev pub console_of : Method → Option (InstanceId × Option InstanceAction) → Option InstanceId
console_of Method.post (some (id, some InstanceAction.console)) = some id
console_of _ _ = none

module _ {W F : Type 0} (snapshots : SnapshotRefresher W F) (consoles : ConsoleProxy W) where
  abbrev pub Prepared : Type 0
  Prepared = (Result LocalUpgrade ApiError × HostState) × W

  -- A failed attachment drops the permit.
  unfoldable pub attached :
      InstanceId → ServicePermit → HostState → Result (Unit {0}) ApiError × W → Prepared
  unfolding drop
  attached id permit s (err e, w) = ((err e, record s { limiter = drop s.limiter permit }), w)
  attached id permit s (ok _, w) = (
    (ok (record { protocol = console_upgrade_protocol; instance_id = id; permit = permit }), s),
    w,
  )

  unfoldable pub with_permit :
      InstanceId → HostState → ServiceLimiter × Result ServicePermit ApiError → W → Prepared
  unfolding attached
  with_permit id s (limiter, err e) w = ((err e, record s { limiter = limiter }), w)
  with_permit id s (limiter, ok permit) w =
      attached id permit (record s { limiter = limiter }) (consoles.attach id w)

  unfoldable pub with_snapshot_read : InstanceId → HostState → Result HostSnapshot F × W → Prepared
  unfolding with_permit is_active backend acquire
  with_snapshot_read id s (err e, w) =
      ((err (backend (text "host inventory is unavailable")), s), w)
  with_snapshot_read id s (ok snapshot, w) =
      if not (is_active snapshot id)
      then ((err must_be_active, s), w)
      else with_permit id s (acquire s.limiter LimitKind.console) w

  unfoldable pub upgrade_for : Option InstanceId → HostState → W → Prepared
  unfolding with_snapshot_read not_found
  upgrade_for none s w = ((err not_found, s), w)
  upgrade_for (some id) s w = with_snapshot_read id s (snapshots.refresh_snapshot w)

  -- `prepare_upgrade`.
  unfoldable pub prepare_upgrade : LocalRequest → HostState → W → Prepared
  unfolding upgrade_for instance_resource
  prepare_upgrade request s w =
      upgrade_for (console_of request.method (instance_resource request.path)) s w
