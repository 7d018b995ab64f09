-- ===== src/HostApi/Service/Runs.antt =====
-- The host API over time: requests, console upgrades, connections and the ends of tasks, in any
-- order.
use kernmux.Prelude.{
  ℕ, ◌≤◌, ◌≡◌, ◌≢◌, inl, inr, refl, sym, ap, subst, ◌∙◌, Option, none, some, List, [], ◌∷◌, length,
  All, Result, ok, err, arith, Bool-cases, Option-cases,
}
use kernmux.Prelude.Text.{Text}
use kernmux.Api.{ApiError, HostSnapshot, InstanceId, Operation}
use kernmux.Executor.{KerfRunner, SnapshotRefresher}
use kernmux.Images.{ImageStore}
use kernmux.Security.{
  LimitKind, PeerIdentity, ServiceLimits, ServiceLimiter, ServicePermit, acquire, drop, limit,
  new_limiter,
}
use kernmux.Security.Uses.{nth, without}
use kernmux.Security.Admission.{new_limiter-Counts}
use kernmux.HostApi.Service.Types.{
  Circumstances, FileSystem, HostState, Json, LocalRequest, LocalResponse, PendingTask,
  StorageBackend,
}
use kernmux.Operations.{OperationRegistry, OperationRegistryError, start}
use kernmux.HostApi.Service.Dispatch.{dispatch}
use kernmux.HostApi.Service.Consoles.{
  ConsoleProxy, attached, prepare_upgrade, upgrade_for, with_permit, with_snapshot_read, is_active,
}
use kernmux.HostApi.Service.Permits.{
  IsAccounted, OwnsMutation, same_accounts, submit_task-IsAccounted,
}
use kernmux.HostApi.Service.Requests.{Step, looked, refused, read_catalog, cancelled, submitted}
use kernmux.HostApi.Service.Steps.{dispatch-Step}
use kernmux.HostApi.Service.Tasks.{end_started, Cancellations, end_task, end_pending}
use kernmux.HostApi.Service.Occupancy.{
  length-without, All-nth, acquire-SameMutations, drop-SameMutations, console_not_mutation,
  connection_not_mutation, acquire-kind, drop-mutation, limiter_moved,
}

-- A step that a request takes keeps the account.
module _ {W : Type 0} (limits : ServiceLimits) (disk : ImageStore W) (now : Circumstances)
    (peer : PeerIdentity) (request : LocalRequest) (s : HostState) (w : W) where
  Step-IsAccounted :
      (out : (Result LocalResponse ApiError × HostState) × W)
      → IsAccounted limits s
      → Step disk now peer request s w out
      → IsAccounted limits out.0.1
  Step-IsAccounted out v (looked get e) = subst (IsAccounted limits) (sym e) v
  Step-IsAccounted out v (refused error e) = subst (λ x. IsAccounted limits x.0.1) (sym e) v
  Step-IsAccounted out v (read_catalog get names e world) =
      subst (IsAccounted limits) (sym e) (same_accounts limits s _ refl refl v)
  Step-IsAccounted out v (cancelled id path e) =
      subst (IsAccounted limits) (sym e) (same_accounts limits s _ refl refl v)
  Step-IsAccounted out v (submitted (new, task, asked, from, e)) =
      subst (IsAccounted limits) (sym e) (submit_task-IsAccounted limits s now new task v)

-- What happens to a running host, with the world that it meets.
pub data HostEvent (W : Type 0) : Type 0 where
  requested : LocalRequest → PeerIdentity → Circumstances → W → HostEvent W
  upgrade_requested : LocalRequest → W → HostEvent W
  connected connection_closed console_closed : HostEvent W
  ended : ℕ → Cancellations → Text → W → HostEvent W

module _ {W E F S : Type 0} (runner : KerfRunner W E) (snapshots : SnapshotRefresher W F)
    (disk : ImageStore W) (storage : StorageBackend W S) (codec : Json S) (files : FileSystem W)
    (consoles : ConsoleProxy W) where
  unfoldable pub host_step : HostState → HostEvent W → HostState
  host_step s (requested request peer now w) =
      (dispatch snapshots disk storage codec files now peer request s w).0.1
  host_step s (upgrade_requested request w) = (prepare_upgrade snapshots consoles request s w).0.1
  host_step s connected = record s { limiter = (acquire s.limiter LimitKind.connection).0 }
  host_step s connection_closed = record s {
    limiter = drop s.limiter (record { kind = LimitKind.connection });
  }
  host_step s console_closed = record s {
    limiter = drop s.limiter (record { kind = LimitKind.console });
  }
  host_step s (ended n seen finished_at w) =
      (end_task runner snapshots disk s n seen finished_at w).0

  unfoldable pub host_run : HostState → List (HostEvent W) → HostState
  unfolding host_step
  host_run s [] = s
  host_run s (e ∷ es) = host_run (host_step s e) es

  module _ (limits : ServiceLimits) where
    attached-IsAccounted :
        (id : InstanceId) (permit : ServicePermit) (s : HostState)
        (answer : Result (Unit {0}) ApiError × W)
        → permit.kind ≢ LimitKind.mutation
        → IsAccounted limits s
        → IsAccounted limits (attached snapshots consoles id permit s answer).0.1
    unfolding attached
    attached-IsAccounted id permit s (err e, w) h v =
        limiter_moved limits s _ (drop-SameMutations s.limiter permit h) v
    attached-IsAccounted id permit s (ok u, w) h v = v

    with_permit-IsAccounted :
        (id : InstanceId) (s : HostState) (granted : ServiceLimiter × Result ServicePermit ApiError)
        (w : W)
        → ((p : ServicePermit) → granted.1 ≡ ok p → p.kind ≡ LimitKind.console)
        → IsAccounted limits (record s { limiter = granted.0 })
        → IsAccounted limits (with_permit snapshots consoles id s granted w).0.1
    unfolding with_permit
    with_permit-IsAccounted id s (l, err e) w h v = v
    with_permit-IsAccounted id s (l, ok permit) w h v =
        attached-IsAccounted id permit _ (consoles.attach id w)
          (λ e. console_not_mutation (sym (h permit refl) ∙ e)) v

    read-IsAccounted :
        (id : InstanceId) (s : HostState) (read : Result HostSnapshot F × W)
        → IsAccounted limits s
        → IsAccounted limits (with_snapshot_read snapshots consoles id s read).0.1
    unfolding with_snapshot_read
    read-IsAccounted id s (err e, w) v = v
    read-IsAccounted id s (ok snapshot, w) v = elim (Bool-cases (is_active snapshot id)) [
      | inl active ↦ rw active (
          with_permit-IsAccounted id s (acquire s.limiter LimitKind.console) w
            (acquire-kind s.limiter LimitKind.console)
            (limiter_moved limits s _
              (acquire-SameMutations s.limiter LimitKind.console console_not_mutation) v))
      | inr inactive ↦ rw inactive v
    ]

    upgrade_for-IsAccounted :
        (id : Option InstanceId) (s : HostState) (w : W)
        → IsAccounted limits s
        → IsAccounted limits (upgrade_for snapshots consoles id s w).0.1
    unfolding upgrade_for
    upgrade_for-IsAccounted none s w v = v
    upgrade_for-IsAccounted (some id) s w v = read-IsAccounted id s (snapshots.refresh_snapshot w) v

    -- Whether the task was run or not, the limiter and the tasks are left in the same way.
    end_started-limiter :
        (s : HostState) (rest : List PendingTask) (t : PendingTask) (seen : Cancellations)
        (finished_at : Text) (w : W)
        (x : OperationRegistry × Result Operation OperationRegistryError)
        → let after = (end_started runner snapshots disk s rest t seen finished_at w x).0 in
          (after.limiter ≡ drop s.limiter t.permit) × (after.tasks ≡ rest)
    unfolding end_started
    end_started-limiter s rest t seen finished_at w (registry, err e) = (refl, refl)
    end_started-limiter s rest t seen finished_at w (registry, ok started) = (refl, refl)

    end_task-IsAccounted :
        (s : HostState) (n : ℕ) (seen : Cancellations) (finished_at : Text) (w : W)
        → IsAccounted limits s
        → IsAccounted limits (end_task runner snapshots disk s n seen finished_at w).0
    unfolding end_task end_pending
    end_task-IsAccounted s n seen finished_at w v = elim (Option-cases (nth s.tasks n)) [
      | inl gone ↦ rw gone v
      | inr (t, found) ↦ rw found (
          let (owner, rest) = All-nth OwnsMutation s.tasks n t found v.owned in
          let fewer = length-without s.tasks n t found in
          let counted = v.counted in
          let bounded = v.bounded in
          let (limiter, tasks) =
            end_started-limiter s (without s.tasks n) t seen finished_at w
              (start s.scheduler.registry t.operation_id) in
          same_accounts limits
            (record s { limiter = drop s.limiter t.permit; tasks = without s.tasks n }) _ limiter
            tasks
            (record {
              limits_kept = unfold drop in v.limits_kept;
              counted = drop-mutation s.limiter t.permit owner ∙ omega arith;
              bounded = omega arith;
              owned = rest;
            }))
    ]

    -- Each event keeps the account.
    host_step-IsAccounted :
        (s : HostState) (e : HostEvent W)
        → IsAccounted limits s
        → IsAccounted limits (host_step s e)
    unfolding host_step prepare_upgrade
    host_step-IsAccounted s (requested request peer now w) v =
        Step-IsAccounted limits disk now peer request s w _ v
          (dispatch-Step snapshots disk storage codec files now peer request s w)
    host_step-IsAccounted s (upgrade_requested request w) v = upgrade_for-IsAccounted _ s w v
    host_step-IsAccounted s connected v =
        limiter_moved limits s _
          (acquire-SameMutations s.limiter LimitKind.connection connection_not_mutation) v
    host_step-IsAccounted s connection_closed v =
        limiter_moved limits s _ (drop-SameMutations s.limiter _ connection_not_mutation) v
    host_step-IsAccounted s console_closed v =
        limiter_moved limits s _ (drop-SameMutations s.limiter _ console_not_mutation) v
    host_step-IsAccounted s (ended n seen finished_at w) v =
        end_task-IsAccounted s n seen finished_at w v

    run-IsAccounted :
        (s : HostState) (es : List (HostEvent W))
        → IsAccounted limits s
        → IsAccounted limits (host_run s es)
    unfolding host_run
    run-IsAccounted s [] v = v
    run-IsAccounted s (e ∷ es) v = run-IsAccounted (host_step s e) es (host_step-IsAccounted s e v)

    start-IsAccounted :
        (s : HostState) → s.tasks ≡ [] → new_limiter limits ≡ ok s.limiter → IsAccounted limits s
    start-IsAccounted s empty new =
        let (same, counts) = new_limiter-Counts limits s.limiter new in
        record {
          limits_kept = same;
          counted = (counts LimitKind.mutation).0 ∙ sym (ap length empty);
          bounded =
              subst (λ ts. length ts ≤ limit limits LimitKind.mutation) (sym empty)
                (counts LimitKind.mutation).1;
          owned = subst (All OwnsMutation) (sym empty) tt;
        }

    -- Whatever happens to a host that starts without tasks and with a new limiter - requests,
    -- console upgrades, connections, and the ends of tasks, in any order - the mutation permits
    -- held are as many as the tasks that worker threads hold, and never more than the limit.
    pub host_run-IsAccounted :
        (s : HostState) (es : List (HostEvent W))
        → s.tasks ≡ []
        → new_limiter limits ≡ ok s.limiter
        → IsAccounted limits (host_run s es)
    host_run-IsAccounted s es empty new = run-IsAccounted s es (start-IsAccounted s empty new)
