-- ===== src/HostApi/Service/Tests.antt =====
-- Runs and instances on the small host.
use kernmux.Prelude.{
  ◌≡◌, ◌↔◌, ◌⊎◌, ◌<◌, refl, true, false, none, some, List, [], ◌∷◌, length, ok, arith,
}
use kernmux.Prelude.Text.{text}
use kernmux.Api.{HostSnapshot}
use kernmux.Sample.{host}
use kernmux.HostApi.{InstanceAction, instance_resource}
use kernmux.HostApi.Addresses.{instance_path, instance_resource-path}
use kernmux.HostApi.Service.Containment.{IsContained, resolve_image_iff}
use kernmux.HostApi.Service.Files.{resolve_image}
use kernmux.HostApi.Service.Permits.{
  IsAbandoned, IsAcceptance, IsAccounted, IsCreated, IsFailure, IsRefusal, submit_task_cases,
}
use kernmux.HostApi.Service.Results.{run_task-IsFinal}
use kernmux.HostApi.Service.Runs.{HostEvent, ended, host_run, host_run-IsAccounted, requested}
use kernmux.HostApi.Service.Sample.{
  codec, consoles, idle, inventory, limits, links, no_images, no_storage, now, operator, runner,
  start_beta,
}
use kernmux.HostApi.Service.Submission.{submit_task}
use kernmux.HostApi.Service.Tasks.{Cancellations, run_task}
use kernmux.HostApi.Service.Types.{Task}
use kernmux.Lifecycle.{LifecycleRequest}
use kernmux.Operations.{NewOperation, new}
use kernmux.Operations.Invariant.{new-Inv}
use kernmux.Api.{OperationKind}
use kernmux.Scheduler.Results.{IsFinal}
use kernmux.Security.{LimitKind, limit, new_limiter, validate}

abbrev events : List (HostEvent HostSnapshot)
events =
    requested start_beta operator now host
    ∷ requested start_beta operator now host
    ∷ ended 0 (record { first = false; second = false; third = false }) (text "t2") host
    ∷ requested start_beta operator now host
    ∷ []

idle_limiter : new_limiter limits ≡ ok idle.limiter
unfolding new_limiter validate
idle_limiter = refl

host_run-IsAccounted_example :
    IsAccounted limits
      (host_run runner inventory no_images no_storage codec links consoles idle events)
host_run-IsAccounted_example =
    host_run-IsAccounted runner inventory no_images no_storage codec links consoles limits idle
      events refl idle_limiter

abbrev start_task : Task
start_task = Task.lifecycle (LifecycleRequest.start (record { expected_generation = 7; id = 2 }))

abbrev start_operation : NewOperation
start_operation = record {
  kind = OperationKind.start_instance;
  expected_generation = 7;
  affected_resources = [];
  actor = some operator.actor;
  audit_id = none;
  created_at = text "t0";
}

idle-IsAccounted : IsAccounted limits idle
unfolding host_run
idle-IsAccounted =
    host_run-IsAccounted runner inventory no_images no_storage codec links consoles limits idle []
      refl idle_limiter

idle_new : new 8 8 ≡ ok idle.scheduler.registry
unfolding new
idle_new = refl

submit_task_cases_example :
    let out = submit_task idle now start_operation start_task in
    IsRefusal limits idle out
    ⊎ ((length idle.tasks < limit limits LimitKind.mutation)
        × (((now.spawned ≡ true)
              × IsAcceptance start_operation start_task idle out
              × IsCreated start_operation idle out.0)
            ⊎ ((now.spawned ≡ false)
                × IsFailure idle out
                × IsAbandoned start_operation idle out.0)))
submit_task_cases_example =
    submit_task_cases limits idle now start_operation start_task idle-IsAccounted
      (new-Inv 8 8 idle.scheduler.registry idle_new)

abbrev seen : Cancellations
seen = record { first = true; second = true; third = true }

run_task-IsFinal_example :
    IsFinal (run_task runner inventory no_images start_task seen idle.image_catalog host).0.0
run_task-IsFinal_example =
    run_task-IsFinal runner inventory no_images start_task seen idle.image_catalog host

instance_resource-path_example :
    instance_resource (instance_path 2 (some InstanceAction.start))
    ≡ some (2, some InstanceAction.start)
instance_resource-path_example = instance_resource-path 2 (some InstanceAction.start) (omega arith)

resolve_image_iff_example :
    (resolve_image links (text "/boot" ∷ []) (text "/boot/latest") host
      ≡ ok (text "/boot/vmlinuz-1"))
    ↔ IsContained links (text "/boot" ∷ []) (text "/boot/latest") host (text "/boot/vmlinuz-1")
resolve_image_iff_example =
    resolve_image_iff links (text "/boot" ∷ []) (text "/boot/latest") host (text "/boot/vmlinuz-1")
