-- ===== src/Lifecycle/Plan.antt =====
-- The planner of lifecycle.rs: a request and a snapshot give a Kerf command or a rejection.
pub mod Transitions
pub mod Creation
pub mod Acceptance
use kernmux.Prelude.{
  ℕ, Bool, true, false, not, ◌&&◌, ◌||◌, List, [], ◌∷◌, ◌++◌, map, Option, none, some, any, find,
  ◌==◌, if◌then◌else◌, Result, ok, err, ◌>>=◌, ◌>>◌, reject_if, map_err, ok_or,
}
use kernmux.Prelude.Text.{Text, text, decimal, join}
use kernmux.Prelude.Order.{same, bytes_ord}
use kernmux.Api.{Generation, HostSnapshot, Instance, InstanceId, InstanceState, same_state}
use kernmux.Placement.{validate_instance_cpus}
use kernmux.Lifecycle.Requests.{
  CreateRequest, DevicePlacementError, ExpectedState, InstanceRequest, KerfInvocation,
  LifecyclePlanError, LifecycleRequest, LoadRequest, StopRequest, UpdateRequest,
}
use kernmux.Lifecycle.Checks.{is_empty, validate_cpus, validate_id, validate_name}
use kernmux.Lifecycle.Memory.{validate_create_memory, validate_update_memory}
use kernmux.Lifecycle.Devices.{validate_update_devices}

abbrev pub PlanResult : Type 0
PlanResult = Result KerfInvocation LifecyclePlanError

-- `format!("{prefix}{value}")`, and the same for a path.
abbrev pub option : Text → Text → Text
option prefix value = prefix ++ value

-- The ids, in decimal and with commas.
pub cpu_list : List ℕ → Text
cpu_list cpus = join (map decimal cpus)

abbrev id_option : InstanceId → Text
id_option id = option (text "--id=") (decimal id)

unfoldable pub require_instance :
    HostSnapshot → InstanceId → InstanceState → Result Instance LifecyclePlanError
require_instance snapshot id required = do
  validate_id id
  found ← ok_or (find (λ i. i.id == id) snapshot.instances) LifecyclePlanError.not_found
  reject_if (not (same_state found.state required))
      (LifecyclePlanError.invalid_state required found.state)
  ok found

unfoldable pub require_state :
    HostSnapshot → InstanceId → InstanceState → Result (Unit {0}) LifecyclePlanError
unfolding require_instance
require_state snapshot id required = do found ← require_instance snapshot id required; ok tt

unfoldable pub create_invocation : CreateRequest → KerfInvocation
unfolding cpu_list
create_invocation request = record {
  arguments =
      text "create"
      ∷ request.name
      ∷ id_option request.id
      ∷ option (text "--cpus=") (cpu_list request.cpu_hardware_ids)
      ∷ option (text "--memory=") (decimal request.memory_bytes)
      ∷ [];
  expected_state = ExpectedState.instance_resources (record {
    id = request.id;
    state = InstanceState.ready;
    name = some request.name;
    cpu_hardware_ids = some request.cpu_hardware_ids;
    memory_bytes = some request.memory_bytes;
    device_ids = none;
  });
  mutates_kernel = true;
}

abbrev pub zero_memory : LifecyclePlanError
zero_memory =
    LifecyclePlanError.invalid_request (text "memory allocation must be greater than zero")

-- `any(|instance| instance.id == request.id || instance.name == request.name)`.
abbrev pub is_taken : CreateRequest → Instance → Bool
is_taken request i = i.id == request.id || same i.name request.name

unfoldable pub plan_create : CreateRequest → HostSnapshot → PlanResult
plan_create request snapshot = do
  validate_name request.name
  validate_id request.id
  validate_cpus request.cpu_hardware_ids
  map_err LifecyclePlanError.cpu_placement
      (validate_instance_cpus snapshot request.cpu_hardware_ids [])
  reject_if (request.memory_bytes == 0) zero_memory
  reject_if (any (is_taken request) snapshot.instances) LifecyclePlanError.already_exists
  map_err LifecyclePlanError.memory_placement (validate_create_memory snapshot request.memory_bytes)
  ok (create_invocation request)

-- The arguments that each selected resource of an update adds, once it is checked.
pub cpu_arguments :
    HostSnapshot → Instance → Option (List ℕ) → Result (List Text) LifecyclePlanError
cpu_arguments snapshot found none = ok []
cpu_arguments snapshot found (some cpus) = do
  validate_cpus cpus
  map_err LifecyclePlanError.cpu_placement
      (validate_instance_cpus snapshot cpus found.resources.cpu_hardware_ids)
  ok (option (text "--cpus=") (cpu_list cpus) ∷ [])

pub memory_arguments : HostSnapshot → Instance → Option ℕ → Result (List Text) LifecyclePlanError
memory_arguments snapshot found none = ok []
memory_arguments snapshot found (some memory) = do
  reject_if (memory == 0) zero_memory
  map_err LifecyclePlanError.memory_placement (validate_update_memory snapshot found memory)
  ok (option (text "--memory=") (decimal memory) ∷ [])

pub device_arguments :
    HostSnapshot → Instance → Option (List Text) → Result (List Text) LifecyclePlanError
device_arguments snapshot found none = ok []
device_arguments snapshot found (some devices) = do
  map_err LifecyclePlanError.device_placement (validate_update_devices snapshot found devices)
  ok (option (text "--devices=") (join devices) ∷ [])

abbrev is_none {ℓ} : {A : Type ℓ} → Option A → Bool
is_none none = true
is_none (some a) = false

pub update_invocation :
    UpdateRequest → Instance → List Text → List Text → List Text → KerfInvocation
update_invocation request found cpus memory devices = record {
  arguments =
      text "update" ∷ found.name ∷ cpus
      ++ memory
      ++ devices
      ++ (if request.dry_run then text "--dry-run" ∷ [] else []);
  expected_state = ExpectedState.instance_resources (record {
    id = request.instance_request.id;
    state = InstanceState.ready;
    name = none;
    cpu_hardware_ids = request.cpu_hardware_ids;
    memory_bytes = request.memory_bytes;
    device_ids = request.device_ids;
  });
  mutates_kernel = not request.dry_run;
}

abbrev pub nothing_selected : LifecyclePlanError
nothing_selected =
    LifecyclePlanError.invalid_request
      (text "an update must specify CPU, memory, or device resources")

abbrev pub selects_nothing : UpdateRequest → Bool
selects_nothing request =
    is_none request.cpu_hardware_ids && is_none request.memory_bytes && is_none request.device_ids

unfoldable pub plan_update : UpdateRequest → HostSnapshot → PlanResult
plan_update request snapshot = do
  found ← require_instance snapshot request.instance_request.id InstanceState.ready
  validate_name found.name
  reject_if (selects_nothing request) nothing_selected
  cpus ← cpu_arguments snapshot found request.cpu_hardware_ids
  memory ← memory_arguments snapshot found request.memory_bytes
  devices ← device_arguments snapshot found request.device_ids
  ok (update_invocation request found cpus memory devices)

pub initrd_arguments : Option Text → Result (List Text) LifecyclePlanError
initrd_arguments none = ok []
initrd_arguments (some initrd) = do
  reject_if (is_empty initrd)
      (LifecyclePlanError.invalid_request (text "initrd path must not be empty"))
  ok (option (text "--initrd=") initrd ∷ [])

abbrev cmdline_arguments : Option Text → List Text
cmdline_arguments none = []
cmdline_arguments (some cmdline) = option (text "--cmdline=") cmdline ∷ []

abbrev pub no_kernel : LifecyclePlanError
no_kernel = LifecyclePlanError.invalid_request (text "kernel path must not be empty")

pub load_invocation : LoadRequest → List Text → KerfInvocation
load_invocation request initrd = record {
  arguments =
      text "load"
        ∷ id_option request.instance_request.id
        ∷ option (text "--kernel=") request.kernel
        ∷ initrd
      ++ cmdline_arguments request.cmdline;
  expected_state = ExpectedState.instance_state request.instance_request.id InstanceState.loaded;
  mutates_kernel = true;
}

unfoldable pub plan_load : LoadRequest → HostSnapshot → PlanResult
plan_load request snapshot = do
  require_state snapshot request.instance_request.id InstanceState.ready
  reject_if (is_empty request.kernel) no_kernel
  initrd ← initrd_arguments request.initrd
  ok (load_invocation request initrd)

pub stop_invocation : StopRequest → KerfInvocation
stop_invocation request = record {
  arguments =
      text "kill"
      ∷ id_option request.instance_request.id
      ∷ (if request.force then text "--force" ∷ [] else []);
  expected_state = ExpectedState.instance_state request.instance_request.id InstanceState.loaded;
  mutates_kernel = true;
}

unfoldable pub plan_stop : StopRequest → HostSnapshot → PlanResult
plan_stop request snapshot = do
  require_state snapshot request.instance_request.id InstanceState.active
  ok (stop_invocation request)

abbrev pub state_expectation : InstanceId → InstanceState → ExpectedState
state_expectation id expected =
    if same_state expected InstanceState.absent
    then ExpectedState.absent id
    else ExpectedState.instance_state id expected

unfoldable pub state_invocation : Text → InstanceRequest → InstanceState → KerfInvocation
state_invocation command request expected = record {
  arguments = command ∷ id_option request.id ∷ [];
  expected_state = state_expectation request.id expected;
  mutates_kernel = true;
}

unfoldable pub plan_state_command :
    Text → InstanceRequest → HostSnapshot → InstanceState → InstanceState → PlanResult
plan_state_command command request snapshot required expected = do
  require_state snapshot request.id required
  ok (state_invocation command request expected)

abbrev pub expected_generation : LifecycleRequest → Generation
expected_generation (LifecycleRequest.create request) = request.expected_generation
expected_generation (LifecycleRequest.update request) = request.instance_request.expected_generation
expected_generation (LifecycleRequest.load request) = request.instance_request.expected_generation
expected_generation (LifecycleRequest.start request) = request.expected_generation
expected_generation (LifecycleRequest.stop request) = request.instance_request.expected_generation
expected_generation (LifecycleRequest.unload request) = request.expected_generation
expected_generation (LifecycleRequest.delete request) = request.expected_generation

unfoldable pub dispatch : LifecycleRequest → HostSnapshot → PlanResult
unfolding plan_create plan_update plan_load plan_stop plan_state_command
dispatch (LifecycleRequest.create request) snapshot = plan_create request snapshot
dispatch (LifecycleRequest.update request) snapshot = plan_update request snapshot
dispatch (LifecycleRequest.load request) snapshot = plan_load request snapshot
dispatch (LifecycleRequest.start request) snapshot =
    plan_state_command (text "exec") request snapshot InstanceState.loaded InstanceState.active
dispatch (LifecycleRequest.stop request) snapshot = plan_stop request snapshot
dispatch (LifecycleRequest.unload request) snapshot =
    plan_state_command (text "unload") request snapshot InstanceState.loaded InstanceState.ready
dispatch (LifecycleRequest.delete request) snapshot =
    plan_state_command (text "delete") request snapshot InstanceState.ready InstanceState.absent

unfoldable pub plan : LifecycleRequest → HostSnapshot → PlanResult
plan request snapshot = do
  reject_if (not (expected_generation request == snapshot.generation))
      (LifecyclePlanError.stale_generation (expected_generation request) snapshot.generation)
  dispatch request snapshot
