-- ===== src/Lifecycle/Plan/Creation.antt =====
-- The arguments of an accepted create command, read back by an independent reader.
use kernmux.Prelude.{
  ℕ, ◌≡◌, ◌≢◌, refl, sym, ap, ◌∙◌, true, not, List, [], ◌∷◌, ◌++◌, map, Option, none, some, any,
  ◌==◌, if◌then◌else◌, ok, reject_if, map_err, >>=-eq-ok, arith,
}
use kernmux.Prelude.Text.{Text, text, decimal, split, value, value-decimal, split-join_decimals}
use kernmux.Api.{HostSnapshot, InstanceState}
use kernmux.Placement.{validate_instance_cpus}
use kernmux.Lifecycle.Requests.{
  CreateRequest, ExpectedState, LifecycleRequest, KerfInvocation, LifecyclePlanError,
}
use kernmux.Lifecycle.Checks.{
  IsSafeName, validate_cpus, validate_cpus_iff, validate_id, validate_name,
  validate_name-IsSafeName,
}
use kernmux.Lifecycle.Memory.{validate_create_memory}
use kernmux.Lifecycle.Plan.{
  cpu_list, plan, dispatch, create_invocation, is_taken, plan_create, zero_memory,
}

-- The text after a prefix.
abbrev strip_prefix : Text → Text → Option Text
strip_prefix [] cs = some cs
strip_prefix (p ∷ ps) [] = none
strip_prefix (p ∷ ps) (c ∷ cs) = if p == c then strip_prefix ps cs else none

strip_prefix_lem : (p cs : Text) → strip_prefix p (p ++ cs) ≡ some cs
strip_prefix_lem [] cs = refl
strip_prefix_lem (x ∷ p) cs = ground (arith, strip_prefix_lem p cs)

-- What a create command asks for.
pub record Created : Type 0 where
  pub name : Text
  pub id : ℕ
  pub cpus : List ℕ
  pub memory : ℕ

abbrev read_fields : Text → Option Text → Option Text → Option Text → Option Created
read_fields name (some id) (some cpus) (some memory) =
    some
      (record { name = name; id = value id; cpus = map value (split cpus); memory = value memory })
read_fields name _ _ _ = none

-- A reader of the command line `create NAME --id=N --cpus=N,N --memory=N`.
unfoldable pub read_create : List Text → Option Created
read_create (command ∷ name ∷ id ∷ cpus ∷ memory ∷ []) =
    read_fields name (strip_prefix (text "--id=") id) (strip_prefix (text "--cpus=") cpus)
      (strip_prefix (text "--memory=") memory)
read_create _ = none

-- The request as the reader sees it.
abbrev pub created : CreateRequest → Created
created request = record {
  name = request.name;
  id = request.id;
  cpus = request.cpu_hardware_ids;
  memory = request.memory_bytes;
}

read_cpu_list : (cpus : List ℕ) → cpus ≢ [] → map value (split (cpu_list cpus)) ≡ cpus
unfolding cpu_list
read_cpu_list [] h = absurd (h refl)
read_cpu_list (n ∷ ns) h = split-join_decimals n ns

abbrev fields : Text → ℕ → ℕ → List ℕ → Created
fields name id memory cpus = record { name = name; id = id; cpus = cpus; memory = memory }

read_fields_lem :
    (name : Text) (a c : ℕ) (cpus : List ℕ)
    → cpus ≢ []
    → read_fields name (some (decimal a)) (some (cpu_list cpus)) (some (decimal c))
      ≡ some (record { name = name; id = a; cpus = cpus; memory = c })
read_fields_lem name a c cpus h =
    rw (value-decimal a, value-decimal c)
      ((ap (λ cs. some (fields name a c cs)) (read_cpu_list cpus h)))

read-create_invocation :
    (request : CreateRequest)
    → request.cpu_hardware_ids ≢ []
    → read_create (create_invocation request).arguments ≡ some (created request)
unfolding read_create create_invocation
read-create_invocation request h =
    let id = strip_prefix_lem (text "--id=") (decimal request.id) in
    let cpus = strip_prefix_lem (text "--cpus=") (cpu_list request.cpu_hardware_ids) in
    let memory = strip_prefix_lem (text "--memory=") (decimal request.memory_bytes) in
    cc (
      id,
      cpus,
      memory,
      read_fields_lem request.name request.id request.memory_bytes request.cpu_hardware_ids h,
    )

-- What an accepted create request has passed.
plan_create-ok :
    (request : CreateRequest) (snapshot : HostSnapshot) (invocation : KerfInvocation)
    → plan_create request snapshot ≡ ok invocation
    → (create_invocation request ≡ invocation)
      × IsSafeName request.name
      × (request.cpu_hardware_ids ≢ [])
unfolding plan_create
plan_create-ok request snapshot invocation h =
    let (_, name, h1) = >>=-eq-ok (validate_name request.name) _ h in
    let (_, _, h2) = >>=-eq-ok (validate_id request.id) _ h1 in
    let (_, cpus, h3) = >>=-eq-ok (validate_cpus request.cpu_hardware_ids) _ h2 in
    let (_, _, h4) =
      >>=-eq-ok
        (map_err LifecyclePlanError.cpu_placement
          (validate_instance_cpus snapshot request.cpu_hardware_ids []))
        _ h3 in
    let (_, _, h5) = >>=-eq-ok (reject_if (request.memory_bytes == 0) zero_memory) _ h4 in
    let (_, _, h6) =
      >>=-eq-ok
        (reject_if (any (is_taken request) snapshot.instances) LifecyclePlanError.already_exists) _
        h5 in
    let (_, _, made) =
      >>=-eq-ok
        (map_err LifecyclePlanError.memory_placement
          (validate_create_memory snapshot request.memory_bytes))
        _ h6 in
    (
      cc,
      validate_name-IsSafeName request.name name,
      ((validate_cpus_iff request.cpu_hardware_ids).0 cpus).0,
    )

-- The command line of an accepted create request reads back as the request, and its name cannot be
-- taken for an option.
pub plan_create-read :
    (request : CreateRequest) (snapshot : HostSnapshot) (invocation : KerfInvocation)
    → plan_create request snapshot ≡ ok invocation
    → (read_create invocation.arguments ≡ some (created request)) × IsSafeName request.name
plan_create-read request snapshot invocation h =
    let (is, name, cpus) = plan_create-ok request snapshot invocation h in
    (ap (λ i. read_create i.arguments) (sym is) ∙ read-create_invocation request cpus, name)

pub plan-create-invocation :
    (request : CreateRequest) (snapshot : HostSnapshot) (invocation : KerfInvocation)
    → plan (LifecycleRequest.create request) snapshot ≡ ok invocation
    → create_invocation request ≡ invocation
unfolding plan dispatch
plan-create-invocation request snapshot invocation h =
    let (_, _, planned) =
      >>=-eq-ok
        (reject_if (not (request.expected_generation == snapshot.generation))
          (LifecyclePlanError.stale_generation request.expected_generation snapshot.generation))
        _ h in
    (plan_create-ok request snapshot invocation planned).0

pub create_invocation_expectation :
    (request : CreateRequest)
    → ((create_invocation request).expected_state
        ≡ ExpectedState.instance_resources (record {
          id = request.id;
          state = InstanceState.ready;
          name = some request.name;
          cpu_hardware_ids = some request.cpu_hardware_ids;
          memory_bytes = some request.memory_bytes;
          device_ids = none;
        }))
      × ((create_invocation request).mutates_kernel ≡ true)
unfolding create_invocation
create_invocation_expectation request = (refl, refl)
