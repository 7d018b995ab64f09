-- ===== src/HostApi/Service/Building.antt =====
-- What the checks before a submission build.
use kernmux.Prelude.{
  ℕ, ok_injective, ◌≡◌, ◌⊎◌, ◌&&◌, ◌==◌, List, [], ◌∷◌, length, arith, Option, Result, ok, ◌>>=◌,
  ◌>>◌, >>=-eq-ok, if◌then◌else◌,
}
use kernmux.Prelude.Text.{Text}
use kernmux.Api.{OperationKind}
use kernmux.Security.{PeerIdentity}
use kernmux.HostApi.Service.Types.{Circumstances, ResourcePoolMutation}
use kernmux.HostApi.Service.Submission.{pool_operation_kind}

-- What the checks of a load build, if all of them pass.
pub load_built :
    {M K I B E : Type 0} (decoded : Result M E) (kernel : M → Result K E) (initrd : M → Result I E)
    (valid : M → Result (Unit {0}) E) (build : M → K → I → B) (b : B)
    → (decoded >>= λ m. kernel m >>= λ k. initrd m >>= λ i. valid m >> ok (build m k i)) ≡ ok b
    → (m : M) × (k : K) × (i : I) × (build m k i ≡ b)
load_built decoded kernel initrd valid build b h =
    let (m, _, h1) =
      >>=-eq-ok decoded (λ m. kernel m >>= λ k. initrd m >>= λ i. valid m >> ok (build m k i)) h in
    let (k, _, h2) = >>=-eq-ok (kernel m) (λ k. initrd m >>= λ i. valid m >> ok (build m k i)) h1 in
    let (i, _, h3) = >>=-eq-ok (initrd m) (λ i. valid m >> ok (build m k i)) h2 in
    let (_, _, h4) = >>=-eq-ok (valid m) (λ _. ok (build m k i)) h3 in (m, k, i, ok_injective h4)

pub managed_built :
    {M K I B E : Type 0} (decoded : Result M E) (valid : M → Result (Unit {0}) E)
    (kernel : M → Result K E) (initrd : M → Result I E) (build : M → K → I → B) (b : B)
    → (decoded >>= λ m. valid m >> (kernel m >>= λ k. initrd m >>= λ i. ok (build m k i))) ≡ ok b
    → (m : M) × (k : K) × (i : I) × (build m k i ≡ b)
managed_built decoded valid kernel initrd build b h =
    let (m, _, h1) =
      >>=-eq-ok decoded (λ m. valid m >> (kernel m >>= λ k. initrd m >>= λ i. ok (build m k i)))
        h in
    let (_, _, h2) =
      >>=-eq-ok (valid m) (λ _. kernel m >>= λ k. initrd m >>= λ i. ok (build m k i)) h1 in
    let (k, _, h3) = >>=-eq-ok (kernel m) (λ k. initrd m >>= λ i. ok (build m k i)) h2 in
    let (i, _, h4) = >>=-eq-ok (initrd m) (λ i. ok (build m k i)) h3 in (m, k, i, ok_injective h4)

pub pool_operation_kind_cases :
    (now : Circumstances) (peer : PeerIdentity) (audit_id : Option Text)
    (pool : ResourcePoolMutation)
    → ((pool_operation_kind now peer audit_id pool ≡ OperationKind.release_resource_pool)
        × (pool.cpu_hardware_ids ≡ [])
        × (pool.memory_bytes ≡ 0))
      ⊎ (pool_operation_kind now peer audit_id pool ≡ OperationKind.initialize_resource_pool)
unfolding pool_operation_kind
pool_operation_kind_cases now peer audit_id pool = chosen pool.cpu_hardware_ids pool.memory_bytes
  where
    kind_of : List ℕ → ℕ → OperationKind
    kind_of cpus bytes =
        if (length cpus == 0) && (bytes == 0)
        then OperationKind.release_resource_pool
        else OperationKind.initialize_resource_pool

    chosen :
        (cpus : List ℕ) (bytes : ℕ)
        → ((kind_of cpus bytes ≡ OperationKind.release_resource_pool) × (cpus ≡ []) × (bytes ≡ 0))
          ⊎ (kind_of cpus bytes ≡ OperationKind.initialize_resource_pool)
    chosen [] bytes = ground arith
    chosen (c ∷ cs) bytes = ground arith
