-- ===== src/Executor/Verdict.antt =====
-- What `reconcile` decides on the second snapshot and the result of the process.
use kernmux.Prelude.{◌≡◌, ◌↔◌, ◌⊎◌, inl, inr, refl, Bool, true, false, [], ◌∷◌, Result, arith}
use kernmux.Prelude.Order.{nat_ord, bytes_ord}
use kernmux.Api.{HostSnapshot, OperationState, SnapshotHealth, is_healthy}
use kernmux.Lifecycle.{KerfInvocation}
use kernmux.Executor.{
  KerfRunResult, command_failed, state_not_observed, expected_state_observed, reconcile,
  succeeded_process, verdict,
}
use kernmux.Executor.Outcome.{Holds, expected_state_observed_iff}

-- An invocation has done what it was for: a mutation shows in the snapshot, whatever the process
-- said, and a validation is accepted by the process.
abbrev pub Achieved : {E : Type 0} → KerfInvocation → Result KerfRunResult E → HostSnapshot → Type 0
Achieved invocation process snapshot =
    ((invocation.mutates_kernel ≡ true) × Holds invocation.expected_state snapshot)
    ⊎ ((invocation.mutates_kernel ≡ false) × (succeeded_process process ≡ true))

verdict-succeeded :
    (invocation : KerfInvocation) (observed process_ok : Bool) (snapshot : HostSnapshot)
    → ((verdict invocation observed process_ok snapshot).0 ≡ OperationState.succeeded) ↔ (
        (is_healthy snapshot.health ≡ true)
        × (((invocation.mutates_kernel ≡ true) × (observed ≡ true))
            ⊎ ((invocation.mutates_kernel ≡ false) × (process_ok ≡ true))))
unfolding verdict
verdict-succeeded invocation observed process_ok snapshot = ground arith

is_healthy_iff :
    (health : SnapshotHealth) → (is_healthy health ≡ true) ↔ (health ≡ SnapshotHealth.healthy)
is_healthy_iff SnapshotHealth.healthy = (λ _. refl, λ _. refl)
is_healthy_iff SnapshotHealth.indeterminate = (λ h. cc, λ h. cc)
is_healthy_iff SnapshotHealth.unknown = (λ h. cc, λ h. cc)

-- An operation succeeds exactly when the second snapshot is healthy and the invocation achieved
-- its purpose: a mutation by the expected state in that snapshot, a dry run by Kerf's exit code.
pub reconcile-succeeded_iff :
    {E : Type 0} (invocation : KerfInvocation) (process : Result KerfRunResult E)
    (snapshot : HostSnapshot)
    → ((reconcile invocation process snapshot).state ≡ OperationState.succeeded)
      ↔ ((snapshot.health ≡ SnapshotHealth.healthy) × Achieved invocation process snapshot)
unfolding reconcile
reconcile-succeeded_iff invocation process snapshot =
    let observed = expected_state_observed_iff invocation.expected_state snapshot in
    let chosen =
      verdict-succeeded invocation (expected_state_observed invocation.expected_state snapshot)
        (succeeded_process process) snapshot in
    let health = is_healthy_iff snapshot.health in
    (
      λ h. (
        health.0 (chosen.0 h).0,
        elim ((chosen.0 h).1) [ inl (m, o) ↦ inl (m, observed.0 o) | inr p ↦ inr p ],
      ),
      λ h.
          chosen.1
            (health.1 h.0, elim (h.1) [ inl (m, o) ↦ inl (m, observed.1 o) | inr p ↦ inr p ]),
    )

verdict_cases :
    (invocation : KerfInvocation) (observed process_ok : Bool) (snapshot : HostSnapshot)
    → let chosen = verdict invocation observed process_ok snapshot in
      ((is_healthy snapshot.health ≡ false)
        × (chosen.0 ≡ OperationState.indeterminate)
        × (chosen.1 ≡ snapshot.diagnostics))
      ⊎ ((is_healthy snapshot.health ≡ true)
          × (((chosen.0 ≡ OperationState.succeeded) × ((chosen.1 ≡ []) ↔ (process_ok ≡ true)))
              ⊎ ((chosen.0 ≡ OperationState.failed)
                  × ((chosen.1 ≡ state_not_observed ∷ []) ⊎ (chosen.1 ≡ command_failed ∷ [])))))
unfolding verdict
verdict_cases invocation observed process_ok snapshot = ground arith

-- Without a healthy second snapshot the outcome is indeterminate and carries that snapshot's
-- diagnostics; with one it is a success, reported without a diagnostic exactly when the process
-- succeeded too, or a failure with a single diagnostic. The snapshot read last is returned.
pub reconcile_cases :
    {E : Type 0} (invocation : KerfInvocation) (process : Result KerfRunResult E)
    (snapshot : HostSnapshot)
    → let outcome = reconcile invocation process snapshot in
      (outcome.snapshot ≡ snapshot)
      × (((is_healthy snapshot.health ≡ false)
            × (outcome.state ≡ OperationState.indeterminate)
            × (outcome.diagnostics ≡ snapshot.diagnostics))
          ⊎ ((is_healthy snapshot.health ≡ true)
              × (((outcome.state ≡ OperationState.succeeded)
                    × ((outcome.diagnostics ≡ []) ↔ (succeeded_process process ≡ true)))
                  ⊎ ((outcome.state ≡ OperationState.failed)
                      × ((outcome.diagnostics ≡ state_not_observed ∷ [])
                          ⊎ (outcome.diagnostics ≡ command_failed ∷ []))))))
unfolding reconcile
reconcile_cases invocation process snapshot = (
  refl,
  verdict_cases invocation (expected_state_observed invocation.expected_state snapshot)
      (succeeded_process process) snapshot,
)
