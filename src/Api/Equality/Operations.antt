-- ===== src/Api/Equality/Operations.antt =====
-- `==` of operations and of what they are made of.
use kernmux.Prelude.Text.{Text}
use kernmux.Prelude.{ℕ, Bool, List, Option, ◌≡◌, ◌↔◌, refl, true, arith, ◌==◌}
use kernmux.Prelude.Equality.{Eq, via, nat_eq, bool_eq, list_eq, option_eq, pair_eq}
use kernmux.Api.{
  Generation, OperationId, OperationKind, OperationState, ResourceKind, ResourceReference, Actor,
  DiagnosticSeverity, Diagnostic, ErrorCode, ApiError, Operation,
}

abbrev operation_kind_number : OperationKind → ℕ
operation_kind_number OperationKind.initialize_resource_pool = 0
operation_kind_number OperationKind.release_resource_pool = 1
operation_kind_number OperationKind.create_instance = 2
operation_kind_number OperationKind.update_instance = 3
operation_kind_number OperationKind.load_instance = 4
operation_kind_number OperationKind.start_instance = 5
operation_kind_number OperationKind.stop_instance = 6
operation_kind_number OperationKind.unload_instance = 7
operation_kind_number OperationKind.delete_instance = 8
operation_kind_number OperationKind.open_console = 9
operation_kind_number OperationKind.import_image = 10
operation_kind_number OperationKind.import_os_image = 11
operation_kind_number OperationKind.unknown = 12

pub operation_kind_iff :
    (a b : OperationKind) → ((operation_kind_number a == operation_kind_number b) ≡ true) ↔ (a ≡ b)
operation_kind_iff a b = ground arith

instance abbrev pub operation_kind_eq : Eq OperationKind
operation_kind_eq = record {
  eq = λ a b. operation_kind_number a == operation_kind_number b;
  eq_iff = operation_kind_iff;
}

abbrev operation_state_number : OperationState → ℕ
operation_state_number OperationState.queued = 0
operation_state_number OperationState.running = 1
operation_state_number OperationState.succeeded = 2
operation_state_number OperationState.failed = 3
operation_state_number OperationState.cancelled = 4
operation_state_number OperationState.indeterminate = 5
operation_state_number OperationState.unknown = 6

pub operation_state_iff :
    (a b : OperationState)
    → ((operation_state_number a == operation_state_number b) ≡ true) ↔ (a ≡ b)
operation_state_iff a b = ground arith

instance abbrev pub operation_state_eq : Eq OperationState
operation_state_eq = record {
  eq = λ a b. operation_state_number a == operation_state_number b;
  eq_iff = operation_state_iff;
}

abbrev resource_kind_number : ResourceKind → ℕ
resource_kind_number ResourceKind.host = 0
resource_kind_number ResourceKind.resource_pool = 1
resource_kind_number ResourceKind.instance = 2
resource_kind_number ResourceKind.device = 3
resource_kind_number ResourceKind.console = 4
resource_kind_number ResourceKind.image = 5
resource_kind_number ResourceKind.os_image = 6
resource_kind_number ResourceKind.unknown = 7

pub resource_kind_iff :
    (a b : ResourceKind) → ((resource_kind_number a == resource_kind_number b) ≡ true) ↔ (a ≡ b)
resource_kind_iff a b = ground arith

instance abbrev pub resource_kind_eq : Eq ResourceKind
resource_kind_eq = record {
  eq = λ a b. resource_kind_number a == resource_kind_number b;
  eq_iff = resource_kind_iff;
}

instance abbrev pub resource_reference_eq : Eq ResourceReference
resource_reference_eq =
    via {B = ResourceKind × (Text)} (λ (x : ResourceReference). (x.kind, x.id))
      (λ p. record { kind = p.0; id = p.1 }) (λ x. refl)

instance abbrev pub actor_eq : Eq Actor
actor_eq =
    via {B = ℕ × (ℕ × (Option Text))} (λ (x : Actor). (x.uid, (x.gid, x.label)))
      (λ p. record { uid = p.0; gid = p.1.0; label = p.1.1 }) (λ x. refl)

abbrev diagnostic_severity_number : DiagnosticSeverity → ℕ
diagnostic_severity_number DiagnosticSeverity.info = 0
diagnostic_severity_number DiagnosticSeverity.warning = 1
diagnostic_severity_number DiagnosticSeverity.error = 2
diagnostic_severity_number DiagnosticSeverity.unknown = 3

pub diagnostic_severity_iff :
    (a b : DiagnosticSeverity)
    → ((diagnostic_severity_number a == diagnostic_severity_number b) ≡ true) ↔ (a ≡ b)
diagnostic_severity_iff a b = ground arith

instance abbrev pub diagnostic_severity_eq : Eq DiagnosticSeverity
diagnostic_severity_eq = record {
  eq = λ a b. diagnostic_severity_number a == diagnostic_severity_number b;
  eq_iff = diagnostic_severity_iff;
}

instance abbrev pub diagnostic_eq : Eq Diagnostic
diagnostic_eq =
    via {B = Text × (DiagnosticSeverity × (Text × (Option Text × (Bool))))}
      (λ (x : Diagnostic). (x.code, (x.severity, (x.message, (x.detail, x.redacted)))))
      (λ p. record {
        code = p.0;
        severity = p.1.0;
        message = p.1.1.0;
        detail = p.1.1.1.0;
        redacted = p.1.1.1.1;
      })
      (λ x. refl)

abbrev error_code_number : ErrorCode → ℕ
error_code_number ErrorCode.invalid_request = 0
error_code_number ErrorCode.unauthorized = 1
error_code_number ErrorCode.forbidden = 2
error_code_number ErrorCode.not_found = 3
error_code_number ErrorCode.conflict = 4
error_code_number ErrorCode.precondition_failed = 5
error_code_number ErrorCode.unsupported = 6
error_code_number ErrorCode.backend_unavailable = 7
error_code_number ErrorCode.timeout = 8
error_code_number ErrorCode.internal = 9
error_code_number ErrorCode.unknown = 10

pub error_code_iff :
    (a b : ErrorCode) → ((error_code_number a == error_code_number b) ≡ true) ↔ (a ≡ b)
error_code_iff a b = ground arith

instance abbrev pub error_code_eq : Eq ErrorCode
error_code_eq = record {
  eq = λ a b. error_code_number a == error_code_number b;
  eq_iff = error_code_iff;
}

instance abbrev pub api_error_eq : Eq ApiError
api_error_eq =
    via {B = ErrorCode × (Text × (Bool × (Option Generation × (List Diagnostic))))}
      (λ (x : ApiError).
        (x.code, (x.message, (x.retryable, (x.current_generation, x.diagnostics)))))
      (λ p. record {
        code = p.0;
        message = p.1.0;
        retryable = p.1.1.0;
        current_generation = p.1.1.1.0;
        diagnostics = p.1.1.1.1;
      })
      (λ x. refl)

instance abbrev pub operation_eq : Eq Operation
operation_eq =
    via
      {B = OperationId
        × (OperationKind
            × (OperationState
                × (Option ℕ
                    × (Generation
                        × (Option Generation
                            × (List ResourceReference
                                × (Option ApiError
                                    × (Option Actor
                                        × (Option Text × (Text × (Option Text)))))))))))}
      (λ (x : Operation). (
        x.id,
        (
          x.kind,
          (
            x.state,
            (
              x.progress_percent,
              (
                x.expected_generation,
                (
                  x.observed_generation,
                  (
                    x.affected_resources,
                    (x.error, (x.actor, (x.audit_id, (x.created_at, x.completed_at)))),
                  ),
                ),
              ),
            ),
          ),
        ),
      ))
      (λ p. record {
        id = p.0;
        kind = p.1.0;
        state = p.1.1.0;
        progress_percent = p.1.1.1.0;
        expected_generation = p.1.1.1.1.0;
        observed_generation = p.1.1.1.1.1.0;
        affected_resources = p.1.1.1.1.1.1.0;
        error = p.1.1.1.1.1.1.1.0;
        actor = p.1.1.1.1.1.1.1.1.0;
        audit_id = p.1.1.1.1.1.1.1.1.1.0;
        created_at = p.1.1.1.1.1.1.1.1.1.1.0;
        completed_at = p.1.1.1.1.1.1.1.1.1.1.1;
      })
      (λ x. refl)
