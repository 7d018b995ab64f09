-- ===== src/Api/Events.antt =====
-- Operations, events, errors and diagnostics of v1.rs.
use kernmux.Prelude.{ℕ, ◌≡◌, ◌↔◌, Bool, Option, List, arith, ◌==◌, leb, ◌&&◌, saturating_add, true}
use kernmux.Prelude.Text.{Text}

-- Generation of an authoritative host snapshot.
abbrev pub Generation : Type 0
Generation = ℕ

-- Monotonic sequence number in the host event stream.
abbrev pub EventSequence : Type 0
EventSequence = ℕ

-- Stable identifier assigned to a managed kernel instance.
abbrev pub InstanceId : Type 0
InstanceId = ℕ

-- Stable identifier assigned to an asynchronous operation.
abbrev pub OperationId : Type 0
OperationId = Text

-- Requested class of host mutation.
pub data OperationKind : Type 0 where
  initialize_resource_pool release_resource_pool create_instance update_instance load_instance
        start_instance stop_instance unload_instance delete_instance open_console import_image
        import_os_image unknown :
      OperationKind

-- Execution state of an asynchronous operation.
pub data OperationState : Type 0 where
  queued running succeeded failed cancelled indeterminate unknown : OperationState

-- Kind of managed resource.
pub data ResourceKind : Type 0 where
  host resource_pool instance device console image os_image unknown : ResourceKind

-- Resource affected by an operation or event.
pub record ResourceReference : Type 0 where
  pub kind : ResourceKind
  pub id : Text

-- Local identity that requested a privileged operation.
pub record Actor : Type 0 where
  pub uid : ℕ
  pub gid : ℕ
  pub label : Option Text

-- Severity of a diagnostic.
pub data DiagnosticSeverity : Type 0 where
  info warning error unknown : DiagnosticSeverity

-- Diagnostic suitable for presentation after redaction by the service.
pub record Diagnostic : Type 0 where
  pub code : Text
  pub severity : DiagnosticSeverity
  pub message : Text
  pub detail : Option Text
  pub redacted : Bool

-- Stable category of API failure.
pub data ErrorCode : Type 0 where
  invalid_request unauthorized forbidden not_found conflict precondition_failed unsupported
        backend_unavailable timeout internal unknown :
      ErrorCode

-- Stable error returned by the management API.
pub record ApiError : Type 0 where
  pub code : ErrorCode
  pub message : Text
  pub retryable : Bool
  pub current_generation : Option Generation
  pub diagnostics : List Diagnostic

-- One asynchronous host mutation.
pub record Operation : Type 0 where
  pub id : OperationId
  pub kind : OperationKind
  pub state : OperationState
  pub progress_percent : Option ℕ
  pub expected_generation : Generation
  pub observed_generation : Option Generation
  pub affected_resources : List ResourceReference
  pub error : Option ApiError
  pub actor : Option Actor
  pub audit_id : Option Text
  pub created_at : Text
  pub completed_at : Option Text

-- Kind of state invalidation event.
pub data EventKind : Type 0 where
  snapshot_changed capabilities_changed instance_changed operation_changed stream_overflow unknown :
      EventKind

-- Event indicating that clients may need to refresh authoritative state.
pub record Event : Type 0 where
  pub sequence : EventSequence
  pub snapshot_generation : Generation
  pub kind : EventKind
  pub resource : Option ResourceReference

abbrev operation_state_tag : OperationState → ℕ
operation_state_tag OperationState.queued = 0
operation_state_tag OperationState.running = 1
operation_state_tag OperationState.succeeded = 2
operation_state_tag OperationState.failed = 3
operation_state_tag OperationState.cancelled = 4
operation_state_tag OperationState.indeterminate = 5
operation_state_tag OperationState.unknown = 6

-- `==` on operation states.
unfoldable pub same_operation_state : OperationState → OperationState → Bool
same_operation_state a b = operation_state_tag a == operation_state_tag b

pub same_operation_state_iff : (a b : OperationState) → (same_operation_state a b ≡ true) ↔ (a ≡ b)
unfolding same_operation_state
same_operation_state_iff a b = ground arith

-- `Event::is_contiguous_after`: `e` directly follows `previous`.
unfoldable pub is_contiguous_after : Event → Event → Bool
is_contiguous_after e previous =
    (e.sequence == saturating_add previous.sequence 1)
    && leb previous.snapshot_generation e.snapshot_generation
