-- ===== src/HostApi/Errors.antt =====
-- The API errors of host_api.rs.
use kernmux.Prelude.{Bool, true, false, Option, none, some, []}
use kernmux.Prelude.Text.{Text, text}
use kernmux.Api.{ApiError, ErrorCode, Generation}
use kernmux.Operations.{OperationRegistryError}
use kernmux.Scheduler.{ScheduleError}
use kernmux.Images.{ImageStoreError, ImageCatalogError}

unfoldable pub error : ErrorCode → Text → Bool → ApiError
error code message retryable = record {
  code = code;
  message = message;
  retryable = retryable;
  current_generation = none;
  diagnostics = [];
}

unfoldable pub invalid : Text → ApiError
unfolding error
invalid message = error ErrorCode.invalid_request message false

unfoldable pub not_found : ApiError
unfolding error text
not_found = error ErrorCode.not_found (text "resource was not found") false

unfoldable pub backend : Text → ApiError
unfolding error
backend message = error ErrorCode.backend_unavailable message true

unfoldable pub registry_error : OperationRegistryError → ApiError
unfolding error not_found
registry_error OperationRegistryError.not_found = not_found
registry_error OperationRegistryError.invalid_transition =
    error ErrorCode.conflict (text "operation cannot be changed in its current state") false
registry_error OperationRegistryError.invalid_progress =
    error ErrorCode.conflict (text "operation cannot be changed in its current state") false
registry_error OperationRegistryError.invalid_capacity =
    error ErrorCode.internal (text "operation registry is unavailable") false

unfoldable pub schedule_error : ScheduleError → ApiError
unfolding error
schedule_error e =
    error ErrorCode.backend_unavailable (text "operation worker could not be scheduled") true

unfoldable pub image_store_api_error : ImageStoreError → ApiError
unfolding invalid not_found backend
image_store_api_error ImageStoreError.not_found = not_found
image_store_api_error (ImageStoreError.corrupt _) = backend (text "image catalog is unavailable")
image_store_api_error (ImageStoreError.metadata_encoding _) =
    backend (text "image catalog is unavailable")
image_store_api_error (ImageStoreError.io _ _) = backend (text "image catalog is unavailable")
image_store_api_error _ = invalid (text "image artifact is invalid or exceeds policy")

unfoldable pub image_catalog_task_error : ImageCatalogError → ApiError × Option Generation
unfolding error image_store_api_error
image_catalog_task_error (ImageCatalogError.stale_generation expected actual) = (
  record (error ErrorCode.precondition_failed (text "image catalog generation has changed") false) {
    current_generation = some actual;
  },
  some actual,
)
image_catalog_task_error ImageCatalogError.generation_exhausted = (
  error ErrorCode.backend_unavailable (text "image catalog generation is unavailable") false,
  none,
)
image_catalog_task_error (ImageCatalogError.store e) = (image_store_api_error e, none)

unfoldable pub image_catalog_api_error : ImageCatalogError → ApiError
unfolding image_catalog_task_error
image_catalog_api_error e = (image_catalog_task_error e).0
