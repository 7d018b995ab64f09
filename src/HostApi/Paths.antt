-- ===== src/HostApi/Paths.antt =====
-- The resources that request paths name, and the checks of queries and command lines.
use kernmux.Prelude.{
  ℕ, Bool, not, ◌&&◌, ◌||◌, Option, none, some, List, [], ◌∷◌, ltb, length, if◌then◌else◌, Result,
  ok, err, ok_or, to_option, u64_max, reject_if,
}
use kernmux.Prelude.Order.{bytes_ord, same}
use kernmux.Prelude.Text.{Text, text}
use kernmux.Prelude.Parsing.{strip_prefix, split_on, has_byte, parse_unsigned, u32_max}
use kernmux.Api.{ApiError, EventSequence, InstanceId, OperationId}
use kernmux.Images.{ArtifactId, ArtifactKind, filter_option}
use kernmux.HostApi.Errors.{invalid}

-- HTTP methods; every other one is `other`.
pub data Method : Type 0 where
  get post put patch delete other : Method

-- The actions below an instance.
pub data InstanceAction : Type 0 where
  load load_image start stop unload console : InstanceAction

-- `option?` followed by the rest of the function.
infixl 5 ◌>>?◌
abbrev pub ◌>>?◌ {ℓ κ} : {A : Type ℓ} {B : Type κ} → Option A → (A → Option B) → Option B
none >>? rest = none
some a >>? rest = rest a

-- A segment without a separator, and not empty.
abbrev is_segment : Text → Bool
is_segment suffix = not (same suffix []) && not (has_byte b'/' suffix)

unfoldable pub operation_id_from_path : Text → Option OperationId
unfolding strip_prefix text has_byte
operation_id_from_path path = strip_prefix (text "/1.0/operations/") path >>? λ suffix.
    if is_segment suffix then some suffix else none

unfoldable pub artifact_kind_of : Text → Option ArtifactKind
artifact_kind_of name =
    if same name (text "kernel")
    then some ArtifactKind.kernel
    else if same name (text "initrd")
    then some ArtifactKind.initrd
    else none

abbrev pub image_of : List Text → Option (ArtifactKind × ArtifactId)
image_of (kind ∷ id ∷ []) = artifact_kind_of kind >>? λ k.
    to_option (kernmux.Images.parse id) >>? λ artifact. some (k, artifact)
image_of _ = none

unfoldable pub image_resource : Text → Option (ArtifactKind × ArtifactId)
unfolding strip_prefix split_on artifact_kind_of
image_resource path =
    strip_prefix (text "/1.0/images/") path >>? λ suffix. image_of (split_on b'/' suffix)

unfoldable pub os_image_resource : Text → Option ArtifactId
unfolding strip_prefix
os_image_resource path = strip_prefix (text "/1.0/os-images/") path >>? λ id.
    if is_segment id then to_option (kernmux.Images.parse id) else none

-- The name of an action.
unfoldable pub instance_action : Text → Option InstanceAction
instance_action name =
    if same name (text "load")
    then some InstanceAction.load
    else if same name (text "load-image")
    then some InstanceAction.load_image
    else if same name (text "start")
    then some InstanceAction.start
    else if same name (text "stop")
    then some InstanceAction.stop
    else if same name (text "unload")
    then some InstanceAction.unload
    else if same name (text "console")
    then some InstanceAction.console
    else none

abbrev pub instance_of : List Text → Option (InstanceId × Option InstanceAction)
instance_of (id ∷ []) = parse_unsigned u32_max id >>? λ n. some (n, none)
instance_of (id ∷ action ∷ []) =
    parse_unsigned u32_max id >>? λ n. instance_action action >>? λ a. some (n, some a)
instance_of _ = none

unfoldable pub instance_resource : Text → Option (InstanceId × Option InstanceAction)
unfolding strip_prefix split_on parse_unsigned instance_action
instance_resource path =
    strip_prefix (text "/1.0/instances/") path >>? λ suffix. instance_of (split_on b'/' suffix)

-- The cursor of `GET /1.0/events`.
unfoldable pub parse_cursor : Option Text → Result EventSequence ApiError
unfolding strip_prefix parse_unsigned invalid has_byte
parse_cursor none = ok 0
parse_cursor (some query) =
    elim (filter_option (λ value. not (same value []) && not (has_byte b'&' value))
      (strip_prefix (text "after=") query)) [
        | none ↦ err (invalid (text "event cursor query is invalid"))
        | some value ↦
            ok_or (parse_unsigned u64_max value) (invalid (text "event cursor is invalid"))
      ]

-- `MAX_COMMAND_LINE_BYTES`.
abbrev pub max_command_line_bytes : ℕ
max_command_line_bytes = 4096

unfoldable pub validate_command_line : Option Text → Result (Unit {0}) ApiError
unfolding invalid has_byte
validate_command_line none = ok tt
validate_command_line (some line) =
    reject_if (ltb max_command_line_bytes (length line) || has_byte 0 line)
      (invalid (text "kernel command line is invalid"))
