-- ===== src/HostApi/Addresses.antt =====
-- The addresses of instances, as clients write them.
use kernmux.Prelude.{
  ◌≤◌, ◌≡◌, refl, ap, ◌∙◌, false, Option, none, some, [], ◌∷◌, ◌++◌, All, arith, ◌==◌,
}
use kernmux.Prelude.Text.{Text, text, decimal, decimal-IsDigit, IsDigit}
use kernmux.Prelude.Parsing.{
  strip_prefix_iff, split_on, parse_unsigned-decimal, u32_max, split_on-part, split_on-append,
}
use kernmux.Prelude.Order.{compare_bytes}
use kernmux.Api.{InstanceId}
use kernmux.HostApi.{InstanceAction, instance_resource, instance_of, instance_action}

-- How an action is spelled.
abbrev pub action_name : InstanceAction → Text
action_name InstanceAction.load = text "load"
action_name InstanceAction.load_image = text "load-image"
action_name InstanceAction.start = text "start"
action_name InstanceAction.stop = text "stop"
action_name InstanceAction.unload = text "unload"
action_name InstanceAction.console = text "console"

-- The address of an instance, and that of an action on it.
abbrev pub instance_path : InstanceId → Option InstanceAction → Text
instance_path id none = text "/1.0/instances/" ++ decimal id
instance_path id (some action) = text "/1.0/instances/" ++ (decimal id ++ b'/' ∷ action_name action)

digits_part : (cs : Text) → All IsDigit cs → All (λ c. (c == b'/') ≡ false) cs
digits_part [] h = tt
digits_part (c ∷ cs) h = (ground arith, digits_part cs h.1)

split_action :
    (action : InstanceAction) → split_on b'/' (action_name action) ≡ action_name action ∷ []
unfolding split_on text
split_action InstanceAction.load = refl
split_action InstanceAction.load_image = refl
split_action InstanceAction.start = refl
split_action InstanceAction.stop = refl
split_action InstanceAction.unload = refl
split_action InstanceAction.console = refl

instance_action-name :
    (action : InstanceAction) → instance_action (action_name action) ≡ some action
unfolding instance_action text compare_bytes
instance_action-name InstanceAction.load = refl
instance_action-name InstanceAction.load_image = refl
instance_action-name InstanceAction.start = refl
instance_action-name InstanceAction.stop = refl
instance_action-name InstanceAction.unload = refl
instance_action-name InstanceAction.console = refl

below_instances :
    (rest : Text)
    → instance_resource (text "/1.0/instances/" ++ rest) ≡ instance_of (split_on b'/' rest)
unfolding instance_resource
below_instances rest =
    rw ((strip_prefix_iff (text "/1.0/instances/") (text "/1.0/instances/" ++ rest) rest).1 refl)
      refl

-- The address of an instance whose id fits in 32 bits, with or without an action, names that
-- instance and that action.
pub instance_resource-path :
    (id : InstanceId) (action : Option InstanceAction)
    → id ≤ u32_max
    → instance_resource (instance_path id action) ≡ some (id, action)
instance_resource-path id none h =
    let digits = digits_part (decimal id) (decimal-IsDigit id) in
    below_instances (decimal id)
    ∙ ap instance_of (split_on-part b'/' (decimal id) digits)
    ∙ rw (parse_unsigned-decimal u32_max id h) refl
instance_resource-path id (some action) h =
    let digits = digits_part (decimal id) (decimal-IsDigit id) in
    below_instances (decimal id ++ b'/' ∷ action_name action)
    ∙ ap instance_of (
        split_on-append b'/' (decimal id) (action_name action) digits
        ∙ ap (◌∷◌ (decimal id)) (split_action action))
    ∙ rw (parse_unsigned-decimal u32_max id h, instance_action-name action) refl
