-- ===== src/HostApi/Meaning.antt =====
-- What the tests of a path in host_api.rs say of the path.
use kernmux.Prelude.{
  ◌≡◌, sym, ap, ◌∙◌, Bool, true, Option, none, some, ◌++◌, arith, Bool-cases, inl, inr,
  if◌then◌else◌, some_injective,
}
use kernmux.Prelude.Order.{bytes_ord, same_iff}
use kernmux.Prelude.Parsing.{strip_prefix, strip_prefix_iff}
use kernmux.Prelude.Text.{Text, text}
use kernmux.Api.{InstanceId, OperationId}
use kernmux.Images.{ArtifactId, ArtifactKind}
use kernmux.HostApi.Paths.{
  InstanceAction, ◌>>?◌, image_resource, instance_resource, operation_id_from_path,
  os_image_resource,
}
use kernmux.HostApi.Routes.{
  Endpoint, Resource, endpoint, image_or, instance_or_nothing, operation_or, os_image_or, resource,
}

-- The chain of tests in `endpoint`.
abbrev chain : Bool → Bool → Bool → Bool → Bool → Bool → Bool → Bool → Bool → Endpoint
chain a b c d e f g h i =
    if a
    then Endpoint.root
    else if b
    then Endpoint.compatibility
    else if c
    then Endpoint.resource_pool
    else if d
    then Endpoint.instances
    else if e
    then Endpoint.images
    else if f
    then Endpoint.os_images
    else if g
    then Endpoint.storage_devices
    else if h
    then Endpoint.operations
    else if i
    then Endpoint.events
    else Endpoint.below

chain_pool :
    (a b c d e f g h i : Bool) → chain a b c d e f g h i ≡ Endpoint.resource_pool → c ≡ true
chain_pool a b c d e f g h i k = ground arith

chain_instances :
    (a b c d e f g h i : Bool) → chain a b c d e f g h i ≡ Endpoint.instances → d ≡ true
chain_instances a b c d e f g h i k = ground arith

chain_images : (a b c d e f g h i : Bool) → chain a b c d e f g h i ≡ Endpoint.images → e ≡ true
chain_images a b c d e f g h i k = ground arith

chain_os_images :
    (a b c d e f g h i : Bool) → chain a b c d e f g h i ≡ Endpoint.os_images → f ≡ true
chain_os_images a b c d e f g h i k = ground arith

module _ (path : Text) where
  pub spells_pool : endpoint path ≡ Endpoint.resource_pool → path ≡ text "/1.0/resource-pool"
  unfolding endpoint
  spells_pool h = (same_iff path _).0 (chain_pool _ _ _ _ _ _ _ _ _ h)

  pub spells_instances : endpoint path ≡ Endpoint.instances → path ≡ text "/1.0/instances"
  unfolding endpoint
  spells_instances h = (same_iff path _).0 (chain_instances _ _ _ _ _ _ _ _ _ h)

  pub spells_images : endpoint path ≡ Endpoint.images → path ≡ text "/1.0/images"
  unfolding endpoint
  spells_images h = (same_iff path _).0 (chain_images _ _ _ _ _ _ _ _ _ h)

  pub spells_os_images : endpoint path ≡ Endpoint.os_images → path ≡ text "/1.0/os-images"
  unfolding endpoint
  spells_os_images h = (same_iff path _).0 (chain_os_images _ _ _ _ _ _ _ _ _ h)

-- An optional text that passes a test is that text.
kept :
    (p : Text → Bool) (x : Option Text) (id : Text)
    → (x >>? (λ suffix. if p suffix then some suffix else none)) ≡ some id
    → x ≡ some id
kept p none id h = cc
kept p (some t) id h = elim (Bool-cases (p t)) [
  | inl good ↦ ap some (some_injective (sym (ap (λ b. if b then some t else none) good) ∙ h))
  | inr bad ↦ absurd (none_some (sym (ap (λ b. if b then some t else none) bad) ∙ h))
]
  where
    none_some : none ≡ some id → ⊥
    none_some e = cc

operation_path :
    (path : Text) (id : OperationId)
    → operation_id_from_path path ≡ some id
    → path ≡ text "/1.0/operations/" ++ id
unfolding operation_id_from_path
operation_path path id h =
    (strip_prefix_iff (text "/1.0/operations/") path id).0
      (kept _ (strip_prefix (text "/1.0/operations/") path) id h)

resource_operation :
    (a : Option OperationId) (b : Option (ArtifactKind × ArtifactId)) (c : Option ArtifactId)
    (d : Option (InstanceId × Option InstanceAction)) (id : OperationId)
    → operation_or a (image_or b (os_image_or c (instance_or_nothing d))) ≡ Resource.operation id
    → a ≡ some id
resource_operation a b c d id h = ground arith

resource_image :
    (a : Option OperationId) (b : Option (ArtifactKind × ArtifactId)) (c : Option ArtifactId)
    (d : Option (InstanceId × Option InstanceAction)) (kind : ArtifactKind) (id : ArtifactId)
    → operation_or a (image_or b (os_image_or c (instance_or_nothing d))) ≡ Resource.image kind id
    → b ≡ some (kind, id)
resource_image a b c d kind id h = ground arith

resource_os_image :
    (a : Option OperationId) (b : Option (ArtifactKind × ArtifactId)) (c : Option ArtifactId)
    (d : Option (InstanceId × Option InstanceAction)) (id : ArtifactId)
    → operation_or a (image_or b (os_image_or c (instance_or_nothing d))) ≡ Resource.os_image id
    → c ≡ some id
resource_os_image a b c d id h = ground arith

resource_instance :
    (a : Option OperationId) (b : Option (ArtifactKind × ArtifactId)) (c : Option ArtifactId)
    (d : Option (InstanceId × Option InstanceAction)) (id : InstanceId)
    (action : Option InstanceAction)
    → operation_or a (image_or b (os_image_or c (instance_or_nothing d)))
      ≡ Resource.instance_at id action
    → d ≡ some (id, action)
resource_instance a b c d id action h = ground arith

module _ (path : Text) where
  pub named_operation :
      (id : OperationId)
      → resource path ≡ Resource.operation id
      → path ≡ text "/1.0/operations/" ++ id
  unfolding resource
  named_operation id h = operation_path path id (resource_operation _ _ _ _ id h)

  pub named_instance :
      (id : InstanceId) (action : Option InstanceAction)
      → resource path ≡ Resource.instance_at id action
      → instance_resource path ≡ some (id, action)
  unfolding resource
  named_instance id action h = resource_instance _ _ _ _ id action h

  pub named_image :
      (kind : ArtifactKind) (id : ArtifactId)
      → resource path ≡ Resource.image kind id
      → image_resource path ≡ some (kind, id)
  unfolding resource
  named_image kind id h = resource_image _ _ _ _ kind id h

  pub named_os_image :
      (id : ArtifactId) → resource path ≡ Resource.os_image id → os_image_resource path ≡ some id
  unfolding resource
  named_os_image id h = resource_os_image _ _ _ _ id h
