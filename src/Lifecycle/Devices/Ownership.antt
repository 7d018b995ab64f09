-- ===== src/Lifecycle/Devices/Ownership.antt =====
-- What `validate_update_devices` accepts: devices of whole groups that no other instance owns.
use kernmux.Prelude.{
  ℕ, ◌≡◌, ◌≢◌, ◌↔◌, ◌⊎◌, inl, inr, refl, true, false, not, ◌||◌, List, [], ◌∷◌, find, filter, All,
  All-map_lem, arith, ◌==◌, none, some, ok, Option-cases, try_each, try_each-filter_iff,
  try_each_iff,
}
use kernmux.Prelude.Text.{Text}
use kernmux.Prelude.Order.{bytes_ord}
use kernmux.Prelude.TreeSet.{contains, collect, contains-collect, distinct, length-collect_iff}
use kernmux.Api.{HostSnapshot, Instance, PciDevice}
use kernmux.Lifecycle.Checks.{is_empty}
use kernmux.Lifecycle.Devices.{
  is_canonical_pci_id, is_some, managed_device, refuse_invalid, check_owner, check_device,
  validate_update_devices,
}

-- The instance owns none of the devices.
abbrev pub OwnsNoneOf : List Text → Instance → Type 0
OwnsNoneOf requested peer = All (λ id. contains requested id ≡ false) peer.resources.device_ids

-- The device is managed, free or the instance's own, and in a group whose members are all requested
-- and managed.
pub record IsAssignable (s : HostSnapshot) (i : Instance) (requested : List Text) (id : Text)
    : Type 0 where
  pub device : PciDevice
  pub managed : managed_device s.resource_pool.devices id ≡ some device
  pub obtainable :
      (contains s.resource_pool.available_device_ids id ≡ true)
      ⊎ (contains i.resources.device_ids id ≡ true)
  pub group : ℕ
  pub grouped : device.iommu_group ≡ some group
  pub whole_group :
      All
        (λ m. (contains requested m ≡ true) × (managed_device s.resource_pool.devices m ≢ none))
        device.iommu_group_members

find-none-All :
    (requested : List Text) (ids : List Text)
    → (find (λ id. contains (collect requested) id) ids ≡ none)
      ↔ All (λ id. contains requested id ≡ false) ids
find-none-All requested [] = (λ _. tt, λ _. refl)
find-none-All requested (x ∷ ids) =
    ground (arith, contains-collect requested x, find-none-All requested ids)

check_owner_iff :
    (requested : List Text) (peer : Instance)
    → (check_owner (collect requested) peer ≡ ok tt) ↔ OwnsNoneOf requested peer
unfolding check_owner
check_owner_iff requested peer = ground (arith, find-none-All requested peer.resources.device_ids)

missing_iff :
    (devices : List PciDevice) (requested members : List Text)
    → (is_empty (
          filter
            (λ m. not (contains (collect requested) m) || not (is_some (managed_device devices m)))
            members)
        ≡ true)
      ↔ All (λ m. (contains requested m ≡ true) × (managed_device devices m ≢ none)) members
missing_iff devices requested [] = (λ _. tt, λ _. refl)
missing_iff devices requested (m ∷ members) =
    ground (arith, contains-collect requested m, missing_iff devices requested members)

check_device_at :
    (s : HostSnapshot) (i : Instance) (requested : List Text) (id : Text) (device : PciDevice)
    (group : ℕ)
    → managed_device s.resource_pool.devices id ≡ some device
    → device.iommu_group ≡ some group
    → (check_device s i (collect requested) id ≡ ok tt) ↔ (
        ((contains s.resource_pool.available_device_ids id ≡ true)
          ⊎ (contains i.resources.device_ids id ≡ true))
        × All
            (λ m. (contains requested m ≡ true) × (managed_device s.resource_pool.devices m ≢ none))
            device.iommu_group_members)
unfolding check_device
check_device_at s i requested id device group e f = ground (
  arith,
  contains-collect s.resource_pool.available_device_ids id,
  contains-collect i.resources.device_ids id,
  missing_iff s.resource_pool.devices requested device.iommu_group_members,
)

check_device_unmanaged :
    (s : HostSnapshot) (i : Instance) (set : List Text) (id : Text)
    → managed_device s.resource_pool.devices id ≡ none
    → check_device s i set id ≡ ok tt
    → ⊥
unfolding check_device
check_device_unmanaged s i set id e h = ground arith

check_device_ungrouped :
    (s : HostSnapshot) (i : Instance) (set : List Text) (id : Text) (device : PciDevice)
    → managed_device s.resource_pool.devices id ≡ some device
    → device.iommu_group ≡ none
    → check_device s i set id ≡ ok tt
    → ⊥
unfolding check_device
check_device_ungrouped s i set id device e f h = ground arith

check_device_iff :
    (s : HostSnapshot) (i : Instance) (requested : List Text) (id : Text)
    → (check_device s i (collect requested) id ≡ ok tt) ↔ IsAssignable s i requested id
check_device_iff s i requested id = (sound, complete)
  where
    sound : check_device s i (collect requested) id ≡ ok tt → IsAssignable s i requested id
    sound h = elim (Option-cases (managed_device s.resource_pool.devices id)) [
      | inl e ↦ absurd (check_device_unmanaged s i _ id e h)
      | inr (device, e) ↦ elim (Option-cases device.iommu_group) [
        | inl f ↦ absurd (check_device_ungrouped s i _ id device e f h)
        | inr (group, f) ↦
            let (obtainable, whole) = (check_device_at s i requested id device group e f).0 h in
            record {
              device = device;
              managed = e;
              obtainable = obtainable;
              group = group;
              grouped = f;
              whole_group = whole;
            }
      ]
    ]

    complete : IsAssignable s i requested id → check_device s i (collect requested) id ≡ ok tt
    complete a =
        (check_device_at s i requested id a.device a.group a.managed a.grouped).1
          (a.obtainable, a.whole_group)

-- The request as a whole.
pub record IsDeviceGrant (s : HostSnapshot) (i : Instance) (requested : List Text) : Type 0 where
  pub some_device : requested ≢ []
  pub no_repeat : distinct requested ≡ true
  pub canonical : All (λ id. is_canonical_pci_id id ≡ true) requested
  pub peers_free : All (λ p. (p.id ≡ i.id) ⊎ OwnsNoneOf requested p) s.instances
  pub assignable : All (IsAssignable s i requested) requested

refuse_invalid_iff :
    (ids : List Text)
    → (refuse_invalid (find (λ id. not (is_canonical_pci_id id)) ids) ≡ ok tt)
      ↔ All (λ id. is_canonical_pci_id id ≡ true) ids
unfolding refuse_invalid
refuse_invalid_iff [] = (λ _. tt, λ _. refl)
refuse_invalid_iff (x ∷ ids) = ground (arith, refuse_invalid_iff ids)

own_or_free :
    (i p : Instance) (requested : List Text)
    → ((not (p.id == i.id) ≡ false) ⊎ OwnsNoneOf requested p)
      ↔ ((p.id ≡ i.id) ⊎ OwnsNoneOf requested p)
own_or_free i p requested = (
  λ h. elim h [ inl e ↦ inl (ground arith) | inr f ↦ inr f ],
  λ h. elim h [ inl e ↦ inl (ground arith) | inr f ↦ inr f ],
)

check_owners_iff :
    (s : HostSnapshot) (i : Instance) (requested : List Text)
    → (try_each (check_owner (collect requested)) (filter (λ p. not (p.id == i.id)) s.instances)
        ≡ ok tt)
      ↔ All (λ p. (p.id ≡ i.id) ⊎ OwnsNoneOf requested p) s.instances
check_owners_iff s i requested =
    let e =
      try_each-filter_iff (check_owner (collect requested)) (λ p. not (p.id == i.id))
        (OwnsNoneOf requested) s.instances (check_owner_iff requested) in
    (
      λ h. All-map_lem _ _ s.instances (λ p. (own_or_free i p requested).0) (e.0 h),
      λ h. e.1 (All-map_lem _ _ s.instances (λ p. (own_or_free i p requested).1) h),
    )

-- An update of an instance's devices is accepted exactly if the request names at least one device and
-- none twice, all by canonical address; no other instance owns one of them; and each is managed by
-- the pool, free or the instance's own, and in a known IOMMU group of which every member is
-- requested and managed too.
pub validate_update_devices_iff :
    (s : HostSnapshot) (i : Instance) (requested : List Text)
    → (validate_update_devices s i requested ≡ ok tt) ↔ IsDeviceGrant s i requested
unfolding validate_update_devices
validate_update_devices_iff s i [] = (λ h. absurd (cc), λ g. absurd (g.some_device refl))
validate_update_devices_iff s i (x ∷ xs) = ground (
  arith,
  length-collect_iff (x ∷ xs),
  refuse_invalid_iff (x ∷ xs),
  check_owners_iff s i (x ∷ xs),
  try_each_iff (check_device s i (collect (x ∷ xs))) (IsAssignable s i (x ∷ xs)) (x ∷ xs)
      (check_device_iff s i (x ∷ xs)),
)
