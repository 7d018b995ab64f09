-- ===== src/Lifecycle/Devices.antt =====
-- Which PCI devices an instance may own: `validate_update_devices` and `is_canonical_pci_id` of
-- lifecycle.rs.
pub mod Ownership
use kernmux.Prelude.{
  ℕ, zero, suc, ◌+◌, Bool, true, false, not, ◌&&◌, ◌||◌, List, [], ◌∷◌, Option, none, some, find,
  filter, length, leb, ◌==◌, if◌then◌else◌, Result, ok, err, ◌>>=◌, ◌>>◌, reject_if, ok_or,
  try_each,
}
use kernmux.Prelude.Text.{Text}
use kernmux.Prelude.Order.{same, bytes_ord}
use kernmux.Prelude.TreeSet.{contains, collect}
use kernmux.Api.{HostSnapshot, Instance, PciDevice}
use kernmux.Lifecycle.Requests.{DevicePlacementError}
use kernmux.Lifecycle.Checks.{is_empty}

-- `bytes[index]`; the length is tested first.
abbrev byte_at : Text → ℕ → ℕ
byte_at [] i = 0
byte_at (c ∷ cs) zero = c
byte_at (c ∷ cs) (suc i) = byte_at cs i

abbrev is_lower_hex : ℕ → Bool
is_lower_hex c = (leb b'0' c && leb c b'9') || (leb b'a' c && leb c b'f')

-- `enumerate().all(...)`, from an index on.
all_hex_from : ℕ → Text → Bool
all_hex_from index [] = true
all_hex_from index (c ∷ cs) =
    (index == 4 || index == 7 || index == 10 || is_lower_hex c) && all_hex_from (index + 1) cs

pub is_canonical_pci_id : Text → Bool
unfolding all_hex_from
is_canonical_pci_id value =
    length value == 12
    && byte_at value 4 == b':'
    && byte_at value 7 == b':'
    && byte_at value 10 == b'.'
    && all_hex_from 0 value

-- `get` on the map that is collected from the pool's devices: of two with one id, the later.
pub managed_device : List PciDevice → Text → Option PciDevice
managed_device [] pci_id = none
managed_device (d ∷ ds) pci_id = elim (managed_device ds pci_id) [
  | none ↦ if same d.pci_id pci_id then some d else none
  | some later ↦ some later
]

abbrev is_some {ℓ} : {A : Type ℓ} → Option A → Bool
is_some none = false
is_some (some a) = true

pub refuse_invalid : Option Text → Result (Unit {0}) DevicePlacementError
refuse_invalid none = ok tt
refuse_invalid (some pci_id) = err (DevicePlacementError.invalid_pci_id pci_id)

pub refuse_owned : Instance → Option Text → Result (Unit {0}) DevicePlacementError
refuse_owned peer none = ok tt
refuse_owned peer (some pci_id) = err (DevicePlacementError.owned_by_peer pci_id peer.name)

-- The peer owns none of the requested devices.
pub check_owner : List Text → Instance → Result (Unit {0}) DevicePlacementError
unfolding refuse_owned
check_owner requested_set peer =
    refuse_owned peer (find (λ id. contains requested_set id) peer.resources.device_ids)

-- The members of a device's group that the request leaves out, or that the pool does not manage.
pub missing_members : List PciDevice → List Text → PciDevice → List Text
missing_members managed requested_set device =
    filter (λ m. not (contains requested_set m) || not (is_some (managed_device managed m)))
      device.iommu_group_members

-- The body of the loop over the requested devices.
pub check_device :
    HostSnapshot → Instance → List Text → Text → Result (Unit {0}) DevicePlacementError
unfolding missing_members
check_device snapshot instance_now requested_set pci_id = do
  device ←
      ok_or (managed_device snapshot.resource_pool.devices pci_id)
        (DevicePlacementError.not_managed pci_id)
  let available = collect snapshot.resource_pool.available_device_ids
  let owned = collect instance_now.resources.device_ids
  reject_if (not (contains available pci_id) && not (contains owned pci_id))
      (DevicePlacementError.unavailable pci_id)
  group ← ok_or device.iommu_group (DevicePlacementError.missing_iommu_group pci_id)
  let missing = missing_members snapshot.resource_pool.devices requested_set device
  reject_if (not (is_empty missing))
      (DevicePlacementError.incomplete_iommu_group pci_id group missing)

unfoldable pub validate_update_devices :
    HostSnapshot → Instance → List Text → Result (Unit {0}) DevicePlacementError
validate_update_devices snapshot instance_now requested = do
  reject_if (is_empty requested) DevicePlacementError.empty_selection
  let requested_set = collect requested
  reject_if (not (length requested_set == length requested)) DevicePlacementError.duplicate
  refuse_invalid (find (λ id. not (is_canonical_pci_id id)) requested)
  try_each (check_owner requested_set)
      (filter (λ peer. not (peer.id == instance_now.id)) snapshot.instances)
  try_each (check_device snapshot instance_now requested_set) requested
