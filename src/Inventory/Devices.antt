-- ===== src/Inventory/Devices.antt =====
-- The devices of a snapshot's resource pool, against what the probes reported.
use kernmux.Prelude.{
  ◌≡◌, refl, ap, subst, sym, ◌∙◌, Bool, List, [], ◌∷◌, map, Option, none, some, arith,
  if◌then◌else◌,
}
use kernmux.Prelude.Text.{Text}
use kernmux.Prelude.Order.{bytes_ord, same}
use kernmux.Prelude.TreeSet.{IsIncreasing, insert, insert-IsIncreasing}
use kernmux.Api.{PciDevice}
use kernmux.Inventory.Observations.{PciDeviceObservation, MultikernelObservation}
use kernmux.Inventory.Assembly.{
  insert_device, collect_devices, pci_ids, map_device, map_resource_pool, observed_devices,
}

-- The device of a snapshot with a given PCI id.
abbrev pub find_device : Text → List PciDevice → Option PciDevice
find_device id [] = none
find_device id (d ∷ ds) = if same d.pci_id id then some d else find_device id ds

abbrev or_else : {A : Type 0} → Option A → Option A → Option A
or_else none b = b
or_else (some a) b = some a

-- What was reported last of a PCI id.
abbrev pub last_reported : Text → List PciDeviceObservation → Option PciDevice
last_reported id [] = none
last_reported id (d ∷ ds) =
    or_else (last_reported id ds) (if same d.pci_id id then some (map_device d) else none)

find_device-insert :
    (id : Text) (d : PciDeviceObservation) (ds : List PciDeviceObservation)
    → find_device id (map map_device (insert_device d ds))
      ≡ (if same d.pci_id id then some (map_device d) else find_device id (map map_device ds))
unfolding insert_device
find_device-insert id d [] = refl
find_device-insert id d (x ∷ xs) = ground (
  arith,
  bytes_ord.cmp_eq d.pci_id x.pci_id,
  bytes_ord.cmp_eq d.pci_id id,
  bytes_ord.cmp_eq x.pci_id id,
  find_device-insert id d xs,
)

or_else_assoc : {A : Type 0} (a b c : Option A) → or_else a (or_else b c) ≡ or_else (or_else a b) c
or_else_assoc none b c = refl
or_else_assoc (some a) b c = refl

or_else_test :
    {A : Type 0} (b : Bool) (a : A) (c : Option A)
    → (if b then some a else c) ≡ or_else (if b then some a else none) c
or_else_test b a c = ground arith

find_device-collect :
    (id : Text) (entries ds : List PciDeviceObservation)
    → find_device id (map map_device (collect_devices entries ds))
      ≡ or_else (last_reported id ds) (find_device id (map map_device entries))
unfolding collect_devices
find_device-collect id entries [] = refl
find_device-collect id entries (d ∷ ds) =
    find_device-collect id (insert_device d entries) ds
    ∙ ap (or_else (last_reported id ds))
        (find_device-insert id d entries ∙ or_else_test (same d.pci_id id) (map_device d) _)
    ∙ or_else_assoc (last_reported id ds) _ _

pci_ids-insert :
    (d : PciDeviceObservation) (ds : List PciDeviceObservation)
    → pci_ids (insert_device d ds) ≡ insert d.pci_id (pci_ids ds)
unfolding insert_device insert
pci_ids-insert d [] = refl
pci_ids-insert d (x ∷ xs) = ground (arith, bytes_ord.cmp_eq d.pci_id x.pci_id, pci_ids-insert d xs)

pci_ids-collect-IsIncreasing :
    (entries ds : List PciDeviceObservation)
    → IsIncreasing (pci_ids entries)
    → IsIncreasing (pci_ids (collect_devices entries ds))
unfolding collect_devices
pci_ids-collect-IsIncreasing entries [] h = h
pci_ids-collect-IsIncreasing entries (d ∷ ds) h =
    pci_ids-collect-IsIncreasing (insert_device d entries) ds (
      subst IsIncreasing (sym (pci_ids-insert d entries))
        (insert-IsIncreasing d.pci_id (pci_ids entries) h))

pci_ids-map_device :
    (ds : List PciDeviceObservation) → pci_ids ds ≡ map (λ d. d.pci_id) (map map_device ds)
pci_ids-map_device [] = refl
pci_ids-map_device (d ∷ ds) = ap (◌∷◌ d.pci_id) (pci_ids-map_device ds)

or_else-none : {A : Type 0} (a : Option A) → or_else a none ≡ a
or_else-none none = refl
or_else-none (some a) = refl

-- The pool's devices are the reported ones, one for each PCI id: the ids stand in increasing order,
-- and the device that stands under an id is the one that was reported last of it, where an
-- instance's report comes after the pool's.
pub map_resource_pool-devices :
    (observed : MultikernelObservation) (id : Text)
    → IsIncreasing (map (λ d. d.pci_id) (map_resource_pool observed).devices)
      × (find_device id (map_resource_pool observed).devices
          ≡ last_reported id (observed_devices observed))
unfolding map_resource_pool
map_resource_pool-devices observed id = (
  subst IsIncreasing (pci_ids-map_device (collect_devices [] (observed_devices observed)))
      (pci_ids-collect-IsIncreasing [] (observed_devices observed) tt),
  find_device-collect id [] (observed_devices observed)
      ∙ or_else-none (last_reported id (observed_devices observed)),
)
