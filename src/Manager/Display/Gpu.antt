-- ===== src/Manager/Display/Gpu.antt =====
-- Which GPU the machine has (manager/kmre/wm/gpuinfo.cpp and the first part of
-- displaytypemanager.cpp). What libdrm, XCB, libpciaccess and the kernel answer is an argument; the
-- tables of chip ids are Mesa's and are an argument too.
use kylin_kmre_manager.Base.{
  ℕ, ◌/◌, ◌%◌, Bool, true, false, ◌||◌, List, [], ◌∷◌, Option, none, some, nat_beq, if◌then◌else◌,
}
use kylin_kmre_manager.Base.Text.{Text, codes}

pub data GpuVendor : Type 0 where
  unknown_vga nvidia_vga amd_vga intel_vga other_vga : GpuVendor

abbrev pub is_unknown_vga : GpuVendor → Bool
is_unknown_vga unknown_vga = true
is_unknown_vga _ = false

-- get_gpu_vendor, and the test of vendor ids in IterateVgaPciDevice.
unfoldable pub vendor_of_id : ℕ → GpuVendor
vendor_of_id id =
    if nat_beq id 0x1002
    then amd_vga
    else if nat_beq id 0x10de
    then nvidia_vga
    else if nat_beq id 0x8086
    then intel_vga
    else unknown_vga

-- pci_device, with the names that libpciaccess knows for it.
pub record PciDevice : Type 0 where
  pub device_class : ℕ
  pub vendor_id : ℕ
  pub vendor_name : Option Text
  pub device_name : Option Text

-- device_class & 0x00ffff00, shifted right by 8: the class and subclass.
abbrev pub display_class : ℕ → ℕ
display_class c = c / 256 % 65536

unfoldable pub is_display : PciDevice → Bool
is_display v =
    nat_beq (display_class v.device_class) 0x0300
    || (nat_beq (display_class v.device_class) 0x0380
        || nat_beq (display_class v.device_class) 0x0302)

-- The chain of strcasestr tests on a name; `has` is strcasestr.
unfoldable pub vendor_of_name : (Text → Text → Bool) → Text → GpuVendor
vendor_of_name has name =
    if has name (codes "nvidia")
    then nvidia_vga
    else if has name (codes "AMD")
    then amd_vga
    else if has name (codes "ATI")
    then amd_vga
    else if has name (codes "Intel")
    then intel_vga
    else unknown_vga

abbrev pub or_unknown_device : Option Text → Text
or_unknown_device none = codes "Device unknown"
or_unknown_device (some n) = n

-- The vendor's name decides if there is one, else the device's.
abbrev pub deciding_name : PciDevice → Text
deciding_name v = elim v.vendor_name [ none ↦ or_unknown_device v.device_name | some n ↦ n ]

-- IterateVgaPciDevice.
unfoldable pub vendor_of_pci_device : (Text → Text → Bool) → PciDevice → GpuVendor
vendor_of_pci_device has v =
    if is_display v
    then (if is_unknown_vga (vendor_of_id v.vendor_id)
        then vendor_of_name has (deciding_name v)
        else vendor_of_id v.vendor_id)
    else unknown_vga

-- The loop of getGpuManufacture over the PCI devices, which stops at the first that is known.
unfoldable pub first_vendor : (Text → Text → Bool) → List PciDevice → GpuVendor
first_vendor has [] = unknown_vga
first_vendor has (v ∷ vs) =
    let rest = first_vendor has vs in
    if is_unknown_vga (vendor_of_pci_device has v) then rest else vendor_of_pci_device has v

-- gpuVendorId and gpuChipId, `none` for -1 in either.
abbrev pub GpuIds : Type 0
GpuIds = Option (ℕ × ℕ)

-- The chip tables of the DRM mode, by driver.
pub record ChipTables : Type 0 where
  pub i915 : List ℕ
  pub i965 : List ℕ
  pub iris : List ℕ
  pub r600 : List ℕ
  pub radeonsi : List ℕ
  pub amdgpu : List ℕ

unfoldable pub chip_id_in_list : ℕ → List ℕ → Bool
chip_id_in_list chip [] = false
chip_id_in_list chip (c ∷ l) = nat_beq chip c || chip_id_in_list chip l

unfoldable pub check_chip_id_for_intel_gpu : ChipTables → ℕ → Bool
check_chip_id_for_intel_gpu t chip =
    chip_id_in_list chip t.i915 || (chip_id_in_list chip t.i965 || chip_id_in_list chip t.iris)

unfoldable pub check_chip_id_for_amd_gpu : ChipTables → ℕ → Bool
check_chip_id_for_amd_gpu t chip =
    chip_id_in_list chip t.r600
    || (chip_id_in_list chip t.radeonsi || chip_id_in_list chip t.amdgpu)

abbrev pub chip_check : ChipTables → GpuVendor → ℕ → Bool
chip_check t intel_vga chip = check_chip_id_for_intel_gpu t chip
chip_check t amd_vga chip = check_chip_id_for_amd_gpu t chip
chip_check t _ chip = false

-- couldUsesDrmMode: the ids known before or, failing these, those that `found` gives; the new ids and
-- the answer.
abbrev pub or_found : GpuIds → GpuIds → GpuIds
or_found (some ids) found = some ids
or_found none found = found

drm_mode_for : ChipTables → GpuIds → Bool
drm_mode_for t none = false
drm_mode_for t (some (vendor, chip)) = chip_check t (vendor_of_id vendor) chip

unfoldable pub could_uses_drm_mode : ChipTables → GpuIds → GpuIds → GpuIds × Bool
unfolding drm_mode_for
could_uses_drm_mode t found ids = (or_found ids found, drm_mode_for t (or_found ids found))
