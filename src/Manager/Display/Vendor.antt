-- ===== src/Manager/Display/Vendor.antt =====
-- How the GPU's vendor and the processor are found and named (manager/kmre/wm/gpuinfo.cpp:
-- get_gpu_pci_info, getGpuVendorFromDrm, isIntelIrisGpu, couldUseIntelGralloc,
-- get_device_node_fd_from_dri3; displaytypemanager.cpp: the checks of devices and of the kernel, the
-- number of processors, the names, getGpuModel).
pub mod Stays
use kylin_kmre_manager.Base.{
  ℕ, zero, suc, ◌+◌, ◌-◌, Bool, true, false, not, ◌&&◌, ◌||◌, List, [], ◌∷◌, ◌++◌, Option, none,
  some, ◌==◌, list_eq, any, length, nat_beq, leb, drop, if◌then◌else◌,
}
use kylin_kmre_manager.Base.Text.{Text, codes, starts_with, contains_text, is_empty}
use kylin_kmre_manager.Manager.Network.{trimmed}
use kylin_kmre_manager.Manager.Display.Gpu.{
  GpuVendor, unknown_vga, nvidia_vga, amd_vga, intel_vga, other_vga, is_unknown_vga, vendor_of_id,
  GpuIds, or_found, ChipTables, chip_id_in_list,
}
use kylin_kmre_manager.Manager.Display.Prime.{
  Printf, Drm, Server, xcb_open, dri3_open, get_user_preferred_fd, pci_info_xcb, split_first,
}
use kylin_kmre_manager.Manager.Display.Probe.{
  CpuType, cpu_type_unknown, cpu_type_intel, cpu_type_amd,
}

-- get_gpu_pci_info: the X server, and Wayland, which never answers.
unfoldable pub pci_info_wayland : GpuIds
pci_info_wayland = none

unfoldable pub get_gpu_pci_info : Printf → Drm → Option Text → Server → GpuIds
unfolding pci_info_wayland
get_gpu_pci_info f k dri_prime x = or_found (pci_info_xcb f k dri_prime x).0 pci_info_wayland

-- The static members of GpuInfo: the ids, the vendor, and whether it was looked for.
pub record GpuInfo : Type 0 where
  pub ids : GpuIds
  pub vendor : GpuVendor
  pub checked : Bool

abbrev pub vendor_or : GpuVendor → GpuIds → GpuVendor
vendor_or old none = old
vendor_or old (some (vendor, chip)) = vendor_of_id vendor

-- getGpuVendorFromDrm, for the ids that get_gpu_pci_info finds now.
unfoldable pub get_gpu_vendor_from_drm : GpuIds → GpuInfo → GpuInfo × GpuVendor
get_gpu_vendor_from_drm found g = if g.checked then (g, g.vendor) else (
  record {
    ids = or_found g.ids found;
    vendor = vendor_or g.vendor (or_found g.ids found);
    checked = true;
  },
  vendor_or g.vendor (or_found g.ids found),
)

abbrev pub is_intel_vga : GpuVendor → Bool
is_intel_vga intel_vga = true
is_intel_vga _ = false

-- isIntelIrisGpu looks for the ids each time.
unfoldable pub is_intel_iris_gpu : ChipTables → GpuIds → Bool
is_intel_iris_gpu t none = false
is_intel_iris_gpu t (some (vendor, chip)) =
    is_intel_vga (vendor_of_id vendor) && chip_id_in_list chip t.iris

-- couldUseIntelGralloc: the new ids, and the answer, which is no.
unfoldable pub could_use_intel_gralloc : GpuIds → GpuInfo → GpuInfo × Bool
could_use_intel_gralloc found g = (record g { ids = or_found g.ids found }, false)

-- get_device_node_fd_from_dri3: the descriptor, and whether its connection is left open.
abbrev pub preferred_fd : Printf → Drm → Option Text → Option ℕ → Option ℕ × Bool
preferred_fd f k dri_prime none = (none, true)
preferred_fd f k dri_prime (some fd) = (some (get_user_preferred_fd f k dri_prime fd).0, false)

unfoldable pub device_node_fd : Printf → Drm → Option Text → Server → Option ℕ × Bool
device_node_fd f k dri_prime x =
    if xcb_open x then preferred_fd f k dri_prime (dri3_open x.reply) else (none, false)

-- stat: what a path is, if it is there.
pub data FileKind : Type 0 where
  directory char_device other_kind : FileKind

abbrev pub directory_check : Option FileKind → Bool
directory_check (some directory) = true
directory_check _ = false

abbrev pub char_dev_check : Option FileKind → Bool
char_dev_check (some char_device) = true
char_dev_check _ = false

unfoldable pub dri_device_check : (Text → Option FileKind) → Bool
dri_device_check stat =
    directory_check (stat (codes "/dev/dri"))
    && (char_dev_check (stat (codes "/dev/dri/card0"))
        && char_dev_check (stat (codes "/dev/dri/renderD128")))

-- isNvidiaGraphicCard, for what lspci prints.
unfoldable pub is_nvidia_graphic_card : (Text → Option FileKind) → Text → Bool
is_nvidia_graphic_card stat output =
    char_dev_check (stat (codes "/dev/nvidiactl")) && contains_text output (codes "nvidia")

-- kernelHasConfigNoGpuAuthentication, for the release and the lines of its configuration, if the file
-- can be opened.
unfoldable pub kernel_has_config : Text → (Text → Option (List Text)) → Bool
kernel_has_config [] config = false
kernel_has_config (c ∷ release) config = elim (config (codes "/boot/config-" ++ c ∷ release)) [
  | none ↦ false
  | some lines ↦ any (λ l. starts_with l (codes "CONFIG_NO_GPU_AUTHENTICATION=y")) lines
]

-- fbMatched and isVirtualGraphicCard, for the lines of /proc/fb; `has` is strcasestr.
unfoldable pub is_virtual_graphic_card : (Text → Text → Bool) → List Text → Bool
is_virtual_graphic_card has lines =
    any (λ l. has l (codes "virtiodrmfb")) lines || any (λ l. has l (codes "qxldrmfb")) lines

-- getGpuModelType and getGpuModel: whether the model is OTHER_GPU, for the vendor that is found.
unfoldable pub get_gpu_model : Bool → GpuVendor → Bool
get_gpu_model known vendor = known || not (is_unknown_vga vendor)

unfoldable pub get_gpu_vendor_name : GpuVendor → Text
get_gpu_vendor_name nvidia_vga = codes "NVIDIA"
get_gpu_vendor_name amd_vga = codes "AMD"
get_gpu_vendor_name intel_vga = codes "INTEL"
get_gpu_vendor_name unknown_vga = codes "UNKNOWN"
get_gpu_vendor_name other_vga = codes "UNKNOWN"

-- What follows the first colon, or the whole line if there is none.
abbrev pub after_colon : Text → Option (Text × Text) → Text
after_colon s none = s
after_colon s (some p) = p.1

unfoldable pub value_of : Text → Text
value_of s = trimmed (after_colon s (split_first b':' s))

-- The loop of getCpuModelName over the lines of /proc/cpuinfo, for the name so far.
unfoldable pub model_name_of : List Text → Text → Text
unfolding value_of
model_name_of [] name = name
model_name_of (l ∷ ls) name =
    let rest =
      model_name_of ls (if contains_text l (codes "vendor_id") then value_of l else name) in
    if contains_text l (codes "model name") then value_of l else rest

abbrev pub lines_or_none : Option (List Text) → List Text
lines_or_none none = []
lines_or_none (some lines) = lines

-- getCpuModelName, for the static name; it is the answer as well.
unfoldable pub get_cpu_model_name : Option (List Text) → Text → Text
unfolding model_name_of
get_cpu_model_name cpuinfo name =
    if is_empty name then model_name_of (lines_or_none cpuinfo) name else name

unfoldable pub get_cpu_type_name : CpuType → Text → Text
get_cpu_type_name cpu_type_intel model = codes "INTEL"
get_cpu_type_name cpu_type_amd model = codes "AMD"
get_cpu_type_name cpu_type_unknown model = if is_empty model then codes "UNKNOWN" else model

-- cmd_get_result, for the lines that fgets gives without their newlines: the places of the array that
-- each strcpy writes to, as a first one and one past the last, and the result.
unfoldable pub copy_lines : ℕ → ℕ → List Text → List (ℕ × ℕ) × ℕ
copy_lines maxlen i [] = ([], i)
copy_lines maxlen i ([] ∷ ls) = copy_lines maxlen i ls
copy_lines maxlen i ((c ∷ l) ∷ ls) =
    let next = i + length (c ∷ l) in
    let rest = copy_lines maxlen next ls in
    if leb maxlen next then ((i, next + 1) ∷ [], next) else ((i, next + 1) ∷ rest.0, rest.1)
