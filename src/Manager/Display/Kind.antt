-- ===== src/Manager/Display/Kind.antt =====
-- DisplayTypeManager: the display type and the container properties that go with it
-- (manager/kmre/wm/displaytypemanager.cpp).
use Prim.Native.String.{String}
use kylin_kmre_manager.Base.{
  ℕ, Bool, true, false, ◌&&◌, ◌||◌, List, [], ◌∷◌, ◌++◌, Option, none, some, ◌==◌, string_eq, any,
  if◌then◌else◌,
}
use kylin_kmre_manager.Base.Text.{Text}
use kylin_kmre_manager.Manager.Display.Gpu.{
  GpuVendor, unknown_vga, nvidia_vga, amd_vga, intel_vga, is_unknown_vga, PciDevice, first_vendor,
}

pub data DisplayType : Type 0 where
  unknown_type drm_type sw_type emugl_type : DisplayType

abbrev pub type_beq : DisplayType → DisplayType → Bool
type_beq unknown_type unknown_type = true
type_beq drm_type drm_type = true
type_beq sw_type sw_type = true
type_beq emugl_type emugl_type = true
type_beq _ _ = false

-- The values given to SetDefaultPropOfContainer: literals, and numbers by QString::number.
pub data Value : Type 0 where
  literal : String → Value
  number : ℕ → Value

-- The major and minor numbers of the primary and the render node.
pub record NodeNumbers : Type 0 where
  pub primary_major : ℕ
  pub primary_minor : ℕ
  pub render_major : ℕ
  pub render_minor : ℕ

-- What one call reads: the property ro.hardware.gralloc of the container, the file kmre.ini (a group
-- and a key to a value, `none` if the file, the group or the key is missing; the display_type), whether
-- the build is for x86-64 and for Wayland, and the answers about the GPU.
pub record Setting : Type 0 where
  pub gralloc : String
  pub config : String → String → Option Bool
  pub display_type_string : String
  pub is_x86_64 : Bool
  pub is_wayland : Bool
  pub nvidia_in_use : Bool  -- isNvidiaGraphicCard
  pub drm_vendor : GpuVendor  -- GpuInfo::getGpuVendorFromDrm
  pub pci_devices : Option (List PciDevice)  -- `none` if pci_system_init fails
  pub strcasestr : Text → Text → Bool
  pub drm_nodes : Option NodeNumbers  -- GpuInfo::getDrmDeviceNodeNumber
  pub gles_31_aep : Bool  -- supportsOpenGLES31AEP

-- The static members and file-scope variables, and the properties set, oldest first.
pub record Manager : Type 0 where
  pub display_type : DisplayType
  pub old_display_type : DisplayType
  pub is_drm_enabled : Bool
  pub has_no_gpu_authentication : Bool
  pub could_uses_drm_mode : Bool
  pub could_use_intel_gralloc : Bool
  pub gpu_vendor : GpuVendor
  pub gpu_check_completed : Bool
  pub gpu_vendor_vga : GpuVendor
  pub props : List (String × Value)

unfoldable pub display_type_from_dbus : String → DisplayType
display_type_from_dbus g =
    if g == "drm"
    then drm_type
    else if g == "gbm"
    then drm_type
    else if g == "intel"
    then drm_type
    else if g == "goldfish"
    then emugl_type
    else if g == "dri"
    then sw_type
    else unknown_type

unfoldable pub display_type_from_settings : String → DisplayType
display_type_from_settings t =
    if t == "drm"
    then drm_type
    else if t == "emugl"
    then emugl_type
    else if t == "sw"
    then sw_type
    else unknown_type

unfoldable pub kmre_config_enabled : Setting → String → String → Bool
kmre_config_enabled g group key = elim (g.config group key) [ none ↦ false | some b ↦ b ]

abbrev pub drm_possible : Manager → Bool
drm_possible m = m.is_drm_enabled && (m.has_no_gpu_authentication || m.could_uses_drm_mode)

unfoldable pub accessable_display_types : Manager → List DisplayType
accessable_display_types m = emugl_type ∷ (if drm_possible m then drm_type ∷ [] else [])

unfoldable pub is_display_type_valid : Manager → DisplayType → Bool
unfolding accessable_display_types
is_display_type_valid m t = any (λ u. type_beq t u) (accessable_display_types m)

-- getGpuManufacture.
manufacture : Setting → GpuVendor
manufacture g =
    let first = if g.nvidia_in_use then nvidia_vga else g.drm_vendor in
    let by_pci : GpuVendor = elim g.pci_devices [
      | none ↦ unknown_vga
      | some vs ↦ first_vendor g.strcasestr vs
    ] in
    if is_unknown_vga first then by_pci else first

unfoldable pub get_gpu_manufacture : Setting → Manager → Manager × GpuVendor
unfolding manufacture
get_gpu_manufacture g m =
    if m.gpu_check_completed
    then (m, m.gpu_vendor_vga)
    else (record m { gpu_check_completed = true; gpu_vendor_vga = manufacture g }, manufacture g)

unfoldable pub get_gpu_vendor : Setting → Manager → Manager × GpuVendor
get_gpu_vendor g m =
    if is_unknown_vga m.gpu_vendor
    then (let (m', v) = get_gpu_manufacture g m in (record m' { gpu_vendor = v }, v))
    else (m, m.gpu_vendor)

abbrev pub node_props : Option NodeNumbers → List (String × Value)
node_props none = []
node_props (some n) =
    ("ro.drm.primary.major", number n.primary_major)
    ∷ ("ro.drm.primary.minor", number n.primary_minor)
    ∷ ("ro.drm.render.major", number n.render_major)
    ∷ ("ro.drm.render.minor", number n.render_minor)
    ∷ []

abbrev pub is_intel : GpuVendor → Bool
is_intel intel_vga = true
is_intel _ = false

abbrev pub is_intel_or_amd : GpuVendor → Bool
is_intel_or_amd intel_vga = true
is_intel_or_amd amd_vga = true
is_intel_or_amd _ = false

-- The part of updateDisplayType for Intel and AMD.
unfoldable pub vendor_props : Setting → DisplayType → GpuVendor → List (String × Value)
vendor_props g t v =
    if is_intel_or_amd v
    then node_props g.drm_nodes
      ++ (
        "ro.kmre.detect_gles_31_aep",
        if type_beq t drm_type
              && (g.gles_31_aep && kmre_config_enabled g "display" "detect_gles_31_aep")
            then literal "true"
            else literal "false",
      )
        ∷ []
    else []

-- The gralloc module for DRM.
unfoldable pub drm_gralloc : Setting → Bool → GpuVendor → String
drm_gralloc g could_intel v =
    if g.is_x86_64
      && (could_intel || (is_intel v && kmre_config_enabled g "display" "use_intel_gralloc"))
    then "intel"
    else if kmre_config_enabled g "display" "use_drm_gralloc"
    then "drm"
    else "gbm"

-- The properties of a display type, in the order in which they are set.
abbrev pub mode_props : String → String → String → String → List (String × Value)
mode_props egl gralloc qemu post =
    ("ro.hardware.egl", literal egl)
    ∷ ("ro.hardware.gralloc", literal gralloc)
    ∷ ("ro.kernel.qemu", literal qemu)
    ∷ ("ro.kernel.qemu.gles", literal qemu)
    ∷ ("sys.goldfish.post", literal post)
    ∷ []

unfoldable pub type_props : Setting → Bool → GpuVendor → DisplayType → List (String × Value)
type_props g could_intel v drm_type =
    mode_props "mesa" (drm_gralloc g could_intel v) "0" "false"
    ++ (if g.is_wayland then node_props g.drm_nodes else [])
type_props g could_intel v emugl_type = mode_props "emulation" "goldfish" "1" "true"
type_props g could_intel v sw_type = mode_props "swiftshader" "dri" "0" "false"
type_props g could_intel v unknown_type = []

-- updateDisplayType. The vendor is asked for several times; the first answer is the one that the later
-- calls repeat, unless it is unknown_vga, which getGpuManufacture keeps as well.
unfoldable pub update_display_type : Setting → Manager → Manager
update_display_type g m =
    if type_beq m.display_type unknown_type || type_beq m.display_type m.old_display_type
    then m
    else (let (m', v) = get_gpu_vendor g m in
        record m' {
          old_display_type = m.display_type;
          props =
              m.props
              ++ (vendor_props g m.display_type v
                  ++ type_props g m.could_use_intel_gralloc v m.display_type);
        })

-- The display type that getDisplayType chooses when none is known.
unfoldable pub choose_display_type : Setting → Manager → DisplayType
choose_display_type g m =
    let from_dbus = display_type_from_dbus g.gralloc in
    let from_settings = display_type_from_settings g.display_type_string in
    if drm_possible m
    then (if type_beq from_dbus unknown_type
        then (if is_display_type_valid m from_settings
            then from_settings
            else if type_beq from_settings unknown_type
            then drm_type
            else emugl_type)
        else from_dbus)
    else emugl_type

-- The result is the new display_type.
unfoldable pub get_display_type : Setting → Manager → Manager
get_display_type g m = update_display_type g (
    if type_beq m.display_type unknown_type
    then record m { display_type = choose_display_type g m }
    else m)
