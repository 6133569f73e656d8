-- ===== src/Scenarios/Display.antt =====
-- The display managers at concrete inputs (manager/kmre/wm/).
use kylin_kmre_manager.Base.{◌≡◌, refl, true, false, [], none}
use kylin_kmre_manager.Manager.Display.Ratio.{
  get_aspect_ratio_type, ratio_16_9, unknown_ratio, small_ratio_type, middle_ratio_type,
}
use kylin_kmre_manager.Manager.Display.Gpu.{unknown_vga, intel_vga}
use kylin_kmre_manager.Manager.Display.Kind.{unknown_type, Setting, Manager, get_display_type}
use kylin_kmre_manager.Manager.Display.KindLaws.{get_display_type_props, GoesWith}

hd : get_aspect_ratio_type 1366 768 ≡ ratio_16_9
unfolding get_aspect_ratio_type middle_ratio_type small_ratio_type
hd = refl

-- The entry of the table for 960 by 720 is behind the test of the width.
small_screen : get_aspect_ratio_type 960 720 ≡ unknown_ratio
unfolding get_aspect_ratio_type
small_screen = refl

abbrev setting : Setting
setting = record {
  gralloc = "";
  config = λ group key. none;
  display_type_string = "emugl";
  is_x86_64 = true;
  is_wayland = false;
  nvidia_in_use = false;
  drm_vendor = intel_vga;
  pci_devices = none;
  strcasestr = λ s t. false;
  drm_nodes = none;
  gles_31_aep = false;
}

abbrev manager : Manager
manager = record {
  display_type = unknown_type;
  old_display_type = unknown_type;
  is_drm_enabled = true;
  has_no_gpu_authentication = false;
  could_uses_drm_mode = true;
  could_use_intel_gralloc = false;
  gpu_vendor = unknown_vga;
  gpu_check_completed = false;
  gpu_vendor_vga = unknown_vga;
  props = [];
}

get_display_type_props_example :
    GoesWith
      (get_display_type setting manager).display_type
      (get_display_type setting manager).props
get_display_type_props_example = get_display_type_props setting manager refl refl
