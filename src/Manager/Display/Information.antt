-- ===== src/Manager/Display/Information.antt =====
-- What the manager tells about the display (manager/communication/controlmanager.cpp:
-- getDisplayInformation; manager/kmre/wm/displaytypemanager.cpp: getDisplayTypeName). The pairs stand in
-- the order of the calls of insert; QJsonObject prints them in the order of the keys.
use kylin_kmre_manager.Base.{ℕ, Bool, true, List, [], ◌∷◌, ◌++◌, Option}
use kylin_kmre_manager.Base.Text.{Text, codes}
use kylin_kmre_manager.Manager.Display.Size.{
  Desktop, Sizes, get_window_display_size, get_physical_display_size, get_window_density,
  get_physical_density,
}
use kylin_kmre_manager.Manager.Display.Kind.{
  DisplayType, unknown_type, drm_type, sw_type, emugl_type, Setting, Manager, get_display_type,
  get_gpu_vendor, accessable_display_types,
}
use kylin_kmre_manager.Manager.Display.Probe.{CpuType, get_cpu_type}
use kylin_kmre_manager.Manager.Display.Vendor.{
  get_gpu_vendor_name, get_cpu_model_name, get_cpu_type_name,
}

pub data Value : Type 0 where
  number : ℕ → Value
  text : Text → Value
  flag : Bool → Value

unfoldable pub get_display_type_name : DisplayType → Text
get_display_type_name drm_type = codes "drm"
get_display_type_name sw_type = codes "sw"
get_display_type_name emugl_type = codes "emugl"
get_display_type_name unknown_type = codes "unknown"

-- QStringList::join with a comma.
unfoldable pub join_texts : List Text → Text
join_texts [] = []
join_texts (t ∷ []) = t
join_texts (t ∷ u ∷ l) = t ++ b',' ∷ join_texts (u ∷ l)

-- The names of the accessible types; other types have none.
unfoldable pub type_names : List DisplayType → List Text
type_names [] = []
type_names (emugl_type ∷ l) = codes "emugl" ∷ type_names l
type_names (drm_type ∷ l) = codes "drm" ∷ type_names l
type_names (sw_type ∷ l) = type_names l
type_names (unknown_type ∷ l) = type_names l

-- The static members of the display managers.
pub record Displays : Type 0 where
  pub sizes : Sizes
  pub manager : Manager
  pub cpu_type : CpuType
  pub cpu_model_name : Text

-- What is read while the information is put together.
pub record Sources : Type 0 where
  pub desktop : Desktop
  pub setting : Setting
  pub strcasestr : Text → Text → Bool
  pub cpuinfo : Option (List Text)
  pub threaded_opengl : Bool

-- The calls that are made for their values, in their order.
unfoldable pub refresh : Sources → Displays → Displays
refresh r d = record {
  sizes = get_physical_density r.desktop (
      get_window_density r.desktop
        (get_physical_display_size r.desktop (get_window_display_size r.desktop d.sizes)));
  manager = (get_gpu_vendor r.setting (get_display_type r.setting d.manager)).0;
  cpu_type = get_cpu_type r.strcasestr r.cpuinfo d.cpu_type;
  cpu_model_name = get_cpu_model_name r.cpuinfo d.cpu_model_name;
}

abbrev pub information_of : Sources → Displays → List (Text × Value)
information_of r d =
    (codes "window_display.width", number d.sizes.virtual_size.width)
    ∷ (codes "window_display.height", number d.sizes.virtual_size.height)
    ∷ (codes "physical_display.width", number d.sizes.physical_size.width)
    ∷ (codes "physical_display.height", number d.sizes.physical_size.height)
    ∷ (codes "window_display.density", number d.sizes.virtual_density)
    ∷ (codes "physical_display.density", number d.sizes.physical_density)
    ∷ (codes "display_type", text (get_display_type_name d.manager.display_type))
    ∷ (codes "gpu_vendor", text (get_gpu_vendor_name d.manager.gpu_vendor))
    ∷ (codes "gpu_model", text [])
    ∷ (codes "gpu_supported", flag true)
    ∷ (codes "cpu_type", text (get_cpu_type_name d.cpu_type d.cpu_model_name))
    ∷ (codes "cpu_supported", flag true)
    ∷ (codes "display_types", text (join_texts (type_names (accessable_display_types d.manager))))
    ∷ (codes "supports_threaded_opengl", flag r.threaded_opengl)
    ∷ (codes "supports_opengles_31_aep", flag r.setting.gles_31_aep)
    ∷ []

-- getDisplayInformation: the new state, and the object.
unfoldable pub get_display_information : Sources → Displays → Displays × List (Text × Value)
unfolding refresh get_display_type_name join_texts type_names
get_display_information r d = (refresh r d, information_of r (refresh r d))
