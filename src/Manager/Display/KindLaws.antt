-- ===== src/Manager/Display/KindLaws.antt =====
-- What DisplayTypeManager guarantees (manager/kmre/wm/displaytypemanager.cpp).
use Prim.Native.String.{String}
use kylin_kmre_manager.Base.{
  ◌≡◌, refl, ◌≢◌, ◌⊎◌, sym, subst, Bool, true, false, ◌&&◌, ◌||◌, List, [], ◌∷◌, ◌++◌, Option, none,
  some, ◌==◌, string_eq, if◌then◌else◌, if_both, arith,
}
use kylin_kmre_manager.Manager.Display.Gpu.{GpuVendor}
use kylin_kmre_manager.Manager.Display.Kind.{
  DisplayType, unknown_type, drm_type, sw_type, emugl_type, type_beq, Value, literal, NodeNumbers,
  Setting, Manager, display_type_from_dbus, display_type_from_settings, drm_possible,
  is_display_type_valid, get_gpu_vendor, get_gpu_manufacture, node_props, vendor_props, is_intel,
  drm_gralloc, mode_props, type_props, update_display_type, choose_display_type, get_display_type,
  kmre_config_enabled,
}

choose_display_type_known : (g : Setting) (m : Manager) → choose_display_type g m ≢ unknown_type
unfolding choose_display_type is_display_type_valid
choose_display_type_known g m = ground arith

update_display_type-type :
    (g : Setting) (m : Manager) → (update_display_type g m).display_type ≡ m.display_type
unfolding update_display_type get_gpu_vendor get_gpu_manufacture
update_display_type-type g m = ground arith

update_display_type-old :
    (g : Setting) (m : Manager)
    → m.display_type ≢ unknown_type
    → (update_display_type g m).old_display_type ≡ m.display_type
unfolding update_display_type get_gpu_vendor get_gpu_manufacture
update_display_type-old g m known = ground arith

update_display_type_settled :
    (g : Setting) (m : Manager) → m.old_display_type ≡ m.display_type → update_display_type g m ≡ m
unfolding update_display_type
update_display_type_settled g m h = ground arith

-- getDisplayType always knows a type, and has set the properties for it.
get_display_type_known :
    (g : Setting) (m : Manager)
    → let out = get_display_type g m in
      (out.display_type ≢ unknown_type) × (out.old_display_type ≡ out.display_type)
unfolding get_display_type
get_display_type_known g m =
    let m' =
      if type_beq m.display_type unknown_type
      then record m { display_type = choose_display_type g m }
      else m in
    ground (
      arith,
      choose_display_type_known g m,
      update_display_type-type g m',
      update_display_type-old g m',
    )

get_display_type_settled :
    (h : Setting) (m : Manager)
    → m.display_type ≢ unknown_type
    → m.old_display_type ≡ m.display_type
    → get_display_type h m ≡ m
unfolding get_display_type
get_display_type_settled h m known settled = ground (arith, update_display_type_settled h m settled)

-- Once asked for, the display type stays: a later call answers the same, sets no property again and
-- changes nothing else, whatever the settings and the hardware say by then.
get_display_type_stays :
    (g h : Setting) (m : Manager) → get_display_type h (get_display_type g m) ≡ get_display_type g m
get_display_type_stays g h m =
    let (known, settled) = get_display_type_known g m in
    get_display_type_settled h (get_display_type g m) known settled

-- Without a display type in the container's properties, or without DRM, the chosen type is one that the
-- machine can use; and if the settings name such a type, DRM being possible, it is theirs.
choose_display_type_valid :
    (g : Setting) (m : Manager)
    → (display_type_from_dbus g.gralloc ≡ unknown_type) ⊎ (drm_possible m ≡ false)
    → (is_display_type_valid m (choose_display_type g m) ≡ true)
      × (drm_possible m ≡ true
          → is_display_type_valid m (display_type_from_settings g.display_type_string) ≡ true
          → choose_display_type g m ≡ display_type_from_settings g.display_type_string)
unfolding choose_display_type is_display_type_valid
choose_display_type_valid g m h = (ground arith, λ possible valid. ground arith)

-- The value that a property has after a list of settings.
pub last_value : String → List (String × Value) → Option Value
last_value k [] = none
last_value k ((j, v) ∷ l) = elim (last_value k l) [
  | some w ↦ some w
  | none ↦ if j == k then some v else none
]

abbrev or_before : Option Value → Option Value → Option Value
or_before (some w) before = some w
or_before none before = before

last_value-append :
    (k : String) (xs ys : List (String × Value))
    → last_value k (xs ++ ys) ≡ or_before (last_value k ys) (last_value k xs)
unfolding last_value
last_value-append k [] ys = ground arith
last_value-append k ((j, v) ∷ xs) ys = ground (arith, last_value-append k xs ys)

-- The five properties of a display type.
abbrev pub HasMode : String → String → String → String → List (String × Value) → Type 0
HasMode egl gralloc qemu post l =
    (last_value "ro.hardware.egl" l ≡ some (literal egl))
    × (last_value "ro.hardware.gralloc" l ≡ some (literal gralloc))
    × (last_value "ro.kernel.qemu" l ≡ some (literal qemu))
    × (last_value "ro.kernel.qemu.gles" l ≡ some (literal qemu))
    × (last_value "sys.goldfish.post" l ≡ some (literal post))

HasMode-append :
    (egl gralloc qemu post : String) (xs ys : List (String × Value))
    → HasMode egl gralloc qemu post ys
    → HasMode egl gralloc qemu post (xs ++ ys)
HasMode-append egl gralloc qemu post xs ys (a, b, c, d, e) = (
  ground (arith, last_value-append "ro.hardware.egl" xs ys, a),
  ground (arith, last_value-append "ro.hardware.gralloc" xs ys, b),
  ground (arith, last_value-append "ro.kernel.qemu" xs ys, c),
  ground (arith, last_value-append "ro.kernel.qemu.gles" xs ys, d),
  ground (arith, last_value-append "sys.goldfish.post" xs ys, e),
)

mode_props-HasMode :
    (egl gralloc qemu post : String) (o : Option NodeNumbers) (b : Bool)
    → HasMode egl gralloc qemu post
        (mode_props egl gralloc qemu post ++ (if b then node_props o else []))
unfolding last_value
mode_props-HasMode egl gralloc qemu post none true = (refl, refl, refl, refl, refl)
mode_props-HasMode egl gralloc qemu post (some n) true = (refl, refl, refl, refl, refl)
mode_props-HasMode egl gralloc qemu post _ false = (refl, refl, refl, refl, refl)

abbrev pub egl_of : DisplayType → String
egl_of drm_type = "mesa"
egl_of emugl_type = "emulation"
egl_of sw_type = "swiftshader"
egl_of unknown_type = ""

abbrev pub qemu_of : DisplayType → String
qemu_of emugl_type = "1"
qemu_of _ = "0"

abbrev pub post_of : DisplayType → String
post_of emugl_type = "true"
post_of _ = "false"

gralloc_of : Setting → Bool → GpuVendor → DisplayType → String
gralloc_of g c v drm_type = drm_gralloc g c v
gralloc_of g c v emugl_type = "goldfish"
gralloc_of g c v sw_type = "dri"
gralloc_of g c v unknown_type = ""

type_props-HasMode :
    (g : Setting) (c : Bool) (v : GpuVendor) (t : DisplayType)
    → t ≢ unknown_type
    → HasMode (egl_of t) (gralloc_of g c v t) (qemu_of t) (post_of t) (type_props g c v t)
unfolding type_props last_value gralloc_of
type_props-HasMode g c v drm_type known =
    mode_props-HasMode "mesa" (drm_gralloc g c v) "0" "false" g.drm_nodes g.is_wayland
type_props-HasMode g c v emugl_type known = (refl, refl, refl, refl, refl)
type_props-HasMode g c v sw_type known = (refl, refl, refl, refl, refl)
type_props-HasMode g c v unknown_type known = absurd (known refl)

display_type_from_gralloc_of :
    (g : Setting) (c : Bool) (v : GpuVendor) (t : DisplayType)
    → t ≢ unknown_type
    → display_type_from_dbus (gralloc_of g c v t) ≡ t
unfolding gralloc_of drm_gralloc display_type_from_dbus
display_type_from_gralloc_of g c v drm_type known =
    if_both IsDrm
      (g.is_x86_64 && (c || (is_intel v && kmre_config_enabled g "display" "use_intel_gralloc")))
      refl (if_both IsDrm (kmre_config_enabled g "display" "use_drm_gralloc") refl refl)
  where
    IsDrm : String → Type 0
    IsDrm x = display_type_from_dbus x ≡ drm_type
display_type_from_gralloc_of g c v emugl_type known = refl
display_type_from_gralloc_of g c v sw_type known = refl
display_type_from_gralloc_of g c v unknown_type known = absurd (known refl)

update_display_type-props :
    (g : Setting) (m : Manager)
    → m.display_type ≢ unknown_type
    → m.old_display_type ≡ unknown_type
    → (update_display_type g m).props
      ≡ m.props
        ++ (vendor_props g m.display_type (get_gpu_vendor g m).1
            ++ type_props g m.could_use_intel_gralloc (get_gpu_vendor g m).1 m.display_type)
unfolding update_display_type
update_display_type-props g m known fresh = ground arith

update_display_type-HasMode :
    (g : Setting) (m : Manager)
    → m.display_type ≢ unknown_type
    → m.old_display_type ≡ unknown_type
    → HasMode
        (egl_of m.display_type)
        (gralloc_of g m.could_use_intel_gralloc (get_gpu_vendor g m).1 m.display_type)
        (qemu_of m.display_type)
        (post_of m.display_type)
        (update_display_type g m).props
update_display_type-HasMode g m known fresh =
    let t = m.display_type in
    let v = (get_gpu_vendor g m).1 in
    let x = gralloc_of g m.could_use_intel_gralloc v t in
    subst (HasMode (egl_of t) x (qemu_of t) (post_of t))
      (sym (update_display_type-props g m known fresh))
      (HasMode-append (egl_of t) x (qemu_of t) (post_of t) m.props _ (
        HasMode-append (egl_of t) x (qemu_of t) (post_of t) (vendor_props g t v)
          (type_props g m.could_use_intel_gralloc v t)
          (type_props-HasMode g m.could_use_intel_gralloc v t known)))

get_display_type-eq-update :
    (g : Setting) (m : Manager)
    → m.display_type ≡ unknown_type
    → get_display_type g m
      ≡ update_display_type g (record m { display_type = choose_display_type g m })
unfolding get_display_type
get_display_type-eq-update g m none_yet = ground arith

-- The properties go with the type, and the gralloc module leads back to it.
abbrev pub GoesWith : DisplayType → List (String × Value) → Type 0
GoesWith t l =
    (gralloc : String) × HasMode (egl_of t) gralloc (qemu_of t) (post_of t) l
    × (display_type_from_dbus gralloc ≡ t)

-- The first time that the display type is asked for, the properties of the EGL module, the gralloc
-- module, the emulator flags and the goldfish post flag are set as goes with the type, and the gralloc
-- module set is one from which a later start reads the same type back.
pub get_display_type_props :
    (g : Setting) (m : Manager)
    → m.display_type ≡ unknown_type
    → m.old_display_type ≡ unknown_type
    → let out = get_display_type g m in GoesWith out.display_type out.props
get_display_type_props g m none_yet fresh =
    let n = record m { display_type = choose_display_type g m } in
    let v = (get_gpu_vendor g n).1 in
    let known : n.display_type ≢ unknown_type = choose_display_type_known g m in
    let goes : GoesWith n.display_type (update_display_type g n).props = (
      gralloc_of g m.could_use_intel_gralloc v n.display_type,
      update_display_type-HasMode g n known fresh,
      display_type_from_gralloc_of g m.could_use_intel_gralloc v n.display_type known,
    ) in
    subst (λ (o : Manager). GoesWith o.display_type o.props)
      (sym (get_display_type-eq-update g m none_yet))
      (subst (λ t. GoesWith t (update_display_type g n).props) (sym (update_display_type-type g n))
        goes)
