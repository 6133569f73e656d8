-- ===== src/Manager/Display/Probe.antt =====
-- What the display code finds out about the machine (manager/kmre/wm/gpuinfo.cpp: the DRM nodes,
-- preferI965, the OpenGL ES features; displaytypemanager.cpp: the processor). The answers of the libraries
-- are arguments.
use kylin_kmre_manager.Base.{
  ℕ, ◌≡◌, ap, Bool, true, false, ◌&&◌, ◌||◌, List, [], ◌∷◌, take, Option, none, some, ◌==◌, list_eq,
  any, leb, if◌then◌else◌,
}
use kylin_kmre_manager.Base.Text.{Text, codes}
use kylin_kmre_manager.Manager.Display.Gpu.{
  intel_vga, vendor_of_id, GpuIds, or_found, chip_id_in_list,
}

-- A DRM device: whether it has the node, whether it matches the tag of the preferred device, and the major
-- and minor number of each node, if stat gives them.
pub record DrmDevice : Type 0 where
  pub has_primary : Bool
  pub has_render : Bool
  pub matches_tag : Bool
  pub primary_numbers : Option (ℕ × ℕ)
  pub render_numbers : Option (ℕ × ℕ)

-- drmPrimaryNodeMajor and the other three, `none` for -1; the numbers of a node are set together.
pub record Nodes : Type 0 where
  pub primary : Option (ℕ × ℕ)
  pub render : Option (ℕ × ℕ)

abbrev pub or_kept : Option (ℕ × ℕ) → Option (ℕ × ℕ) → Option (ℕ × ℕ)
or_kept none kept = kept
or_kept (some numbers) kept = some numbers

-- The two loops, which stop at the first device that has the node and matches.
unfoldable pub find_primary : List DrmDevice → Option (ℕ × ℕ) → Option (ℕ × ℕ)
find_primary [] kept = kept
find_primary (d ∷ ds) kept =
    let rest = find_primary ds kept in
    if d.has_primary && d.matches_tag then or_kept d.primary_numbers kept else rest

unfoldable pub find_render : List DrmDevice → Option (ℕ × ℕ) → Option (ℕ × ℕ)
find_render [] kept = kept
find_render (d ∷ ds) kept =
    let rest = find_render ds kept in
    if d.has_render && d.matches_tag then or_kept d.render_numbers kept else rest

abbrev pub both : Option (ℕ × ℕ) → Option (ℕ × ℕ) → Option ((ℕ × ℕ) × (ℕ × ℕ))
both none r = none
both (some p) none = none
both (some p) (some r) = some (p, r)

abbrev pub searched : Option (List DrmDevice) → Nodes → Nodes
searched none n = n
searched (some ds) n = record {
  primary = find_primary ds n.primary;
  render = find_render ds n.render;
}

-- get_drm_device_node_number and getDrmDeviceNodeNumber: the devices, if the preferred one, its tag and
-- the list of devices can be had (at most MAX_DRM_DEVICES, which libdrm is given). Numbers that are
-- known are not looked for again.
abbrev pub unless_known : Option (List DrmDevice) → Nodes → Option ((ℕ × ℕ) × (ℕ × ℕ)) → Nodes
unless_known devices n none = searched devices n
unless_known devices n (some numbers) = n

unfoldable pub get_drm_device_node_number :
    Option (List DrmDevice) → Nodes → Nodes × Option ((ℕ × ℕ) × (ℕ × ℕ))
unfolding find_primary find_render
get_drm_device_node_number devices n =
    let m = unless_known devices n (both n.primary n.render) in (m, both m.primary m.render)

-- preferI965, for the ids known before and those that are found; the new ids and the answer.
abbrev pub prefers : List ℕ → GpuIds → Bool
prefers i965 none = false
prefers i965 (some (vendor, chip)) = elim (vendor_of_id vendor) [
  | intel_vga ↦ chip_id_in_list chip i965
  | _ ↦ false
]

unfoldable pub prefer_i965 : List ℕ → GpuIds → GpuIds → GpuIds × Bool
prefer_i965 i965 found ids = (or_found ids found, prefers i965 (or_found ids found))

-- The extensions that together make up the Android extension pack.
unfoldable pub pack_parts : List Text
pack_parts =
    codes "GL_KHR_debug"
    ∷ codes "GL_KHR_texture_compression_astc_ldr"
    ∷ codes "GL_KHR_blend_equation_advanced"
    ∷ codes "GL_OES_sample_shading"
    ∷ codes "GL_OES_sample_variables"
    ∷ codes "GL_OES_shader_image_atomic"
    ∷ codes "GL_OES_shader_multisample_interpolation"
    ∷ codes "GL_OES_texture_stencil8"
    ∷ codes "GL_OES_texture_storage_multisample_2d_array"
    ∷ codes "GL_EXT_copy_image"
    ∷ codes "GL_EXT_draw_buffers_indexed"
    ∷ codes "GL_EXT_geometry_shader"
    ∷ codes "GL_EXT_gpu_shader5"
    ∷ codes "GL_EXT_primitive_bounding_box"
    ∷ codes "GL_EXT_shader_io_blocks"
    ∷ codes "GL_EXT_tessellation_shader"
    ∷ codes "GL_EXT_texture_border_clamp"
    ∷ codes "GL_EXT_texture_buffer"
    ∷ codes "GL_EXT_texture_cube_map_array"
    ∷ codes "GL_EXT_texture_sRGB_decode"
    ∷ []

abbrev pub found_in : List Text → Text → Bool
found_in extensions e = any (λ x. x == e) extensions

unfoldable pub all_found : List Text → List Text → Bool
all_found extensions [] = true
all_found extensions (e ∷ es) = found_in extensions e && all_found extensions es

-- checkOpenGLES31AEP once there is a context: the version, if it can be read, and the extensions that the
-- driver names, up to the first that it does not.
unfoldable pub check_opengles_31_aep : Option (ℕ × ℕ) → List Text → Bool
unfolding pack_parts all_found
check_opengles_31_aep none named = false
check_opengles_31_aep (some (major, minor)) named =
    let extensions = if leb 3 major && leb 1 minor then take 1000 named else [] in
    found_in extensions (codes "GL_ANDROID_extension_pack_es31a") || all_found extensions pack_parts

-- The processor, for the lines that fgets gives of /proc/cpuinfo, if it can be opened; `has` is strcasestr.
pub data CpuType : Type 0 where
  cpu_type_unknown cpu_type_intel cpu_type_amd : CpuType

unfoldable pub cpu_type_of : (Text → Text → Bool) → List Text → CpuType
cpu_type_of has [] = cpu_type_unknown
cpu_type_of has (l ∷ ls) =
    let rest = cpu_type_of has ls in
    if has l (codes "GenuineIntel") || has l (codes "Intel")
    then cpu_type_intel
    else if has l (codes "AuthenticAMD") || has l (codes "AMD")
    then cpu_type_amd
    else rest

abbrev pub read_cpu_type : (Text → Text → Bool) → Option (List Text) → CpuType
read_cpu_type has none = cpu_type_unknown
read_cpu_type has (some ls) = cpu_type_of has ls

unfoldable pub get_cpu_type : (Text → Text → Bool) → Option (List Text) → CpuType → CpuType
unfolding cpu_type_of
get_cpu_type has cpuinfo cpu_type_unknown = read_cpu_type has cpuinfo
get_cpu_type has cpuinfo cpu_type_intel = cpu_type_intel
get_cpu_type has cpuinfo cpu_type_amd = cpu_type_amd

-- Once getDrmDeviceNodeNumber has given numbers, every later call gives the same, whatever devices there
-- are then.
get_drm_device_node_number_stays :
    (devices later : Option (List DrmDevice)) (n : Nodes) (numbers : (ℕ × ℕ) × (ℕ × ℕ))
    → (get_drm_device_node_number devices n).1 ≡ some numbers
    → get_drm_device_node_number later (get_drm_device_node_number devices n).0
      ≡ ((get_drm_device_node_number devices n).0, some numbers)
unfolding get_drm_device_node_number
get_drm_device_node_number_stays devices later n numbers e =
    rw e (ap (λ o. ((get_drm_device_node_number devices n).0, o)) e)
