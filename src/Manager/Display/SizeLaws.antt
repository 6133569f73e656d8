-- ===== src/Manager/Display/SizeLaws.antt =====
-- What DisplaySizeManager guarantees (manager/kmre/wm/displaysizemanager.cpp).
use kylin_kmre_manager.Base.{ℕ, ◌≤◌, ◌≡◌, ◌⊎◌, nat_beq, if◌then◌else◌, arith}
use kylin_kmre_manager.Manager.Display.Size.{
  Size, Sizes, Desktop, calculate_window_display_size, get_physical_display_size,
  get_prefered_window_display_size, get_window_density, get_physical_density,
}

-- A window is one of four sizes.
abbrev pub IsWindowSize : Size → Type 0
IsWindowSize s =
    (s.width ≡ 720) × ((s.height ≡ 1280) ⊎ (s.height ≡ 900))
    ⊎ (s.width ≡ 540) × ((s.height ≡ 960) ⊎ (s.height ≡ 720))

calculate_window_display_size_lem : (w h : ℕ) → IsWindowSize (calculate_window_display_size w h)
unfolding calculate_window_display_size
calculate_window_display_size_lem w h = ground arith

get_physical_display_size-upright :
    (d : Desktop) (z : Sizes)
    → (get_physical_display_size d z).physical_size.width
      ≤ (get_physical_display_size d z).physical_size.height
unfolding get_physical_display_size
get_physical_display_size-upright d z = ground arith

-- getPreferedWindowDisplaySize, with any screen or none: the window has one of the four sizes, the
-- physical size is upright, and the density that goes with the window is 320 for the size of 720 by
-- 1280 and 240 for the others.
prefered_window_lem :
    (d : Desktop) (z : Sizes)
    → let (z', window) = get_prefered_window_display_size d z in
      IsWindowSize window
      × (z'.physical_size.width ≤ z'.physical_size.height)
      × (z'.qemu_density ≡ (if nat_beq window.height 1280 then 320 else 240))
unfolding get_prefered_window_display_size
prefered_window_lem d z =
    let p = (get_physical_display_size d z).physical_size in
    ground (
      arith,
      get_physical_display_size-upright d z,
      calculate_window_display_size_lem p.height p.width,
    )

-- Asking for the physical size twice with the same screen makes no further property calls and changes
-- nothing else either.
get_physical_display_size_idem :
    (d : Desktop) (z : Sizes)
    → get_physical_display_size d (get_physical_display_size d z) ≡ get_physical_display_size d z
unfolding get_physical_display_size
get_physical_display_size_idem d z = ground arith

-- getWindowDensity, where no density was set yet or one of at least 320: the density is at least 320
-- afterwards, and a later call keeps it and changes nothing else, whatever the configuration says then.
window_density_lem :
    (d e : Desktop) (z : Sizes)
    → (z.virtual_density ≡ 0) ⊎ (320 ≤ z.virtual_density)
    → (320 ≤ (get_window_density d z).virtual_density)
      × (get_window_density e (get_window_density d z) ≡ get_window_density d z)
unfolding get_window_density
window_density_lem d e z h = ground arith

-- getPhysicalDensity, where no density was set yet or one of at least 320: the density is at least 320
-- afterwards, and a later call keeps it and changes nothing else, whatever the configuration and the
-- screen are then.
physical_density_lem :
    (d e : Desktop) (z : Sizes)
    → (z.physical_density ≡ 0) ⊎ (320 ≤ z.physical_density)
    → (320 ≤ (get_physical_density d z).physical_density)
      × (get_physical_density e (get_physical_density d z) ≡ get_physical_density d z)
unfolding get_physical_density
physical_density_lem d e z h = ground arith
