-- ===== src/Manager/Display/Size.antt =====
-- DisplaySizeManager (manager/kmre/wm/displaysizemanager.cpp). Widths and heights are those of screens
-- and are natural numbers; densities read from the configuration are ints.
use kylin_kmre_manager.Base.{
  ℕ, Bool, false, ◌&&◌, ◌||◌, not, List, [], ◌∷◌, ◌++◌, Option, none, some, ltb, leb, nat_beq,
  if◌then◌else◌,
}
use kylin_kmre_manager.Base.Int.{ℤ, pos, negsuc}
use Prim.Native.String.{String}

-- QSize.
pub record Size : Type 0 where
  pub width : ℕ
  pub height : ℕ

abbrev pub size : ℕ → ℕ → Size
size w h = record { width = w; height = h }

abbrev pub size_beq : Size → Size → Bool
size_beq a b = nat_beq a.width b.width && nat_beq a.height b.height

-- A call of SetDefaultPropOfContainer or SetPropOfContainer.
pub data PropCall : Type 0 where
  set_default set_prop : String → ℕ → PropCall

-- The static members, and the property calls made, oldest first.
pub record Sizes : Type 0 where
  pub virtual_size : Size
  pub physical_size : Size
  pub virtual_density : ℕ
  pub physical_density : ℕ
  pub qemu_density : ℕ
  pub old_virtual_size : Size
  pub old_physical_size : Size
  pub calls : List PropCall

-- What the operations read: the primary screen's size with its pixel ratio and the desktop's scaling
-- factor applied (`none` without a screen), and the two densities of kmre-display.ini (`none` without
-- that file).
pub record Desktop : Type 0 where
  pub screen : Option Size
  pub window_density : Option ℤ
  pub physical_density_conf : Option ℤ

unfoldable pub one_of : Size → List Size → Bool
one_of s [] = false
one_of s (t ∷ ts) = size_beq s t || one_of s ts

abbrev pub portrait_full : Size
portrait_full = size 720 1280

unfoldable pub calculate_window_display_size : ℕ → ℕ → Size
calculate_window_display_size width height =
    let screen = size width height in
    if one_of screen
      (size 1920 1080 ∷ size 1680 1050 ∷ size 1600 900 ∷ size 1440 900 ∷ size 1600 1024 ∷ [])
    then size 720 1280
    else if nat_beq width 1280 && nat_beq height 1024
    then size 720 900
    else if one_of screen (
        size 1366 768
        ∷ size 1280 960
        ∷ size 1280 800
        ∷ size 1280 720
        ∷ size 1440 810
        ∷ size 1368 768
        ∷ size 1360 768
        ∷ size 1400 900
        ∷ [])
    then size 540 960
    else if one_of screen (size 1024 768 ∷ size 1400 1050 ∷ size 1152 864 ∷ [])
    then size 540 720
    else if ltb width 1024 || ltb height 720
    then size 540 960
    else if ltb 1920 width && ltb 1080 height
    then size 720 1280
    else size 720 1280

-- The screen as getPhysicalDisplaySize reads it, before it is turned upright.
abbrev pub screen_or_default : Option Size → Size
screen_or_default none = size 1920 1080
screen_or_default (some s) = s

abbrev pub upright : Size → Size
upright s = if ltb s.height s.width then size s.height s.width else s

abbrev pub physical_calls : Size → ℕ → List PropCall
physical_calls s density =
    set_default "ro.kmre.physical_display.width" s.width
    ∷ set_default "ro.kmre.physical_display.height" s.height
    ∷ set_default "ro.kmre.physical_display.density" density
    ∷ set_prop "ro.kmre.physical_display.width" s.width
    ∷ set_prop "ro.kmre.physical_display.height" s.height
    ∷ set_prop "ro.kmre.physical_display.density" density
    ∷ []

abbrev pub virtual_calls : Size → ℕ → List PropCall
virtual_calls s density =
    set_default "ro.kmre.window_display.width" s.width
    ∷ set_default "ro.kmre.window_display.height" s.height
    ∷ set_default "ro.kmre.window_display.density" density
    ∷ set_prop "ro.kmre.window_display.width" s.width
    ∷ set_prop "ro.kmre.window_display.height" s.height
    ∷ set_prop "ro.kmre.window_display.density" density
    ∷ []

abbrev pub is_proper : Size → Bool
is_proper s = ltb 0 s.width && ltb 0 s.height

unfoldable pub update_physical_display_size : Sizes → Sizes
update_physical_display_size z =
    if is_proper z.physical_size && not (size_beq z.physical_size z.old_physical_size)
    then record z {
      old_physical_size = z.physical_size;
      calls = z.calls ++ physical_calls z.physical_size z.physical_density;
    }
    else z

unfoldable pub update_virtual_display_size : Sizes → Sizes
update_virtual_display_size z =
    if is_proper z.virtual_size && not (size_beq z.virtual_size z.old_virtual_size)
    then record z {
      old_virtual_size = z.virtual_size;
      calls = z.calls ++ virtual_calls z.virtual_size z.virtual_density;
    }
    else z

-- The result is the new physical_size.
unfoldable pub get_physical_display_size : Desktop → Sizes → Sizes
unfolding update_physical_display_size
get_physical_display_size d z =
    update_physical_display_size (record z { physical_size = upright (screen_or_default d.screen) })

unfoldable pub get_prefered_window_display_size : Desktop → Sizes → Sizes × Size
get_prefered_window_display_size d z =
    let z' = get_physical_display_size d z in
    let window = calculate_window_display_size z'.physical_size.height z'.physical_size.width in
    if is_proper z'.physical_size
    then (
      record z' {
        qemu_density = if leb 720 window.width && leb 1280 window.height then 320 else 240;
      },
      window,
    )
    else (record z' { qemu_density = 320 }, size 720 1280)

-- The result is the new virtual_size.
unfoldable pub get_window_display_size : Desktop → Sizes → Sizes
unfolding get_prefered_window_display_size
get_window_display_size d z =
    let (z', window) = get_prefered_window_display_size d z in record z' { virtual_size = window }

-- A density of the configuration is at least 320; 0 without a configuration.
abbrev pub conf_density : Option ℤ → ℕ
conf_density none = 0
conf_density (some (pos n)) = if ltb n 320 then 320 else n
conf_density (some (negsuc n)) = 320

-- The result is the new virtual_density.
unfoldable pub get_window_density : Desktop → Sizes → Sizes
get_window_density d z =
    if ltb 0 z.virtual_density
    then z
    else if ltb 0 (conf_density d.window_density)
    then record z { virtual_density = conf_density d.window_density }
    else record z { virtual_density = 320 }

-- The result is the new physical_density.
unfoldable pub get_physical_density : Desktop → Sizes → Sizes
get_physical_density d z =
    if ltb 0 z.physical_density
    then z
    else if ltb 0 (conf_density d.physical_density_conf)
    then record z { physical_density = conf_density d.physical_density_conf }
    else (let z' = get_physical_display_size d z in
        record z' {
          physical_density =
              if nat_beq z'.physical_size.height 3840 || nat_beq z'.physical_size.height 2560
              then 360
              else 320;
        })
