-- ===== src/Manager/Startup/Published.antt =====
-- Which properties of the container the manager has published (manager/manager/kmremanager.cpp,
-- manager/kmre/wm/displaysizemanager.cpp).
use Prim.Native.String.{String}
use kylin_kmre_manager.Base.{
  ℕ, ◌≡◌, refl, sym, ap, ◌∙◌, ◌&&◌, List, [], ◌∷◌, ◌++◌, Option, none, some, leb, ◌==◌, string_eq,
  if◌then◌else◌,
}
use kylin_kmre_manager.Manager.Display.Size.{
  Size, PropCall, set_default, set_prop, Desktop, upright, screen_or_default, is_proper,
  calculate_window_display_size,
}

abbrev pub later : Option ℕ → Option ℕ → Option ℕ
later none before = before
later (some n) before = some n

-- The value that a property was last set to in the running container.
unfoldable pub published : String → List PropCall → Option ℕ
published name [] = none
published name (set_default s n ∷ l) = published name l
published name (set_prop s n ∷ l) =
    let rest = published name l in later rest (if name == s then some n else none)

later_assoc : (a b c : Option ℕ) → later (later a b) c ≡ later a (later b c)
later_assoc none b c = refl
later_assoc (some n) b c = refl

later-none : (a : Option ℕ) → later a none ≡ a
later-none none = refl
later-none (some n) = refl

pub published-append :
    (name : String) (k l : List PropCall)
    → published name (k ++ l) ≡ later (published name l) (published name k)
unfolding published
published-append name [] l = sym (later-none (published name l))
published-append name (set_default s n ∷ k) l = published-append name k l
published-append name (set_prop s n ∷ k) l =
    ap (λ o. later o (if name == s then some n else none)) (published-append name k l)
    ∙ later_assoc (published name l) (published name k) (if name == s then some n else none)

-- The upright size of a screen, and the density that goes with its window.
abbrev pub shown : Desktop → Size
shown d = upright (screen_or_default d.screen)

abbrev pub density_at : Size → ℕ
density_at s =
    let window = calculate_window_display_size s.height s.width in
    if is_proper s
    then (if leb 720 window.width && leb 1280 window.height then 320 else 240)
    else 320

abbrev pub density_of : Desktop → ℕ
density_of d = density_at (shown d)

abbrev pub width_prop : String
width_prop = "ro.kmre.physical_display.width"

abbrev pub height_prop : String
height_prop = "ro.kmre.physical_display.height"

abbrev pub qemu_prop : String
qemu_prop = "qemu.sf.lcd_density"

abbrev pub window_prop : String
window_prop = "ro.kmre.window_display.width"
