-- ===== src/Manager/Startup/Density.antt =====
-- The density of the physical display that the manager publishes (manager/manager/kmremanager.cpp,
-- manager/kmre/wm/displaysizemanager.cpp).
use Prim.Native.String.{String}
use kylin_kmre_manager.Base.{
  ◌≡◌, ◌⊎◌, inl, inr, refl, ◌∙◌, ap, not, ◌&&◌, List, [], ◌∷◌, ◌++◌, none, some, ltb, if_both, All,
}
use kylin_kmre_manager.Manager.Display.Size.{
  Size, Sizes, Desktop, get_physical_display_size, update_physical_display_size,
  get_prefered_window_display_size, get_window_display_size, is_proper, size_beq,
}
use kylin_kmre_manager.Manager.Startup.{
  first_sizes, init_display_information, set_appropriate_qemu_density, Surroundings, KmreManager,
  construct, Change, screen_changes, asks_information, chooses_camera, change, changes,
  choose_camera, qemu_calls,
}
use kylin_kmre_manager.Manager.Startup.Published.{published, published-append, shown}

abbrev pub density_prop : String
density_prop = "ro.kmre.physical_display.density"

-- Nothing has asked for the density, and no other than 0 was published.
record IsUnasked (z : Sizes) : Type 0 where
  density : z.physical_density ≡ 0
  sizes : (published density_prop z.calls ≡ none) ⊎ (published density_prop z.calls ≡ some 0)

get_physical_display_size-IsUnasked :
    (d : Desktop) (z : Sizes) → IsUnasked z → IsUnasked (get_physical_display_size d z)
unfolding get_physical_display_size update_physical_display_size
get_physical_display_size-IsUnasked d z h =
    if_both IsUnasked (is_proper (shown d) && not (size_beq (shown d) z.old_physical_size))
      (record {
        density = h.density;
        sizes = inr (
            published-append density_prop z.calls _
            ∙ unfold published in ap (λ n. some n) h.density);
      })
      (record { density = h.density; sizes = h.sizes })

get_window_display_size-IsUnasked :
    (d : Desktop) (z : Sizes) → IsUnasked z → IsUnasked (get_window_display_size d z)
unfolding get_window_display_size get_prefered_window_display_size
get_window_display_size-IsUnasked d z h =
    let now = get_physical_display_size-IsUnasked d z h in
    if_both (λ (o : Sizes × Size). IsUnasked (record o.0 { virtual_size = o.1 }))
      (is_proper (get_physical_display_size d z).physical_size)
      (record { density = now.density; sizes = now.sizes })
      (record { density = now.density; sizes = now.sizes })

set_appropriate_qemu_density-IsUnasked :
    (d : Desktop) (z : Sizes) → IsUnasked z → IsUnasked (set_appropriate_qemu_density d z)
unfolding set_appropriate_qemu_density
set_appropriate_qemu_density-IsUnasked d z h =
    let y = get_window_display_size d z in
    let now = get_window_display_size-IsUnasked d z h in
    let same : published density_prop (y.calls ++ qemu_calls y.qemu_density)
        ≡ published density_prop y.calls =
      published-append density_prop y.calls _ ∙ unfold published in refl in
    if_both IsUnasked (ltb 0 y.qemu_density)
      (record { density = now.density; sizes = rw same now.sizes }) now

-- The changes that do not ask for the density.
abbrev pub IsNoQuestion : Change → Type 0
IsNoQuestion (screen_changes d) = Unit {0}
IsNoQuestion (asks_information d) = ⊥
IsNoQuestion (chooses_camera device) = Unit {0}

changes-IsUnasked :
    (cs : List Change) (m : KmreManager)
    → All IsNoQuestion cs
    → IsUnasked m.sizes
    → IsUnasked (changes cs m).sizes
unfolding changes change choose_camera
changes-IsUnasked [] m quiet h = h
changes-IsUnasked (screen_changes d ∷ cs) m quiet h =
    changes-IsUnasked cs (change (screen_changes d) m) quiet.1
      (set_appropriate_qemu_density-IsUnasked d m.sizes h)
changes-IsUnasked (asks_information d ∷ cs) m quiet h = absurd quiet.0
changes-IsUnasked (chooses_camera device ∷ cs) m quiet h =
    changes-IsUnasked cs (change (chooses_camera device) m) quiet.1 h

construct-IsUnasked : (r : Surroundings) → IsUnasked (construct r).sizes
unfolding construct init_display_information
construct-IsUnasked r =
    let d = r.desktop in
    set_appropriate_qemu_density-IsUnasked d _ (
      get_physical_display_size-IsUnasked d _ (
        get_window_display_size-IsUnasked d first_sizes
          (record { density = refl; sizes = inl (unfold published in refl) })))

-- As long as nothing asks for the information about the display, no density of the physical display but
-- 0 is published, with whatever screens: it is published with a size, but only looked up when it is
-- asked for.
pub changes-density_zero :
    (r : Surroundings) (cs : List Change)
    → All IsNoQuestion cs
    → let z = (changes cs (construct r)).sizes in
      (published density_prop z.calls ≡ none) ⊎ (published density_prop z.calls ≡ some 0)
changes-density_zero r cs quiet =
    (changes-IsUnasked cs (construct r) quiet (construct-IsUnasked r)).sizes
