-- ===== src/Manager/Startup/Screens.antt =====
-- The properties of the container after the start and after changes of the screen (manager/manager/
-- kmremanager.cpp, manager/kmre/wm/displaysizemanager.cpp).
use Prim.Native.String.{String}
use kylin_kmre_manager.Base.{
  ℕ, ◌≡◌, inl, refl, ap, ◌∙◌, true, ◌&&◌, List, [], ◌∷◌, ◌++◌, none, some, ltb, leb, string_eq,
  if_both, All,
}
use kylin_kmre_manager.Manager.Display.Size.{
  Size, Sizes, Desktop, get_physical_display_size, conf_density, get_window_display_size,
  get_window_density, get_physical_density, is_proper, calculate_window_display_size,
}
use kylin_kmre_manager.Manager.Startup.{
  first_sizes, init_display_information, set_appropriate_qemu_density, Surroundings, KmreManager,
  construct, Change, screen_changes, asks_information, chooses_camera, change, changes, qemu_calls,
  choose_camera,
}
use kylin_kmre_manager.Manager.Startup.Published.{
  later, published, published-append, shown, density_at, density_of, width_prop, height_prop,
  qemu_prop, window_prop,
}
use kylin_kmre_manager.Manager.Startup.Current.{
  IsKept, IsCurrent, IsCurrent→IsKept, get_physical_display_size-IsCurrent,
  get_window_display_size-IsCurrent, get_physical_display_size-qemu, get_window_display_size-qemu,
}

-- The state after the constructor or a change; `q` is the density of the last geometry.
record IsPublished (q : ℕ) (z : Sizes) : Type 0 where
  current : IsCurrent z
  qemu : published qemu_prop z.calls ≡ some q

density_positive : (s : Size) → ltb 0 (density_at s) ≡ true
density_positive s =
    let window = calculate_window_display_size s.height s.width in
    if_both (λ n. ltb 0 n ≡ true) (is_proper s)
      (if_both (λ n. ltb 0 n ≡ true) (leb 720 window.width && leb 1280 window.height) refl refl)
      refl

set_appropriate_qemu_density-IsPublished :
    (d : Desktop) (z : Sizes)
    → is_proper (shown d) ≡ true
    → IsKept z
    → IsPublished (density_of d) (set_appropriate_qemu_density d z)
unfolding set_appropriate_qemu_density
set_appropriate_qemu_density-IsPublished d z proper h =
    let y = get_window_display_size d z in
    let now = get_window_display_size-IsCurrent d z proper h in
    let (density, before) = get_window_display_size-qemu d z in
    let sets : ltb 0 y.qemu_density ≡ true =
      ap (λ n. ltb 0 n) density ∙ density_positive (shown d) in
    let other : (name : String)
        → published name (qemu_calls y.qemu_density) ≡ none
        → published name (y.calls ++ qemu_calls y.qemu_density) ≡ published name y.calls =
      λ name e. published-append name y.calls _ ∙ ap (λ o. later o (published name y.calls)) e in
    rw sets (record {
      current = record {
        width = other width_prop (unfold published in refl) ∙ now.width;
        height = other height_prop (unfold published in refl) ∙ now.height;
        old_width = now.old_width;
        old_height = now.old_height;
        no_window = other window_prop (unfold published in refl) ∙ now.no_window;
      };
      qemu =
          published-append qemu_prop y.calls (qemu_calls y.qemu_density)
          ∙ unfold published in ap (λ n. some n) density;
    })

-- Densities are not what is published.
with_densities :
    (q v p : ℕ) (z : Sizes)
    → IsPublished q z
    → IsPublished q (record z { virtual_density = v; physical_density = p })
with_densities q v p z h = record {
  current = record {
    width = h.current.width;
    height = h.current.height;
    old_width = h.current.old_width;
    old_height = h.current.old_height;
    no_window = h.current.no_window;
  };
  qemu = h.qemu;
}

get_physical_display_size-IsPublished :
    (d : Desktop) (q : ℕ) (z : Sizes)
    → is_proper (shown d) ≡ true
    → IsPublished q z
    → IsPublished q (get_physical_display_size d z)
get_physical_display_size-IsPublished d q z proper h = record {
  current = get_physical_display_size-IsCurrent d z proper (IsCurrent→IsKept z h.current);
  qemu = get_physical_display_size-qemu d z ∙ h.qemu;
}

get_window_density-IsPublished :
    (d : Desktop) (q : ℕ) (z : Sizes) → IsPublished q z → IsPublished q (get_window_density d z)
unfolding get_window_density
get_window_density-IsPublished d q z h = if_both (IsPublished q) (ltb 0 z.virtual_density) h (
    if_both (IsPublished q) (ltb 0 (conf_density d.window_density))
      (with_densities q _ z.physical_density z h) (with_densities q _ z.physical_density z h))

get_physical_density-IsPublished :
    (d : Desktop) (q : ℕ) (z : Sizes)
    → is_proper (shown d) ≡ true
    → IsPublished q z
    → IsPublished q (get_physical_density d z)
unfolding get_physical_density
get_physical_density-IsPublished d q z proper h =
    let y = get_physical_display_size d z in
    if_both (IsPublished q) (ltb 0 z.physical_density) h (
      if_both (IsPublished q) (ltb 0 (conf_density d.physical_density_conf))
        (with_densities q z.virtual_density _ z h)
        (with_densities q y.virtual_density _ y
          (get_physical_display_size-IsPublished d q z proper h)))

get_window_display_size-IsPublished :
    (d : Desktop) (q : ℕ) (z : Sizes)
    → is_proper (shown d) ≡ true
    → IsPublished q z
    → IsPublished q (get_window_display_size d z)
get_window_display_size-IsPublished d q z proper h = record {
  current = get_window_display_size-IsCurrent d z proper (IsCurrent→IsKept z h.current);
  qemu = (get_window_display_size-qemu d z).1 ∙ h.qemu;
}

-- The density for the screen of the last change of geometry.
unfoldable pub last_density : ℕ → List Change → ℕ
last_density q [] = q
last_density q (screen_changes d ∷ cs) = last_density (density_of d) cs
last_density q (asks_information d ∷ cs) = last_density q cs
last_density q (chooses_camera device ∷ cs) = last_density q cs

-- Each screen has a width and a height.
abbrev pub HasScreen : Change → Type 0
HasScreen (screen_changes d) = is_proper (shown d) ≡ true
HasScreen (asks_information d) = is_proper (shown d) ≡ true
HasScreen (chooses_camera device) = Unit {0}

changes-kept :
    (cs : List Change) (q : ℕ) (m : KmreManager)
    → All HasScreen cs
    → IsPublished q m.sizes
    → IsPublished (last_density q cs) (changes cs m).sizes
unfolding changes change last_density choose_camera
changes-kept [] q m proper h = h
changes-kept (screen_changes d ∷ cs) q m proper h =
    changes-kept cs (density_of d) (change (screen_changes d) m) proper.1 (
      set_appropriate_qemu_density-IsPublished d m.sizes proper.0
        (IsCurrent→IsKept m.sizes h.current))
changes-kept (asks_information d ∷ cs) q m proper h =
    let z = get_window_display_size d m.sizes in
    let y = get_physical_display_size d z in
    changes-kept cs q (change (asks_information d) m) proper.1 (
      get_physical_density-IsPublished d q (get_window_density d y) proper.0 (
        get_window_density-IsPublished d q y (
          get_physical_display_size-IsPublished d q z proper.0
            (get_window_display_size-IsPublished d q m.sizes proper.0 h))))
changes-kept (chooses_camera device ∷ cs) q m proper h =
    changes-kept cs q (change (chooses_camera device) m) proper.1 h

first-IsKept : IsKept first_sizes
unfolding published
first-IsKept = record { sizes = inl refl; window = refl }

construct-IsPublished :
    (r : Surroundings)
    → is_proper (shown r.desktop) ≡ true
    → IsPublished (density_of r.desktop) (construct r).sizes
unfolding construct init_display_information
construct-IsPublished r proper =
    let d = r.desktop in
    let z = get_window_display_size d first_sizes in
    let y = get_physical_display_size d z in
    let first = get_window_display_size-IsCurrent d first_sizes proper first-IsKept in
    let next = get_physical_display_size-IsCurrent d z proper (IsCurrent→IsKept z first) in
    set_appropriate_qemu_density-IsPublished d y proper (IsCurrent→IsKept y next)

-- After the constructor and whatever screens, questions and cameras come later, where each screen has a
-- width and a height: the running container has the present physical size and the density that goes
-- with the screen of the last change of geometry; and the size of its window is never set.
pub changes-published :
    (r : Surroundings) (cs : List Change)
    → is_proper (shown r.desktop) ≡ true
    → All HasScreen cs
    → let z = (changes cs (construct r)).sizes in
      (published width_prop z.calls ≡ some z.physical_size.width)
      × (published height_prop z.calls ≡ some z.physical_size.height)
      × (published qemu_prop z.calls ≡ some (last_density (density_of r.desktop) cs))
      × (published window_prop z.calls ≡ none)
changes-published r cs proper screens =
    let h =
      changes-kept cs (density_of r.desktop) (construct r) screens
        (construct-IsPublished r proper) in
    (h.current.width, h.current.height, h.qemu, h.current.no_window)
