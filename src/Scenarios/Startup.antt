-- ===== src/Scenarios/Startup.antt =====
-- The manager's start at concrete inputs (manager/manager/kmremanager.cpp).
use kylin_kmre_manager.Base.{◌≡◌, refl, ◌⊎◌, List, [], ◌∷◌, none, some}
use kylin_kmre_manager.Base.Text.{codes}
use kylin_kmre_manager.Manager.Display.Gpu.{intel_vga}
use kylin_kmre_manager.Manager.Display.Size.{size, Desktop, calculate_window_display_size, one_of}
use kylin_kmre_manager.Manager.Startup.{
  Surroundings, construct, Change, screen_changes, asks_information, chooses_camera, changes,
}
use kylin_kmre_manager.Manager.Startup.Published.{published, qemu_prop}
use kylin_kmre_manager.Manager.Startup.Screens.{changes-published, last_density}
use kylin_kmre_manager.Manager.Startup.Density.{density_prop, changes-density_zero}

abbrev wide : Desktop
wide = record {
  screen = some (size 1920 1080);
  window_density = none;
  physical_density_conf = none;
}

abbrev narrow : Desktop
narrow = record {
  screen = some (size 1024 768);
  window_density = none;
  physical_density_conf = none;
}

abbrev laptop : Surroundings
laptop = record {
  desktop = wide;
  camera_device = none;
  bridge = [];
  hw_platform = [];
  vendor = intel_vga;
  resolv = none;
}

-- Another screen is plugged in, the camera is chosen, and the first screen's information is asked for.
abbrev events : List Change
events = screen_changes narrow ∷ chooses_camera (codes "/dev/video1") ∷ asks_information wide ∷ []

changes-published_example :
    published qemu_prop (changes events (construct laptop)).sizes.calls ≡ some 240
unfolding last_density calculate_window_display_size one_of
changes-published_example = (changes-published laptop events refl (refl, (tt, (refl, tt)))).2

abbrev screens : List Change
screens = screen_changes narrow ∷ screen_changes wide ∷ []

changes-density_zero_example :
    (published density_prop (changes screens (construct laptop)).sizes.calls ≡ none)
    ⊎ (published density_prop (changes screens (construct laptop)).sizes.calls ≡ some 0)
changes-density_zero_example = changes-density_zero laptop screens (tt, (tt, tt))
