-- ===== src/Manager/Startup.antt =====
-- The manager's constructor and what follows it (manager/manager/kmremanager.cpp: the constructor,
-- initDisplayInformation, initCpuInformation, setAppropriateQemuDensity, initConnections,
-- setCameraDevice, getCameraDevice).
pub mod Published
pub mod Current
pub mod Screens
pub mod Density
use kylin_kmre_manager.Base.{ℕ, Bool, List, [], ◌∷◌, ◌++◌, Option, none, some, ltb, if◌then◌else◌}
use kylin_kmre_manager.Base.Text.{Text, codes}
use kylin_kmre_manager.Manager.Display.Gpu.{GpuVendor}
use kylin_kmre_manager.Manager.Display.Size.{
  Size, size, PropCall, set_default, set_prop, Sizes, Desktop, get_physical_display_size,
  get_window_display_size, get_window_density, get_physical_density,
}
use kylin_kmre_manager.Manager.Camera.Service.{Camera, set_camera_device}
use kylin_kmre_manager.Manager.Camera.Socket.{new_camera}
use kylin_kmre_manager.Manager.Container.{native_bridge}
use kylin_kmre_manager.Manager.Host.{init_host_platform_prop}
use kylin_kmre_manager.Manager.Network.{init_docker_dns}

-- The static members of DisplaySizeManager before anything is called.
abbrev pub first_sizes : Sizes
first_sizes = record {
  virtual_size = size 0 0;
  physical_size = size 0 0;
  virtual_density = 0;
  physical_density = 0;
  qemu_density = 0;
  old_virtual_size = size 0 0;
  old_physical_size = size 0 0;
  calls = [];
}

-- initDisplayInformation.
unfoldable pub init_display_information : Desktop → Sizes → Sizes
init_display_information d z = get_physical_display_size d (get_window_display_size d z)

abbrev pub qemu_calls : ℕ → List PropCall
qemu_calls density =
    set_default "qemu.sf.lcd_density" density ∷ set_prop "qemu.sf.lcd_density" density ∷ []

abbrev pub with_qemu_density : Sizes → Sizes
with_qemu_density z =
    if ltb 0 z.qemu_density then record z { calls = z.calls ++ qemu_calls z.qemu_density } else z

-- setAppropriateQemuDensity.
unfoldable pub set_appropriate_qemu_density : Desktop → Sizes → Sizes
set_appropriate_qemu_density d z = with_qemu_density (get_window_display_size d z)

-- What the constructor reads: the screen, the camera and the bridge of kmre.ini, the hardware platform,
-- the vendor of the GPU, and resolv.conf.
pub record Surroundings : Type 0 where
  pub desktop : Desktop
  pub camera_device : Option Text
  pub bridge : Text
  pub hw_platform : Text
  pub vendor : GpuVendor
  pub resolv : Option Text

-- The camera worker, the display sizes with their calls, and the other default properties of the
-- container that were set, oldest first.
pub record KmreManager : Type 0 where
  pub camera : Camera
  pub sizes : Sizes
  pub defaults : List (Text × Text)

abbrev pub dns_props : Text × Text → List (Text × Text)
dns_props (dns1, dns2) = (codes "sys.custom.dns1", dns1) ∷ (codes "sys.custom.dns2", dns2) ∷ []

-- The constructor on an x86-64 processor.
unfoldable pub construct : Surroundings → KmreManager
unfolding init_display_information set_appropriate_qemu_density
construct r = record {
  camera = new_camera r.camera_device;
  sizes = set_appropriate_qemu_density r.desktop (init_display_information r.desktop first_sizes);
  defaults =
      (codes "ro.dalvik.vm.native.bridge", native_bridge r.bridge)
        ∷ init_host_platform_prop r.hw_platform r.vendor
      ++ dns_props (init_docker_dns r.resolv);
}

-- setCameraDevice and getCameraDevice of the manager; the worker is there.
unfoldable pub choose_camera : Text → KmreManager → KmreManager
choose_camera device m = record m { camera = set_camera_device device m.camera }

unfoldable pub get_camera_device : KmreManager → Text
get_camera_device m = m.camera.device_name

-- What happens later: the geometry of the screen changes, getDisplayInformation is called with its
-- four calls of DisplaySizeManager, a camera is chosen.
pub data Change : Type 0 where
  screen_changes asks_information : Desktop → Change
  chooses_camera : Text → Change

abbrev pub ask_sizes : Desktop → Sizes → Sizes
ask_sizes d z =
    get_physical_density d
      (get_window_density d (get_physical_display_size d (get_window_display_size d z)))

unfoldable pub change : Change → KmreManager → KmreManager
unfolding set_appropriate_qemu_density choose_camera
change (screen_changes d) m = record m { sizes = set_appropriate_qemu_density d m.sizes }
change (asks_information d) m = record m { sizes = ask_sizes d m.sizes }
change (chooses_camera device) m = choose_camera device m

unfoldable pub changes : List Change → KmreManager → KmreManager
unfolding change
changes [] m = m
changes (c ∷ cs) m = changes cs (change c m)
