-- ===== src/Manager/Start.antt =====
-- The manager's program (manager/main.cpp: set_and_save_env, xcb_is_connected, main).
pub mod Saved
use kylin_kmre_manager.Base.{
  ℕ, Bool, true, false, not, ◌&&◌, ◌||◌, List, [], ◌∷◌, ◌++◌, map, Option, none, some, ◌==◌,
  list_eq, if◌then◌else◌,
}
use kylin_kmre_manager.Base.Int.{ℤ, pos}
use kylin_kmre_manager.Base.Text.{Text, codes, is_empty}

-- A variable of the environment with its value.
abbrev pub Variable : Type 0
Variable = Text × Text

-- What set_and_save_env learns of the host: the type of the virtual machine, the architecture that the
-- program was built for, which drivers there are, and what GpuInfo says.
pub record Host : Type 0 where
  pub virt_type : Text
  pub is_x86_64 : Bool
  pub is_aarch64 : Bool
  pub has_swrast_x86 : Bool
  pub has_swrast_arm : Bool
  pub has_i965 : Bool
  pub prefers_i965 : Bool
  pub has_iris : Bool

-- useSoftwareRender.
unfoldable pub use_software_render : Text → Bool
use_software_render virt_type = not (is_empty virt_type || virt_type == codes "none")

-- The environment of the program, and what has been written to the file.
pub record Saving : Type 0 where
  pub env : List Variable
  pub written : Text

-- qputenv, with the names that can be set, and env_file.write.
unfoldable pub put_env : (Text → Bool) → Text → Text → Saving → Saving
put_env can_set name value s = record s {
  env = if can_set name then (name, value) ∷ s.env else s.env;
}

unfoldable pub write : Text → Saving → Saving
write text s = record s { written = s.written ++ text }

-- The parts of set_and_save_env on an open file.
unfoldable pub save_theme : (Text → Bool) → Saving → Saving
unfolding put_env write
save_theme can_set s =
    write (codes "QT_QPA_PLATFORMTHEME=ukui\n")
      (put_env can_set (codes "QT_QPA_PLATFORMTHEME") (codes "ukui") s)

unfoldable pub save_swrast_x86 : (Text → Bool) → Host → Saving → Saving
unfolding put_env write
save_swrast_x86 can_set h s =
    if h.is_x86_64 && h.has_swrast_x86
    then write (codes "MESA_LOADER_DRIVER_OVERRIDE=swrast\n")
        (put_env can_set (codes "MESA_LOADER_DRIVER_OVERRIDE") (codes "swrast") s)
    else s

unfoldable pub save_swrast_arm : (Text → Bool) → Host → Saving → Saving
unfolding put_env write
save_swrast_arm can_set h s =
    if h.is_aarch64 && h.has_swrast_arm
    then write (codes "MESA_LOADER_DRIVER_OVERRIDE=swrast\n")
        (put_env can_set (codes "MESA_LOADER_DRIVER_OVERRIDE") (codes "swrast") s)
    else s

unfoldable pub save_i965 : (Text → Bool) → Host → Saving → Saving
unfolding put_env write
save_i965 can_set h s =
    if h.has_i965
    then write (codes "MESA_LOADER_DRIVER_OVERRIDE=i965\n")
        (put_env can_set (codes "MESA_LOADER_DRIVER_OVERRIDE") (codes "i965") s)
    else s

unfoldable pub save_driver : (Text → Bool) → Host → Saving → Saving
unfolding use_software_render save_swrast_x86 save_swrast_arm save_i965
save_driver can_set h s =
    if use_software_render h.virt_type
    then save_swrast_arm can_set h (save_swrast_x86 can_set h s)
    else if h.prefers_i965
    then save_i965 can_set h s
    else s

unfoldable pub save_iris : (Text → Bool) → Host → Saving → Saving
unfolding put_env write
save_iris can_set h s =
    if h.has_iris
    then write (codes "KMRE_ENV_DRI_DRIVER=iris\n")
        (put_env can_set (codes "KMRE_ENV_DRI_DRIVER") (codes "iris") s)
    else s

-- set_and_save_env: the environment, and what the file holds if it can be opened. The file is truncated.
unfoldable pub set_and_save_env :
    Bool → (Text → Bool) → Host → List Variable → List Variable × Option Text
unfolding save_theme save_driver save_iris
set_and_save_env false can_set h env = (env, none)
set_and_save_env true can_set h env =
    let s =
      save_iris can_set h
        (save_driver can_set h (save_theme can_set (record { env = env; written = [] }))) in
    (s.env, some s.written)

-- xcb_is_connected: the display's name, and the answer for whether there is a connection, whether it has
-- an error, and whether it is closed again.
unfoldable pub display_name : Text → Text
display_name name = if is_empty name then codes ":0" else name

pub record Connection : Type 0 where
  pub connects : Bool
  pub has_error : Bool

unfoldable pub xcb_is_connected : Connection → Bool × Bool
xcb_is_connected c = (c.connects && not c.has_error, c.connects)

-- What main goes through.
pub data Action : Type 0 where
  saves_env makes_application reads_global_env reads_display_type makes_manager registers : Action
  executes : Action

pub record World : Type 0 where
  pub locked : Bool  -- tryLockFile
  pub shell : Text  -- getShellProgram
  pub connection : Connection
  pub has_session_bus : Bool
  pub registered : Bool
  pub exit_code : ℤ

-- A shell for users that do not log in.
unfoldable pub is_no_login : Text → Bool
is_no_login shell =
    is_empty shell || (shell == codes "/bin/false" || shell == codes "/usr/sbin/nologin")

abbrev pub with_bus : World → List Action × ℤ
with_bus w =
    if w.registered
    then (
      saves_env ∷ makes_application ∷ reads_global_env ∷ reads_display_type ∷ makes_manager
          ∷ registers ∷ executes ∷ [],
      w.exit_code,
    )
    else (
      saves_env ∷ makes_application ∷ reads_global_env ∷ reads_display_type ∷ makes_manager
          ∷ registers ∷ [],
      pos 1,
    )

abbrev pub with_display : World → List Action × ℤ
with_display w =
    if w.has_session_bus then with_bus w else (saves_env ∷ makes_application ∷ [], pos 1)

unfoldable pub main : World → List Action × ℤ
unfolding is_no_login xcb_is_connected
main w =
    if not w.locked
    then ([], pos 0)
    else if is_no_login w.shell || not (xcb_is_connected w.connection).0
    then (saves_env ∷ [], pos 1)
    else with_display w
