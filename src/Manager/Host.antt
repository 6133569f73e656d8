-- ===== src/Manager/Host.antt =====
-- What the manager finds out about its host, and its lock file (manager/common/utils.cpp: getUserName,
-- getHostVirtType, getHostCloudPlatform, getHWPlatformString, tryLockFile, releaseLockFile;
-- manager/manager/kmremanager.cpp: isHostSupportDDS without UKUI_WAYLAND, initHostPlatformProp).
pub mod Facts
use kylin_kmre_manager.Base.{
  ℕ, Bool, true, false, List, [], ◌∷◌, ◌++◌, Option, none, some, ◌==◌, list_eq, nat_beq, nat_eq,
  if◌then◌else◌,
}
use kylin_kmre_manager.Base.Text.{Text, codes, is_empty}
use kylin_kmre_manager.Manager.Network.{trimmed}
use kylin_kmre_manager.Manager.Display.Gpu.{
  GpuVendor, unknown_vga, nvidia_vga, amd_vga, intel_vga, other_vga,
}

-- QString::replace of a character by a text, and QString::remove.
unfoldable pub replace_char : ℕ → Text → Text → Text
replace_char c with [] = []
replace_char c with (x ∷ s) =
    let rest = replace_char c with s in if nat_beq x c then with ++ rest else x ∷ rest

-- The name that the password database has for the user, and the variable USER.
pub record Account : Type 0 where
  pub pw_name : Option Text
  pub user : Option Text

-- A missing variable is a null pointer, of which a QString is empty; nothing is thrown.
abbrev pub name_of : Option Text → Option Text → Text
name_of (some name) user = name
name_of none (some name) = name
name_of none none = []

-- The static `userName`, which is the answer as well.
unfoldable pub get_user_name : Account → Text → Text
unfolding replace_char
get_user_name a user_name =
    if is_empty user_name
    then replace_char b'\\' (codes "_") (name_of a.pw_name a.user)
    else user_name

-- A line of output, without its newlines and the space around it.
unfoldable pub cleaned : Text → Text
unfolding replace_char trimmed
cleaned output = trimmed (replace_char 10 [] output)

-- getHostVirtType, for what systemd-detect-virt prints, if it ends in time.
abbrev pub virt_name : Text → Text
virt_name t =
    if t == codes "microsoft"
    then codes "hyper-v"
    else if t == codes "oracle"
    then codes "oracle virtualbox"
    else t

unfoldable pub get_host_virt_type : Option Text → Text
unfolding cleaned
get_host_virt_type none = []
get_host_virt_type (some output) = virt_name (cleaned output)

-- What dmidecode prints, if it ends in time, or what the two files hold, if they can be opened.
pub record Chassis : Type 0 where
  pub manufacturer : Option Text
  pub asset_tag : Option Text

pub record Cloud : Type 0 where
  pub has_ctyun : Bool
  pub is_root : Bool
  pub dmidecode : Chassis
  pub files : Chassis

-- One of the tests: `known` is cloudPlatform so far.
unfoldable pub if_huawei : Text → Option Text → Text → Text
unfolding cleaned
if_huawei wanted none known = known
if_huawei wanted (some output) known =
    if is_empty known then (if cleaned output == wanted then codes "huawei" else known) else known

unfoldable pub of_chassis : Chassis → Text → Text
unfolding if_huawei
of_chassis c known =
    if_huawei (codes "HUAWEICLOUD") c.asset_tag
      (if_huawei (codes "Huawei Inc.") c.manufacturer known)

unfoldable pub get_host_cloud_platform : Cloud → Text
unfolding of_chassis
get_host_cloud_platform c =
    of_chassis (if c.is_root then c.dmidecode else c.files)
      (if c.has_ctyun then codes "ctyun" else [])

-- gHWPlatformString.
unfoldable pub get_hw_platform_string : Text → Text
get_hw_platform_string s = if is_empty s then codes "common" else s

unfoldable pub is_host_support_dds : GpuVendor → Bool
is_host_support_dds unknown_vga = false
is_host_support_dds nvidia_vga = true
is_host_support_dds amd_vga = true
is_host_support_dds intel_vga = true
is_host_support_dds other_vga = false

-- The properties that initHostPlatformProp sets.
unfoldable pub init_host_platform_prop : Text → GpuVendor → List (Text × Text)
unfolding get_hw_platform_string is_host_support_dds
init_host_platform_prop hw_platform vendor =
    (if is_empty (get_hw_platform_string hw_platform)
      then []
      else (codes "ro.kmre.host.platform", get_hw_platform_string hw_platform) ∷ [])
    ++ (
      codes "ro.kmre.host.support_dds",
      if is_host_support_dds vendor then codes "true" else codes "false",
    )
      ∷ []

-- The answer of flock: 0, EWOULDBLOCK or another error.
pub data Locked : Type 0 where
  locks would_block fails : Locked

-- g_lockFd, none for -1, and the descriptors that are open and those that hold the lock.
pub record LockFile : Type 0 where
  pub lock_fd : Option ℕ
  pub opened : List ℕ
  pub holders : List ℕ

unfoldable pub drop_fd : ℕ → List ℕ → List ℕ
drop_fd fd [] = []
drop_fd fd (x ∷ l) = let rest = drop_fd fd l in if nat_beq x fd then rest else x ∷ rest

abbrev pub locked_by : ℕ → LockFile → LockFile × Bool
locked_by fd l = (record l { holders = fd ∷ l.holders }, true)

-- The first flock and, after the pause, the second.
abbrev pub lock_with : Locked → Locked → ℕ → LockFile → LockFile × Bool
lock_with locks second fd l = locked_by fd l
lock_with would_block locks fd l = locked_by fd l
lock_with would_block would_block fd l = (l, false)
lock_with would_block fails fd l = (l, false)
lock_with fails second fd l = (l, false)

-- tryLockFile, for the descriptor that open gives, if any.
unfoldable pub try_lock_file : Option ℕ → Locked → Locked → LockFile → LockFile × Bool
try_lock_file none first second l = (record l { lock_fd = none }, false)
try_lock_file (some fd) first second l =
    lock_with first second fd (record l { lock_fd = some fd; opened = fd ∷ l.opened })

abbrev pub release_fd : Option ℕ → LockFile → LockFile
release_fd none l = l
release_fd (some fd) l = record l {
  lock_fd = none;
  opened = drop_fd fd l.opened;
  holders = drop_fd fd l.holders;
}

unfoldable pub release_lock_file : LockFile → LockFile
release_lock_file l = release_fd l.lock_fd l
