-- ===== src/Manager/Container.antt =====
-- What the manager tells the container of the host (manager/manager/kmremanager.cpp: onContainerEnvBooted,
-- onStopApplication, initCpuInformation; manager/power/powermanager.cpp).
-- Percentages are values of a type with a decidable equality.
pub mod Battery
use kylin_kmre_manager.Base.{
  ℕ, Bool, true, false, ◌||◌, List, [], ◌∷◌, ◌++◌, Option, none, some, ◌==◌, Eq, list_eq,
  if◌then◌else◌,
}
use kylin_kmre_manager.Base.Int.{ℤ, pos, negsuc, minus_one, int_beq}
use kylin_kmre_manager.Base.Text.{Text, codes, contains_text}
use kylin_kmre_manager.Base.Map.{insert}

-- getBatteryPath, for whether UPower is there and the paths of its devices.
unfoldable pub first_battery : List Text → Text
first_battery [] = []
first_battery (p ∷ ps) =
    let rest = first_battery ps in if contains_text p (codes "battery_") then p else rest

unfoldable pub get_battery_path : Bool → List Text → Text
unfolding first_battery
get_battery_path is_valid paths = if is_valid then first_battery paths else []

-- What UPower answers, if it does, and whether sys.kmre.boot_completed is 1.
pub record Reading (D : Type 0) : Type 0 where
  pub booted : Bool
  pub state : Option ℤ
  pub percentage : Option D

-- mPowerState and mBatteryPercent, and the values that were set of the system properties.
pub record Power (D : Type 0) : Type 0 where
  pub power_state : ℤ
  pub battery_percent : D
  pub props : List (Text × Text)

abbrev pub state_or : Option ℤ → ℤ
state_or none = negsuc 1
state_or (some s) = s

abbrev pub percent_or : {D : Type 0} → D → Option D → D
percent_or d none = d
percent_or d (some p) = p

unfoldable pub charging : ℤ → Text
charging s = if int_beq s (pos 2) then codes "0" else codes "1"

-- The double 0, the double 100 and QString::number.
module _ {D : Type 0} ⦃e : Eq D⦄ (zero_percent hundred : D) (number : D → Text) where
  abbrev pub new_power : Power D
  new_power = record { power_state = minus_one; battery_percent = zero_percent; props = [] }

  unfoldable pub update_state : ℤ → Power D → Power D
  unfolding charging
  update_state s p = if int_beq p.power_state s then p else record p {
    power_state = s;
    props = insert (codes "battery_charging") (charging s) p.props;
  }

  unfoldable pub update_percent : D → Power D → Power D
  update_percent d p = if p.battery_percent == d then p else record p {
    battery_percent = d;
    props = insert (codes "battery_percent") (number d) p.props;
  }

  unfoldable pub on_update_battery_state : Reading D → Power D → Power D
  unfolding update_state update_percent
  on_update_battery_state r p =
      if r.booted
      then update_percent (percent_or hundred r.percentage) (update_state (state_or r.state) p)
      else p

  -- The constructor of PowerManager reads once.
  unfoldable pub power_manager : Reading D → Power D
  unfolding on_update_battery_state
  power_manager r = on_update_battery_state r new_power

  unfoldable pub update_all : List (Reading D) → Power D → Power D
  unfolding on_update_battery_state
  update_all [] p = p
  update_all (r ∷ rs) p = update_all rs (on_update_battery_state r p)

-- What onContainerEnvBooted calls.
pub data BootAction : Type 0 where
  updates_battery updates_names : BootAction

-- The static `completed` and the calls.
unfoldable pub on_env_booted : Bool → Bool → Bool × List BootAction
on_env_booted true status = (true, [])
on_env_booted false status = (true, if status then updates_battery ∷ updates_names ∷ [] else [])

-- Several of these signals, one after the other.
unfoldable pub env_signals : Bool → List Bool → List BootAction
unfolding on_env_booted
env_signals completed [] = []
env_signals completed (status ∷ l) =
    (on_env_booted completed status).1 ++ env_signals (on_env_booted completed status).0 l

-- onStopApplication: whether the manager quits, for the user's id and name.
unfoldable pub on_stop_application : Text → Text → Text → Bool
on_stop_application uid user container =
    (codes "kmre-" ++ (uid ++ (codes "-" ++ user))) == container

-- initCpuInformation on an x86-64 processor: the value of ro.dalvik.vm.native.bridge, for what the
-- configuration says.
unfoldable pub native_bridge : Text → Text
native_bridge bridge =
    if bridge == codes "houdini"
    then codes "libhoudini.so"
    else if bridge == codes "ndk"
    then codes "libndk_translation.so"
    else codes "libhoudini.so"
