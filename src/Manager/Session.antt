-- ===== src/Manager/Session.antt =====
-- The end of the session (manager/manager/kmremanager.cpp: onStartLogout, onStopApplication, quit,
-- commitData, stopServices, uninhibit; manager/common/utils.cpp: isKmrePrefRunning), and the manager's
-- client of the system bus (manager/dbus/dbusclient.cpp).
use kylin_kmre_manager.Base.{
  ℕ, Bool, List, [], ◌∷◌, ◌++◌, Option, none, some, ◌==◌, list_eq, any, ltb, if◌then◌else◌,
}
use kylin_kmre_manager.Base.Int.{ℤ, pos, minus_one}
use kylin_kmre_manager.Base.Text.{Text, codes}
use kylin_kmre_manager.Manager.Container.{on_stop_application}

-- The calls over the bus, and the end of the process. A service is named by what follows
-- cn.kylinos.Kmre or com.kylin.Kmre.
pub data Action : Type 0 where
  uninhibits quits_preferences releases : Action
  stops_container : Text → Text → Action
  stops_service : Text → Action
  exits : Action

unfoldable pub uninhibit : List Action
uninhibit = uninhibits ∷ []

-- isKmrePrefRunning, for the lines that ps prints.
unfoldable pub is_kmre_pref_running : List Text → Bool
is_kmre_pref_running lines = any (λ line. line == codes "kylin-kmre-pref") lines

-- onStartLogout, for the user's name and id.
unfoldable pub on_start_logout : List Text → Text → Text → List Action
unfolding uninhibit is_kmre_pref_running
on_start_logout processes user uid =
    uninhibit
    ++ (if is_kmre_pref_running processes then quits_preferences ∷ [] else [])
    ++ stops_container user uid ∷ []

unfoldable pub quit : List Action
unfolding uninhibit
quit = uninhibit ++ exits ∷ []

-- onStopApplication, with what it does.
unfoldable pub on_stopped : Text → Text → Text → List Action
unfolding quit on_stop_application
on_stopped uid user container = if on_stop_application uid user container then quit else []

-- commitData.
unfoldable pub commit_data : Bool → List Text → Text → Text → List Action
unfolding on_start_logout uninhibit
commit_data allows_interaction processes user uid =
    if allows_interaction
    then on_start_logout processes user uid ++ uninhibit ++ releases ∷ exits ∷ []
    else []

unfoldable pub stop_services : List Action
stop_services =
    stops_service (codes "Window")
    ∷ stops_service (codes "Audio")
    ∷ stops_service (codes "FileWatcher")
    ∷ stops_service (codes "sensor")
    ∷ stops_service (codes "gpsserver")
    ∷ []

-- A call of the system bus by its name and arguments.
pub record Call : Type 0 where
  pub method : Text
  pub arguments : List Text

-- The bus: the first argument of a reply, `none` if the answer is no reply; and QVariant::toInt.
pub record Bus : Type 0 where
  pub answer : Call → Option Text
  pub to_int : Text → ℤ

abbrev pub int_or_error : Bus → Option Text → ℤ
int_or_error b none = minus_one
int_or_error b (some t) = b.to_int t

abbrev pub text_or_none : Option Text → Text
text_or_none none = []
text_or_none (some t) = t

abbrev pub prepare_call : Text → Text → Call
prepare_call user uid = record { method = codes "Prepare"; arguments = user ∷ uid ∷ [] }

unfoldable pub prepare : Bus → Text → Text → ℤ
prepare b user uid = int_or_error b (b.answer (prepare_call user uid))

unfoldable pub start_container : Bus → Text → Text → Text → Text → ℤ
start_container b user uid width height = int_or_error b (
    b.answer
      (record { method = codes "StartContainer"; arguments = user ∷ uid ∷ width ∷ height ∷ [] }))

unfoldable pub get_prop_of_container : Bus → Text → Text → Text → Text
get_prop_of_container b user uid prop =
    text_or_none (
      b.answer (record { method = codes "GetPropOfContainer"; arguments = user ∷ uid ∷ prop ∷ [] }))

unfoldable pub get_default_prop_of_container : Bus → Text → Text → Text → Text
get_default_prop_of_container b user uid prop = text_or_none (
    b.answer
      (record { method = codes "GetDefaultPropOfContainer"; arguments = user ∷ uid ∷ prop ∷ [] }))

-- The calls without an answer; numbers are given in digits.
unfoldable pub set_focus_on_container : Text → Text → Text → Call
set_focus_on_container user uid on_focus = record {
  method = codes "SetFocusOnContainer";
  arguments = user ∷ uid ∷ on_focus ∷ [];
}

unfoldable pub set_prop_of_container : Text → Text → Text → Text → Call
set_prop_of_container user uid prop value = record {
  method = codes "SetPropOfContainer";
  arguments = user ∷ uid ∷ prop ∷ value ∷ [];
}

unfoldable pub set_default_prop_of_container : Text → Text → Text → Text → Call
set_default_prop_of_container user uid prop value = record {
  method = codes "SetDefaultPropOfContainer";
  arguments = user ∷ uid ∷ prop ∷ value ∷ [];
}

unfoldable pub set_global_environment_variable : Text → Text → Call
set_global_environment_variable key value = record {
  method = codes "SetGlobalEnvironmentVariable";
  arguments = key ∷ value ∷ [];
}

-- hasEnvBootcompleted.
unfoldable pub has_env_bootcompleted : Bus → Text → Text → Bool
unfolding get_prop_of_container
has_env_bootcompleted b user uid =
    get_prop_of_container b user uid (codes "sys.kmre.boot_completed") == codes "1"

-- initOrgDisplayType of manager/main.cpp: m_orgDisplayType, for what it is before.
abbrev pub or_old : Text → Option Text → Text
or_old old none = old
or_old old (some t) = t

unfoldable pub init_org_display_type : Bus → Text → Text → Text → Text
init_org_display_type b user uid old = or_old old (
    b.answer (record {
      method = codes "GetDefaultPropOfContainer";
      arguments = user ∷ uid ∷ codes "ro.hardware.egl" ∷ [];
    }))

-- getWindowDisplaySizeFromDBus and getPhysicalDisplaySizeFromDBus of manager/kmre/wm/
-- displaysizemanager.cpp, by the kind of display: width and height, both 0 if one is not positive.
abbrev pub positive : ℤ → ℕ
positive (pos n) = n
positive _ = 0

abbrev pub both_positive : ℕ → ℕ → ℕ × ℕ
both_positive w h = if ltb 0 w then (if ltb 0 h then (w, h) else (0, 0)) else (0, 0)

unfoldable pub display_size_from_dbus : Bus → Text → Text → Text → ℕ × ℕ
unfolding get_prop_of_container
display_size_from_dbus b user uid kind =
    both_positive
      (positive (
        b.to_int (
          get_prop_of_container b user uid (codes "ro.kmre." ++ (kind ++ codes "_display.width")))))
      (positive (
        b.to_int (
          get_prop_of_container b user uid
            (codes "ro.kmre." ++ (kind ++ codes "_display.height")))))
