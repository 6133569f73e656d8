-- ===== src/Manager/Apps/Library.antt =====
-- The calls of libkmre.so (manager/communication/backendworker.cpp: closeApp, getRunningAppList,
-- pasueAllApps, controlApp, insertOneRecordToAndroidDB, removeOneRecordFromAndroidDB,
-- requestAllFilesFromAndroidDB, uninstallApp, setSystemProp, getSystemProp). The library is a parameter.
use kylin_kmre_manager.Base.{
  Bool, true, false, not, ◌&&◌, ◌||◌, List, [], ◌∷◌, ◌++◌, Option, none, some, ◌≡◌, ◌⊎◌, refl,
  arith, if◌then◌else◌,
}
use kylin_kmre_manager.Base.Int.{ℤ, pos, negsuc, int_beq}
use kylin_kmre_manager.Base.Text.{Text, is_empty}

-- A function of the library with its arguments.
pub data Request : Type 0 where
  close_app insert_file remove_file : Text → Text → Request
  get_running_applist pause_all_apps : Request
  control_app : ℤ → Text → ℤ → ℤ → Request
  request_media_files : ℤ → Request
  uninstall_app : Text → Request
  set_system_prop : ℤ → Text → Text → Request
  get_system_prop : ℤ → Text → Request

-- The library's file, what dlopen, dlsym and dlerror say of it, and what its functions answer: a bool,
-- an int or a string.
pub record Library : Type 0 where
  pub is_there : Bool
  pub opens : Bool
  pub symbol : Request → Bool
  pub error : Request → Bool
  pub succeeds : Request → Bool
  pub number : Request → ℤ
  pub string : Request → Option Text

-- GetFunction: whether there is a function to call.
abbrev pub get_function : Library → Request → Bool
get_function lib r = lib.is_there && (lib.opens && (not (lib.error r) && lib.symbol r))

-- What a member function does: calls of the library and signals.
pub data Event : Type 0 where
  calls : Request → Event
  close_finished : Text → Bool → Event
  send_running_app_list : Text → Event

abbrev pub call : Library → Request → List Event
call lib r = if get_function lib r then calls r ∷ [] else []

abbrev pub string_of : Library → Request → Option Text
string_of lib r = if get_function lib r then lib.string r else none

unfoldable pub close_app_of : Library → Text → Text → List Event
close_app_of lib app pkg =
    if is_empty app && is_empty pkg
    then []
    else call lib (close_app app pkg)
      ++ close_finished pkg
          (get_function lib (close_app app pkg) && lib.succeeds (close_app app pkg))
        ∷ []

abbrev pub sends : Option Text → List Event
sends none = []
sends (some list) = send_running_app_list list ∷ []

unfoldable pub get_running_app_list : Library → List Event
get_running_app_list lib = call lib get_running_applist ++ sends (string_of lib get_running_applist)

-- pasueAllApps.
unfoldable pub pause_apps : Library → List Event
pause_apps lib = call lib pause_all_apps

unfoldable pub control : Library → ℤ → Text → ℤ → ℤ → List Event
control lib id pkg event_type event_value = call lib (control_app id pkg event_type event_value)

unfoldable pub insert_one_record : Library → Text → Text → List Event
insert_one_record lib path mime_type =
    if is_empty path || is_empty mime_type then [] else call lib (insert_file path mime_type)

unfoldable pub remove_one_record : Library → Text → Text → List Event
remove_one_record lib path mime_type =
    if is_empty path || is_empty mime_type then [] else call lib (remove_file path mime_type)

unfoldable pub request_all_files : Library → ℤ → List Event
request_all_files lib type = call lib (request_media_files type)

-- uninstallApp: its answer, and the call.
unfoldable pub uninstall : Library → Text → Bool × List Event
uninstall lib pkg = if is_empty pkg then (false, []) else (
  int_beq
      (if get_function lib (uninstall_app pkg) then lib.number (uninstall_app pkg) else negsuc 9)
      (pos 0),
  call lib (uninstall_app pkg),
)

unfoldable pub set_prop : Library → ℤ → Text → Text → List Event
set_prop lib type name value =
    if is_empty name || is_empty value then [] else call lib (set_system_prop type name value)

abbrev pub text_or_empty : Option Text → Text
text_or_empty none = []
text_or_empty (some value) = value

-- getSystemProp: its answer, and the call.
unfoldable pub get_prop : Library → ℤ → Text → Text × List Event
get_prop lib type name = if is_empty name then ([], []) else (
  text_or_empty (string_of lib (get_system_prop type name)),
  call lib (get_system_prop type name),
)

-- uninstallApp reports success exactly if the library has the function, the package is named, and the
-- function answers 0.
uninstall_success :
    (lib : Library) (pkg : Text)
    → (uninstall lib pkg).0 ≡ (
        not (is_empty pkg)
        && (get_function lib (uninstall_app pkg)
            && int_beq (lib.number (uninstall_app pkg)) (pos 0)))
unfolding uninstall
uninstall_success lib [] = refl
uninstall_success lib (c ∷ s) =
    cases (get_function lib (uninstall_app (c ∷ s))) (lib.number (uninstall_app (c ∷ s)))
  where
    cases :
        (has : Bool) (n : ℤ)
        → int_beq (if has then n else negsuc 9) (pos 0) ≡ has && int_beq n (pos 0)
    cases true n = refl
    cases false n = refl

-- closeApp with a name emits closeFinished once, whether the library has the function or not; and true
-- only if the function was called and succeeded.
close_app_finished :
    (lib : Library) (app pkg : Text)
    → (is_empty app && is_empty pkg) ≡ false
    → (close_app_of lib app pkg ≡ close_finished pkg false ∷ [])
      ⊎ (close_app_of lib app pkg
          ≡ calls (close_app app pkg) ∷ close_finished pkg (lib.succeeds (close_app app pkg)) ∷ [])
unfolding close_app_of
close_app_finished lib app pkg h = ground (arith, h)
