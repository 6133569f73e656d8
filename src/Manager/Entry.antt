-- ===== src/Manager/Entry.antt =====
-- The calls of the manager from the session bus to the container: KmreManager (manager/manager/
-- kmremanager.cpp) hands them to ControlManager (manager/communication/controlmanager.cpp), which emits
-- signals of SignalManager (signalmanager.h); these are queued for the thread of BackendWorker, whose
-- slots call libkmre.so. Only getSystemProp calls the worker from the main thread.
pub mod Order
use kylin_kmre_manager.Base.{Bool, List, [], ◌∷◌, ◌++◌}
use kylin_kmre_manager.Base.Int.{ℤ}
use kylin_kmre_manager.Base.Text.{Text}
use kylin_kmre_manager.Manager.Apps.Library.{
  Library, Event, close_app_of, get_running_app_list, pause_apps, control, insert_one_record,
  remove_one_record, request_all_files, set_prop, get_prop,
}

-- The signals of SignalManager.
pub data Signal : Type 0 where
  request_running_app_list request_pause_all_android_apps request_close_all_apps : Signal
  request_launch_app : Text → Bool → ℤ → ℤ → ℤ → Signal
  request_close_app request_add_file_record request_remove_file_record : Text → Text → Signal
  request_control_app : ℤ → Text → ℤ → ℤ → Signal
  request_all_files_of : ℤ → Signal
  request_set_system_prop : ℤ → Text → Text → Signal

-- initConnections: the slot of the worker that a signal is connected to. There is no slot launchApp, so
-- that connection fails.
unfoldable pub slot : Library → Signal → List Event
slot lib request_running_app_list = get_running_app_list lib
slot lib request_pause_all_android_apps = pause_apps lib
slot lib request_close_all_apps = []
slot lib (request_launch_app pkg fullscreen width height density) = []
slot lib (request_close_app app pkg) = close_app_of lib app pkg
slot lib (request_add_file_record path mime_type) = insert_one_record lib path mime_type
slot lib (request_remove_file_record path mime_type) = remove_one_record lib path mime_type
slot lib (request_control_app id pkg type value) = control lib id pkg type value
slot lib (request_all_files_of type) = request_all_files lib type
slot lib (request_set_system_prop type name value) = set_prop lib type name value

-- The calls of KmreManager that go to the worker's thread, with their arguments.
pub data Command : Type 0 where
  close_app : Text → Text → Bool → Command
  control_app : ℤ → Text → ℤ → ℤ → Command
  adds_record removes_record : Text → Text → Command
  command_to_get_all_files : ℤ → Command
  set_system_prop : ℤ → Text → Text → Command

-- What ControlManager emits for each of them.
unfoldable pub signal_of : Command → Signal
signal_of (close_app app pkg force_kill) = request_close_app app pkg
signal_of (control_app id pkg type value) = request_control_app id pkg type value
signal_of (adds_record path mime_type) = request_add_file_record path mime_type
signal_of (removes_record path mime_type) = request_remove_file_record path mime_type
signal_of (command_to_get_all_files type) = request_all_files_of type
signal_of (set_system_prop type name value) = request_set_system_prop type name value

-- The event queue of the worker's thread; what its slots have done; and what both threads have done, in
-- the order of time.
pub record Manager : Type 0 where
  pub pending : List Signal
  pub done : List Event
  pub log : List Event

abbrev pub new_manager : Manager
new_manager = record { pending = []; done = []; log = [] }

unfoldable pub emit : Signal → Manager → Manager
emit s m = record m { pending = m.pending ++ s ∷ [] }

abbrev pub turn_with : Library → List Signal → Manager → Manager
turn_with lib [] m = m
turn_with lib (s ∷ rest) m = record {
  pending = rest;
  done = m.done ++ slot lib s;
  log = m.log ++ slot lib s;
}

-- The worker's thread takes the next signal.
unfoldable pub turn : Library → Manager → Manager
unfolding slot
turn lib m = turn_with lib m.pending m

-- KmreManager::getSystemProp and ControlManager::getSystemProp.
unfoldable pub get_system_prop : Library → ℤ → Text → Manager → Manager × Text
get_system_prop lib type name m =
    (record m { log = m.log ++ (get_prop lib type name).1 }, (get_prop lib type name).0)

-- What happens, in any order: a call that is queued, a turn of the worker's thread, getSystemProp.
pub data Happening : Type 0 where
  queues : Command → Happening
  turns : Happening
  asks : ℤ → Text → Happening

unfoldable pub happen : Library → Happening → Manager → Manager
unfolding emit turn get_system_prop signal_of
happen lib (queues c) m = emit (signal_of c) m
happen lib turns m = turn lib m
happen lib (asks type name) m = (get_system_prop lib type name m).0

unfoldable pub run : Library → List Happening → Manager → Manager
unfolding happen
run lib [] m = m
run lib (h ∷ hs) m = run lib hs (happen lib h m)
