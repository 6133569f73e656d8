-- ===== src/FileWatcher/Service/Threads.antt =====
-- The threads of FileInotifyService (filewatcher/file-inotify/file-inotify-service.cpp: start, stop,
-- wait, and the flags that run and loopList keep).
pub mod Starting
use kylin_kmre_manager.Base.{Bool, true, false, not, ◌&&◌, ◌||◌, List, [], ◌∷◌, if◌then◌else◌}

-- A std::thread: without a thread, or with one that has not begun yet, is in its loop, or has ended and
-- was not joined.
pub data Thread : Type 0 where
  no_thread begins loops ended : Thread

abbrev pub joinable : Thread → Bool
joinable no_thread = false
joinable _ = true

-- `starting` says that start waits for the watcher thread, `aborted` that std::terminate was called.
pub record Threads : Type 0 where
  pub initialized : Bool
  pub is_running : Bool
  pub is_thread_running : Bool
  pub stop_watcher : Bool
  pub stop_list : Bool
  pub list_thread : Thread
  pub watcher_thread : Thread
  pub starting : Bool
  pub aborted : Bool

abbrev pub new_threads : Threads
new_threads = record {
  initialized = false;
  is_running = false;
  is_thread_running = false;
  stop_watcher = false;
  stop_list = false;
  list_thread = no_thread;
  watcher_thread = no_thread;
  starting = false;
  aborted = false;
}

-- The assignment of a new thread to one that is joinable ends the program.
abbrev pub launch : Threads → Threads
launch t =
    if joinable t.list_thread || joinable t.watcher_thread
    then record t { aborted = true }
    else record t { list_thread = begins; watcher_thread = begins; starting = true }

unfoldable pub start : Threads → Threads
start t =
    if not t.initialized || t.is_running
    then t
    else launch (record t { is_running = true; stop_list = false; stop_watcher = false })

unfoldable pub stop : Threads → Threads
stop t = record t { stop_list = true; stop_watcher = true }

-- wait: each thread is joined when it has ended; until then the call waits.
abbrev pub joined : Thread → Thread
joined no_thread = no_thread
joined begins = begins
joined loops = loops
joined ended = no_thread

unfoldable pub wait : Threads → Threads
wait t = record t { list_thread = joined t.list_thread; watcher_thread = joined t.watcher_thread }

-- A turn of the watcher thread: it begins, or looks at its flag, or ends.
abbrev pub watcher_turn_with : Thread → Threads → Threads
watcher_turn_with no_thread t = t
watcher_turn_with begins t = record t { is_thread_running = true; watcher_thread = loops }
watcher_turn_with loops t =
    if t.stop_watcher
    then record t { is_thread_running = false; is_running = false; watcher_thread = ended }
    else t
watcher_turn_with ended t = t

unfoldable pub watcher_turn : Threads → Threads
watcher_turn t = watcher_turn_with t.watcher_thread t

abbrev pub list_turn_with : Thread → Threads → Threads
list_turn_with no_thread t = t
list_turn_with begins t = record t { list_thread = loops }
list_turn_with loops t = if t.stop_list then record t { list_thread = ended } else t
list_turn_with ended t = t

unfoldable pub list_turn : Threads → Threads
list_turn t = list_turn_with t.list_thread t

-- The loop of start, once more.
unfoldable pub main_turn : Threads → Threads
main_turn t = record t { starting = t.starting && not t.is_thread_running }

-- What happens, in any order. While start waits, its thread makes no other call.
pub data Turn : Type 0 where
  initializes starts stops waits : Turn
  main watcher list : Turn

unfoldable pub step : Turn → Threads → Threads
unfolding start stop wait watcher_turn list_turn main_turn
step initializes t = if t.starting then t else record t { initialized = true }
step starts t = if t.starting then t else start t
step stops t = if t.starting then t else stop t
step waits t = if t.starting then t else wait t
step main t = main_turn t
step watcher t = watcher_turn t
step list t = list_turn t

unfoldable pub run : List Turn → Threads → Threads
unfolding step
run [] t = t
run (a ∷ l) t = run l (step a t)
