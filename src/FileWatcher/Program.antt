-- ===== src/FileWatcher/Program.antt =====
-- The file watcher's program (filewatcher/main.cpp: kernel_check, prepareLockFile, main), and of
-- filewatcher/file-watcher.cpp the names of the containers, the sources of the old links, shouldRun,
-- onContainerStopped and the destructor.
pub mod Watched
use kylin_kmre_manager.Base.{
  ℕ, zero, suc, Bool, true, false, not, ◌&&◌, ◌||◌, List, [], ◌∷◌, ◌++◌, Option, none, some, ◌==◌,
  list_eq, leb, if◌then◌else◌,
}
use kylin_kmre_manager.Base.Int.{ℤ, pos, negsuc, minus_one}
use kylin_kmre_manager.Base.Text.{Text, codes, starts_with}
use kylin_kmre_manager.FileWatcher.Service.Walk.{System, Service, initialize, add_watch_recursively}

-- kernel_check, for what uname gives as the release.
unfoldable pub kernel_check : Option Text → ℤ
kernel_check none = minus_one
kernel_check (some release) = if starts_with release (codes "4.4.58") then minus_one else pos 0

-- prepareLockFile: the path, if the directory is there or can be made.
unfoldable pub prepare_lock_file : Bool → Bool → Text → Option Text
prepare_lock_file there makes home =
    if there || makes then some (home ++ codes "/.kmre/kylin-kmre-filewatcher.lock") else none

-- The wait for ~/.config/user-dirs.dirs: how often the program sleeps, if the file is there by a round.
-- The round after the thirtieth is the last.
unfoldable pub wait_for : (ℕ → Bool) → ℕ → ℕ → ℕ
wait_for there zero count = count
wait_for there (suc left) count =
    let later = wait_for there left (suc count) in if there count then count else later

unfoldable pub wait_user_dirs : (ℕ → Bool) → ℕ
unfolding wait_for
wait_user_dirs there = wait_for there 31 0

-- The service as main starts it: the six locations, in their order, without notification.
unfoldable pub add_all : System → List Text → Service → Service
add_all y [] s = s
add_all y (p ∷ ps) s = add_all y ps (add_watch_recursively y p false s).0

pub record Locations : Type 0 where
  pub documents : Text
  pub download : Text
  pub pictures : Text
  pub movies : Text
  pub music : Text
  pub desktop : Text

abbrev pub in_order : Locations → List Text
in_order l = l.documents ∷ l.download ∷ l.pictures ∷ l.movies ∷ l.music ∷ l.desktop ∷ []

unfoldable pub start_service : System → Locations → Service → Service
unfolding add_all
start_service y l s = add_all y (in_order l) (initialize y s).0

-- What main does, and its exit code: for the lock file, the lock, the registration and exec.
pub data Action : Type 0 where
  starts_service makes_watcher registers runs executes : Action

unfoldable pub main : Option Text → Bool → Bool → ℤ → List Action × ℤ
main none locked registered code = ([], pos 0)
main (some path) false registered code = ([], pos 0)
main (some path) true false code = (starts_service ∷ makes_watcher ∷ registers ∷ [], pos 1)
main (some path) true true code =
    (starts_service ∷ makes_watcher ∷ registers ∷ runs ∷ executes ∷ [], code)

-- containerName and legacyContainerName, for the user's id in digits.
unfoldable pub container_name : Text → Text → Text
container_name uid user = codes "kmre-" ++ uid ++ codes "-" ++ user

unfoldable pub legacy_container_name : Text → Text → Text
legacy_container_name uid user = codes "kydroid-" ++ uid ++ codes "-" ++ user

unfoldable pub data_path : Text → Text → Text
unfolding container_name
data_path uid user = codes "/var/lib/kmre/data/" ++ container_name uid user

unfoldable pub legacy_data_path : Text → Text → Text
unfolding legacy_container_name
legacy_data_path uid user = codes "/var/lib/kydroid/data/" ++ legacy_container_name uid user

-- The sources that an old link can have.
abbrev pub below : Text → List Text
below p = (p ++ codes "/tencent/MicroMsg") ∷ p ∷ (p ++ codes "/tencent/_QQ_Data") ∷ []

unfoldable pub link_sources : Text → Text → List Text
unfolding data_path legacy_data_path
link_sources uid user = below (data_path uid user) ++ below (legacy_data_path uid user)

-- installed.json as shouldRun reads it: missing, not readable, no JSON, an object without `data`, or the
-- size of its array.
pub data Installed : Type 0 where
  missing unreadable no_json without_data : Installed
  items : ℕ → Installed

unfoldable pub should_run : Installed → Bool
should_run missing = false
should_run unreadable = false
should_run no_json = false
should_run without_data = false
should_run (items zero) = false
should_run (items (suc n)) = true

-- What run does first, for mRunning: whether it goes on, and whether the program quits in 5 seconds.
unfoldable pub begin_run : Bool → Installed → Bool × Bool
unfolding should_run
begin_run true installed = (false, false)
begin_run false installed = (true, not (should_run installed))

-- onContainerStopped: whether the program quits.
unfoldable pub on_container_stopped : Text → Text → Text → Bool
unfolding container_name
on_container_stopped uid user container = container == container_name uid user

-- A QFileSystemWatcher: its files and its directories.
pub record PathWatcher : Type 0 where
  pub files : List Text
  pub directories : List Text

-- The objects that FileWatcher owns; a watcher is `none` while its pointer is null.
pub record Owned : Type 0 where
  pub directory_workers : List Text
  pub storage_workers : List Text
  pub threads : List Text
  pub watchers : List (Option PathWatcher)

-- What the destructor does.
pub data Deletion : Type 0 where
  deletes_worker quits_thread deletes_thread : Text → Deletion
  removes_paths : List Text → Deletion
  deletes_watcher : Deletion

unfoldable pub each_deletion : (Text → List Deletion) → List Text → List Deletion
each_deletion f [] = []
each_deletion f (t ∷ l) = f t ++ each_deletion f l

abbrev pub removal : List Text → List Deletion
removal [] = []
removal (p ∷ l) = removes_paths (p ∷ l) ∷ []

unfoldable pub delete_watchers : List (Option PathWatcher) → List Deletion
delete_watchers [] = []
delete_watchers (none ∷ l) = delete_watchers l
delete_watchers (some w ∷ l) =
    removal w.files ++ removal w.directories ++ deletes_watcher ∷ delete_watchers l

unfoldable pub destroy : Owned → List Deletion
unfolding each_deletion delete_watchers
destroy o =
    each_deletion (λ t. deletes_worker t ∷ []) o.directory_workers
    ++ each_deletion (λ t. deletes_worker t ∷ []) o.storage_workers
    ++ each_deletion (λ t. quits_thread t ∷ deletes_thread t ∷ []) o.threads
    ++ delete_watchers o.watchers
