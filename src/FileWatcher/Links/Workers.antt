-- ===== src/FileWatcher/Links/Workers.antt =====
-- The check workers of FileWatcher: the loops that wait for a directory and that watch a storage, and
-- how their signals are connected to the slots (filewatcher/directory-check-worker.cpp,
-- storage-check-worker.cpp, file-watcher.cpp). A poll is what one round of a loop sees; a list of
-- polls may end before the loop does.
use kylin_kmre_manager.Base.{
  Bool, true, false, ◌&&◌, not, List, [], ◌∷◌, Option, none, some, ◌==◌, list_eq, if◌then◌else◌,
}
use kylin_kmre_manager.Base.Text.{Text}
use kylin_kmre_manager.FileWatcher.Links.FileSystem.{
  FileSystem, StorageInfo, Signal, CheckType, normal, pending, depend, linking, check,
  check_storage,
}
use kylin_kmre_manager.FileWatcher.Links.Slots.{is_fuse}

-- The signals of the workers.
data WorkerSignal : Type 0 where
  add_path pending_add_path depend_add_path link_add_path status_changed : Text → WorkerSignal

-- DirectoryCheckWorker::doCheck.
abbrev signal_of : CheckType → Text → WorkerSignal
signal_of normal path = add_path path
signal_of pending path = pending_add_path path
signal_of depend path = depend_add_path path
signal_of linking path = link_add_path path

-- Its loop: whether a poll found the path.
unfoldable found_within : List Bool → Bool
found_within [] = false
found_within (there ∷ polls) = let later = found_within polls in if there then true else later

unfoldable do_check : Text → Text → CheckType → List Bool → Option WorkerSignal
unfolding found_within
do_check own path t polls =
    if own == path then (if found_within polls then some (signal_of t path) else none) else none

-- The connection of the signal `check` to a worker.
unfoldable answer : Text → List Bool → Signal → Option WorkerSignal
unfolding do_check
answer own polls (check path t) = do_check own path t polls
answer own polls (check_storage path told) = none

abbrev bool_beq : Bool → Bool → Bool
bool_beq true b = b
bool_beq false b = not b

module _ (y : FileSystem) where
  open y use {exists, target}

  -- The loop of StorageCheckWorker::doCheck: whether a poll ended it.
  unfoldable ended_within : Bool → List StorageInfo → Bool
  ended_within told [] = false
  ended_within told (i ∷ polls) =
      let later = ended_within told polls in
      if not (i.valid && i.ready)
      then true
      else if not (bool_beq told (is_fuse y i))
      then true
      else later

  unfoldable do_check_storage : Text → Text → Bool → List StorageInfo → Option WorkerSignal
  unfolding ended_within
  do_check_storage own path told polls =
      if own == path
      then (if ended_within told polls then some (status_changed path) else none)
      else none

  -- The connection of the signal `checkStorage` to a worker.
  unfoldable storage_answer : Text → List StorageInfo → Signal → Option WorkerSignal
  unfolding do_check_storage
  storage_answer own polls (check path t) = none
  storage_answer own polls (check_storage path told) = do_check_storage own path told polls
