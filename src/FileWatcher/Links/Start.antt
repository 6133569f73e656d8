-- ===== src/FileWatcher/Links/Start.antt =====
-- How FileWatcher starts (filewatcher/file-watcher.cpp): run, and the old links that
-- prepareDirectoryAndStorage deletes. A hash is gone through in the order of its list.
use kylin_kmre_manager.Base.{
  Bool, true, false, ◌&&◌, ◌||◌, List, [], ◌∷◌, Option, none, some, list_eq, if◌then◌else◌,
}
use kylin_kmre_manager.Base.Text.{Text, codes}
use kylin_kmre_manager.FileWatcher.Links.FileSystem.{
  FileSystem, StorageInfo, LinkDestination, LinkInfo, PendingDirectory, DependDirectory, normal,
  pending, depend, linking, check, check_storage,
}
use kylin_kmre_manager.FileWatcher.Links.Link.{State, do_remove, make_link_with_icon, delete_link}
use kylin_kmre_manager.FileWatcher.Links.Slots.{
  contains, emit, has_required_directory, depend_delete_link, pending_link, is_fuse,
}

-- An entry of the desktop: its name, its path, and the target if it is a link.
pub record DesktopEntry : Type 0 where
  pub name : Text
  pub path : Text
  pub link_target : Option Text

abbrev pub leads_to : List Text → Option Text → Bool
leads_to sources none = false
leads_to sources (some t) = contains t sources

-- The names that links had, and their translations.
unfoldable pub link_names : List Text
link_names =
    codes "Mobile_App_Data" ∷ codes "Android_Data" ∷ codes "Wechat_Data" ∷ codes "QQ_Data" ∷ []

module _ (y : FileSystem) where
  open y use {exists, dir_exists}

  -- The loop over the desktop, for the six sources and the translated names.
  unfoldable pub delete_old_links : List Text → List Text → List DesktopEntry → State y → State y
  unfolding link_names
  delete_old_links sources translated [] s = s
  delete_old_links sources translated (e ∷ es) s =
      let rest = delete_old_links sources translated es (
        if leads_to sources e.link_target
          && (contains e.name translated || contains e.name link_names)
        then delete_link y e.path s
        else s) in
      rest

  -- A worker for a directory is made and kept.
  abbrev pub add_worker : Text → State y → State y
  add_worker path s = record s { directory_workers = path ∷ s.directory_workers }

  unfoldable pub start_directory : Text × LinkDestination → State y → State y
  start_directory (path, d) s =
      let t = add_worker path s in
      emit y (check path normal)
        (if d.should_create && exists s.fs path then t else delete_link y d.destination t)

  -- QDir::remove of the pending name.
  unfoldable pub remove_pending : Text → PendingDirectory → State y → State y
  remove_pending path d s =
      if exists s.fs path
      then s
      else if dir_exists s.fs d.pending_path
      then do_remove y (pending_link y d) s
      else s

  unfoldable pub start_pending : Text × PendingDirectory → State y → State y
  unfolding remove_pending
  start_pending (path, d) s =
      let t = add_worker path s in
      emit y (check path pending) (
        remove_pending path d
          (if exists s.fs d.depend_path then t else depend_delete_link y d.depend_path t))

  unfoldable pub keep_if_wanted : DependDirectory → State y → State y
  keep_if_wanted d s =
      if d.dest_link.should_create && has_required_directory y s.fs d
      then s
      else delete_link y d.dest_link.destination s

  unfoldable pub start_depend : Text × DependDirectory → State y → State y
  unfolding keep_if_wanted
  start_depend (path, d) s =
      let t = add_worker path s in
      emit y (check path depend)
        (keep_if_wanted d (if exists s.fs path then t else delete_link y d.dest_link.destination t))

  unfoldable pub start_link : Text × LinkInfo → State y → State y
  start_link (path, i) s = emit y (check path linking) (add_worker path s)

  abbrev pub is_mounted : StorageInfo → Bool
  is_mounted i = i.valid && (i.ready && is_fuse y i)

  unfoldable pub start_storage : (Text → StorageInfo) → Text × LinkDestination → State y → State y
  start_storage info (path, d) s =
      let made =
        if is_mounted (info path)
        then (if d.should_create then make_link_with_icon y d.destination path d.icon_path s else s)
        else s in
      emit y (check_storage path (is_mounted (info path)))
        (if d.should_create then made else delete_link y d.destination made)

  unfoldable pub each : {A : Type 0} → (A → State y → State y) → List A → State y → State y
  each f [] s = s
  each f (a ∷ l) s = each f l (f a s)

  -- FileWatcher::run, for the value of mRunning.
  unfoldable pub run : Bool → (Text → StorageInfo) → State y → State y
  unfolding each start_directory start_pending start_depend start_link start_storage
  run true info s = s
  run false info s = each (start_storage info) s.hash_storage (
      each start_link s.hash_link (
        each start_depend s.hash_depend
          (each start_pending s.hash_pending (each start_directory s.hash_directory s))))
