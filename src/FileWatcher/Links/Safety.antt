-- ===== src/FileWatcher/Links/Safety.antt =====
-- No slot removes anything but links (filewatcher/file-watcher.cpp).
use kylin_kmre_manager.Base.{
  ◌&&◌, List, [], ◌∷◌, Option, none, some, list_eq, if◌then◌else◌, if_both,
}
use kylin_kmre_manager.Base.Text.{Text}
use kylin_kmre_manager.Base.Map.{lookup}
use kylin_kmre_manager.FileWatcher.Links.FileSystem.{
  FileSystem, StorageInfo, LinkDestination, LinkInfo, PendingDirectory, DependDirectory, CheckType,
  normal, pending, depend,
}
use kylin_kmre_manager.FileWatcher.Links.Link.{
  State, IsGentle, do_link, do_mkpath, make_link, make_link_with_icon-IsGentle, make_link-IsGentle,
  delete_link-IsGentle,
}
use kylin_kmre_manager.FileWatcher.Links.Slots.{
  contains, unwatch, emit, depend_make, depend_make_link, delete_without_required, depend_delete,
  depend_delete_link, linked_directory, add_watch_path, pending_link, pending_add,
  pending_add_watch_path, link_add, link_add_watch_path, depend_add_watch_path, recheck,
  delete_directory_link, directory_updated, delete_info_link, link_directory_updated,
  pending_removed, pending_update, pending_directory_updated, depend_update,
  depend_directory_updated, file_updated, is_fuse, storage_present, storage_status,
  storage_status_changed, has_required_directory,
}

-- A call of a slot, with what the storage answers to it.
pub data Slot : Type 0 where
  adds_watch adds_pending adds_link adds_depend : Text → Slot
  updates_directory updates_link updates_pending updates_depend updates_file : Text → Slot
  changes_storage : Text → StorageInfo → Slot

module _ (y : FileSystem) where
  open y use {exists, dir_exists}

  unfoldable pub step : Slot → State y → State y
  step (adds_watch p) s = add_watch_path y p s
  step (adds_pending p) s = pending_add_watch_path y p s
  step (adds_link p) s = link_add_watch_path y p s
  step (adds_depend p) s = depend_add_watch_path y p s
  step (updates_directory p) s = directory_updated y p s
  step (updates_link p) s = link_directory_updated y p s
  step (updates_pending p) s = pending_directory_updated y p s
  step (updates_depend p) s = depend_directory_updated y p s
  step (updates_file p) s = file_updated y p s
  step (changes_storage p i) s = storage_status_changed y p i s

  unfoldable pub run : List Slot → State y → State y
  run [] s = s
  run (c ∷ cs) s = run cs (step c s)

  abbrev G : State y → Type 0
  G = IsGentle y

  depend_make-G :
      (path : Text) (o : Option DependDirectory) (s : State y) → G s → G (depend_make y path o s)
  unfolding depend_make
  depend_make-G path none s h = h
  depend_make-G path (some d) s h =
      if_both G (d.dest_link.should_create && (exists s.fs path && has_required_directory y s.fs d))
        (make_link_with_icon-IsGentle y _ _ _ s h) h

  depend_make_link-G : (path : Text) (s : State y) → G s → G (depend_make_link y path s)
  unfolding depend_make_link
  depend_make_link-G path s h = depend_make-G path (lookup path s.hash_depend) s h

  without_required-G : (d : DependDirectory) (s : State y) → G s → G (delete_without_required y d s)
  unfolding delete_without_required
  without_required-G d s h =
      if_both G (has_required_directory y s.fs d) h (delete_link-IsGentle y _ s h)

  depend_delete-G :
      (path : Text) (o : Option DependDirectory) (s : State y) → G s → G (depend_delete y path o s)
  unfolding depend_delete
  depend_delete-G path none s h = h
  depend_delete-G path (some d) s h =
      without_required-G d _ (if_both G (exists s.fs path) h (delete_link-IsGentle y _ s h))

  pub depend_delete_link-G : (path : Text) (s : State y) → G s → G (depend_delete_link y path s)
  unfolding depend_delete_link
  depend_delete_link-G path s h = depend_delete-G path (lookup path s.hash_depend) s h

  linked-G :
      (path : Text) (o : Option LinkDestination) (s : State y)
      → G s
      → G (linked_directory y path o s)
  unfolding linked_directory
  linked-G path none s h = h
  linked-G path (some d) s h =
      if_both G d.should_create (make_link_with_icon-IsGentle y _ _ _ s h) h

  do_mkpath-G : (path : Text) (s : State y) → G s → G (do_mkpath y path s)
  unfolding do_mkpath
  do_mkpath-G path s h = (tt, h)

  pending_add-G : (o : Option PendingDirectory) (s : State y) → G s → G (pending_add y o s)
  unfolding pending_add
  pending_add-G none s h = h
  pending_add-G (some d) s h =
      let ready = if dir_exists s.fs d.pending_path then s else do_mkpath y d.pending_path s in
      let made = make_link y (pending_link y d) d.relative_link_path ready in
      let g =
        make_link-IsGentle y _ _ ready
          (if_both G (dir_exists s.fs d.pending_path) h (do_mkpath-G d.pending_path s h)) in
      if_both G (exists made.fs d.depend_path) (depend_make_link-G d.depend_path made g)
        (depend_delete_link-G d.depend_path made g)

  link_add-G : (o : Option LinkInfo) (s : State y) → G s → G (link_add y o s)
  unfolding link_add do_link
  link_add-G none s h = h
  link_add-G (some i) s h = (tt, h)

  recheck-G : (path : Text) (t : CheckType) (s : State y) → G s → G (recheck y path t s)
  unfolding recheck emit
  recheck-G path t s h = if_both G (contains path s.directory_workers) h h

  directory_link-G :
      (o : Option LinkDestination) (s : State y) → G s → G (delete_directory_link y o s)
  unfolding delete_directory_link
  directory_link-G none s h = h
  directory_link-G (some d) s h = delete_link-IsGentle y d.destination s h

  info_link-G : (o : Option LinkInfo) (s : State y) → G s → G (delete_info_link y o s)
  unfolding delete_info_link
  info_link-G none s h = h
  info_link-G (some i) s h = delete_link-IsGentle y i.destination s h

  pending_removed-G :
      (path : Text) (d : PendingDirectory) (s : State y) → G s → G (pending_removed y path d s)
  unfolding pending_removed
  pending_removed-G path d s h =
      recheck-G path pending _
        (depend_delete_link-G d.depend_path _ (delete_link-IsGentle y (pending_link y d) _ h))

  pending_update-G :
      (path : Text) (o : Option PendingDirectory) (s : State y)
      → G s
      → G (pending_update y path o s)
  unfolding pending_update
  pending_update-G path none s h = h
  pending_update-G path (some d) s h =
      let kept = if exists s.fs d.depend_path then s else depend_delete_link y d.depend_path s in
      let g : G kept =
        if_both G (exists s.fs d.depend_path) h (depend_delete_link-G d.depend_path s h) in
      if_both G (exists kept.fs path) g (pending_removed-G path d kept g)

  depend_update-G :
      (path : Text) (o : Option DependDirectory) (s : State y) → G s → G (depend_update y path o s)
  unfolding depend_update
  depend_update-G path none s h = h
  depend_update-G path (some d) s h =
      if_both G (exists s.fs path) (if_both G _ h (depend_make_link-G path s h))
        (recheck-G path depend _ (depend_delete_link-G path _ h))

  storage_present-G :
      (path : Text) (i : StorageInfo) (d : LinkDestination) (s : State y)
      → G s
      → G (storage_present y path i d s)
  unfolding storage_present emit
  storage_present-G path i d s h =
      let made = if_both G d.should_create (make_link_with_icon-IsGentle y _ _ _ s h) h in
      let first = if_both G (is_fuse y i) made (delete_link-IsGentle y d.destination s h) in
      if_both G d.should_create first (delete_link-IsGentle y d.destination _ first)

  storage-G :
      (path : Text) (i : StorageInfo) (o : Option LinkDestination) (s : State y)
      → G s
      → G (storage_status y path i o s)
  unfolding storage_status emit
  storage-G path i none s h = h
  storage-G path i (some d) s h =
      if_both G (i.ready && i.valid) (storage_present-G path i d s h)
        (delete_link-IsGentle y d.destination s h)

  step-IsGentle : (c : Slot) (s : State y) → G s → G (step c s)
  unfolding step add_watch_path pending_add_watch_path link_add_watch_path depend_add_watch_path
      directory_updated link_directory_updated pending_directory_updated depend_directory_updated
      file_updated storage_status_changed
  step-IsGentle (adds_watch p) s h = linked-G p _ _ h
  step-IsGentle (adds_pending p) s h = pending_add-G _ _ h
  step-IsGentle (adds_link p) s h = link_add-G _ _ h
  step-IsGentle (adds_depend p) s h = depend_make_link-G p _ h
  step-IsGentle (updates_directory p) s h =
      let unwatched = record s { system_watch = unwatch p s.system_watch } in
      let d = lookup p s.hash_directory in
      if_both G (exists s.fs p) h
        (recheck-G p normal (delete_directory_link y d unwatched) (directory_link-G d unwatched h))
  step-IsGentle (updates_link p) s h = if_both G (exists s.fs p) h (info_link-G _ _ h)
  step-IsGentle (updates_pending p) s h = pending_update-G p _ s h
  step-IsGentle (updates_depend p) s h = depend_update-G p _ s h
  step-IsGentle (updates_file p) s h = if_both G (exists s.fs p) h h
  step-IsGentle (changes_storage p i) s h = storage-G p i _ s h

  -- Whatever slots run, in whatever order and with whatever tables, each removal that they ask for
  -- meets a file system in which the removed path is a link or missing: no real file or directory is
  -- ever removed.
  pub run-IsGentle : (cs : List Slot) (s : State y) → IsGentle y s → IsGentle y (run cs s)
  unfolding run
  run-IsGentle [] s h = h
  run-IsGentle (c ∷ cs) s h = run-IsGentle cs (step c s) (step-IsGentle c s h)
