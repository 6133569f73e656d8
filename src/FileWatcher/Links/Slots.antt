-- ===== src/FileWatcher/Links/Slots.antt =====
-- The slots of FileWatcher (filewatcher/file-watcher.cpp), which Qt runs one at a time in its thread.
use kylin_kmre_manager.Base.{
  Bool, false, ◌&&◌, not, List, [], ◌∷◌, ◌++◌, Option, none, some, ◌==◌, list_eq, any, keep_if,
  if◌then◌else◌,
}
use kylin_kmre_manager.Base.Text.{Text}
use kylin_kmre_manager.Base.Map.{lookup}
use kylin_kmre_manager.FileWatcher.Links.FileSystem.{
  FileSystem, StorageInfo, LinkDestination, LinkInfo, PendingDirectory, DependDirectory, Signal,
  CheckType, normal, pending, depend, check, check_storage,
}
use kylin_kmre_manager.FileWatcher.Links.Link.{
  State, do_link, do_mkpath, make_link_with_icon, make_link, delete_link,
}

abbrev pub contains : Text → List Text → Bool
contains p l = any (λ q. q == p) l

-- QFileSystemWatcher::removePath.
unfoldable pub unwatch : Text → List Text → List Text
unwatch p l = keep_if (λ q. not (q == p)) l

module _ (y : FileSystem) where
  open y use {Fs, target, exists, dir_exists}

  -- QFileSystemWatcher::addPath: a path that is missing or watched already is not added.
  unfoldable pub watch : Fs → Text → List Text → List Text
  watch fs p l = if exists fs p && not (contains p l) then p ∷ l else l

  unfoldable pub emit : Signal → State y → State y
  emit g s = record s { signals = g ∷ s.signals }

  -- The loops over `directories`, which stop at the first that exists.
  abbrev pub has_required_directory : Fs → DependDirectory → Bool
  has_required_directory fs d = any (λ p. exists fs p) d.directories

  unfoldable pub depend_make : Text → Option DependDirectory → State y → State y
  depend_make path none s = s
  depend_make path (some d) s =
      if d.dest_link.should_create && (exists s.fs path && has_required_directory s.fs d)
      then make_link_with_icon y d.dest_link.destination d.target_path d.dest_link.icon_path s
      else s

  unfoldable pub depend_make_link : Text → State y → State y
  unfolding depend_make
  depend_make_link path s = depend_make path (lookup path s.hash_depend) s

  -- The second test of dependDeleteLink.
  unfoldable pub delete_without_required : DependDirectory → State y → State y
  delete_without_required d s =
      if has_required_directory s.fs d then s else delete_link y d.dest_link.destination s

  unfoldable pub depend_delete : Text → Option DependDirectory → State y → State y
  unfolding delete_without_required
  depend_delete path none s = s
  depend_delete path (some d) s =
      delete_without_required d
        (if exists s.fs path then s else delete_link y d.dest_link.destination s)

  unfoldable pub depend_delete_link : Text → State y → State y
  unfolding depend_delete
  depend_delete_link path s = depend_delete path (lookup path s.hash_depend) s

  unfoldable pub linked_directory : Text → Option LinkDestination → State y → State y
  linked_directory path none s = s
  linked_directory path (some d) s =
      if d.should_create then make_link_with_icon y d.destination path d.icon_path s else s

  unfoldable pub add_watch_path : Text → State y → State y
  unfolding linked_directory
  add_watch_path path s =
      linked_directory path (lookup path s.hash_directory)
        (record s { system_watch = watch s.fs path s.system_watch })

  unfoldable pub pending_link : PendingDirectory → Text
  pending_link d = d.pending_path ++ b'/' ∷ d.pending_name

  unfoldable pub pending_add : Option PendingDirectory → State y → State y
  unfolding pending_link
  pending_add none s = s
  pending_add (some d) s =
      let ready = if dir_exists s.fs d.pending_path then s else do_mkpath y d.pending_path s in
      let made = make_link y (pending_link d) d.relative_link_path ready in
      if exists made.fs d.depend_path
      then depend_make_link d.depend_path made
      else depend_delete_link d.depend_path made

  unfoldable pub pending_add_watch_path : Text → State y → State y
  unfolding pending_add
  pending_add_watch_path path s =
      pending_add (lookup path s.hash_pending)
        (record s { pending_watch = watch s.fs path s.pending_watch })

  unfoldable pub link_add : Option LinkInfo → State y → State y
  link_add none s = s
  link_add (some i) s = do_link y i.link_name i.destination s

  unfoldable pub link_add_watch_path : Text → State y → State y
  unfolding link_add
  link_add_watch_path path s =
      link_add (lookup path s.hash_link) (record s { link_watch = watch s.fs path s.link_watch })

  unfoldable pub depend_add_watch_path : Text → State y → State y
  depend_add_watch_path path s =
      depend_make_link path (record s { depend_watch = watch s.fs path s.depend_watch })

  -- A removed directory is checked for again if a worker is there for it.
  unfoldable pub recheck : Text → CheckType → State y → State y
  recheck path t s = if contains path s.directory_workers then emit (check path t) s else s

  unfoldable pub delete_directory_link : Option LinkDestination → State y → State y
  delete_directory_link none s = s
  delete_directory_link (some d) s = delete_link y d.destination s

  unfoldable pub directory_updated : Text → State y → State y
  unfolding recheck delete_directory_link
  directory_updated path s =
      if exists s.fs path
      then s
      else recheck path normal (
          delete_directory_link (lookup path s.hash_directory)
            (record s { system_watch = unwatch path s.system_watch }))

  unfoldable pub delete_info_link : Option LinkInfo → State y → State y
  delete_info_link none s = s
  delete_info_link (some i) s = delete_link y i.destination s

  unfoldable pub link_directory_updated : Text → State y → State y
  unfolding delete_info_link
  link_directory_updated path s =
      if exists s.fs path
      then s
      else delete_info_link (lookup path s.hash_link)
          (record s { link_watch = unwatch path s.link_watch })

  unfoldable pub pending_removed : Text → PendingDirectory → State y → State y
  unfolding recheck pending_link
  pending_removed path d s =
      let unwatched = record s { pending_watch = unwatch path s.pending_watch } in
      let unlinked = delete_link y (pending_link d) unwatched in
      recheck path pending (depend_delete_link d.depend_path unlinked)

  unfoldable pub pending_update : Text → Option PendingDirectory → State y → State y
  unfolding pending_removed
  pending_update path none s = s
  pending_update path (some d) s =
      let kept = if exists s.fs d.depend_path then s else depend_delete_link d.depend_path s in
      if exists kept.fs path then kept else pending_removed path d kept

  unfoldable pub pending_directory_updated : Text → State y → State y
  unfolding pending_update
  pending_directory_updated path s = pending_update path (lookup path s.hash_pending) s

  -- QFile::symLinkTarget as a text.
  abbrev pub target_text : Option Text → Text
  target_text none = []
  target_text (some p) = p

  unfoldable pub depend_update : Text → Option DependDirectory → State y → State y
  unfolding recheck
  depend_update path none s = s
  depend_update path (some d) s =
      if exists s.fs path
      then (if target_text (target s.fs d.dest_link.destination) == d.target_path
          then s
          else depend_make_link path s)
      else recheck path depend
          (depend_delete_link path (record s { depend_watch = unwatch path s.depend_watch }))

  unfoldable pub depend_directory_updated : Text → State y → State y
  unfolding depend_update
  depend_directory_updated path s = depend_update path (lookup path s.hash_depend) s

  unfoldable pub file_updated : Text → State y → State y
  file_updated path s =
      if exists s.fs path then s else record s { system_watch = unwatch path s.system_watch }

  abbrev pub is_fuse : StorageInfo → Bool
  is_fuse i = i.fuse_device && i.fuse_type

  unfoldable pub storage_present : Text → StorageInfo → LinkDestination → State y → State y
  storage_present path i d s =
      let first =
        if is_fuse i
        then (if d.should_create then make_link_with_icon y d.destination path d.icon_path s else s)
        else delete_link y d.destination s in
      let last = if d.should_create then first else delete_link y d.destination first in
      emit (check_storage path (is_fuse i)) last

  unfoldable pub storage_status : Text → StorageInfo → Option LinkDestination → State y → State y
  unfolding storage_present
  storage_status path i none s = s
  storage_status path i (some d) s =
      if i.ready && i.valid
      then storage_present path i d s
      else emit (check_storage path false) (delete_link y d.destination s)

  -- The answers of QStorageInfo(path) are an argument.
  unfoldable pub storage_status_changed : Text → StorageInfo → State y → State y
  unfolding storage_status
  storage_status_changed path i s = storage_status path i (lookup path s.hash_storage) s
