-- ===== src/FileWatcher/Links/Starting.antt =====
-- What the start of FileWatcher does (filewatcher/file-watcher.cpp).
use kylin_kmre_manager.Base.{
  ◌≡◌, refl, ap, ◌∙◌, false, ◌&&◌, List, [], ◌∷◌, Option, none, some, list_eq, if◌then◌else◌,
  if_both,
}
use kylin_kmre_manager.Base.Text.{Text, is_empty}
use kylin_kmre_manager.Base.Map.{lookup}
use kylin_kmre_manager.FileWatcher.Links.FileSystem.{
  FileSystem, StorageInfo, LinkDestination, LinkInfo, PendingDirectory, DependDirectory, Signal,
  normal, pending, depend, linking, check, check_storage,
}
use kylin_kmre_manager.FileWatcher.Links.Link.{
  State, do_remove, do_link, do_set_icon, link_if_vacant, make_link_with_icon, delete_unless_real,
  delete_link,
}
use kylin_kmre_manager.FileWatcher.Links.Slots.{
  emit, has_required_directory, delete_without_required, depend_delete, depend_delete_link,
}
use kylin_kmre_manager.FileWatcher.Links.Start.{
  start_directory, remove_pending, start_pending, keep_if_wanted, start_depend, start_link,
  is_mounted, start_storage, each, run,
}

-- The signals for the entries of a hash, the newest first, in front of others.
unfoldable pub pushed :
    {A : Type 0} → (Text × A → Signal) → List (Text × A) → List Signal → List Signal
pushed g [] l = l
pushed g (e ∷ es) l = pushed g es (g e ∷ l)

module _ (y : FileSystem) where
  open y use {target, exists, dir_exists}

  -- Changes of the file system emit nothing.
  abbrev Quiet : State y → State y → Type 0
  Quiet s t = t.signals ≡ s.signals

  deleted-Quiet :
      (dest : Text) (o : Option Text) (s : State y) → Quiet s (delete_unless_real y dest o s)
  unfolding delete_unless_real do_remove
  deleted-Quiet dest (some p) s = refl
  deleted-Quiet dest none s = if_both (Quiet s) (exists s.fs dest) refl refl

  delete_link-Quiet : (dest : Text) (s : State y) → Quiet s (delete_link y dest s)
  unfolding delete_link
  delete_link-Quiet dest s = deleted-Quiet dest (target s.fs dest) s

  made-Quiet :
      (dest source icon : Text) (o : Option Text) (s : State y)
      → Quiet s (
          link_if_vacant y (λ t. do_set_icon y dest icon (do_link y source dest t)) dest source o s)
  unfolding link_if_vacant do_link do_set_icon
  made-Quiet dest source icon (some p) s = refl
  made-Quiet dest source icon none s =
      if_both (Quiet s) (is_empty source) refl (if_both (Quiet s) (exists s.fs dest) refl refl)

  make_link_with_icon-Quiet :
      (dest source icon : Text) (s : State y) → Quiet s (make_link_with_icon y dest source icon s)
  unfolding make_link_with_icon
  make_link_with_icon-Quiet dest source icon s = made-Quiet dest source icon (target s.fs dest) s

  without_required-Quiet :
      (d : DependDirectory) (s : State y) → Quiet s (delete_without_required y d s)
  unfolding delete_without_required
  without_required-Quiet d s =
      if_both (Quiet s) (has_required_directory y s.fs d) refl
        (delete_link-Quiet d.dest_link.destination s)

  depend_delete-Quiet :
      (path : Text) (o : Option DependDirectory) (s : State y) → Quiet s (depend_delete y path o s)
  unfolding depend_delete
  depend_delete-Quiet path none s = refl
  depend_delete-Quiet path (some d) s =
      let first = if exists s.fs path then s else delete_link y d.dest_link.destination s in
      without_required-Quiet d first
      ∙ if_both (Quiet s) (exists s.fs path) refl (delete_link-Quiet d.dest_link.destination s)

  depend_delete_link-Quiet : (path : Text) (s : State y) → Quiet s (depend_delete_link y path s)
  unfolding depend_delete_link
  depend_delete_link-Quiet path s = depend_delete-Quiet path (lookup path s.hash_depend) s

  each-signals :
      {A : Type 0} (f : Text × A → State y → State y) (g : Text × A → Signal)
      → ((e : Text × A) (s : State y) → (f e s).signals ≡ g e ∷ s.signals)
      → (l : List (Text × A)) (s : State y) → (each y f l s).signals ≡ pushed g l s.signals
  unfolding each pushed
  each-signals f g one [] s = refl
  each-signals f g one (e ∷ es) s = each-signals f g one es (f e s) ∙ ap (pushed g es) (one e s)

  start_directory-signals :
      (e : Text × LinkDestination) (s : State y)
      → (start_directory y e s).signals ≡ check (e.0) normal ∷ s.signals
  unfolding start_directory emit
  start_directory-signals (path, d) s =
      let t = record s { directory_workers = path ∷ s.directory_workers } in
      ap (λ l. check path normal ∷ l)
        (if_both (Quiet s) (d.should_create && exists s.fs path) refl
          (delete_link-Quiet d.destination t))

  start_pending-signals :
      (e : Text × PendingDirectory) (s : State y)
      → (start_pending y e s).signals ≡ check (e.0) pending ∷ s.signals
  unfolding start_pending remove_pending do_remove emit
  start_pending-signals (path, d) s =
      let t = record s { directory_workers = path ∷ s.directory_workers } in
      let kept = if exists s.fs d.depend_path then t else depend_delete_link y d.depend_path t in
      let quiet : Quiet s kept =
        if_both (Quiet s) (exists s.fs d.depend_path) refl
          (depend_delete_link-Quiet d.depend_path t) in
      ap (λ l. check path pending ∷ l)
        (if_both (Quiet s) (exists kept.fs path) quiet
          (if_both (Quiet s) (dir_exists kept.fs d.pending_path) quiet quiet))

  start_depend-signals :
      (e : Text × DependDirectory) (s : State y)
      → (start_depend y e s).signals ≡ check (e.0) depend ∷ s.signals
  unfolding start_depend keep_if_wanted emit
  start_depend-signals (path, d) s =
      let t = record s { directory_workers = path ∷ s.directory_workers } in
      let dest = d.dest_link.destination in
      let kept = if exists s.fs path then t else delete_link y dest t in
      let quiet : Quiet s kept =
        if_both (Quiet s) (exists s.fs path) refl (delete_link-Quiet dest t) in
      ap (λ l. check path depend ∷ l)
        (if_both (Quiet s) (d.dest_link.should_create && has_required_directory y kept.fs d) quiet
          (delete_link-Quiet dest kept ∙ quiet))

  start_link-signals :
      (e : Text × LinkInfo) (s : State y)
      → (start_link y e s).signals ≡ check (e.0) linking ∷ s.signals
  unfolding start_link emit
  start_link-signals (path, i) s = refl

  start_storage-signals :
      (info : Text → StorageInfo) (e : Text × LinkDestination) (s : State y)
      → (start_storage y info e s).signals
        ≡ check_storage (e.0) (is_mounted y (info (e.0))) ∷ s.signals
  unfolding start_storage emit
  start_storage-signals info (path, d) s =
      let linked = make_link_with_icon y d.destination path d.icon_path s in
      let made = if is_mounted y (info path) then (if d.should_create then linked else s) else s in
      let quiet : Quiet s made =
        if_both (Quiet s) (is_mounted y (info path))
          (if_both (Quiet s) d.should_create
            (make_link_with_icon-Quiet d.destination path d.icon_path s) refl)
          refl in
      ap (λ l. check_storage path (is_mounted y (info path)) ∷ l)
        (if_both (Quiet s) d.should_create quiet (delete_link-Quiet d.destination made ∙ quiet))

  -- The start asks the workers for exactly one check of each directory of each hash, of the hash's type,
  -- and for one of each storage, with what the storage is now; whatever the file system is like.
  pub run-signals :
      (info : Text → StorageInfo) (s : State y)
      → (run y false info s).signals
        ≡ pushed
            (λ e. check_storage (e.0) (is_mounted y (info (e.0))))
            s.hash_storage
            (pushed
              (λ e. check (e.0) linking)
              s.hash_link
              (pushed
                (λ e. check (e.0) depend)
                s.hash_depend
                (pushed
                  (λ e. check (e.0) pending)
                  s.hash_pending
                  (pushed (λ e. check (e.0) normal) s.hash_directory s.signals))))
  unfolding run
  run-signals info s =
      let a = each y (start_directory y) s.hash_directory s in
      let b = each y (start_pending y) s.hash_pending a in
      let c = each y (start_depend y) s.hash_depend b in
      let d = each y (start_link y) s.hash_link c in
      each-signals (start_storage y info) _ (start_storage-signals info) s.hash_storage d
      ∙ ap (pushed _ s.hash_storage) (
          each-signals (start_link y) _ start_link-signals s.hash_link c
          ∙ ap (pushed _ s.hash_link) (
              each-signals (start_depend y) _ start_depend-signals s.hash_depend b
              ∙ ap (pushed _ s.hash_depend) (
                  each-signals (start_pending y) _ start_pending-signals s.hash_pending a
                  ∙ ap (pushed _ s.hash_pending) (
                      each-signals (start_directory y) _ start_directory-signals s.hash_directory
                        s))))
