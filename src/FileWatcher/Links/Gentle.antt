-- ===== src/FileWatcher/Links/Gentle.antt =====
-- The start of FileWatcher removes nothing but links (filewatcher/file-watcher.cpp).
use kylin_kmre_manager.Base.{
  ◌≡◌, refl, subst, sym, ◌∙◌, Bool, true, false, ◌&&◌, ◌||◌, List, [], ◌∷◌, Option, none, some,
  if◌then◌else◌, if_both,
}
use kylin_kmre_manager.Base.Text.{Text}
use kylin_kmre_manager.FileWatcher.Links.FileSystem.{
  FileSystem, StorageInfo, LinkDestination, LinkInfo, DependDirectory,
}
use kylin_kmre_manager.FileWatcher.Links.Link.{
  State, IsGentle, do_remove, make_link_with_icon, delete_unless_real, delete_link,
  make_link_with_icon-IsGentle, delete_link-IsGentle,
}
use kylin_kmre_manager.FileWatcher.Links.Slots.{contains, emit, has_required_directory}
use kylin_kmre_manager.FileWatcher.Links.Start.{
  DesktopEntry, leads_to, link_names, delete_old_links, start_directory, start_pending,
  keep_if_wanted, start_depend, start_link, is_mounted, start_storage, each, run,
}

module _ (y : FileSystem) where
  open y use {exists, target}

  abbrev G : State y → Type 0
  G = IsGentle y

  each-IsGentle :
      {A : Type 0} (f : A → State y → State y)
      → ((a : A) (s : State y) → G s → G (f a s))
      → (l : List A) (s : State y) → G s
      → G (each y f l s)
  unfolding each
  each-IsGentle f keep [] s h = h
  each-IsGentle f keep (a ∷ l) s h = each-IsGentle f keep l (f a s) (keep a s h)

  delete_old_links-IsGentle :
      (sources translated : List Text) (es : List DesktopEntry) (s : State y)
      → G s
      → G (delete_old_links y sources translated es s)
  unfolding delete_old_links
  delete_old_links-IsGentle sources translated [] s h = h
  delete_old_links-IsGentle sources translated (e ∷ es) s h =
      let old =
        leads_to sources e.link_target
        && (contains e.name translated || contains e.name link_names) in
      delete_old_links-IsGentle sources translated es (if old then delete_link y e.path s else s)
        (if_both G old (delete_link-IsGentle y e.path s h) h)

  start_directory-IsGentle :
      (e : Text × LinkDestination) (s : State y) → G s → G (start_directory y e s)
  unfolding start_directory emit
  start_directory-IsGentle (path, d) s h =
      if_both G (d.should_create && exists s.fs path) h (delete_link-IsGentle y d.destination _ h)

  start_depend-IsGentle : (e : Text × DependDirectory) (s : State y) → G s → G (start_depend y e s)
  unfolding start_depend keep_if_wanted emit
  start_depend-IsGentle (path, d) s h =
      let t = record s { directory_workers = path ∷ s.directory_workers } in
      let dest = d.dest_link.destination in
      let kept = if exists s.fs path then t else delete_link y dest t in
      let g : G kept = if_both G (exists s.fs path) h (delete_link-IsGentle y dest t h) in
      if_both G (d.dest_link.should_create && has_required_directory y kept.fs d) g
        (delete_link-IsGentle y dest kept g)

  start_link-IsGentle : (e : Text × LinkInfo) (s : State y) → G s → G (start_link y e s)
  unfolding start_link emit
  start_link-IsGentle (path, i) s h = h

  start_storage-IsGentle :
      (info : Text → StorageInfo) (e : Text × LinkDestination) (s : State y)
      → G s
      → G (start_storage y info e s)
  unfolding start_storage emit
  start_storage-IsGentle info (path, d) s h =
      let linked = make_link_with_icon y d.destination path d.icon_path s in
      let made = if is_mounted y (info path) then (if d.should_create then linked else s) else s in
      let g : G made =
        if_both G (is_mounted y (info path))
          (if_both G d.should_create
            (make_link_with_icon-IsGentle y d.destination path d.icon_path s h) h)
          h in
      if_both G d.should_create g (delete_link-IsGentle y d.destination made g)

  deleted-hash_pending :
      (dest : Text) (o : Option Text) (s : State y)
      → (delete_unless_real y dest o s).hash_pending ≡ s.hash_pending
  unfolding delete_unless_real do_remove
  deleted-hash_pending dest (some path) s = refl
  deleted-hash_pending dest none s =
      if_both (λ (t : State y). t.hash_pending ≡ s.hash_pending) (exists s.fs dest) refl refl

  delete_link-hash_pending :
      (dest : Text) (s : State y) → (delete_link y dest s).hash_pending ≡ s.hash_pending
  unfolding delete_link
  delete_link-hash_pending dest s = deleted-hash_pending dest (target s.fs dest) s

  delete_old_links-hash_pending :
      (sources translated : List Text) (es : List DesktopEntry) (s : State y)
      → (delete_old_links y sources translated es s).hash_pending ≡ s.hash_pending
  unfolding delete_old_links
  delete_old_links-hash_pending sources translated [] s = refl
  delete_old_links-hash_pending sources translated (e ∷ es) s =
      let old =
        leads_to sources e.link_target
        && (contains e.name translated || contains e.name link_names) in
      let kept = if old then delete_link y e.path s else s in
      delete_old_links-hash_pending sources translated es kept
      ∙ if_both (λ (t : State y). t.hash_pending ≡ s.hash_pending) old
          (delete_link-hash_pending e.path s) refl

  -- The start removes nothing but links and missing files, whatever stands on the desktop and in the
  -- hashes, if there are no pending directories: neither the deletion of the old links nor run.
  pub run-delete_old_links-IsGentle :
      (started : Bool) (info : Text → StorageInfo) (sources translated : List Text)
      (es : List DesktopEntry) (s : State y)
      → s.hash_pending ≡ []
      → IsGentle y s
      → IsGentle y (run y started info (delete_old_links y sources translated es s))
  unfolding run
  run-delete_old_links-IsGentle true info sources translated es s no_pending h =
      delete_old_links-IsGentle sources translated es s h
  run-delete_old_links-IsGentle false info sources translated es s no_pending h =
      let t = delete_old_links y sources translated es s in
      let none_pending : t.hash_pending ≡ [] =
        delete_old_links-hash_pending sources translated es s ∙ no_pending in
      let a = each y (start_directory y) t.hash_directory t in
      let g : G a =
        each-IsGentle (start_directory y) start_directory-IsGentle t.hash_directory t
          (delete_old_links-IsGentle sources translated es s h) in
      let b = each y (start_pending y) t.hash_pending a in
      let gb : G b =
        subst (λ l. G (each y (start_pending y) l a)) (sym none_pending) (unfold each in g) in
      let c = each y (start_depend y) t.hash_depend b in
      let gc = each-IsGentle (start_depend y) start_depend-IsGentle t.hash_depend b gb in
      let d = each y (start_link y) t.hash_link c in
      let gd = each-IsGentle (start_link y) start_link-IsGentle t.hash_link c gc in
      each-IsGentle (start_storage y info) (start_storage-IsGentle info) t.hash_storage d gd
