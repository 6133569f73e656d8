-- ===== src/FileWatcher/Service/Walked.antt =====
-- What the walk over a new directory tree queues and watches (filewatcher/file-inotify/
-- file-inotify-service.cpp).
use mathlib.Core.List.{append_assoc, append-nil, map-append}
use kylin_kmre_manager.Base.{
  ◌≡◌, refl, sym, inl, inr, Bool, true, false, not, ◌&&◌, ◌||◌, List, [], ◌∷◌, ◌++◌, ◌==◌, list_eq,
  nat_beq, map, none, some, length, take, if◌then◌else◌, keep_if, keep_if-append, arith,
  Option-cases,
}
use kylin_kmre_manager.Base.Int.{negsuc}
use kylin_kmre_manager.Base.Text.{Text, codes, starts_with}
use kylin_kmre_manager.FileWatcher.Inotify.Watcher.{is_path_dir}
use kylin_kmre_manager.FileWatcher.Service.Queue.{
  NotifyFileInfo, is_media, is_wanted, add_notify_file,
}
use kylin_kmre_manager.FileWatcher.Service.Walk.{
  Node, Entries, file, dir, other, nil, entry, System, Service, add_watch_locked, queue_file,
  is_skipped, join, walk, walk_entries, add_watch_recursively,
}

-- A name that is not hidden.
abbrev pub is_visible : Text → Bool
is_visible [] = false
is_visible (c ∷ name) = not (nat_beq c 46)

-- The files that can be reached from a path through directories that resolve and open, past no
-- hidden entry, in the order of readdir.
unfoldable mutual
  pub visible_files : System → Text → Node → List Text
  visible_files y path file = path ∷ []
  visible_files y path other = []
  visible_files y path (dir es) = elim (y.realpath path) [
    | none ↦ []
    | some r ↦ if y.can_open r then visible_in y r es else []
  ]

  pub visible_in : System → Text → Entries → List Text
  visible_in y r nil = []
  visible_in y r (entry name node es) =
      (if is_visible name then visible_files y (r ++ b'/' ∷ name) node else []) ++ visible_in y r es

-- A path that begins with the home directory's path and whose type by its name is an image or a video.
abbrev pub is_home_media : System → Text → Bool
is_home_media y p =
    let mime = y.mime_of_name p in
    (take (length y.home) p == y.home)
    && ((take 6 mime == codes "image/") || (take 6 mime == codes "video/"))

abbrev pub unsized : Text → NotifyFileInfo
unsized p = record { path = p; size = negsuc 0 }

-- The queue entries for those of the paths.
unfoldable pub wanted : System → List Text → List NotifyFileInfo
wanted y ps = map unsized (keep_if (is_home_media y) ps)

starts_with-take : (p t : Text) → starts_with p t ≡ (take (length t) p == t)
starts_with-take p [] = refl
starts_with-take [] (c ∷ t) = refl
starts_with-take (d ∷ p) (c ∷ t) = ground (arith, starts_with-take p t)

is_wanted-is_home_media :
    (y : System) (p : Text) → is_wanted y.mime_of_name y.home p ≡ is_home_media y p
unfolding is_wanted is_media
is_wanted-is_home_media y p =
    rw
      (
        starts_with-take p y.home,
        starts_with-take (y.mime_of_name p) (codes "image/"),
        starts_with-take (y.mime_of_name p) (codes "video/"),
      )
      refl

is_skipped-is_visible : (name : Text) → is_skipped name ≡ not (is_visible name)
unfolding is_skipped
is_skipped-is_visible [] = refl
is_skipped-is_visible (c ∷ name) = ground arith

wanted-append : (y : System) (ps qs : List Text) → wanted y (ps ++ qs) ≡ wanted y ps ++ wanted y qs
unfolding wanted
wanted-append y ps qs = rw (keep_if-append (is_home_media y) ps qs) (map-append unsized _ _)

queue_file-list :
    (y : System) (p : Text) (s : Service)
    → (queue_file y p s).file_list ≡ s.file_list ++ wanted y (p ∷ [])
unfolding queue_file add_notify_file wanted
queue_file-list y p s = ground (arith, append-nil s.file_list, is_wanted-is_home_media y p)

list-append-wanted-nil : (y : System) (l : List NotifyFileInfo) → l ≡ l ++ wanted y []
unfolding wanted
list-append-wanted-nil y l = sym (append-nil l)

mutual
  unfolding walk walk_entries add_watch_locked visible_files visible_in

  walk-list :
      (y : System) (path : Text) (n : Node) (s : Service)
      → (walk y path true n s).file_list ≡ s.file_list ++ wanted y (visible_files y path n)
  walk-list y path file s = queue_file-list y path s
  walk-list y path other s = list-append-wanted-nil y s.file_list
  walk-list y path (dir es) s = elim (Option-cases (y.realpath path)) [
    | inl gone ↦ ground (arith, list-append-wanted-nil y s.file_list)
    | inr (r, e) ↦ ground (
      arith,
      list-append-wanted-nil y s.file_list,
      walk_entries-list y r es (add_watch_locked y r s).0,
    )
  ]

  walk_entries-list :
      (y : System) (r : Text) (es : Entries) (s : Service)
      → (walk_entries y r true es s).file_list ≡ s.file_list ++ wanted y (visible_in y r es)
  walk_entries-list y r nil s = list-append-wanted-nil y s.file_list
  walk_entries-list y r (entry name node es) s = ground (
    arith,
    walk-list y (join r name) node s,
    walk_entries-list y r es s,
    walk_entries-list y r es (walk y (join r name) true node s),
    is_skipped-is_visible name,
    wanted-append y (visible_files y (join r name) node) (visible_in y r es),
    append_assoc s.file_list (wanted y (visible_files y (join r name) node))
        (wanted y (visible_in y r es)),
  )

-- On an initialized service, adding a directory recursively with notification queues, behind what was
-- queued, exactly those files below it that are reached through directories that resolve and open, past
-- no name that is empty or begins with a dot, whose paths begin with the home directory's path, and whose
-- type by their names is an image or a video; in the order of the walk and each with the size -1.
pub add_watch_recursively-list :
    (y : System) (p : Text) (s : Service)
    → s.initialized ≡ true
    → is_path_dir y.kernel p ≡ true
    → (add_watch_recursively y p true s).0.file_list
      ≡ s.file_list ++ wanted y (visible_files y p (dir (y.contents p)))
unfolding add_watch_recursively
add_watch_recursively-list y p s on isdir = ground (arith, walk-list y p (dir (y.contents p)) s)
