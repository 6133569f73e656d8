-- ===== src/FileWatcher/Program/Watched.antt =====
-- What is watched when the file watcher has started its service (filewatcher/main.cpp,
-- file-inotify/file-inotify-service.cpp).
use kylin_kmre_manager.Base.{
  ℕ, ◌≡◌, refl, ◌∙◌, inl, inr, true, false, List, [], ◌∷◌, ◌++◌, none, some, All-append,
  if◌then◌else◌, arith, if_both, Bool-cases,
}
use kylin_kmre_manager.Base.Int.{ℤ, pos}
use kylin_kmre_manager.Base.Text.{Text}
use kylin_kmre_manager.FileWatcher.Inotify.Watcher.{is_path_dir}
use kylin_kmre_manager.FileWatcher.Inotify.Watcher
use kylin_kmre_manager.FileWatcher.Inotify.Effects.{IsWatched}
use kylin_kmre_manager.FileWatcher.Service.Walk.{
  Node, Entries, file, dir, other, nil, entry, System, Service, add_watch_locked, is_skipped, join,
  walk, walk_entries, add_watch_recursively, initialized_by, initialize,
}
use kylin_kmre_manager.FileWatcher.Service.Invariant.{new_service}
use kylin_kmre_manager.FileWatcher.Service.Coverage.{
  Keeps, Keeps-refl, Keeps-trans, walk-Keeps, Accepts, Covers, Covers-Keeps, visible_dirs,
  add_watch_recursively-Covers,
}
use kylin_kmre_manager.FileWatcher.Program.{add_all, Locations, in_order, start_service}

-- The visible directories of a path that is a directory.
abbrev pub dirs_of : System → Text → List Text
dirs_of y p = if is_path_dir y.kernel p then visible_dirs y p (dir (y.contents p)) else []

abbrev pub dirs_of_all : System → List Text → List Text
dirs_of_all y [] = []
dirs_of_all y (p ∷ ps) = dirs_of y p ++ dirs_of_all y ps

-- What a walk without notification leaves as it is.
record Same (s t : Service) : Type 0 where
  on : t.initialized ≡ s.initialized
  list : t.file_list ≡ s.file_list

Same-refl : (s : Service) → Same s s
Same-refl s = record { on = refl; list = refl }

Same-trans : (s t u : Service) → Same s t → Same t u → Same s u
Same-trans s t u a b = record { on = b.on ∙ a.on; list = b.list ∙ a.list }

add_watch_locked-Same : (y : System) (p : Text) (s : Service) → Same s (add_watch_locked y p s).0
unfolding add_watch_locked
add_watch_locked-Same y p s = record { on = refl; list = refl }

mutual
  unfolding walk walk_entries

  walk-Same : (y : System) (path : Text) (n : Node) (s : Service) → Same s (walk y path false n s)
  walk-Same y path file s = Same-refl s
  walk-Same y path other s = Same-refl s
  walk-Same y path (dir es) s =
      elim (y.realpath path)
        as (λ o. Same s (elim o [
          | none ↦ s
          | some r ↦
              let watched = (add_watch_locked y r s).0 in
              let below = walk_entries y r false es watched in
              if y.can_open r then below else watched
        ])) [
          | none ↦ Same-refl s
          | some r ↦
              let watched = (add_watch_locked y r s).0 in
              let first = add_watch_locked-Same y r s in
              if_both (λ t. Same s t) (y.can_open r)
                (Same-trans s watched _ first (walk_entries-Same y r es watched)) first
        ]

  walk_entries-Same :
      (y : System) (r : Text) (es : Entries) (s : Service) → Same s (walk_entries y r false es s)
  walk_entries-Same y r nil s = Same-refl s
  walk_entries-Same y r (entry name node es) s =
      let next = if is_skipped name then s else walk y (join r name) false node s in
      Same-trans s next _
        (if_both (λ t. Same s t) (is_skipped name) (Same-refl s) (walk-Same y (join r name) node s))
        (walk_entries-Same y r es next)

-- One recursive watch more.
record Goes (s t : Service) : Type 0 where
  same : Same s t
  keeps : Keeps s t

add-Goes : (y : System) (p : Text) (s : Service) → Goes s (add_watch_recursively y p false s).0
unfolding add_watch_recursively
add-Goes y p s =
    if_both (λ (o : Service × ℤ). Goes s o.0) s.initialized
      (if_both (λ (o : Service × ℤ). Goes s o.0) (is_path_dir y.kernel p)
        (record {
          same = walk-Same y p (dir (y.contents p)) s;
          keeps = walk-Keeps y p false (dir (y.contents p)) s;
        })
        (nothing s))
      (nothing s)
  where
    nothing : (s : Service) → Goes s s
    nothing s = record { same = Same-refl s; keeps = Keeps-refl s }

add_all-Goes : (y : System) (ps : List Text) (s : Service) → Goes s (add_all y ps s)
unfolding add_all
add_all-Goes y [] s = record { same = Same-refl s; keeps = Keeps-refl s }
add_all-Goes y (p ∷ ps) s =
    let t = (add_watch_recursively y p false s).0 in
    let first = add-Goes y p s in
    let rest = add_all-Goes y ps t in
    record {
      same = Same-trans s t _ first.same rest.same;
      keeps = Keeps-trans s t _ first.keeps rest.keeps;
    }

-- The directories of one location.
add-Covers :
    (y : System) (p : Text) (s : Service)
    → Accepts y.kernel
    → s.initialized ≡ true
    → s.watcher.initialized ≡ true
    → Covers (add_watch_recursively y p false s).0 (dirs_of y p)
add-Covers y p s ok on ready = elim (Bool-cases (is_path_dir y.kernel p)) [
  | inl isdir ↦ rw isdir (add_watch_recursively-Covers y p false s on ready isdir ok)
  | inr not_dir ↦ rw not_dir tt
]

add_all-Covers :
    (y : System) (ps : List Text) (s : Service)
    → Accepts y.kernel
    → s.initialized ≡ true
    → s.watcher.initialized ≡ true
    → Covers (add_all y ps s) (dirs_of_all y ps)
unfolding add_all
add_all-Covers y [] s ok on ready = tt
add_all-Covers y (p ∷ ps) s ok on ready =
    let t = (add_watch_recursively y p false s).0 in
    let first = add-Goes y p s in
    let after = add_all y ps t in
    All-append (IsWatched after.watcher) (dirs_of y p) (dirs_of_all y ps)
      (Covers-Keeps t after (dirs_of y p) (add_all-Goes y ps t).keeps
        (add-Covers y p s ok on ready))
      (add_all-Covers y ps t ok (first.same.on ∙ on) (first.keeps.ready ∙ ready))

initialize_new :
    (y : System) (fd : ℕ)
    → y.kernel.init ≡ pos fd
    → ((initialize y new_service).0.initialized ≡ true)
      × ((initialize y new_service).0.watcher.initialized ≡ true)
      × ((initialize y new_service).0.file_list ≡ [])
unfolding initialize initialized_by Watcher.initialize
initialize_new y fd h = ground arith

-- If inotify can be initialized and the kernel takes every watch, then after the start of the program
-- every directory of each of the six locations that are directories has a watch, if it is reached through
-- directories that resolve and open, past no hidden name; and no file is queued.
pub start_service-Covers :
    (y : System) (l : Locations) (fd : ℕ)
    → y.kernel.init ≡ pos fd
    → Accepts y.kernel
    → Covers (start_service y l new_service) (dirs_of_all y (in_order l))
      × ((start_service y l new_service).file_list ≡ [])
unfolding start_service
start_service-Covers y l fd h ok =
    let s = (initialize y new_service).0 in
    let (on, ready, empty) = initialize_new y fd h in
    (add_all-Covers y (in_order l) s ok on ready, (add_all-Goes y (in_order l) s).same.list ∙ empty)
