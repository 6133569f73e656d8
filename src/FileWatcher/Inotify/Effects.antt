-- ===== src/FileWatcher/Inotify/Effects.antt =====
-- What each operation of FileInotifyWatcher does to the maps, and when a descriptor is given back
-- to the kernel (filewatcher/file-inotify/file-inotify-watcher.cpp).
use kylin_kmre_manager.Base.{
  ℕ, ◌≡◌, refl, ◌≢◌, ◌⊎◌, inl, inr, Bool, true, ◌&&◌, not, List, [], ◌∷◌, none, some, nat_eq,
  list_eq, nat_beq_iff, list_beq_iff, if◌then◌else◌, Option-cases, arith,
}
use kylin_kmre_manager.Base.Text.{Text}
use kylin_kmre_manager.Base.Int.{ℤ, ℤ-cases, pos, negsuc}
use kylin_kmre_manager.Base.Map.{lookup, erase, lookup-insert, lookup-erase}
use kylin_kmre_manager.FileWatcher.Inotify.Watcher.{
  Watcher, Kernel, is_path_dir, add_watch, remove_watch, remove_watch_wd, watched_path_from_wd,
  wd_from_watched_path, drop_path, sweep, first_dir, has, holds,
}
use kylin_kmre_manager.FileWatcher.Inotify.Consistency.{IsConsistent, has-sweep, lookup-sweep}

-- A path that the kernel accepts is found under its descriptor afterwards, and the descriptor leads
-- back to it while it is a directory; every other path keeps its descriptor.
add_watch-lookup :
    (k : Kernel) (p : Text) (d : ℕ) (w : Watcher)
    → w.initialized ≡ true
    → wd_from_watched_path p w ≡ none
    → k.add_watch p ≡ pos d
    → let out = add_watch k p w in
      (out.code ≡ pos 0)
      × (wd_from_watched_path p out.watcher ≡ some d)
      × (is_path_dir k p ≡ true → watched_path_from_wd k (pos d) out.watcher ≡ some p)
      × ((q : Text) → q ≢ p → wd_from_watched_path q out.watcher ≡ wd_from_watched_path q w)
unfolding add_watch wd_from_watched_path watched_path_from_wd first_dir
add_watch-lookup k p d w on fresh answer = (
  ground arith,
  ground (arith, lookup-insert p p d w.path_to_wd, list_beq_iff p p),
  λ dir. ground (arith, nat_beq_iff d d),
  λ q ne. ground (arith, lookup-insert p q d w.path_to_wd, list_beq_iff p q),
)

-- Adding a path that is refused by the kernel, or that is watched already, changes nothing.
pub add_watch_unchanged :
    (k : Kernel) (p : Text) (w : Watcher)
    → (wd_from_watched_path p w ≢ none) ⊎ ((e : ℕ) × (k.add_watch p ≡ negsuc e))
    → (add_watch k p w).watcher ≡ w
unfolding add_watch wd_from_watched_path
add_watch_unchanged k p w h = ground arith

-- removeWatch(path): the path is gone from the path map, every other path keeps its descriptor, and
-- the descriptor is given back exactly if no other path has it.
remove_watch-lookup :
    (k : Kernel) (p : Text) (d : ℕ) (w : Watcher)
    → w.initialized ≡ true
    → wd_from_watched_path p w ≡ some d
    → let out = remove_watch k p w in
      (wd_from_watched_path p out.watcher ≡ none)
      × ((q : Text) → q ≢ p → wd_from_watched_path q out.watcher ≡ wd_from_watched_path q w)
      × (out.released ≡ (if holds d (drop_path d p w.wd_to_path) then [] else d ∷ []))
unfolding remove_watch wd_from_watched_path
remove_watch-lookup k p d w on found = (
  ground (arith, lookup-erase p p w.path_to_wd, list_beq_iff p p),
  λ q ne. ground (arith, lookup-erase p q w.path_to_wd, list_beq_iff p q),
  ground arith,
)

-- A descriptor that no entry has lists no path.
holds_of_has : (d : ℕ) (q : Text) (m : List (ℕ × Text)) → has d q m ≡ true → holds d m ≡ true
holds_of_has d q [] h = cc
holds_of_has d q ((c, r) ∷ m) h = ground (arith, holds_of_has d q m)

-- removeWatch(wd) on a consistent watcher: exactly the paths of the descriptor that are no longer
-- directories lose it. If the descriptor is given back, no path has it any more.
pub remove_watch_wd-lookup :
    (k : Kernel) (d : ℕ) (w : Watcher)
    → w.initialized ≡ true
    → IsConsistent w
    → let out = remove_watch_wd k (pos d) w in
      ((q : Text)
        → wd_from_watched_path q out.watcher ≡ (
            if has d q w.wd_to_path && not (is_path_dir k q)
            then none
            else wd_from_watched_path q w))
      × ((q : Text) → out.released ≡ d ∷ [] → wd_from_watched_path q out.watcher ≢ some d)
unfolding remove_watch_wd wd_from_watched_path
remove_watch_wd-lookup k d w on a = (
  λ q. ground (arith, lookup-sweep (is_path_dir k) d q w.wd_to_path w.path_to_wd),
  λ q gone. ground (
    arith,
    lookup-sweep (is_path_dir k) d q w.wd_to_path w.path_to_wd,
    has-sweep (is_path_dir k) d d q w.wd_to_path w.path_to_wd,
    holds_of_has d q (sweep (is_path_dir k) d w.wd_to_path w.path_to_wd).0,
    nat_beq_iff d d,
    a.sound q d,
  ),
)

first_dir-sweep :
    (is_dir : Text → Bool) (d : ℕ) (m : List (ℕ × Text)) (pm : List (Text × ℕ))
    → first_dir is_dir d (sweep is_dir d m pm).0 ≡ first_dir is_dir d m
unfolding first_dir sweep
first_dir-sweep is_dir d [] pm = refl
first_dir-sweep is_dir d ((c, q) ∷ m) pm =
    ground (arith, first_dir-sweep is_dir d m pm, first_dir-sweep is_dir d m (erase q pm))

-- The sweep never changes the answer to which live directory a descriptor stands for, whether or
-- not the watcher is initialized and whatever other descriptors are asked about.
watched_path-remove_watch_wd :
    (k : Kernel) (wd : ℤ) (w : Watcher)
    → watched_path_from_wd k wd (remove_watch_wd k wd w).watcher ≡ watched_path_from_wd k wd w
unfolding remove_watch_wd watched_path_from_wd
watched_path-remove_watch_wd k (pos d) w =
    ground (arith, first_dir-sweep (is_path_dir k) d w.wd_to_path w.path_to_wd)
watched_path-remove_watch_wd k (negsuc e) w = ground arith

-- A path that has a descriptor.
abbrev pub IsWatched : Watcher → Text → Type 0
IsWatched w q = (d : ℕ) × (wd_from_watched_path q w ≡ some d)

pub add_watch-initialized :
    (k : Kernel) (p : Text) (w : Watcher) → (add_watch k p w).watcher.initialized ≡ w.initialized
unfolding add_watch
add_watch-initialized k p w = ground arith

-- Adding a watch takes no path's descriptor away.
pub add_watch-keeps :
    (k : Kernel) (p q : Text) (w : Watcher) → IsWatched w q → IsWatched (add_watch k p w).watcher q
unfolding add_watch wd_from_watched_path
add_watch-keeps k p q w (d, h) = elim (ℤ-cases (k.add_watch p)) [
  | inl (c, e) ↦ (d, ground (arith, lookup-insert p q c w.path_to_wd, list_beq_iff p q))
  | inr (c, e) ↦ (d, ground arith)
]

pub add_watch-IsWatched :
    (k : Kernel) (p : Text) (w : Watcher)
    → w.initialized ≡ true
    → ((d : ℕ) × (k.add_watch p ≡ pos d))
    → IsWatched (add_watch k p w).watcher p
unfolding add_watch wd_from_watched_path
add_watch-IsWatched k p w on (d, answer) = elim (Option-cases (lookup p w.path_to_wd)) [
  | inl new_one ↦ (d, ground (arith, lookup-insert p p d w.path_to_wd, list_beq_iff p p))
  | inr (c, old) ↦ (c, ground arith)
]
