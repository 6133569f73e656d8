-- ===== src/FileWatcher/Inotify/Watcher.antt =====
-- FileInotifyWatcher: the maps and their operations (filewatcher/file-inotify/
-- file-inotify-watcher.cpp, utils.cpp). The kernel's answers are an argument of each operation.
use kylin_kmre_manager.Base.{
  ℕ, Bool, true, false, ◌&&◌, not, List, [], ◌∷◌, Option, none, some, ◌==◌, nat_eq, list_eq, any,
  if◌then◌else◌,
}
use kylin_kmre_manager.Base.Text.{Text}
use kylin_kmre_manager.Base.Int.{ℤ, pos, negsuc, minus_one}
use kylin_kmre_manager.Base.Map.{lookup, insert, erase}

-- S_IFMT of a file's mode.
pub data FileType : Type 0 where
  regular directory symlink char_device other_type : FileType

-- What the kernel answers while one operation runs.
pub record Kernel : Type 0 where
  pub init : ℤ  -- inotify_init1
  pub add_watch : Text → ℤ  -- inotify_add_watch on a path
  pub rm_watch : ℕ → ℤ  -- inotify_rm_watch on a descriptor
  pub lstat : Text → Option FileType  -- the type of a path, `none` if lstat fails

abbrev pub file_type_beq : FileType → FileType → Bool
file_type_beq regular regular = true
file_type_beq directory directory = true
file_type_beq symlink symlink = true
file_type_beq char_device char_device = true
file_type_beq other_type other_type = true
file_type_beq _ _ = false

-- isPathFileType.
abbrev pub is_path_file_type : Kernel → Text → FileType → Bool
is_path_file_type k p t = elim (k.lstat p) [ none ↦ false | some u ↦ file_type_beq u t ]

abbrev pub is_path_dir : Kernel → Text → Bool
is_path_dir k p = is_path_file_type k p directory

abbrev pub is_path_regular_file : Kernel → Text → Bool
is_path_regular_file k p = is_path_file_type k p regular

pub record Watcher : Type 0 where
  pub wd_to_path : List (ℕ × Text)  -- QMultiMap, newest first
  pub path_to_wd : List (Text × ℕ)  -- QMap
  pub inotify_fd : ℤ
  pub initialized : Bool

-- The new state, the return code, and the descriptors given to inotify_rm_watch, in order.
pub record Outcome : Type 0 where
  pub watcher : Watcher
  pub code : ℤ
  pub released : List ℕ

abbrev pub returns : Watcher → ℤ → Outcome
returns w c = record { watcher = w; code = c; released = [] }

unfoldable pub new : Watcher
new = record { wd_to_path = []; path_to_wd = []; inotify_fd = minus_one; initialized = false }

unfoldable pub initialized_with : Watcher → ℤ → Outcome
initialized_with w (pos fd) = returns (record w { inotify_fd = pos fd; initialized = true }) (pos 0)
initialized_with w (negsuc e) = returns (record w { inotify_fd = negsuc e }) minus_one

unfoldable pub initialize : Kernel → Watcher → Outcome
unfolding initialized_with
initialize k w = if w.initialized then returns w (pos 0) else initialized_with w k.init

-- QMultiMap::count(wd) ≠ 0.
abbrev pub holds : ℕ → List (ℕ × Text) → Bool
holds d m = any (λ entry. entry.0 == d) m

-- Whether the multimap has the path under the descriptor.
abbrev pub has : ℕ → Text → List (ℕ × Text) → Bool
has d p m = any (λ entry. (entry.0 == d) && (entry.1 == p)) m

unfoldable pub keys : List (ℕ × Text) → List ℕ
keys [] = []
keys ((d, p) ∷ m) = d ∷ keys m

unfoldable pub cleanup : Watcher → Outcome
unfolding keys
cleanup w =
    if w.initialized
    then record {
      watcher = record {
        wd_to_path = [];
        path_to_wd = [];
        inotify_fd = minus_one;
        initialized = false;
      };
      code = pos 0;
      released = keys w.wd_to_path;
    }
    else returns w (pos 0)

unfoldable pub added : Watcher → Text → ℤ → Outcome
added w p (pos d) =
    returns (record w { wd_to_path = (d, p) ∷ w.wd_to_path; path_to_wd = insert p d w.path_to_wd })
      (pos 0)
added w p (negsuc e) = returns w minus_one

unfoldable pub add_unless_found : Kernel → Text → Watcher → Option ℕ → Outcome
unfolding added
add_unless_found k p w (some d) = returns w (pos 0)
add_unless_found k p w none = added w p (k.add_watch p)

unfoldable pub add_watch : Kernel → Text → Watcher → Outcome
unfolding add_unless_found
add_watch k p w =
    if w.initialized then add_unless_found k p w (lookup p w.path_to_wd) else returns w minus_one

-- The loop of removeWatch(path): the entries of `d` whose path is `p` go.
unfoldable pub drop_path : ℕ → Text → List (ℕ × Text) → List (ℕ × Text)
drop_path d p [] = []
drop_path d p ((c, q) ∷ m) =
    let rest = drop_path d p m in if (c == d) && (q == p) then rest else (c, q) ∷ rest

-- The end of both removeWatch functions: the descriptor is given back when no path is left.
unfoldable pub release : Kernel → ℕ → Watcher → Outcome
release k d w =
    if holds d w.wd_to_path
    then returns w (pos 0)
    else record { watcher = w; code = k.rm_watch d; released = d ∷ [] }

unfoldable pub remove_found : Kernel → Text → Watcher → Option ℕ → Outcome
unfolding release
remove_found k p w none = returns w minus_one
remove_found k p w (some d) =
    release k d
      (record w { wd_to_path = drop_path d p w.wd_to_path; path_to_wd = erase p w.path_to_wd })

unfoldable pub remove_watch : Kernel → Text → Watcher → Outcome
unfolding remove_found
remove_watch k p w =
    if w.initialized then remove_found k p w (lookup p w.path_to_wd) else returns w minus_one

-- The loop of removeWatch(wd): a path of `d` that is no directory any more leaves both maps.
unfoldable pub sweep :
    (Text → Bool) → ℕ → List (ℕ × Text) → List (Text × ℕ) → List (ℕ × Text) × List (Text × ℕ)
sweep is_dir d [] pm = ([], pm)
sweep is_dir d ((c, q) ∷ m) pm =
    let stale = (c == d) && not (is_dir q) in
    let (m', pm') = sweep is_dir d m (if stale then erase q pm else pm) in
    (if stale then m' else (c, q) ∷ m', pm')

unfoldable pub swept : Kernel → ℕ → Watcher → Watcher
swept k d w =
    let (m, pm) = sweep (is_path_dir k) d w.wd_to_path w.path_to_wd in
    record w { wd_to_path = m; path_to_wd = pm }

unfoldable pub remove_descriptor : Kernel → ℤ → Watcher → Outcome
unfolding release swept
remove_descriptor k (negsuc e) w = returns w minus_one
remove_descriptor k (pos d) w = release k d (swept k d w)

unfoldable pub remove_watch_wd : Kernel → ℤ → Watcher → Outcome
unfolding remove_descriptor
remove_watch_wd k wd w = if w.initialized then remove_descriptor k wd w else returns w minus_one

-- The first path under `d` that is a directory; `none` is the null QString.
unfoldable pub first_dir : (Text → Bool) → ℕ → List (ℕ × Text) → Option Text
first_dir is_dir d [] = none
first_dir is_dir d ((c, q) ∷ m) = if (c == d) && is_dir q then some q else first_dir is_dir d m

unfoldable pub path_of_descriptor : Kernel → ℤ → Watcher → Option Text
path_of_descriptor k (negsuc e) w = none
path_of_descriptor k (pos d) w = first_dir (is_path_dir k) d w.wd_to_path

unfoldable pub watched_path_from_wd : Kernel → ℤ → Watcher → Option Text
unfolding path_of_descriptor
watched_path_from_wd k wd w = if w.initialized then path_of_descriptor k wd w else none

-- `none` stands for -1.
unfoldable pub wd_from_watched_path : Text → Watcher → Option ℕ
wd_from_watched_path p w = if w.initialized then lookup p w.path_to_wd else none
