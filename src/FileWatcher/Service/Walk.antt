-- ===== src/FileWatcher/Service/Walk.antt =====
-- FileInotifyService: adding watches, the walk over a new directory tree, and the events of the watcher
-- thread (filewatcher/file-inotify/file-inotify-service.cpp: initialize, addWatch,
-- addWatchRecursively, watchAndNotifyDirectoryRecursivelyLocked, addNotifyFile, the body of run).
use kylin_kmre_manager.Base.{
  ℕ, ◌/◌, ◌%◌, Bool, true, ◌||◌, List, [], ◌∷◌, ◌++◌, Option, none, some, nat_beq, ltb,
  if◌then◌else◌,
}
use kylin_kmre_manager.Base.Text.{Text}
use kylin_kmre_manager.Base.Int.{ℤ, pos, negsuc, minus_one}
use kylin_kmre_manager.FileWatcher.Inotify.Watcher.{
  Kernel, Watcher, Outcome, is_path_dir, is_path_regular_file,
}
use kylin_kmre_manager.FileWatcher.Inotify.Watcher
use kylin_kmre_manager.FileWatcher.Service.Queue.{NotifyFileInfo, add_notify_file}

-- What a directory holds while it is walked; a symbolic link is neither a file nor a directory.
mutual
  pub data Node : Type 0 where
    file : Node
    dir : Entries → Node
    other : Node

  pub data Entries : Type 0 where
    nil : Entries
    entry : Text → Node → Entries → Entries

-- The answers of the kernel and the type database while one operation runs.
pub record System : Type 0 where
  pub kernel : Kernel
  pub contents : Text → Entries  -- what readdir lists under a directory
  pub can_open : Text → Bool  -- opendir
  pub realpath : Text → Option Text
  pub mime_of_name : Text → Text  -- mimeTypeForFile(…, MatchExtension)
  pub home : Text

pub record Service : Type 0 where
  pub initialized : Bool
  pub watcher : Watcher
  pub file_list : List NotifyFileInfo

-- addWatchLocked.
unfoldable pub add_watch_locked : System → Text → Service → Service × ℤ
add_watch_locked y p s =
    let out = Watcher.add_watch y.kernel p s.watcher in
    (record s { watcher = out.watcher }, elim out.code [ pos n ↦ pos 0 | negsuc n ↦ minus_one ])

unfoldable pub add_watch : System → Text → Service → Service × ℤ
unfolding add_watch_locked
add_watch y p s = if s.initialized then add_watch_locked y p s else (s, minus_one)

-- addNotifyFile and addNotifyFileLocked.
unfoldable pub queue_file : System → Text → Service → Service
queue_file y p s = record s { file_list = add_notify_file y.mime_of_name y.home p s.file_list }

-- An entry that the walk skips: with no name, or hidden.
unfoldable pub is_skipped : Text → Bool
is_skipped [] = true
is_skipped (c ∷ name) = nat_beq c b'.'

abbrev pub join : Text → Text → Text
join path name = path ++ b'/' ∷ name

unfoldable mutual
  unfolding add_watch_locked queue_file is_skipped

  -- watchAndNotifyDirectoryRecursivelyLocked on a directory with the given entries.
  pub walk : System → Text → Bool → Node → Service → Service
  walk y path notify file s = if notify then queue_file y path s else s
  walk y path notify other s = s
  walk y path notify (dir es) s = elim (y.realpath path) [
    | none ↦ s
    | some r ↦
        let watched = (add_watch_locked y r s).0 in
        let below = walk_entries y r notify es watched in if y.can_open r then below else watched
  ]

  -- Its loop over readdir.
  pub walk_entries : System → Text → Bool → Entries → Service → Service
  walk_entries y r notify nil s = s
  walk_entries y r notify (entry name node es) s =
      let visited = walk y (join r name) notify node s in
      walk_entries y r notify es (if is_skipped name then s else visited)

unfoldable pub add_watch_recursively : System → Text → Bool → Service → Service × ℤ
unfolding walk
add_watch_recursively y p notify s =
    if s.initialized
    then (if is_path_dir y.kernel p
        then (walk y p notify (dir (y.contents p)) s, pos 0)
        else (s, minus_one))
    else (s, minus_one)

unfoldable pub initialized_by : Service → Outcome → Service × ℤ
initialized_by s out = elim out.code [
  | pos n ↦ (record s { watcher = out.watcher; initialized = true }, pos 0)
  | negsuc n ↦ (record s { watcher = out.watcher }, minus_one)
]

unfoldable pub initialize : System → Service → Service × ℤ
unfolding initialized_by
initialize y s =
    if s.initialized then (s, pos 0) else initialized_by s (Watcher.initialize y.kernel s.watcher)

-- An inotify event as run reads it; `len` is the length of the name with its padding.
pub record Event : Type 0 where
  pub wd : ℤ
  pub mask : ℕ
  pub len : ℕ
  pub name : Text

-- mask & (1 << i) for IN_CREATE, IN_MOVED_TO, IN_MOVE_SELF and IN_DELETE_SELF.
abbrev pub in_create : ℕ → Bool
in_create mask = nat_beq (mask / 256 % 2) 1

abbrev pub in_moved_to : ℕ → Bool
in_moved_to mask = nat_beq (mask / 128 % 2) 1

abbrev pub in_move_self : ℕ → Bool
in_move_self mask = nat_beq (mask / 2048 % 2) 1

abbrev pub in_delete_self : ℕ → Bool
in_delete_self mask = nat_beq (mask / 1024 % 2) 1

-- A new entry of a watched directory.
unfoldable pub new_path : System → Text → Service → Service
unfolding add_watch_recursively queue_file
new_path y p s =
    if is_path_dir y.kernel p
    then (add_watch_recursively y p true s).0
    else if is_path_regular_file y.kernel p
    then queue_file y p s
    else s

-- An empty path is treated as a null one.
unfoldable pub new_entry : System → Text → Option Text → Service → Service
unfolding new_path
new_entry y name none s = s
new_entry y name (some []) s = s
new_entry y name (some (c ∷ path)) s = new_path y (join (c ∷ path) name) s

-- The body of the loop of run, for an event.
unfoldable pub handle_event : System → Event → Service → Service
unfolding new_entry
handle_event y e s =
    if in_create e.mask || in_moved_to e.mask
    then (if ltb 0 e.len
        then new_entry y e.name (Watcher.watched_path_from_wd y.kernel e.wd s.watcher) s
        else s)
    else if in_move_self e.mask || in_delete_self e.mask
    then record s { watcher = (Watcher.remove_watch_wd y.kernel e.wd s.watcher).watcher }
    else s
